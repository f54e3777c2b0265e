-- ===== src/Reader/Resync.antt =====
-- Resynchronisation: the search of wg_sync_header.
use wgtcp.Base.{
  ℕ, zero, suc, ◌+◌, ◌-◌, ◌≤◌, ◌<◌, ◌≡◌, ◌↔◌, inl, inr, refl, List, ◌∷◌, ◌++◌, some, true, false,
  Bool, arith, length, replicate, drop, ltb, Bool-cases, ◌==◌, le→ltb, subst,
}
use wgtcp.Frame.{Packet, frame_bytes, encap_hdr_len, check_potential_header_validity}
use wgtcp.Frame.Header.{IsSendable}
use wgtcp.Frame.Build.{
  decode-frame_bytes, check-frame_bytes, length-build_header, check-prefix_byte,
}
use wgtcp.Reader.{Skb, Rx, skb_pull, find_header, sync_header, front_length}

-- a header is acceptable at position `m`
abbrev pub acceptable : List ℕ → ℕ → ℕ → Bool
acceptable bytes received_len m = check_potential_header_validity (drop m bytes) (received_len - m)

-- Position `j` is the first of those from `i` on where a header is acceptable.
pub record IsFirst (i : ℕ) (bytes : List ℕ) (received_len j : ℕ) : Type 0 where
  pub from : i ≤ j
  pub accepted : acceptable bytes received_len j ≡ true
  pub none_before : (m : ℕ) → i ≤ m → m < j → acceptable bytes received_len m ≡ false

IsFirst-here :
    (i : ℕ) (bytes : List ℕ) (received_len : ℕ)
    → acceptable bytes received_len i ≡ true
    → IsFirst i bytes received_len i
IsFirst-here i bytes received_len e = record {
  from = omega arith;
  accepted = e;
  none_before = λ m le lt. absurd (omega arith);
}

IsFirst-later :
    (i : ℕ) (bytes : List ℕ) (received_len j : ℕ)
    → acceptable bytes received_len i ≡ false
    → IsFirst (i + 1) bytes received_len j
    → IsFirst i bytes received_len j
IsFirst-later i bytes received_len j e f = record {
  from = omega (arith, f.from);
  accepted = f.accepted;
  none_before = λ m le lt. elim (Bool-cases (m == i)) [
    | inl same ↦ let p : m ≡ i = ground arith in rw p e
    | inr differ ↦ f.none_before m (ground arith) lt
  ];
}

IsFirst-after :
    (i : ℕ) (bytes : List ℕ) (received_len j : ℕ)
    → i < j
    → IsFirst i bytes received_len j
    → IsFirst (i + 1) bytes received_len j
IsFirst-after i bytes received_len j lt f = record {
  from = omega arith;
  accepted = f.accepted;
  none_before = λ m le below. f.none_before m (omega arith) below;
}

-- The search over `n` positions from `i` on returns the first acceptable one.
find_header_finds :
    (n i : ℕ) (bytes : List ℕ) (received_len j : ℕ)
    → IsFirst i bytes received_len j
    → j < i + n
    → find_header n i bytes received_len ≡ some j
unfolding find_header
find_header_finds zero i bytes received_len j f lt = absurd (omega (arith, f.from))
find_header_finds (suc n) i bytes received_len j f lt = elim (Bool-cases (ltb i j)) [
  | inl below ↦ rw (f.none_before i (omega arith) (ground arith)) (
      find_header_finds n (i + 1) bytes received_len j
        (IsFirst-after i bytes received_len j (ground arith) f) (omega arith))
  | inr here ↦ let p : i ≡ j = ground (arith, f.from) in rw (p, f.accepted) refl
]

find_header-IsFirst :
    (n i : ℕ) (bytes : List ℕ) (received_len j : ℕ)
    → find_header n i bytes received_len ≡ some j
    → IsFirst i bytes received_len j × (j < i + n)
unfolding find_header
find_header-IsFirst zero i bytes received_len j e = absurd (ground (arith, e))
find_header-IsFirst (suc n) i bytes received_len j e =
    elim (Bool-cases (acceptable bytes received_len i)) [
      | inl good ↦
          let p : i ≡ j = ground (arith, e, good) in
          (
            subst (λ k. IsFirst i bytes received_len k) p (IsFirst-here i bytes received_len good),
            omega arith,
          )
      | inr bad ↦
          let (f, lt) = find_header-IsFirst n (i + 1) bytes received_len j (rw bad at e) in
          (IsFirst-later i bytes received_len j bad f, omega arith)
    ]

-- The search over `n` positions from `i` on returns a position exactly when it is one of them, a header is
-- acceptable there, and none is at any earlier one.
pub find_header_iff :
    (n i : ℕ) (bytes : List ℕ) (received_len j : ℕ)
    → (find_header n i bytes received_len ≡ some j) ↔ (IsFirst i bytes received_len j × (j < i + n))
find_header_iff n i bytes received_len j = (
  find_header-IsFirst n i bytes received_len j,
  λ (f, lt). find_header_finds n i bytes received_len j f lt,
)

-- Inside a prefix, the prefix's byte stands in front.
drop-replicate :
    (m k b : ℕ) (rest : List ℕ)
    → m < k
    → (tail : List ℕ) × (drop m (replicate k b ++ rest) ≡ b ∷ tail)
drop-replicate zero zero b rest lt = absurd (omega arith)
drop-replicate zero (suc k) b rest lt = (_, refl)
drop-replicate (suc m) zero b rest lt = absurd (omega arith)
drop-replicate (suc m) (suc k) b rest lt = drop-replicate m k b rest (omega arith)

drop-prefix : (k b : ℕ) (rest : List ℕ) → drop k (replicate k b ++ rest) ≡ rest
drop-prefix zero b rest = refl
drop-prefix (suc k) b rest = drop-prefix k b rest

prefix-IsFirst :
    (k : ℕ) (p : Packet) (rest : List ℕ) (n : ℕ)
    → IsSendable p
    → k + encap_hdr_len ≤ n
    → IsFirst 0 (replicate k 0xa5 ++ (frame_bytes p ++ rest)) n k
prefix-IsFirst k p rest n v le = record {
  from = omega arith;
  accepted =
      rw (drop-prefix k 0xa5 (frame_bytes p ++ rest))
        (check-frame_bytes p rest (n - k) v (omega arith));
  none_before = λ m low lt.
      let (tail, e) = drop-replicate m k 0xa5 (frame_bytes p ++ rest) lt in
      rw e (check-prefix_byte tail (n - m));
}

front_length-frame_bytes :
    (p : Packet) (rest : List ℕ)
    → IsSendable p
    → front_length (frame_bytes p ++ rest) ≡ length (frame_bytes p)
front_length-frame_bytes p rest v =
    rw (front_length, decode-frame_bytes p rest) (length-build_header p v)

-- The state after a search that has skipped `k` bytes in front of the record `p`.
abbrev pub skipped : ℕ → Packet → Rx → Skb → Rx
skipped k p rx skb = record rx {
  partial_skb = some (skb_pull k skb);
  received_len = rx.received_len - k;
  expected_len = length (frame_bytes p);
}

-- Any number of 0xa5 bytes (such as fault injection puts in front of a frame) followed by a frame whose
-- header is at hand is skipped at once: wg_sync_header stops exactly at the frame, and expects its length.
pub sync_header-prefix :
    (k : ℕ) (p : Packet) (rest : List ℕ) (rx : Rx) (skb : Skb)
    → IsSendable p
    → skb.bytes ≡ replicate k 0xa5 ++ (frame_bytes p ++ rest)
    → k + encap_hdr_len ≤ rx.received_len
    → sync_header rx skb ≡ (true, skipped k p rx skb)
unfolding sync_header
sync_header-prefix k p rest rx skb v bytes le =
    let found : find_header (rx.received_len - encap_hdr_len + 1) 0 skb.bytes rx.received_len
        ≡ some k =
      rw bytes (
        find_header_finds (rx.received_len - encap_hdr_len + 1) 0 _ rx.received_len k
          (prefix-IsFirst k p rest rx.received_len v le) (omega arith)) in
    let front : front_length (drop k skb.bytes) ≡ length (frame_bytes p) =
      rw (bytes, drop-prefix k 0xa5 (frame_bytes p ++ rest)) (front_length-frame_bytes p rest v) in
    rw (le→ltb rx.received_len encap_hdr_len (omega arith), found, front) refl
