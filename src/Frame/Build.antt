-- ===== src/Frame/Build.antt =====
-- Records on the wire: what wg_tcp_build_frame returns, and how a receiver takes a record apart.
use wgtcp.Base.{
  ℕ, ◌+◌, ◌*◌, ◌^◌, ◌≤◌, ◌<◌, ◌≡◌, refl, List, [], ◌∷◌, ◌++◌, some, true, false, arith, length,
  drop, length-append, append_assoc, Bool-cases, inl, inr, ◌==◌, Bool, ok,
}
use wgtcp.Frame.{
  EncapHeader, FragHeader, Packet, encode, decode, encode_frag, decode_frag, check_candidate,
  check_potential_header_validity, build_header, build_frame, frame_bytes, header_len,
  is_fragmented, frag_bytes, encap_hdr_len,
}
use wgtcp.Frame.Header.{
  IsSendable, decode-encode, build_header-IsHeader, check_candidate-build_header,
  check_candidate-too_long, length-encode,
}

length-frag_bytes : (p : Packet) → length (frag_bytes p) + encap_hdr_len ≡ header_len p
unfolding encode_frag
length-frag_bytes p = ground arith

pub length-frame_bytes : (p : Packet) → length (frame_bytes p) ≡ header_len p + length p.bytes
unfolding frame_bytes
length-frame_bytes p = omega (
  arith,
  length-append (encode (build_header p)) (frag_bytes p ++ p.bytes),
  length-append (frag_bytes p) p.bytes,
  length-encode (build_header p),
  length-frag_bytes p,
)

pub length-build_header :
    (p : Packet) → IsSendable p → (build_header p).length ≡ length (frame_bytes p)
unfolding build_header
length-build_header p v = omega (arith, length-frame_bytes p)

-- Only the first eight bytes matter to the header.
pub decode-append : (xs ys : List ℕ) → encap_hdr_len ≤ length xs → decode (xs ++ ys) ≡ decode xs
unfolding decode
decode-append [] ys h = elim h [ ]
decode-append (a ∷ []) ys h = absurd (omega arith)
decode-append (a ∷ b ∷ []) ys h = absurd (omega arith)
decode-append (a ∷ b ∷ c ∷ []) ys h = absurd (omega arith)
decode-append (a ∷ b ∷ c ∷ d ∷ []) ys h = absurd (omega arith)
decode-append (a ∷ b ∷ c ∷ d ∷ e ∷ []) ys h = absurd (omega arith)
decode-append (a ∷ b ∷ c ∷ d ∷ e ∷ f ∷ []) ys h = absurd (omega arith)
decode-append (a ∷ b ∷ c ∷ d ∷ e ∷ f ∷ g ∷ []) ys h = absurd (omega arith)
decode-append (a ∷ b ∷ c ∷ d ∷ e ∷ f ∷ g ∷ i ∷ xs) ys h = refl

pub decode-frame_bytes :
    (p : Packet) (rest : List ℕ) → decode (frame_bytes p ++ rest) ≡ some (build_header p)
unfolding frame_bytes
decode-frame_bytes p rest =
    rw (append_assoc (encode (build_header p)) (frag_bytes p ++ p.bytes) rest)
      (decode-encode (build_header p) ((frag_bytes p ++ p.bytes) ++ rest) (build_header-IsHeader p))

-- A header at the front of the bytes that passes the test.
pub check_of_decode :
    (bytes : List ℕ) (n : ℕ) (h : EncapHeader)
    → decode bytes ≡ some h
    → check_candidate h ≡ true
    → encap_hdr_len ≤ n
    → check_potential_header_validity bytes n ≡ true
unfolding check_potential_header_validity
check_of_decode bytes n h d c le = ground arith

-- The receiver finds the record's header at its front and accepts it.
pub check-frame_bytes :
    (p : Packet) (rest : List ℕ) (n : ℕ)
    → IsSendable p
    → encap_hdr_len ≤ n
    → check_potential_header_validity (frame_bytes p ++ rest) n ≡ true
check-frame_bytes p rest n v le =
    check_of_decode _ n _ (decode-frame_bytes p rest) (check_candidate-build_header p v) le

decode_frag-encode_frag :
    (f : FragHeader) (rest : List ℕ)
    → f.id < 2 ^ 16
    → f.frag_off < 2 ^ 16
    → decode_frag (encode_frag f ++ rest) ≡ some f
unfolding decode_frag encode_frag
decode_frag-encode_frag f rest p q = ground arith

-- Behind the headers stands the payload.
pub drop-frame_bytes :
    (p : Packet) (rest : List ℕ) → drop (header_len p) (frame_bytes p ++ rest) ≡ p.bytes ++ rest
unfolding frame_bytes encode encode_frag
drop-frame_bytes p rest = elim (Bool-cases (p.frag_off == 0)) [ inl e ↦ rw e | inr e ↦ rw e ]

pub frag_header-frame_bytes :
    (p : Packet) (rest : List ℕ)
    → IsSendable p
    → is_fragmented p ≡ true
    → decode_frag (drop encap_hdr_len (frame_bytes p ++ rest))
      ≡ some (record { id = p.frag_id; frag_off = p.frag_off })
unfolding frame_bytes encode
frag_header-frame_bytes p rest v e = rw e (
    rw append_assoc (
      decode_frag-encode_frag (record { id = p.frag_id; frag_off = p.frag_off }) (p.bytes ++ rest)
        v.id_fits v.off_fits))

-- No header begins with the byte that fault injection puts in front of a frame: its length would be more
-- than 2.7 thousand million.
pub check-prefix_byte :
    (rest : List ℕ) (n : ℕ) → check_potential_header_validity (0xa5 ∷ rest) n ≡ false
unfolding check_potential_header_validity decode
check-prefix_byte [] n = ground arith
check-prefix_byte (b ∷ []) n = ground arith
check-prefix_byte (b ∷ c ∷ []) n = ground arith
check-prefix_byte (b ∷ c ∷ d ∷ []) n = ground arith
check-prefix_byte (b ∷ c ∷ d ∷ t ∷ []) n = ground arith
check-prefix_byte (b ∷ c ∷ d ∷ t ∷ f ∷ []) n = ground arith
check-prefix_byte (b ∷ c ∷ d ∷ t ∷ f ∷ x ∷ []) n = ground arith
check-prefix_byte (b ∷ c ∷ d ∷ t ∷ f ∷ x ∷ y ∷ rest) n =
    ground (arith, check_candidate-too_long (header b c d t f x y) (omega arith))
  where
    header : ℕ → ℕ → ℕ → ℕ → ℕ → ℕ → ℕ → EncapHeader
    header b c d t f x y = record {
      length = ((0xa5 * 256 + b) * 256 + c) * 256 + d;
      type = t;
      flags = f;
      checksum = x * 256 + y;
    }

-- A frame that is built, without fault injection, is the record of a packet that can be sent.
pub build_frame-ok :
    (has_memory : Bool) (p : Packet) (frame : List ℕ)
    → p.frag_id < 2 ^ 16
    → p.frag_off < 2 ^ 16
    → build_frame has_memory 0 p ≡ ok frame
    → (frame ≡ frame_bytes p) × IsSendable p
unfolding build_frame
build_frame-ok has_memory p frame i o e = (
  ground (arith, e),
  record {
    long_enough = ground (arith, e);
    short_enough = ground (arith, e);
    id_fits = i;
    off_fits = o;
  },
)
