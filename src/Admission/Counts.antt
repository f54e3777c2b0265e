-- ===== src/Admission/Counts.antt =====
-- The device's counters and their limits, over each operation on the list.
use wgtcp.Base.{
  ℕ, suc, ◌+◌, ◌≤◌, ◌≡◌, inl, inr, refl, ap, Bool, true, false, ◌&&◌, ◌||◌, ◌==◌, leb,
  if◌then◌else◌, List, [], ◌∷◌, ◌++◌, length, Result, ok, err, arith, Bool-cases, length-append,
}
use wgtcp.Net.{SockAddr, sockaddr_length_valid, sockaddrs_same_host}
use wgtcp.Net.Hosts.{same_host-congruent}
use wgtcp.Admission.{
  Connection, Device, TempPeer, authenticate, mark_connection_authenticated, finish_init, touch,
  pending_from_source, add_tcp_socket_to_list, max_pending_connections, max_tracked_connections,
  max_pending_per_source, is_peer, is_alive,
}

-- the entries that count as pending
abbrev pub pending : List Connection → ℕ
pending [] = 0
pending (e ∷ es) = (if e.admission_counted then 1 else 0) + pending es

pub pending-append : (es fs : List Connection) → pending (es ++ fs) ≡ pending es + pending fs
pending-append [] fs = omega arith
pending-append (e ∷ es) fs = omega (arith, pending-append es fs)

-- Both counters count, and no limit is exceeded, for no source either.
pub record IsAdmitted (link_local : ℕ → Bool) (wg : Device) : Type 0 where
  pub pending_counts : wg.tcp_pending_connections ≡ pending wg.connections
  pub tracked_counts : wg.tcp_tracked_connections ≡ length wg.connections
  pub pending_within : wg.tcp_pending_connections ≤ max_pending_connections
  pub tracked_within : wg.tcp_tracked_connections ≤ max_tracked_connections
  pub source_within :
      (a : SockAddr) → pending_from_source link_local a wg.connections ≤ max_pending_per_source

module _ (link_local : ℕ → Bool) where
  pub from_source-append :
      (a : SockAddr) (es fs : List Connection)
      → pending_from_source link_local a (es ++ fs)
        ≡ pending_from_source link_local a es + pending_from_source link_local a fs
  unfolding pending_from_source
  from_source-append a [] fs = omega arith
  from_source-append a (e ∷ es) fs = omega (arith, from_source-append a es fs)

  from_source-congruent :
      (a b : SockAddr) (es : List Connection)
      → sockaddrs_same_host link_local a b ≡ true
      → pending_from_source link_local a es ≡ pending_from_source link_local b es
  unfolding pending_from_source
  from_source-congruent a b [] h = refl
  from_source-congruent a b (e ∷ es) h =
      rw (same_host-congruent link_local a b e.src_addr h, from_source-congruent a b es h) refl

  -- Authentication takes the entry out of the count; `rest` stands for the entries in front.
  authenticate-counts :
      (now id : ℕ) (es : List Connection) (n rest : ℕ)
      → n ≡ rest + pending es
      → let (es', n') = authenticate now id es n in
        (n' ≡ rest + pending es')
        × (n' ≤ n)
        × (length es' ≡ length es)
        × ((a : SockAddr)
            → pending_from_source link_local a es' ≤ pending_from_source link_local a es)
  unfolding authenticate pending_from_source
  authenticate-counts now id [] n rest e = (e, omega arith, refl, λ a. omega arith)
  authenticate-counts now id (c ∷ es) n rest e = elim (Bool-cases (c.connection_id == id)) [
    | inl this ↦ rw this (ground (arith, e), ground arith, refl, λ a. ground arith)
    | inr differs ↦
        let (p, l, len, src) =
          authenticate-counts now id es n (rest + (if c.admission_counted then 1 else 0))
            (omega (arith, e)) in
        rw differs (omega (arith, p), l, omega (arith, len), λ a. omega (arith, src a))
  ]

  -- Nothing that is counted changes.
  pub record IsSame (es fs : List Connection) : Type 0 where
    pub pending_same : pending fs ≡ pending es
    pub length_same : length fs ≡ length es
    pub source_same :
        (a : SockAddr) → pending_from_source link_local a fs ≡ pending_from_source link_local a es

  pub IsSame-refl : (es : List Connection) → IsSame es es
  IsSame-refl es = record { pending_same = refl; length_same = refl; source_same = λ a. refl }

  IsSame-cons :
      (e f : Connection) (es fs : List Connection)
      → f.admission_counted ≡ e.admission_counted
      → f.src_addr ≡ e.src_addr
      → IsSame es fs
      → IsSame (e ∷ es) (f ∷ fs)
  unfolding pending_from_source
  IsSame-cons e f es fs c s h = record {
    pending_same = rw (c, h.pending_same) refl;
    length_same = ap suc h.length_same;
    source_same = λ a. rw (c, s, h.source_same a) refl;
  }

  pub touch-IsSame : (now peer : ℕ) (es : List Connection) → IsSame es (touch now peer es)
  unfolding touch
  touch-IsSame now peer [] = IsSame-refl []
  touch-IsSame now peer (e ∷ es) = elim (Bool-cases (is_peer peer e.temp_peer)) [
    | inl this ↦ rw this (IsSame-cons e _ es es refl refl (IsSame-refl es))
    | inr differs ↦ rw differs (IsSame-cons e e es _ refl refl (touch-IsSame now peer es))
  ]

  pub finish_init-IsSame :
      (socket : ℕ) (established : Bool) (es : List Connection)
      → IsSame es (finish_init socket established es).0
  unfolding finish_init
  finish_init-IsSame socket established [] = IsSame-refl []
  finish_init-IsSame socket established (e ∷ es) = elim (Bool-cases (e.tcp_socket == socket)) [
    | inr differs ↦
        rw differs (IsSame-cons e e es _ refl refl (finish_init-IsSame socket established es))
    | inl this ↦ elim (Bool-cases (established && is_alive e.temp_peer)) [
      | inl good ↦ rw (this, good) (IsSame-cons e _ es es refl refl (IsSame-refl es))
      | inr bad ↦ rw (this, bad) (IsSame-cons e _ es es refl refl (IsSame-refl es))
    ]
  ]

  pub same-IsAdmitted :
      (wg wg' : Device)
      → IsSame wg.connections wg'.connections
      → wg'.tcp_pending_connections ≡ wg.tcp_pending_connections
      → wg'.tcp_tracked_connections ≡ wg.tcp_tracked_connections
      → IsAdmitted link_local wg
      → IsAdmitted link_local wg'
  same-IsAdmitted wg wg' s p t h = record {
    pending_counts = omega (arith, p, h.pending_counts, s.pending_same);
    tracked_counts = omega (arith, t, h.tracked_counts, s.length_same);
    pending_within = omega (arith, p, h.pending_within);
    tracked_within = omega (arith, t, h.tracked_within);
    source_within = λ a. omega (arith, s.source_same a, h.source_within a);
  }

  pub mark-IsAdmitted :
      (now id : ℕ) (wg : Device)
      → IsAdmitted link_local wg
      → IsAdmitted link_local (mark_connection_authenticated now id wg)
  unfolding mark_connection_authenticated
  mark-IsAdmitted now id wg h =
      let (p, l, len, src) =
        authenticate-counts now id wg.connections wg.tcp_pending_connections 0
          (omega (arith, h.pending_counts)) in
      elim (Bool-cases (id == 0)) [
        | inl nobody ↦ rw nobody h
        | inr some_id ↦ rw some_id (record {
          pending_counts = omega (arith, p);
          tracked_counts = omega (arith, h.tracked_counts, len);
          pending_within = omega (arith, l, h.pending_within);
          tracked_within = h.tracked_within;
          source_within = λ a. omega (arith, src a, h.source_within a);
        })
      ]

  -- One more entry, when no limit has been reached.
  append-IsAdmitted :
      (e : Connection) (wg wg' : Device)
      → IsAdmitted link_local wg
      → (leb max_tracked_connections wg.tcp_tracked_connections
          || leb max_pending_connections wg.tcp_pending_connections
          || leb max_pending_per_source (pending_from_source link_local e.src_addr wg.connections))
        ≡ false
      → e.admission_counted ≡ true
      → wg'.connections ≡ wg.connections ++ e ∷ []
      → wg'.tcp_pending_connections ≡ wg.tcp_pending_connections + 1
      → wg'.tcp_tracked_connections ≡ wg.tcp_tracked_connections + 1
      → IsAdmitted link_local wg'
  unfolding pending_from_source
  append-IsAdmitted e wg wg' h room c es p t = record {
    pending_counts =
        rw es (rw (pending-append wg.connections (e ∷ []), c) (omega (arith, p, h.pending_counts)));
    tracked_counts =
        rw es (omega (arith, t, h.tracked_counts, length-append wg.connections (e ∷ [])));
    pending_within = ground (arith, room, p);
    tracked_within = ground (arith, room, t);
    source_within = λ a.
        rw (es, from_source-append a wg.connections (e ∷ []))
          (elim (Bool-cases (sockaddrs_same_host link_local a e.src_addr)) [
            | inl theirs ↦
                rw (c, theirs)
                  (ground (arith, room, from_source-congruent a e.src_addr wg.connections theirs))
            | inr others ↦ rw (c, others) (omega (arith, h.source_within a))
          ]);
  }

  pub add-IsAdmitted :
      (now : ℕ) (has_memory owned : Bool) (name : Result (SockAddr × ℕ)) (socket : ℕ)
      (peer : TempPeer) (wg : Device)
      → IsAdmitted link_local wg
      → IsAdmitted link_local
          (add_tcp_socket_to_list link_local now has_memory owned name socket peer wg).1
  unfolding add_tcp_socket_to_list
  add-IsAdmitted now false owned name socket peer wg h = h
  add-IsAdmitted now true false name socket peer wg h = h
  add-IsAdmitted now true true (err e) socket peer wg h =
      same-IsAdmitted wg _ (IsSame-refl wg.connections) refl refl h
  add-IsAdmitted now true true (ok (a, n)) socket peer wg h =
      let same : IsAdmitted link_local
          (record wg { tcp_connection_sequence = wg.tcp_connection_sequence + 1 }) =
        same-IsAdmitted wg _ (IsSame-refl wg.connections) refl refl h in
      elim (Bool-cases (sockaddr_length_valid a n)) [
        | inr invalid ↦ rw invalid same
        | inl valid ↦ elim (Bool-cases wg.up) [
          | inr down ↦
              rw (valid, down) (same-IsAdmitted wg _ (IsSame-refl wg.connections) refl refl h)
          | inl up ↦
              elim (Bool-cases (
                leb max_tracked_connections wg.tcp_tracked_connections
                || leb max_pending_connections wg.tcp_pending_connections
                || leb max_pending_per_source (pending_from_source link_local a wg.connections))) [
                  | inl full ↦
                      rw (valid, up, full)
                        (same-IsAdmitted wg _ (IsSame-refl wg.connections) refl refl h)
                  | inr room ↦
                      rw (valid, up, room) (append-IsAdmitted _ wg _ h room refl refl refl refl)
                ]
        ]
      ]
