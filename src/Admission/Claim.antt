-- ===== src/Admission/Claim.antt =====
-- What wg_claim_tcp_connection takes out of the list, and what the cleanup leaves in it.
use wgtcp.Base.{
  ℕ, zero, suc, ◌+◌, ◌<◌, ◌≡◌, ◌⊎◌, inl, inr, refl, ap, ◌∙◌, Bool, true, false, ◌&&◌, ◌||◌, ltb,
  if◌then◌else◌, List, [], ◌∷◌, ◌++◌, Option, none, some, length, arith, Bool-cases, length-append,
  All,
}
use wgtcp.Admission.{
  Connection, Device, uncounted, stays, take_connection, claim_tcp_connection, claim_all,
  cleanup_worker, pending_from_source, is_alive, has_time, queue_cleanup,
}
use wgtcp.Admission.Counts.{IsAdmitted, pending, pending-append, from_source-append}

-- The first entry that is not passed over.
record IsTaken (passed : Connection → Bool) (es : List Connection) : Type 0 where
  front : List Connection
  entry : Connection
  back : List Connection
  split : es ≡ front ++ entry ∷ back
  passed_front : All (λ e. passed e ≡ true) front
  claimed : passed entry ≡ false
  taken : take_connection passed es ≡ some (entry, front ++ back)

take_connection-cases :
    (passed : Connection → Bool) (es : List Connection)
    → ((take_connection passed es ≡ none) × All (λ e. passed e ≡ true) es) ⊎ IsTaken passed es
unfolding take_connection
take_connection-cases passed [] = inl (refl, tt)
take_connection-cases passed (e ∷ es) = elim (Bool-cases (passed e)) [
  | inr here ↦ inr (record {
    front = [];
    entry = e;
    back = es;
    split = refl;
    passed_front = tt;
    claimed = here;
    taken = rw here refl;
  })
  | inl on ↦ elim (take_connection-cases passed es) [
    | inl (none_left, all) ↦ inl (rw (on, none_left) refl, (on, all))
    | inr t ↦ inr (record {
      front = e ∷ t.front;
      entry = t.entry;
      back = t.back;
      split = ap (λ x. e ∷ x) t.split;
      passed_front = (on, t.passed_front);
      claimed = t.claimed;
      taken = rw (on, t.taken) refl;
    })
  ]
]

module _ (link_local : ℕ → Bool) where
  -- A claim keeps the counters right.
  pub claim-IsAdmitted :
      (now : ℕ) (socket : Option ℕ) (cleanup_only : Bool) (wg : Device)
      → IsAdmitted link_local wg
      → IsAdmitted link_local (claim_tcp_connection now socket cleanup_only wg).1
  unfolding claim_tcp_connection pending_from_source
  claim-IsAdmitted now socket cleanup_only wg h =
      elim (take_connection-cases (stays now socket cleanup_only) wg.connections) [
        | inl (nothing, all) ↦ rw nothing h
        | inr t ↦
            let p : pending wg.connections
                ≡ pending t.front
                  + ((if t.entry.admission_counted then 1 else 0) + pending t.back) =
              ap pending t.split ∙ pending-append t.front (t.entry ∷ t.back) in
            let n : length wg.connections ≡ length t.front + suc (length t.back) =
              ap length t.split ∙ length-append t.front (t.entry ∷ t.back) in
            rw t.taken (record {
              pending_counts = ground (arith, p, h.pending_counts, pending-append t.front t.back);
              tracked_counts = omega (arith, n, h.tracked_counts, length-append t.front t.back);
              pending_within = ground (arith, h.pending_within);
              tracked_within = omega (arith, h.tracked_within);
              source_within = λ a. omega (
                arith,
                h.source_within a,
                from_source-append link_local a t.front t.back,
                ap (pending_from_source link_local a) t.split,
                from_source-append link_local a t.front (t.entry ∷ t.back),
              );
            })
      ]

  -- A claim finds nothing to claim, or shortens the list.
  claim-cases :
      (now : ℕ) (cleanup_only : Bool) (wg : Device)
      → ((claim_tcp_connection now none cleanup_only wg ≡ (none, wg))
          × All (λ e. stays now none cleanup_only e ≡ true) wg.connections)
        ⊎ ((e : Connection) × ((claim_tcp_connection now none cleanup_only wg).0 ≡ some e)
            × (length wg.connections
                ≡ length (claim_tcp_connection now none cleanup_only wg).1.connections + 1))
  unfolding claim_tcp_connection
  claim-cases now cleanup_only wg =
      elim (take_connection-cases (stays now none cleanup_only) wg.connections) [
        | inl (nothing, all) ↦ inl (rw nothing refl, all)
        | inr t ↦ inr (
          uncounted t.entry,
          rw t.taken refl,
          rw t.taken (
              omega (
                arith,
                ap length t.split,
                length-append t.front (t.entry ∷ t.back),
                length-append t.front t.back,
              )),
        )
      ]

  claim_all-suc :
      (fuel now : ℕ) (cleanup_only : Bool) (wg : Device) (e : Connection)
      → (claim_tcp_connection now none cleanup_only wg).0 ≡ some e
      → claim_all (suc fuel) now cleanup_only wg
        ≡ claim_all fuel now cleanup_only (claim_tcp_connection now none cleanup_only wg).1
  unfolding claim_all
  claim_all-suc fuel now cleanup_only wg e found = rw (found, claim_all) refl

  claim_all-last :
      (fuel now : ℕ) (cleanup_only : Bool) (wg : Device)
      → claim_tcp_connection now none cleanup_only wg ≡ (none, wg)
      → claim_all (suc fuel) now cleanup_only wg ≡ (wg, true)
  unfolding claim_all
  claim_all-last fuel now cleanup_only wg nothing =
      rw (ap (λ t. t.0) nothing, claim_all) (ap (λ t. (t.1, true)) nothing)

  claim_all_lem :
      (fuel now : ℕ) (cleanup_only : Bool) (wg : Device)
      → IsAdmitted link_local wg
      → length wg.connections < fuel
      → let (wg', ended) = claim_all fuel now cleanup_only wg in
        (ended ≡ true)
        × IsAdmitted link_local wg'
        × All (λ e. stays now none cleanup_only e ≡ true) wg'.connections
  claim_all_lem zero now cleanup_only wg h lt = elim lt [ ]
  claim_all_lem (suc fuel) now cleanup_only wg h lt = elim (claim-cases now cleanup_only wg) [
    | inl (nothing, all) ↦ rw (claim_all-last fuel now cleanup_only wg nothing) (refl, h, all)
    | inr (e, found, shorter) ↦ rw (claim_all-suc fuel now cleanup_only wg e found) (
        claim_all_lem fuel now cleanup_only _ (claim-IsAdmitted now none cleanup_only wg h)
          (omega (arith, shorter)))
  ]

  queued :
      (P : Connection → Type 0) (wg : Device)
      → IsAdmitted link_local wg
      → All P wg.connections
      → IsAdmitted link_local (queue_cleanup wg) × All P (queue_cleanup wg).connections
  queued P wg h all = elim (Bool-cases (ltb 0 (length wg.connections) && wg.up)) [
    | inl again ↦ rw again (
      record {
        pending_counts = h.pending_counts;
        tracked_counts = h.tracked_counts;
        pending_within = h.pending_within;
        tracked_within = h.tracked_within;
        source_within = h.source_within;
      },
      all,
    )
    | inr done ↦ rw done (h, all)
  ]

  -- The cleanup ends, keeps the counters right, and leaves only connections that are still being set up, or
  -- whose peer is alive and is authenticated or has been idle for less than five seconds and is younger than
  -- thirty.
  pub cleanup_worker-IsAdmitted :
      (now : ℕ) (wg : Device)
      → IsAdmitted link_local wg
      → ((claim_all (length wg.connections + 1) now true wg).1 ≡ true)
        × IsAdmitted link_local (cleanup_worker now wg)
        × All
            (λ e. (e.initializing || (is_alive e.temp_peer && has_time now e)) ≡ true)
            (cleanup_worker now wg).connections
  unfolding cleanup_worker
  cleanup_worker-IsAdmitted now wg h =
      let (ended, counts, kept) =
        claim_all_lem (length wg.connections + 1) now true wg h (omega arith) in
      let (counts', kept') =
        queued (λ e. (e.initializing || (is_alive e.temp_peer && has_time now e)) ≡ true) _ counts
          kept in
      (ended, counts', kept')
