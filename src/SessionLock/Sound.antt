-- ===== src/SessionLock/Sound.antt =====
-- Every history of calls keeps the registry of session-lock.ts sound.
use seqlane.Prelude.{
  ℕ, String, ◌≡◌, refl, inl, inr, true, false, ◌||◌, not, Option, none, some, List, [], ◌∷◌, num_eq,
  if_elim, is_some, is_empty, Option-cases, lookup, splice_first, splice_first-nil,
  splice_first-IsRanked, sort, sort-IsRanked, arith,
}
use seqlane.SessionLock.State.{SessionLockRegistry, empty_registry, create_lease, notify_change}
use seqlane.SessionLock.Calls.{
  Signal, Admission, Attempt, aborted_reason, enqueue, admit, acquire, try_admit, try_acquire,
  wait_for_change, quarantine_state, quarantine, abort,
}
use seqlane.SessionLock.Machine.{
  Call, acquires, tries, releases, aborts, quarantines, awaits_change, step, run,
}
use seqlane.SessionLock.Booked.{
  IsSound, ordinal_of, empty-IsSound, find_state-IsSound, rewrite-IsSound, lease_out-IsSound,
}
use seqlane.SessionLock.Returned.{release-IsSound}

module _ {C : Type 0} where
  -- A lease goes out of a free lock state.
  create_lease-IsSound :
      (reg : SessionLockRegistry C) (key : String) (a : ℕ)
      → lookup key reg.locks ≡ some a
      → (reg.store a).quarantined ≡ none
      → (reg.store a).busy ≡ false
      → IsSound reg
      → IsSound (create_lease reg key a).0
  unfolding create_lease
  create_lease-IsSound reg key a at sane free h =
      lease_out-IsSound reg key a (record (reg.store a) { busy = true }) at
        (let f = h.fit a in
          record {
            bounded = ground (arith, f.counted sane);
            counted = λ _. ground (arith, f.counted sane);
            quiet = f.quiet;
            served = inr refl;
            ordered = f.ordered;
          })
        (λ c _. h.fit c) h.mapped h.allocated

  enqueue-IsSound :
      (reg : SessionLockRegistry C) (a ordinal : ℕ)
      → (reg.store a).quarantined ≡ none
      → (reg.store a).busy ≡ true
      → IsSound reg
      → IsSound (enqueue reg a ordinal).0
  unfolding enqueue
  enqueue-IsSound reg a ordinal sane busy h =
      let f = h.fit a in
      let r =
        rewrite-IsSound reg a (record (reg.store a) { waiting = sort _ _ })
          (record {
            bounded = f.bounded;
            counted = f.counted;
            quiet = λ q. ground arith;
            served = inr busy;
            ordered = sort-IsRanked ordinal_of _;
          })
          h in
      record { fit = r.fit; mapped = r.mapped; allocated = r.allocated }

  module _ (reg : SessionLockRegistry C) (key : String) (a : ℕ) (at : lookup key reg.locks ≡ some a)
      (h : IsSound reg) where
    admit-IsSound :
        (ordinal : ℕ) (signal : Option (Signal C)) → IsSound (admit reg key a ordinal signal).0
    unfolding admit
    admit-IsSound ordinal signal = elim (Option-cases (reg.store a).quarantined) [
      | inr (cause, e) ↦ rw (e, admit) h
      | inl sane ↦ elim (Option-cases (aborted_reason signal)) [
        | inr (reason, e) ↦ rw (sane, admit) (rw (e, admit) h)
        | inl live ↦
            rw (sane, admit)
              (rw (live, admit)
                (if_elim {A = SessionLockRegistry C × Admission C} (λ r. IsSound r.0)
                  (not (reg.store a).busy) _ _
                  (λ free. create_lease-IsSound reg key a at sane (ground arith) h)
                  (λ busy. enqueue-IsSound reg a ordinal sane (ground arith) h)))
      ]
    ]

    try_admit-IsSound : IsSound (try_admit reg key a).0
    unfolding try_admit
    try_admit-IsSound = elim (Option-cases (reg.store a).quarantined) [
      | inr (cause, e) ↦ rw (e, try_admit) h
      | inl sane ↦
          rw (sane, try_admit)
            (if_elim {A = SessionLockRegistry C × Attempt C} (λ r. IsSound r.0)
              ((reg.store a).busy || not (is_empty (reg.store a).waiting)) _ _ (λ _. h)
              (λ free. create_lease-IsSound reg key a at sane (ground arith) h))
    ]

  quarantine_state-IsSound :
      (reg : SessionLockRegistry C) (a : ℕ) (cause : C)
      → IsSound reg
      → IsSound (quarantine_state reg a cause)
  unfolding quarantine_state notify_change
  quarantine_state-IsSound reg a cause h =
      if_elim IsSound (is_some (reg.store a).quarantined) _ _ (λ _. h)
        (λ _.
          let f = h.fit a in
          let r =
            rewrite-IsSound reg a (record (reg.store a) { quarantined = some cause; waiting = [] })
              (record {
                bounded = f.bounded;
                counted = λ e. cc;
                quiet = λ _. refl;
                served = inl refl;
                ordered = tt;
              })
              h in
          record { fit = r.fit; mapped = r.mapped; allocated = r.allocated })

  abort-IsSound :
      (reg : SessionLockRegistry C) (a request : ℕ) (reason : Option C)
      → IsSound reg
      → IsSound (abort reg a request reason)
  unfolding abort notify_change
  abort-IsSound reg a request reason h =
      elim (Option-cases (splice_first (λ w. num_eq w.request request) (reg.store a).waiting)) [
        | inl e ↦ rw (e, abort) h
        | inr (rest, e) ↦
            let f = h.fit a in
            let r =
              rewrite-IsSound reg a (record (reg.store a) { waiting = rest })
                (record {
                  bounded = f.bounded;
                  counted = f.counted;
                  quiet = λ q. ground (
                    arith,
                    f.quiet q,
                    e,
                    splice_first-nil (λ w. num_eq w.request request) (reg.store a).waiting,
                  );
                  served = ground (
                    arith,
                    f.served,
                    e,
                    splice_first-nil (λ w. num_eq w.request request) (reg.store a).waiting,
                  );
                  ordered =
                      splice_first-IsRanked (λ w. num_eq w.request request) ordinal_of
                        (reg.store a).waiting rest e f.ordered;
                })
                h in
            rw (e, abort) (record { fit = r.fit; mapped = r.mapped; allocated = r.allocated })
      ]

  pub quarantine-IsSound :
      (reg : SessionLockRegistry C) (key : String) (cause : C)
      → IsSound reg
      → IsSound (quarantine reg key cause)
  unfolding quarantine
  quarantine-IsSound reg key cause h =
      quarantine_state-IsSound _ _ cause (find_state-IsSound reg key h).0

  -- A call keeps the registry sound.
  pub step-IsSound :
      (reg : SessionLockRegistry C) (call : Call C) → IsSound reg → IsSound (step reg call)
  unfolding step acquire try_acquire wait_for_change
  step-IsSound reg (acquires key ordinal signal) h =
      let (h', at) = find_state-IsSound reg key h in admit-IsSound _ key _ at h' _ signal
  step-IsSound reg (tries key) h =
      let (h', at) = find_state-IsSound reg key h in try_admit-IsSound _ key _ at h'
  step-IsSound reg (releases lease) h = release-IsSound reg lease h
  step-IsSound reg (aborts state request reason) h = abort-IsSound reg state request reason h
  step-IsSound reg (quarantines key cause) h = quarantine-IsSound reg key cause h
  step-IsSound reg awaits_change h = record {
    fit = h.fit;
    mapped = h.mapped;
    allocated = h.allocated;
  }

  run_from-IsSound :
      (calls : List (Call C)) (reg : SessionLockRegistry C) → IsSound reg → IsSound (run reg calls)
  unfolding run
  run_from-IsSound [] reg h = h
  run_from-IsSound (call ∷ calls) reg h =
      run_from-IsSound calls (step reg call) (step-IsSound reg call h)

  -- After any history of calls the registry is sound.
  pub run-IsSound : (calls : List (Call C)) → IsSound (run empty_registry calls)
  run-IsSound calls = run_from-IsSound calls empty_registry empty-IsSound
