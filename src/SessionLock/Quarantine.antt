-- ===== src/SessionLock/Quarantine.antt =====
-- Quarantine of a session in session-lock.ts is for good.
use seqlane.Prelude.{
  ℕ, String, ◌≡◌, inl, inr, Option, some, List, [], ◌∷◌, if_elim, or_else, Option-cases, lookup,
  lookup-insert, lookup-erase, get_elem?, update, update_self, eq_iff, arith,
}
use seqlane.SessionLock.State.{
  SessionLockState, SessionLockRegistry, quarantined_session, empty_registry, create_state,
  find_state, create_lease, notify_change,
}
use seqlane.SessionLock.Calls.{
  Signal, rejects, Attempt, Availability, enqueue, admit, acquire, try_admit, try_acquire,
  is_available, wait_for_change, quarantine_state, quarantine, abort, hand_over, release_state,
  mark_released, release,
}
use seqlane.SessionLock.Machine.{
  Call, acquires, tries, releases, aborts, quarantines, awaits_change, step, run,
}
use seqlane.SessionLock.Booked.{IsSound, find_state-IsSound}
use seqlane.SessionLock.Sound.{step-IsSound, run-IsSound, quarantine-IsSound}

module _ {C : Type 0} where
  -- The key maps to the lock state at `a`, which is quarantined with the cause.
  abbrev pub IsSealed : SessionLockRegistry C → String → ℕ → C → Type 0
  IsSealed reg key a cause =
      (lookup key reg.locks ≡ some a) × ((reg.store a).quarantined ≡ some cause)

  -- A write that keeps the quarantine of the state it replaces.
  update-quarantined :
      (f : ℕ → SessionLockState C) (a b : ℕ) (s : SessionLockState C)
      → s.quarantined ≡ (f b).quarantined
      → (update f b s a).quarantined ≡ (f a).quarantined
  unfolding update
  update-quarantined f a b s e = ground arith

  module _ (reg : SessionLockRegistry C) (key : String) (a : ℕ) (cause : C) (h : IsSound reg)
      (sealed : IsSealed reg key a cause) where
    find_state-IsSealed : (k : String) → IsSealed (find_state reg k).0 key a cause
    unfolding find_state create_state update
    find_state-IsSealed k = elim (Option-cases (lookup k reg.locks)) [
      | inl e ↦
          rw (e, find_state)
            (ground (
              arith,
              lookup-insert k key reg.next_state reg.locks,
              eq_iff k key,
              h.allocated key a,
              sealed.0,
              sealed.1,
              e,
            ))
      | inr (b, e) ↦ rw (e, find_state) sealed
    ]

    admit-IsSealed :
        (k : String) (b ordinal : ℕ) (signal : Option (Signal C))
        → IsSealed (admit reg k b ordinal signal).0 key a cause
    unfolding admit enqueue create_lease update
    admit-IsSealed k b ordinal signal = ground (arith, sealed)

    try_admit-IsSealed : (k : String) (b : ℕ) → IsSealed (try_admit reg k b).0 key a cause
    unfolding try_admit create_lease update
    try_admit-IsSealed k b = ground (arith, sealed)

    quarantine_state-IsSealed :
        (b : ℕ) (other : C) → IsSealed (quarantine_state reg b other) key a cause
    unfolding quarantine_state notify_change update
    quarantine_state-IsSealed b other = ground (arith, sealed)

    abort-IsSealed :
        (b request : ℕ) (reason : Option C) → IsSealed (abort reg b request reason) key a cause
    unfolding abort notify_change update
    abort-IsSealed b request reason = ground (arith, sealed)

    release-IsSealed : (i : ℕ) → IsSealed (release reg i) key a cause
    unfolding release release_state mark_released hand_over create_lease notify_change update
    release-IsSealed i = elim (Option-cases (get_elem? reg.leases i)) [
      | inl e ↦ rw (e, release) sealed
      | inr (l, e) ↦
          rw (e, release)
            (if_elim (λ r. IsSealed r key a cause) l.released _ _ (λ _. sealed)
              (λ out. ground (
                arith,
                sealed,
                h.mapped i l e out,
                lookup-erase l.session_key key reg.locks,
                eq_iff l.session_key key,
              )))
    ]

  step-IsSealed :
      (reg : SessionLockRegistry C) (call : Call C) (key : String) (a : ℕ) (cause : C)
      → IsSound reg
      → IsSealed reg key a cause
      → IsSealed (step reg call) key a cause
  unfolding step acquire try_acquire quarantine wait_for_change
  step-IsSealed reg (acquires k ordinal signal) key a cause h sealed =
      admit-IsSealed _ key a cause (find_state-IsSound reg k h).0
        (find_state-IsSealed reg key a cause h sealed k) k _ _ signal
  step-IsSealed reg (tries k) key a cause h sealed =
      try_admit-IsSealed _ key a cause (find_state-IsSound reg k h).0
        (find_state-IsSealed reg key a cause h sealed k) k _
  step-IsSealed reg (releases lease) key a cause h sealed =
      release-IsSealed reg key a cause h sealed lease
  step-IsSealed reg (aborts state request reason) key a cause h sealed =
      abort-IsSealed reg key a cause h sealed state request reason
  step-IsSealed reg (quarantines k other) key a cause h sealed =
      quarantine_state-IsSealed _ key a cause (find_state-IsSound reg k h).0
        (find_state-IsSealed reg key a cause h sealed k) _ other
  step-IsSealed reg awaits_change key a cause h sealed = sealed

  run-IsSealed :
      (calls : List (Call C)) (reg : SessionLockRegistry C) (key : String) (a : ℕ) (cause : C)
      → IsSound reg
      → IsSealed reg key a cause
      → IsSealed (run reg calls) key a cause
  unfolding run
  run-IsSealed [] reg key a cause h sealed = sealed
  run-IsSealed (call ∷ calls) reg key a cause h sealed =
      run-IsSealed calls (step reg call) key a cause (step-IsSound reg call h)
        (step-IsSealed reg call key a cause h sealed)

  -- The cause that a session has once it is quarantined: the one it has already, or the new one.
  pub sealing_cause : SessionLockRegistry C → String → C → C
  sealing_cause reg key cause =
      let (found, a) = find_state reg key in or_else (found.store a).quarantined cause

  quarantine-IsSealed :
      (reg : SessionLockRegistry C) (key : String) (cause : C)
      → IsSound reg
      → IsSealed (quarantine reg key cause) key (find_state reg key).1 (sealing_cause reg key cause)
  unfolding quarantine quarantine_state notify_change sealing_cause
  quarantine-IsSealed reg key cause h =
      let (found, a) = find_state reg key in
      let at = (find_state-IsSound reg key h).1 in
      let s : SessionLockState C = record (found.store a) {
        quarantined = some cause;
        waiting = [];
      } in
      (
        ground (arith, at),
        ground (arith, update_self found.store a s, Option-cases (found.store a).quarantined),
      )

  sealed-rejects :
      (reg : SessionLockRegistry C) (key : String) (a : ℕ) (cause : C)
      → IsSealed reg key a cause
      → (ordinal : Option ℕ) (signal : Option (Signal C))
      → ((acquire reg key ordinal signal).1 ≡ rejects (quarantined_session cause))
        × ((try_acquire reg key).1 ≡ Attempt.throws (quarantined_session cause))
        × (is_available reg key ≡ Availability.throws (quarantined_session cause))
  unfolding acquire try_acquire is_available admit try_admit find_state
  sealed-rejects reg key a cause sealed ordinal signal =
      (ground (arith, sealed), ground (arith, sealed), ground (arith, sealed))

  -- Once `quarantine` was called for a session, after any history before and after it, every way to
  -- ask for the session fails, and always with one cause, that of the first quarantine: `acquire`
  -- rejects, and `tryAcquire` and `isAvailable` throw.
  pub quarantine-final :
      (before : List (Call C)) (key : String) (cause : C) (after : List (Call C))
      (ordinal : Option ℕ) (signal : Option (Signal C))
      → let reg = run (quarantine (run empty_registry before) key cause) after in
        let first = sealing_cause (run empty_registry before) key cause in
        ((acquire reg key ordinal signal).1 ≡ rejects (quarantined_session first))
        × ((try_acquire reg key).1 ≡ Attempt.throws (quarantined_session first))
        × (is_available reg key ≡ Availability.throws (quarantined_session first))
  quarantine-final before key cause after =
      let old = run empty_registry before in
      let reg = quarantine old key cause in
      let a = (find_state old key).1 in
      let first = sealing_cause old key cause in
      sealed-rejects (run reg after) key a first (
        run-IsSealed after reg key a first (quarantine-IsSound old key cause (run-IsSound before))
          (quarantine-IsSealed old key cause (run-IsSound before)))
