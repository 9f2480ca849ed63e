-- ===== src/SessionLock/Exclusion.antt =====
-- Who can hold a session of session-lock.ts, who waits for it, and what quarantine does.
use seqlane.Prelude.{
  ℕ, ◌≤◌, ◌≡◌, ◌≢◌, inl, inr, false, some, List, [], num_eq, Option-cases, Bool-cases, get_elem?,
  arith,
}
use seqlane.SessionLock.State.{SessionLockLease, SessionLockRegistry, empty_registry}
use seqlane.SessionLock.Machine.{Call, run}
use seqlane.SessionLock.Held.{held, two-le-held, held-IsOut}
use seqlane.SessionLock.Booked.{IsSound}
use seqlane.SessionLock.Sound.{run-IsSound}

module _ {C : Type 0} where
  -- The lease has not been released.
  abbrev pub IsOut : SessionLockRegistry C → ℕ → SessionLockLease → Type 0
  IsOut reg i l = (get_elem? reg.leases i ≡ some l) × (l.released ≡ false)

  -- After any history of calls, at most one lease of a session is out.
  pub lease_unique :
      (calls : List (Call C)) (i j : ℕ) (l m : SessionLockLease)
      → IsOut (run empty_registry calls) i l
      → IsOut (run empty_registry calls) j m
      → l.session_key ≡ m.session_key
      → i ≡ j
  lease_unique calls i j l m out_l out_m key = elim (Bool-cases (num_eq i j)) [
    | inl e ↦ ground arith
    | inr e ↦ absurd (
        ground (
          arith,
          h.mapped i l out_l.0 out_l.1,
          h.mapped j m out_m.0 out_m.1,
          (h.fit l.state).bounded,
          two-le-held l.state (run empty_registry calls).leases i j l m,
        ))
  ]
    where
      h : IsSound (run empty_registry calls)
      h = run-IsSound calls

  -- After any history of calls, while a request waits for a lock state of a session,
  -- a lease of that state is out, so that a release is still to come.
  pub waiting-has-session_lease :
      (calls : List (Call C)) (a : ℕ)
      → ((run empty_registry calls).store a).waiting ≢ []
      → (i : ℕ) × (l : SessionLockLease) × IsOut (run empty_registry calls) i l × (l.state ≡ a)
  waiting-has-session_lease calls a busy =
      let (i, l, found, c) = held-IsOut a (run empty_registry calls).leases one in
      (i, l, (found, ground arith), ground arith)
    where
      h : IsSound (run empty_registry calls)
      h = run-IsSound calls

      one : 1 ≤ held a (run empty_registry calls).leases
      one = ground (
        arith,
        (h.fit a).served,
        (h.fit a).counted,
        (h.fit a).quiet,
        Option-cases ((run empty_registry calls).store a).quarantined,
      )
