-- ===== src/SessionLock/HandOver.antt =====
-- What the release of a session lease does in session-lock.ts.
use seqlane.Prelude.{
  ℕ, ◌≤◌, ◌≡◌, subst, true, none, List, [], ◌∷◌, ◌++◌, length, length-set, update, All, IsRanked,
  arith,
}
use seqlane.SessionLock.State.{
  WaitingSessionLock, SessionLockLease, SessionLockRegistry, resolved, empty_registry, create_lease,
  notify_change,
}
use seqlane.SessionLock.Calls.{hand_over, release_state, mark_released, release}
use seqlane.SessionLock.Machine.{Call, run}
use seqlane.SessionLock.Booked.{ordinal_of}
use seqlane.SessionLock.Sound.{run-IsSound}
use seqlane.SessionLock.Exclusion.{IsOut}

module _ {C : Type 0} where
  -- What `release` does for a lease that is out and a session that is not quarantined.
  release-out :
      (reg : SessionLockRegistry C) (i : ℕ) (l : SessionLockLease)
      → IsOut reg i l
      → (reg.store l.state).quarantined ≡ none
      → release reg i
        ≡ hand_over
            (notify_change (mark_released reg i l))
            l.session_key
            l.state
            (reg.store l.state).waiting
  unfolding release release_state mark_released notify_change
  release-out reg i l out sane = rw (out.0, release) (ground (arith, out.1, sane))

  -- After any history of calls, where a request `w` is at the head of the queue of a session that is
  -- not quarantined, the release of the session's lease settles this request alone, with a new
  -- lease, takes it from the queue, and the session stays busy. No request behind `w` was created
  -- before it.
  pub release-hands_over :
      (calls : List (Call C)) (i : ℕ) (l : SessionLockLease) (w : WaitingSessionLock)
      (rest : List WaitingSessionLock)
      → IsOut (run empty_registry calls) i l
      → ((run empty_registry calls).store l.state).quarantined ≡ none
      → ((run empty_registry calls).store l.state).waiting ≡ w ∷ rest
      → let reg = run empty_registry calls in
        let reg' = release reg i in
        (reg'.settled ≡ reg.settled ++ (w.request, resolved (length reg.leases)) ∷ [])
        × ((reg'.store l.state).waiting ≡ rest)
        × ((reg'.store l.state).busy ≡ true)
        × All (λ v. w.creation_ordinal ≤ v.creation_ordinal) rest
  unfolding hand_over create_lease mark_released notify_change update
  release-hands_over calls i l w rest out sane queue =
      let reg = run empty_registry calls in
      let e = release-out reg i l out sane in
      (
        ground (arith, e, queue, length-set reg.leases i (record l { released = true })),
        ground (arith, e, queue),
        ground (arith, e, queue),
        (subst (IsRanked ordinal_of) queue ((run-IsSound calls).fit l.state).ordered).0,
      )
