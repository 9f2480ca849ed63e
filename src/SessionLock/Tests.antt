-- ===== src/SessionLock/Tests.antt =====
-- Runs of session-lock.ts, and its theorems at them.
use seqlane.Prelude.{
  ℕ, ◌≤◌, String, ◌≡◌, ◌≢◌, refl, true, false, none, some, List, [], ◌∷◌, ◌++◌, length, lookup,
  insert, erase, update, sort, All,
}
use seqlane.SessionLock.State.{
  WaitingSessionLock, SessionLockLease, quarantined_session, resolved, empty_registry, idle_state,
}
use seqlane.SessionLock.Calls.{
  Attempt, Availability, rejects, acquire, try_acquire, is_available, quarantine, release,
}
use seqlane.SessionLock.Machine.{Call, acquires, releases, run}
use seqlane.SessionLock.Exclusion.{IsOut, lease_unique, waiting-has-session_lease}
use seqlane.SessionLock.Quarantine.{sealing_cause, quarantine-final}
use seqlane.SessionLock.HandOver.{release-hands_over}

program : Unit {0}
unfolding run acquire release quarantine empty_registry idle_state lookup insert erase update sort
program = tt

-- One request has the session.
abbrev alone : List (Call String)
alone = acquires "s" (some 1) none ∷ []

-- A second request waits.
abbrev contended : List (Call String)
contended = acquires "s" (some 1) none ∷ acquires "s" (some 2) none ∷ []

abbrev lease_of_s : SessionLockLease
lease_of_s = record { session_key = "s"; state = 0; released = false }

abbrev second : WaitingSessionLock
second = record { creation_ordinal = 2; request = 0 }

alone-IsOut : IsOut (run empty_registry alone) 0 lease_of_s
unfolding program
alone-IsOut = (refl, refl)

lease_unique_example : ◌≡◌ {A = ℕ} 0 0
lease_unique_example = lease_unique alone 0 0 lease_of_s lease_of_s alone-IsOut alone-IsOut refl

contended_waits : ((run empty_registry contended).store 0).waiting ≢ []
unfolding program
contended_waits = λ e. cc

waiting-has-session_lease_example :
    (i : ℕ) × (l : SessionLockLease) × IsOut (run empty_registry contended) i l × (l.state ≡ 0)
waiting-has-session_lease_example = waiting-has-session_lease contended 0 contended_waits

contended-IsOut : IsOut (run empty_registry contended) 0 lease_of_s
unfolding program
contended-IsOut = (refl, refl)

contended_sane : ((run empty_registry contended).store 0).quarantined ≡ none
unfolding program
contended_sane = refl

contended_queue : ((run empty_registry contended).store 0).waiting ≡ second ∷ []
unfolding program
contended_queue = refl

release-hands_over_example :
    let reg = run empty_registry contended in
    let reg' = release reg 0 in
    (reg'.settled ≡ reg.settled ++ (0, resolved (length reg.leases)) ∷ [])
    × ((reg'.store 0).waiting ≡ [])
    × ((reg'.store 0).busy ≡ true)
    × All {A = WaitingSessionLock} (λ v. 2 ≤ v.creation_ordinal) []
release-hands_over_example =
    release-hands_over contended 0 lease_of_s second [] contended-IsOut contended_sane
      contended_queue

quarantine-final_example :
    let reg = run (quarantine (run empty_registry contended) "s" "lost") (releases 0 ∷ []) in
    let first = sealing_cause (run empty_registry contended) "s" "lost" in
    ((acquire reg "s" none none).1 ≡ rejects (quarantined_session first))
    × ((try_acquire reg "s").1 ≡ Attempt.throws (quarantined_session first))
    × (is_available reg "s" ≡ Availability.throws (quarantined_session first))
quarantine-final_example = quarantine-final contended "s" "lost" (releases 0 ∷ []) none none
