-- ===== src/SessionLock/Machine.antt =====
-- The registry of libs/runtime/src/runtime/session/session-lock.ts as a machine: calls of its
-- clients, releases of leases and abort events come one at a time, each running to its end.
use seqlane.Prelude.{ℕ, String, Option, List, [], ◌∷◌}
use seqlane.SessionLock.State.{SessionLockRegistry}
use seqlane.SessionLock.Calls.{
  Signal, acquire, try_acquire, wait_for_change, quarantine, abort, release,
}

pub data Call (C : Type 0) : Type 0 where
  acquires : (key : String) (creation_ordinal : Option ℕ) (signal : Option (Signal C)) → Call C
  tries : (key : String) → Call C
  releases : (lease : ℕ) → Call C
  aborts : (state request : ℕ) (reason : Option C) → Call C
  quarantines : (key : String) (cause : C) → Call C
  awaits_change : Call C

module _ {C : Type 0} where
  unfoldable pub step : SessionLockRegistry C → Call C → SessionLockRegistry C
  step reg (acquires key ordinal signal) = (acquire reg key ordinal signal).0
  step reg (tries key) = (try_acquire reg key).0
  step reg (releases lease) = release reg lease
  step reg (aborts state request reason) = abort reg state request reason
  step reg (quarantines key cause) = quarantine reg key cause
  step reg awaits_change = (wait_for_change reg).0

  -- The registry after a history of calls.
  unfoldable pub run : SessionLockRegistry C → List (Call C) → SessionLockRegistry C
  unfolding step
  run reg [] = reg
  run reg (call ∷ calls) = run (step reg call) calls
