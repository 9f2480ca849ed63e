-- ===== src/WorkspaceLock/Machine.antt =====
-- The registry of libs/runtime/src/runtime/workspace/workspace-lock.ts as a machine: its clients
-- make one call at a time, and a call runs to its end before the next one.
use seqlane.Prelude.{ℕ, String, Option, List, [], ◌∷◌}
use seqlane.WorkspaceLock.State.{WorkspacePolicy, WorkspaceLockRegistry, wait_for_change}
use seqlane.WorkspaceLock.Admit.{acquire, try_acquire}
use seqlane.WorkspaceLock.Release.{release}

pub data Call : Type 0 where
  acquires :
      (key : String) (policy : WorkspacePolicy) (creation_ordinal : Option ℕ)
      (invocation_id owner_id : Option String)
      → Call
  tries : (key : String) (policy : WorkspacePolicy) (invocation_id owner_id : Option String) → Call
  releases : (lease : ℕ) → Call
  awaits_change : Call

unfoldable pub step : WorkspaceLockRegistry → Call → WorkspaceLockRegistry
step reg (acquires key policy ordinal invocation_id owner_id) =
    (acquire reg key policy ordinal invocation_id owner_id).0
step reg (tries key policy invocation_id owner_id) =
    (try_acquire reg key policy invocation_id owner_id).0
step reg (releases lease) = release reg lease
step reg awaits_change = (wait_for_change reg).0

-- The registry after a history of calls.
unfoldable pub run : WorkspaceLockRegistry → List Call → WorkspaceLockRegistry
unfolding step
run reg [] = reg
run reg (call ∷ calls) = run (step reg call) calls
