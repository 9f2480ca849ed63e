-- ===== src/JointAdmission/Machine.antt =====
-- The registry of joint-admission.ts as a machine: its own calls, the abort events of waiting
-- requests and the turns of paused loops whose race may be over, between calls of other clients of the two registries
-- that it shares.
use seqlane.Prelude.{ℕ, String, Option, List, [], ◌∷◌}
use seqlane.WorkspaceLock.State.{empty_registry as no_workspaces}
use seqlane.WorkspaceLock.Machine.{Call as WorkspaceCall, step as step_workspace}
use seqlane.SessionLock.State.{empty_registry as no_sessions}
use seqlane.SessionLock.Machine.{Call as SessionCall, step as step_session}
use seqlane.JointAdmission.Attempt.{JointAdmissionRequest}
use seqlane.JointAdmission.Registry.{JointAdmissionRegistry, acquire, abort, wake}

pub data Call (C : Type 0) : Type 0 where
  acquires : JointAdmissionRequest → (aborted : Option (Option C)) → Call C
  aborts : (workspace : String) (request : ℕ) (reason : Option C) → Call C
  wakes : (workspace : String) → Call C
  workspace_calls : WorkspaceCall → Call C
  session_calls : SessionCall C → Call C

module _ {C : Type 0} where
  unfoldable pub empty_registry : JointAdmissionRegistry C
  empty_registry = record {
    workspace_locks = no_workspaces;
    session_locks = no_sessions;
    waiting = [];
    processing = [];
    races = [];
    aborted = [];
    settled = [];
  }

  unfoldable pub step : JointAdmissionRegistry C → Call C → JointAdmissionRegistry C
  step reg (acquires r aborted) = acquire reg r aborted
  step reg (aborts workspace request reason) = abort reg workspace request reason
  step reg (wakes workspace) = wake reg workspace
  step reg (workspace_calls call) = record reg {
    workspace_locks = step_workspace reg.workspace_locks call;
  }
  step reg (session_calls call) = record reg { session_locks = step_session reg.session_locks call }

  -- The registry after a history of calls.
  unfoldable pub run : JointAdmissionRegistry C → List (Call C) → JointAdmissionRegistry C
  unfolding step
  run reg [] = reg
  run reg (call ∷ calls) = run (step reg call) calls
