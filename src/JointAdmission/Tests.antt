-- ===== src/JointAdmission/Tests.antt =====
-- Runs of joint-admission.ts, and its theorems at them.
use seqlane.Prelude.{
  has, ℕ, String, ◌≡◌, ◌≢◌, refl, true, none, some, List, [], ◌∷◌, lookup, false, insert, erase,
  update, sort, without, arith,
}
use seqlane.WorkspaceLock.State.{
  WorkspacePolicy, exclusive, shared, WorkspaceLockLease, blank_state,
  empty_registry as no_workspaces,
}
use seqlane.WorkspaceLock.Admit.{try_acquire as try_workspace, is_available as workspace_available}
use seqlane.WorkspaceLock.Release.{release as release_workspace}
use seqlane.WorkspaceLock.Machine.{releases as releases_workspace, step as step_workspace}
use seqlane.WorkspaceLock.Exclusion.{IsOut as IsOutWorkspace}
use seqlane.SessionLock.State.{
  SessionLockRegistry, SessionLockLease, idle_state, empty_registry as no_sessions,
}
use seqlane.SessionLock.Calls.{
  try_acquire as try_session, is_available as session_available, release as release_session,
}
use seqlane.SessionLock.Machine.{tries, releases as releases_session, step as step_session}
use seqlane.SessionLock.Exclusion.{IsOut as IsOutSession}
use seqlane.JointAdmission.Attempt.{JointAdmissionRequest, try_acquire}
use seqlane.JointAdmission.Registry.{
  JointAdmissionRegistry, process_queue, queue, acquire, abort, wake, race_is_over, process,
}
use seqlane.JointAdmission.Atomic.{IsAtomic, try_acquire-IsAtomic}
use seqlane.JointAdmission.Queue.{Progress, process_queue-Progress}
use seqlane.JointAdmission.Machine.{
  Call, acquires, wakes, workspace_calls, session_calls, empty_registry, step, run,
}
use seqlane.JointAdmission.Listening.{Listens}
use seqlane.JointAdmission.Noticed.{release_workspace-Progress, release_session-Progress}
use seqlane.JointAdmission.Orderly.{IsOrderlyQueue, run-IsOrderly}

abbrev request : ℕ → WorkspacePolicy → JointAdmissionRequest
request n policy = record {
  id = n;
  session = some "s";
  workspace = "repo";
  workspace_policy = policy;
  invocation_id = "a";
  owner_id = none;
  creation_ordinal = n;
}

abbrev sessions : SessionLockRegistry String
sessions = no_sessions

try_acquire-IsAtomic_example :
    IsAtomic no_workspaces sessions
      (request 1 exclusive)
      (try_acquire no_workspaces sessions (request 1 exclusive))
try_acquire-IsAtomic_example = try_acquire-IsAtomic no_workspaces sessions (request 1 exclusive)

abbrev waiting_two : JointAdmissionRegistry String
waiting_two = record {
  workspace_locks = no_workspaces;
  session_locks = no_sessions;
  waiting = ("repo", request 1 shared ∷ request 2 shared ∷ []) ∷ [];
  processing = [];
  races = [];
  aborted = [];
  settled = [];
}

two_queue : queue waiting_two "repo" ≡ request 1 shared ∷ request 2 shared ∷ []
unfolding lookup
two_queue = refl

process_queue-Progress_example :
    Progress waiting_two
      (process_queue waiting_two "repo" (request 1 shared ∷ request 2 shared ∷ []))
      "repo"
      (request 1 shared ∷ request 2 shared ∷ [])
process_queue-Progress_example =
    process_queue-Progress (request 1 shared ∷ request 2 shared ∷ []) waiting_two "repo"
      (refl, (refl, tt)) two_queue

abbrev history : List (Call String)
history =
    acquires (request 1 exclusive) none
    ∷ acquires (request 2 shared) none
    ∷ workspace_calls (releases_workspace 0)
    ∷ wakes "repo"
    ∷ []

run-IsOrderly_example :
    let reg = run empty_registry history in
    IsOrderlyQueue "repo" (queue reg "repo") (has "repo" reg.processing)
    × (queue reg "repo" ≢ [] → Listens reg "repo")
run-IsOrderly_example = run-IsOrderly history "repo"

program : Unit {0}
unfolding run acquire abort wake process empty_registry no_workspaces no_sessions blank_state
    idle_state step_workspace step_session lookup insert erase update sort has without
    workspace_available session_available try_workspace try_session release_workspace
    release_session
program = tt

-- The second request waits for the workspace of the first.
abbrev for_workspace : List (Call String)
for_workspace = acquires (request 1 exclusive) none ∷ acquires (request 2 exclusive) none ∷ []

abbrev lease_of_repo : WorkspaceLockLease
lease_of_repo = record {
  resource_key = "repo";
  state = 0;
  policy = exclusive;
  invocation_id = "a";
  released = false;
}

for_workspace-IsOut :
    IsOutWorkspace (run empty_registry for_workspace).workspace_locks 0 lease_of_repo
unfolding program
for_workspace-IsOut = (refl, refl)

for_workspace-queue : queue (run empty_registry for_workspace) "repo" ≡ request 2 exclusive ∷ []
unfolding program
for_workspace-queue = refl

for_workspace_waits : queue (run empty_registry for_workspace) "repo" ≢ []
for_workspace_waits e = ground (arith, for_workspace-queue, e)

release_workspace-Progress_example :
    let reg = step (run empty_registry for_workspace) (workspace_calls (releases_workspace 0)) in
    (race_is_over reg "repo" ≡ true)
    × Progress reg
        (step reg (wakes "repo"))
        "repo"
        (queue (run empty_registry for_workspace) "repo")
release_workspace-Progress_example =
    release_workspace-Progress for_workspace 0 lease_of_repo "repo" for_workspace-IsOut
      for_workspace_waits

-- The second request is admitted after the release.
admitted_second :
    let reg = run empty_registry for_workspace in
    let released = step reg (workspace_calls (releases_workspace 0)) in
    queue (step (step released (session_calls (releases_session 0))) (wakes "repo")) "repo" ≡ []
unfolding program step
admitted_second = refl

-- The request waits for a session that another client holds.
abbrev for_session : List (Call String)
for_session = session_calls (tries "s") ∷ acquires (request 1 shared) none ∷ []

abbrev lease_of_s : SessionLockLease
lease_of_s = record { session_key = "s"; state = 0; released = false }

for_session-IsOut : IsOutSession (run empty_registry for_session).session_locks 0 lease_of_s
unfolding program
for_session-IsOut = (refl, refl)

for_session-queue : queue (run empty_registry for_session) "repo" ≡ request 1 shared ∷ []
unfolding program
for_session-queue = refl

for_session_waits : queue (run empty_registry for_session) "repo" ≢ []
for_session_waits e = ground (arith, for_session-queue, e)

release_session-Progress_example :
    let reg = step (run empty_registry for_session) (session_calls (releases_session 0)) in
    (race_is_over reg "repo" ≡ true)
    × Progress reg (step reg (wakes "repo")) "repo" (queue (run empty_registry for_session) "repo")
release_session-Progress_example =
    release_session-Progress for_session 0 lease_of_s "repo" for_session-IsOut for_session_waits
