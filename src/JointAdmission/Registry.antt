-- ===== src/JointAdmission/Registry.antt =====
-- The queues and the loop of libs/runtime/src/runtime/invocation/joint-admission.ts. The registry
-- shares the two lock registries with their other clients. The loop of `#process` runs without a
-- pause until its head request is blocked; there it registers for the next change of each lock and
-- awaits the race of these two promises with the abort event of the request. `processing` holds the
-- workspaces whose loop is paused, `races` what each of them awaits, and `aborted` the requests
-- whose abort event came.
use seqlane.Prelude.{
  ℕ, String, Bool, false, ◌&&◌, ◌||◌, Option, none, some, List, [], ◌∷◌, ◌++◌, num_eq, is_empty,
  if◌then◌else◌, or_else, lookup, insert, erase, sort, by_rank, splice_first, has, without, has_num,
}
use seqlane.WorkspaceLock.State.{WorkspaceLockRegistry, wait_for_change as wait_for_workspace}
use seqlane.SessionLock.State.{SessionLockRegistry, Rejection, cancelled}
use seqlane.SessionLock.Calls.{wait_for_change as wait_for_session}
use seqlane.JointAdmission.Attempt.{
  JointAdmissionRequest, JointLeases, Tried, workspace_waiting, session_waiting, throws, unexpected,
  admits, try_acquire,
}

pub data Outcome (C : Type 0) : Type 0 where
  resolved : JointLeases → Outcome C
  rejected : Rejection C → Outcome C
  rejected_unexpected : Outcome C

-- The promises of a `Promise.race` in `#process`: the next change of each lock, and the abort event of
-- the head request.
pub record Race : Type 0 where
  pub workspace_change : ℕ
  pub session_change : ℕ
  pub request : ℕ

pub record JointAdmissionRegistry (C : Type 0) : Type 0 where
  pub workspace_locks : WorkspaceLockRegistry
  pub session_locks : SessionLockRegistry C
  pub waiting : List (String × List JointAdmissionRequest)
  pub processing : List String
  pub races : List (String × Race)
  pub aborted : List ℕ
  pub settled : List (ℕ × Outcome C)

module _ {C : Type 0} where
  -- The head request has been settled: `waiting.shift()`, and `resolve` or `reject`.
  unfoldable pub settle :
      JointAdmissionRegistry C
      → JointAdmissionRequest
      → List JointAdmissionRequest
      → Outcome C
      → JointAdmissionRegistry C
  settle reg r rest outcome = record reg {
    waiting = insert r.workspace rest reg.waiting;
    settled = reg.settled ++ (r.id, outcome) ∷ [];
  }

  -- The head request `r` is blocked: the loop registers for both locks, and awaits the race.
  unfoldable pub pause :
      JointAdmissionRegistry C → String → JointAdmissionRequest → JointAdmissionRegistry C
  unfolding wait_for_workspace wait_for_session
  pause reg key r =
      let (ws, workspace_change) = wait_for_workspace reg.workspace_locks in
      let (sessions, session_change) = wait_for_session reg.session_locks in
      let race : Race = record {
        workspace_change = workspace_change;
        session_change = session_change;
        request = r.id;
      } in
      record reg {
        workspace_locks = ws;
        session_locks = sessions;
        processing = key ∷ reg.processing;
        races = insert key race reg.races;
      }

  -- One round of the loop of `#process`: what it does with the attempt for the head request `r`.
  -- `go` is the loop from the next round on.
  unfoldable pub after_attempt :
      JointAdmissionRegistry C
      → String
      → JointAdmissionRequest
      → List JointAdmissionRequest
      → WorkspaceLockRegistry × SessionLockRegistry C × Tried C
      → (JointAdmissionRegistry C → JointAdmissionRegistry C)
      → JointAdmissionRegistry C
  unfolding settle pause
  after_attempt reg key r rest (ws, sessions, tried) go =
      let reg' : JointAdmissionRegistry C = record reg {
        workspace_locks = ws;
        session_locks = sessions;
      } in
      elim tried [
        | workspace_waiting blocking ↦ pause reg' key r
        | session_waiting ↦ pause reg' key r
        | throws why ↦ go (settle reg' r rest (rejected why))
        | unexpected ↦ go (settle reg' r rest rejected_unexpected)
        | admits leases ↦ go (settle reg' r rest (resolved leases))
      ]

  -- The loop of `#process`; its list is the queue of the workspace.
  unfoldable pub process_queue :
      JointAdmissionRegistry C → String → List JointAdmissionRequest → JointAdmissionRegistry C
  unfolding try_acquire after_attempt
  process_queue reg key [] = record reg { waiting = erase key reg.waiting }
  process_queue reg key (r ∷ rest) =
      after_attempt reg key r rest (try_acquire reg.workspace_locks reg.session_locks r)
        (λ reg'. process_queue reg' key rest)

  abbrev pub queue : JointAdmissionRegistry C → String → List JointAdmissionRequest
  queue reg key = or_else (lookup key reg.waiting) []

  -- `waiting.push(admission)` and `waiting.sort(…)`
  unfoldable pub enqueue :
      JointAdmissionRegistry C → JointAdmissionRequest → List JointAdmissionRequest
  enqueue reg r = sort (by_rank (λ w. w.creation_ordinal)) (queue reg r.workspace ++ r ∷ [])

  -- `void this.#process(key)` where the queue is `rs`.
  unfoldable pub process :
      JointAdmissionRegistry C → String → List JointAdmissionRequest → JointAdmissionRegistry C
  unfolding process_queue has
  process reg key rs = if has key reg.processing then reg else process_queue reg key rs

  -- `acquire`, with the abort reason of a signal that is aborted already.
  unfoldable pub acquire :
      JointAdmissionRegistry C
      → JointAdmissionRequest
      → Option (Option C)
      → JointAdmissionRegistry C
  unfolding enqueue process
  acquire reg r (some reason) = record reg {
    settled = reg.settled ++ (r.id, rejected (cancelled reason)) ∷ [];
  }
  acquire reg r none =
      let rs = enqueue reg r in
      process (record reg { waiting = insert r.workspace rs reg.waiting }) r.workspace rs

  -- The abort event of a request that waits for a workspace: `onAbort`, and that of the abort waiter.
  unfoldable pub abort : JointAdmissionRegistry C → String → ℕ → Option C → JointAdmissionRegistry C
  abort reg key id reason = elim (splice_first (λ r. num_eq r.id id) (queue reg key)) [
    | none ↦ reg
    | some rest ↦ record reg {
      waiting = if is_empty rest then erase key reg.waiting else insert key rest reg.waiting;
      settled = reg.settled ++ (id, rejected (cancelled reason)) ∷ [];
      aborted = id ∷ reg.aborted;
    }
  ]

  -- One of the promises of a race is resolved.
  unfoldable pub is_over : JointAdmissionRegistry C → Race → Bool
  unfolding has_num
  is_over reg race =
      has_num race.workspace_change reg.workspace_locks.notified
      || has_num race.session_change reg.session_locks.notified
      || has_num race.request reg.aborted

  -- What the loop of a workspace awaits is over.
  unfoldable pub race_is_over : JointAdmissionRegistry C → String → Bool
  unfolding is_over
  race_is_over reg key = elim (lookup key reg.races) [ none ↦ false | some race ↦ is_over reg race ]

  -- A paused loop goes on if its race is over: the `continue` of `#process`.
  unfoldable pub wake : JointAdmissionRegistry C → String → JointAdmissionRegistry C
  unfolding process_queue has without race_is_over
  wake reg key =
      if has key reg.processing && race_is_over reg key
      then process_queue (record reg { processing = without key reg.processing }) key
          (queue reg key)
      else reg
