-- ===== src/JointAdmission/Noticed.antt =====
-- What the release of a lock does for the queues of joint-admission.ts.
use seqlane.Prelude.{
  ℕ, String, ◌≡◌, ◌≢◌, refl, true, ◌&&◌, List, [], All, if_elim, has, without, arith,
}
use seqlane.WorkspaceLock.State.{WorkspaceLockLease}
use seqlane.WorkspaceLock.Release.{release as release_workspace}
use seqlane.WorkspaceLock.Machine.{step as step_workspace, releases as releases_workspace}
use seqlane.WorkspaceLock.Exclusion.{IsOut as IsOutWorkspace}
use seqlane.WorkspaceLock.Heard.{release-notifies as release_workspace-notifies}
use seqlane.SessionLock.State.{SessionLockLease}
use seqlane.SessionLock.Calls.{release as release_session}
use seqlane.SessionLock.Machine.{step as step_session, releases as releases_session}
use seqlane.SessionLock.Exclusion.{IsOut as IsOutSession}
use seqlane.SessionLock.Heard.{release-notifies as release_session-notifies}
use seqlane.JointAdmission.Registry.{JointAdmissionRegistry, queue, is_over, race_is_over, wake}
use seqlane.JointAdmission.Queue.{Progress, process_queue-Progress}
use seqlane.JointAdmission.Machine.{
  Call, workspace_calls, session_calls, wakes, empty_registry, step, run,
}
use seqlane.JointAdmission.Orderly.{has-without, run-IsOrderly}

module _ {C : Type 0} where
  -- A paused loop whose race is over makes progress in its turn.
  wake-Progress :
      (reg : JointAdmissionRegistry C) (key : String)
      → All (λ r. r.workspace ≡ key) (queue reg key)
      → has key reg.processing ≡ true
      → race_is_over reg key ≡ true
      → Progress reg (wake reg key) key (queue reg key)
  unfolding wake
  wake-Progress reg key keyed paused over =
      if_elim (λ (reg' : JointAdmissionRegistry C). Progress reg reg' key (queue reg key))
        (has key reg.processing && race_is_over reg key) _ _
        (λ _.
          let p =
            process_queue-Progress (queue reg key)
              (record reg { processing = without key reg.processing }) key keyed refl in
          record {
            done = p.done;
            left = p.left;
            split = p.split;
            settled_ids = p.settled_ids;
            left_queue = p.left_queue;
            paused = p.paused;
            others = λ k ne. (
              (p.others k ne).0,
              λ h. (p.others k ne).1 (rw (has-without k key reg.processing ne) h),
            );
          })
        (λ stays. absurd (ground (arith, paused, over, stays)))

  -- After any history, where requests wait for the workspace `key` and a lease of any workspace is
  -- out, the release of this lease ends the race that the loop of `key` awaits. The turn of the loop
  -- after it settles a first part of the queue, each request once and in order, and leaves the rest
  -- in the queue. Where a rest is left, the loop is paused and the head of the rest cannot be
  -- admitted, because the workspace or its session is not available.
  pub release_workspace-Progress :
      (calls : List (Call C)) (i : ℕ) (l : WorkspaceLockLease) (key : String)
      → IsOutWorkspace (run empty_registry calls).workspace_locks i l
      → queue (run empty_registry calls) key ≢ []
      → let reg = step (run empty_registry calls) (workspace_calls (releases_workspace i)) in
        (race_is_over reg key ≡ true)
        × Progress reg (step reg (wakes key)) key (queue (run empty_registry calls) key)
  unfolding step step_workspace race_is_over is_over
  release_workspace-Progress calls i l key out busy =
      let before = run empty_registry calls in
      let (orderly, listens) = run-IsOrderly calls key in
      let (race, found, on_workspace, on_session) = listens busy in
      let reg : JointAdmissionRegistry C = record before {
        workspace_locks = release_workspace before.workspace_locks i;
      } in
      let over : race_is_over reg key ≡ true = ground (
        arith,
        found,
        release_workspace-notifies before.workspace_locks i l race.workspace_change out
            on_workspace,
      ) in
      (over, wake-Progress reg key orderly.keyed (orderly.watched busy) over)

  -- After any history, where requests wait for the workspace `key` and a lease of any session is
  -- out, the release of this lease ends the race that the loop of `key` awaits. The turn of the loop
  -- after it settles a first part of the queue, each request once and in order, and leaves the rest
  -- in the queue. Where a rest is left, the loop is paused and the head of the rest cannot be
  -- admitted, because the workspace or its session is not available.
  pub release_session-Progress :
      (calls : List (Call C)) (i : ℕ) (l : SessionLockLease) (key : String)
      → IsOutSession (run empty_registry calls).session_locks i l
      → queue (run empty_registry calls) key ≢ []
      → let reg = step (run empty_registry calls) (session_calls (releases_session i)) in
        (race_is_over reg key ≡ true)
        × Progress reg (step reg (wakes key)) key (queue (run empty_registry calls) key)
  unfolding step step_session race_is_over is_over
  release_session-Progress calls i l key out busy =
      let before = run empty_registry calls in
      let (orderly, listens) = run-IsOrderly calls key in
      let (race, found, on_workspace, on_session) = listens busy in
      let reg : JointAdmissionRegistry C = record before {
        session_locks = release_session before.session_locks i;
      } in
      let over : race_is_over reg key ≡ true = ground (
        arith,
        found,
        release_session-notifies before.session_locks i l race.session_change out on_session,
      ) in
      (over, wake-Progress reg key orderly.keyed (orderly.watched busy) over)
