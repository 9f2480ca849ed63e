-- ===== src/JointAdmission/Listening.antt =====
-- The registrations of the paused loops in joint-admission.ts at the two locks.
use seqlane.Prelude.{
  ℕ, String, ◌≡◌, subst, inl, inr, true, ◌&&◌, Option, none, some, List, [], ◌∷◌, num_eq, if_elim,
  Option-cases, lookup, insert, lookup-insert, splice_first, has, without, name_cases, eq_iff,
  arith,
}
use seqlane.WorkspaceLock.State.{WorkspaceLockRegistry, wait_for_change as wait_for_workspace}
use seqlane.WorkspaceLock.Machine.{step as step_workspace}
use seqlane.WorkspaceLock.Heard.{
  IsHeard as IsHeardWorkspace, try_acquire-IsHeard as try_workspace-IsHeard,
  wait_for_change-IsHeard as wait_for_workspace-IsHeard,
  wait_for_change-own as wait_for_workspace-own, step-IsHeard as step_workspace-IsHeard,
}
use seqlane.SessionLock.State.{SessionLockRegistry}
use seqlane.SessionLock.Calls.{wait_for_change as wait_for_session}
use seqlane.SessionLock.Machine.{step as step_session}
use seqlane.SessionLock.Heard.{
  IsHeard as IsHeardSession, try_acquire-IsHeard as try_session-IsHeard,
  wait_for_change-IsHeard as wait_for_session-IsHeard, wait_for_change-own as wait_for_session-own,
  step-IsHeard as step_session-IsHeard,
}
use seqlane.JointAdmission.Attempt.{
  JointAdmissionRequest, Tried, workspace_waiting, session_waiting, throws, unexpected, admits,
  try_acquire,
}
use seqlane.JointAdmission.Registry.{
  Race, JointAdmissionRegistry, resolved, rejected, rejected_unexpected, queue, settle, pause,
  after_attempt, process_queue, enqueue, process, acquire, abort, race_is_over, wake,
}
use seqlane.JointAdmission.Atomic.{
  IsAtomic, SessionTaken, refuses, takes_both, try_acquire-IsAtomic,
}
use seqlane.JointAdmission.Machine.{
  Call, acquires, aborts, wakes, workspace_calls, session_calls, empty_registry, step, run,
}

has-without-has :
    (k key : String) (ks : List String) → has k (without key ks) ≡ true → has k ks ≡ true
unfolding has without
has-without-has k key [] h = h
has-without-has k key (j ∷ ks) h = ground (arith, h, has-without-has k key ks)

module _ {C : Type 0} where
  -- The loop of the workspace awaits a race whose promises each lock knows.
  abbrev pub Listens : JointAdmissionRegistry C → String → Type 0
  Listens reg key =
      (race : Race) × (lookup key reg.races ≡ some race)
      × IsHeardWorkspace reg.workspace_locks race.workspace_change
      × IsHeardSession reg.session_locks race.session_change

  abbrev IsListening : JointAdmissionRegistry C → Type 0
  IsListening reg = (key : String) → has key reg.processing ≡ true → Listens reg key

  -- The two locks forget nothing.
  record Hears (reg : JointAdmissionRegistry C) (ws : WorkspaceLockRegistry)
      (sessions : SessionLockRegistry C) : Type 0 where
    workspace : (n : ℕ) → IsHeardWorkspace reg.workspace_locks n → IsHeardWorkspace ws n
    session : (n : ℕ) → IsHeardSession reg.session_locks n → IsHeardSession sessions n

  Hears-IsListening :
      (reg : JointAdmissionRegistry C) (ws : WorkspaceLockRegistry)
      (sessions : SessionLockRegistry C)
      → Hears reg ws sessions
      → IsListening reg
      → IsListening (record reg { workspace_locks = ws; session_locks = sessions })
  Hears-IsListening reg ws sessions kept h key busy =
      let (race, found, on_workspace, on_session) = h key busy in
      (
        race,
        found,
        kept.workspace race.workspace_change on_workspace,
        kept.session race.session_change on_session,
      )

  SessionTaken-IsHeard :
      (sessions sessions' : SessionLockRegistry C) (key : Option String) (lease : Option ℕ)
      → SessionTaken sessions key sessions' lease
      → (n : ℕ) → IsHeardSession sessions n
      → IsHeardSession sessions' n
  SessionTaken-IsHeard sessions sessions' none lease taken n h = rw (taken.0) h
  SessionTaken-IsHeard sessions sessions' (some key) lease (l, e, same, got) n h =
      subst (λ s. IsHeardSession s n) same (try_session-IsHeard sessions key n h)

  IsAtomic-Hears :
      (reg : JointAdmissionRegistry C) (r : JointAdmissionRequest)
      (tried : WorkspaceLockRegistry × SessionLockRegistry C × Tried C)
      → IsAtomic reg.workspace_locks reg.session_locks r tried
      → Hears reg tried.0 tried.1
  IsAtomic-Hears reg r tried (refuses _ same_ws same_s _) = record {
    workspace = λ n h. rw same_ws h;
    session = λ n h. rw same_s h;
  }
  IsAtomic-Hears reg r tried (takes_both leases _ taken session _) = record {
    workspace = λ n h. rw (taken.0) (
        try_workspace-IsHeard reg.workspace_locks r.workspace r.workspace_policy
          (some r.invocation_id) r.owner_id n h);
    session = SessionTaken-IsHeard reg.session_locks tried.1 r.session leases.session_lease session;
  }

  -- The race that `pause` registers.
  abbrev race_of : JointAdmissionRegistry C → JointAdmissionRequest → Race
  race_of reg r = record {
    workspace_change = (wait_for_workspace reg.workspace_locks).1;
    session_change = (wait_for_session reg.session_locks).1;
    request = r.id;
  }

  pause-IsListening :
      (reg : JointAdmissionRegistry C) (key : String) (r : JointAdmissionRequest)
      → IsListening reg
      → IsListening (pause reg key r)
  unfolding pause has
  pause-IsListening reg key r h k busy = elim (name_cases k key) [
    | inl (_, same) ↦ (
      race_of reg r,
      ground (arith, lookup-insert key k (race_of reg r) reg.races, eq_iff key k, same),
      wait_for_workspace-own reg.workspace_locks,
      wait_for_session-own reg.session_locks,
    )
    | inr (_, ne) ↦
        let (race, found, on_workspace, on_session) =
          h k (ground (arith, busy, eq_iff key k, ne)) in
        (
          race,
          ground (arith, lookup-insert key k (race_of reg r) reg.races, eq_iff key k, ne, found),
          wait_for_workspace-IsHeard reg.workspace_locks race.workspace_change on_workspace,
          wait_for_session-IsHeard reg.session_locks race.session_change on_session,
        )
  ]

  after_attempt-IsListening :
      (reg : JointAdmissionRegistry C) (key : String) (r : JointAdmissionRequest)
      (rest : List JointAdmissionRequest)
      (tried : WorkspaceLockRegistry × SessionLockRegistry C × Tried C)
      (go : JointAdmissionRegistry C → JointAdmissionRegistry C)
      → Hears reg tried.0 tried.1
      → IsListening reg
      → ((reg' : JointAdmissionRegistry C) → IsListening reg' → IsListening (go reg'))
      → IsListening (after_attempt reg key r rest tried go)
  unfolding after_attempt settle
  after_attempt-IsListening reg key r rest (ws, sessions, workspace_waiting b) go kept h more =
      pause-IsListening (record reg { workspace_locks = ws; session_locks = sessions }) key r
        (Hears-IsListening reg ws sessions kept h)
  after_attempt-IsListening reg key r rest (ws, sessions, session_waiting) go kept h more =
      pause-IsListening (record reg { workspace_locks = ws; session_locks = sessions }) key r
        (Hears-IsListening reg ws sessions kept h)
  after_attempt-IsListening reg key r rest (ws, sessions, throws why) go kept h more =
      more
        (settle (record reg { workspace_locks = ws; session_locks = sessions }) r rest
          (rejected why))
        (Hears-IsListening reg ws sessions kept h)
  after_attempt-IsListening reg key r rest (ws, sessions, unexpected) go kept h more =
      more
        (settle (record reg { workspace_locks = ws; session_locks = sessions }) r rest
          (rejected_unexpected))
        (Hears-IsListening reg ws sessions kept h)
  after_attempt-IsListening reg key r rest (ws, sessions, admits leases) go kept h more =
      more
        (settle (record reg { workspace_locks = ws; session_locks = sessions }) r rest
          (resolved leases))
        (Hears-IsListening reg ws sessions kept h)

  process_queue-IsListening :
      (rs : List JointAdmissionRequest) (reg : JointAdmissionRegistry C) (key : String)
      → IsListening reg
      → IsListening (process_queue reg key rs)
  unfolding process_queue
  process_queue-IsListening [] reg key h = h
  process_queue-IsListening (r ∷ rest) reg key h =
      after_attempt-IsListening reg key r rest (try_acquire reg.workspace_locks reg.session_locks r)
        (λ reg'. process_queue reg' key rest)
        (IsAtomic-Hears reg r _ (try_acquire-IsAtomic reg.workspace_locks reg.session_locks r)) h
        (λ reg' h'. process_queue-IsListening rest reg' key h')

  acquire-IsListening :
      (reg : JointAdmissionRegistry C) (r : JointAdmissionRequest) (aborted : Option (Option C))
      → IsListening reg
      → IsListening (acquire reg r aborted)
  unfolding acquire process
  acquire-IsListening reg r (some reason) h = h
  acquire-IsListening reg r none h =
      if_elim IsListening (has r.workspace reg.processing) _ _ (λ _. h)
        (λ _.
          process_queue-IsListening (enqueue reg r)
            (record reg { waiting = insert r.workspace (enqueue reg r) reg.waiting }) r.workspace h)

  abort-IsListening :
      (reg : JointAdmissionRegistry C) (key : String) (id : ℕ) (reason : Option C)
      → IsListening reg
      → IsListening (abort reg key id reason)
  unfolding abort
  abort-IsListening reg key id reason h =
      elim (Option-cases (splice_first (λ r. num_eq r.id id) (queue reg key))) [
        | inl e ↦ rw (e, abort) h
        | inr (rest, e) ↦ rw (e, abort) h
      ]

  wake-IsListening :
      (reg : JointAdmissionRegistry C) (key : String) → IsListening reg → IsListening (wake reg key)
  unfolding wake
  wake-IsListening reg key h =
      if_elim IsListening (has key reg.processing && race_is_over reg key) _ _
        (λ _.
          process_queue-IsListening (queue reg key)
            (record reg { processing = without key reg.processing }) key
            (λ k busy. h k (has-without-has k key reg.processing busy)))
        (λ _. h)

  step-IsListening :
      (reg : JointAdmissionRegistry C) (call : Call C)
      → IsListening reg
      → IsListening (step reg call)
  unfolding step
  step-IsListening reg (acquires r aborted) h = acquire-IsListening reg r aborted h
  step-IsListening reg (aborts workspace request reason) h =
      abort-IsListening reg workspace request reason h
  step-IsListening reg (wakes workspace) h = wake-IsListening reg workspace h
  step-IsListening reg (workspace_calls call) h =
      Hears-IsListening reg (step_workspace reg.workspace_locks call) reg.session_locks
        (record {
          workspace = step_workspace-IsHeard reg.workspace_locks call;
          session = λ n heard. heard;
        })
        h
  step-IsListening reg (session_calls call) h =
      Hears-IsListening reg reg.workspace_locks (step_session reg.session_locks call)
        (record {
          workspace = λ n heard. heard;
          session = step_session-IsHeard reg.session_locks call;
        })
        h

  run_from-IsListening :
      (calls : List (Call C)) (reg : JointAdmissionRegistry C)
      → IsListening reg
      → IsListening (run reg calls)
  unfolding run
  run_from-IsListening [] reg h = h
  run_from-IsListening (call ∷ calls) reg h =
      run_from-IsListening calls (step reg call) (step-IsListening reg call h)

  -- After any history, every paused loop awaits promises that the locks know.
  pub run-IsListening : (calls : List (Call C)) → IsListening (run empty_registry calls)
  unfolding empty_registry has
  run-IsListening calls = run_from-IsListening calls empty_registry (λ key busy. absurd (cc))
