-- ===== src/JointAdmission/Attempt.antt =====
-- `#tryAcquire` of libs/runtime/src/runtime/invocation/joint-admission.ts, on the two lock registries.
use seqlane.Prelude.{ℕ, String, true, not, Option, none, some, if◌then◌else◌}
use seqlane.WorkspaceLock.State.{WorkspacePolicy, WorkspaceLockRegistry}
use seqlane.WorkspaceLock.Admit.{
  Attempt, admitted, refused, try_acquire as try_workspace, is_available as workspace_available,
  blocking_invocation_id,
}
use seqlane.SessionLock.State.{SessionLockRegistry, Rejection}
use seqlane.SessionLock.Calls.{
  Attempt as SessionAttempt, Availability, answers, try_acquire as try_session,
  is_available as session_available,
}

-- A request; `id` names its promise.
pub record JointAdmissionRequest : Type 0 where
  pub id : ℕ
  pub session : Option String
  pub workspace : String
  pub workspace_policy : WorkspacePolicy
  pub invocation_id : String
  pub owner_id : Option String
  pub creation_ordinal : ℕ

-- `JointAdmission`: the leases of one admission.
pub record JointLeases : Type 0 where
  pub session_lease : Option ℕ
  pub workspace_lease : ℕ

-- What `#tryAcquire` does: returns undefined after one of the two callbacks, throws the rejection of
-- the session, throws "Atomic admission became unavailable unexpectedly", or returns the leases.
pub data Tried (C : Type 0) : Type 0 where
  workspace_waiting : (blocking_invocation_id : Option String) → Tried C
  session_waiting : Tried C
  throws : Rejection C → Tried C
  unexpected : Tried C
  admits : JointLeases → Tried C

module _ {C : Type 0} where
  -- The end of `#tryAcquire`: the session lease, when the workspace lock has answered.
  unfoldable pub join :
      WorkspaceLockRegistry × Attempt
      → SessionLockRegistry C
      → Option String
      → WorkspaceLockRegistry × SessionLockRegistry C × Tried C
  join (ws, refused blocking) sessions none = (ws, sessions, unexpected)
  join (ws, admitted lease) sessions none =
      (ws, sessions, admits (record { session_lease = none; workspace_lease = lease }))
  join (ws, attempt) sessions (some key) =
      let (sessions', answer) = try_session sessions key in
      elim answer [
        | SessionAttempt.throws why ↦ (ws, sessions', throws why)
        | SessionAttempt.refused ↦ (ws, sessions', unexpected)
        | SessionAttempt.admitted session_lease ↦ elim attempt [
          | refused blocking ↦ (ws, sessions', unexpected)
          | admitted lease ↦ (
            ws,
            sessions',
            admits (record { session_lease = some session_lease; workspace_lease = lease }),
          )
        ]
      ]

  -- Both leases, one after the other.
  unfoldable pub take_both :
      WorkspaceLockRegistry
      → SessionLockRegistry C
      → JointAdmissionRequest
      → WorkspaceLockRegistry × SessionLockRegistry C × Tried C
  unfolding join
  take_both ws sessions r =
      join (try_workspace ws r.workspace r.workspace_policy (some r.invocation_id) r.owner_id)
        sessions r.session

  -- `session !== undefined && !this.sessionLocks.isAvailable(session)`, or what that throws.
  unfoldable pub session_answer : SessionLockRegistry C → Option String → Availability C
  session_answer sessions none = answers true
  session_answer sessions (some key) = session_available sessions key

  -- `#tryAcquire`
  unfoldable pub try_acquire :
      WorkspaceLockRegistry
      → SessionLockRegistry C
      → JointAdmissionRequest
      → WorkspaceLockRegistry × SessionLockRegistry C × Tried C
  unfolding session_answer take_both
  try_acquire ws sessions r =
      if not (workspace_available ws r.workspace r.workspace_policy r.owner_id)
      then (ws, sessions, workspace_waiting (blocking_invocation_id ws r.workspace))
      else elim (session_answer sessions r.session) [
        | Availability.throws why ↦ (ws, sessions, throws why)
        | answers free ↦ if free then take_both ws sessions r else (ws, sessions, session_waiting)
      ]
