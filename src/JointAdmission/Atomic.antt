-- ===== src/JointAdmission/Atomic.antt =====
-- `#tryAcquire` of joint-admission.ts takes both leases or changes nothing.
use seqlane.Prelude.{
  ℕ, String, ◌≡◌, refl, inl, inr, ◌⊎◌, true, false, ◌||◌, not, Option, none, some, if◌then◌else◌,
  if_elim, holds_name, or_else, Option-cases, Bool-cases, lookup, update_self, arith,
}
use seqlane.WorkspaceLock.State.{
  WorkspacePolicy, WorkspaceLockRegistry, blank_state, find_state, create_state, create_lease,
  available,
}
use seqlane.WorkspaceLock.Admit.{
  Attempt, admitted, refused, try_admit, try_acquire as try_workspace,
  is_available as workspace_available, owns, holder_id, reenter,
}
use seqlane.SessionLock.State.{
  SessionLockRegistry, Rejection, idle_state, find_state as find_session,
  create_state as create_session, create_lease as create_lease_session,
}
use seqlane.SessionLock.Calls.{
  Attempt as SessionAttempt, Availability, answers, try_admit as try_admit_session,
  try_acquire as try_session, is_available as session_available,
}
use seqlane.JointAdmission.Attempt.{
  JointAdmissionRequest, JointLeases, Tried, admits, throws, session_waiting, workspace_waiting,
  session_answer, take_both, join, try_acquire,
}

-- A lock state that is available to an owner gives it a lease.
available-admits :
    (reg : WorkspaceLockRegistry) (key : String) (a : ℕ) (p : WorkspacePolicy) (owner : String)
    → (holds_name (reg.store a).writer_invocation_id owner || available (reg.store a) p) ≡ true
    → (lease : ℕ) × ((try_admit reg key a p owner).1 ≡ admitted lease)
unfolding try_admit
available-admits reg key a p owner e =
    elim (Bool-cases (holds_name (reg.store a).writer_invocation_id owner)) [
      | inl own ↦ ((reenter reg key a owner).1, ground arith)
      | inr other ↦ ((create_lease reg key a p owner).1, ground arith)
    ]

found-available :
    (reg : WorkspaceLockRegistry) (key : String) (p : WorkspacePolicy) (id : String)
    (owner_id : Option String)
    → workspace_available reg key p owner_id ≡ true
    → (holds_name
          ((find_state reg key).0.store (find_state reg key).1).writer_invocation_id
          (or_else owner_id id)
        || available ((find_state reg key).0.store (find_state reg key).1) p)
      ≡ true
unfolding workspace_available owns find_state create_state available blank_state
found-available reg key p id none e =
    ground
      (arith, Option-cases (lookup key reg.locks), update_self reg.store reg.next_state blank_state)
found-available reg key p id (some owner) e =
    ground
      (arith, Option-cases (lookup key reg.locks), update_self reg.store reg.next_state blank_state)

-- `tryAcquire` of a workspace gives a lease wherever `isAvailable` said so.
try_workspace-available :
    (reg : WorkspaceLockRegistry) (key : String) (p : WorkspacePolicy) (id : String)
    (owner_id : Option String)
    → workspace_available reg key p owner_id ≡ true
    → (lease : ℕ) × ((try_workspace reg key p (some id) owner_id).1 ≡ admitted lease)
unfolding try_workspace holder_id
try_workspace-available reg key p id owner_id e =
    available-admits (find_state reg key).0 key (find_state reg key).1 p (or_else owner_id id)
      (found-available reg key p id owner_id e)

module _ {C : Type 0} where
  -- `tryAcquire` of a session gives a lease wherever `isAvailable` said so.
  try_session-available :
      (reg : SessionLockRegistry C) (key : String)
      → session_available reg key ≡ answers true
      → (lease : ℕ) × ((try_session reg key).1 ≡ SessionAttempt.admitted lease)
  unfolding try_session session_available try_admit_session find_session create_session idle_state
  try_session-available reg key e = (
    (create_lease_session (find_session reg key).0 key (find_session reg key).1).1,
    elim (Option-cases (lookup key reg.locks)) [
      | inl missing ↦ ground (arith, missing, update_self reg.store reg.next_state idle_state)
      | inr (a, found) ↦ ground (arith, found, Option-cases (reg.store a).quarantined)
    ],
  )

  -- Both resources are free for the request.
  abbrev pub BothAvailable :
      WorkspaceLockRegistry → SessionLockRegistry C → JointAdmissionRequest → Type 0
  BothAvailable ws sessions r =
      (workspace_available ws r.workspace r.workspace_policy r.owner_id ≡ true)
      × (session_answer sessions r.session ≡ answers true)

  -- The session part of an admission: `tryAcquire` gave the lease, or there is no session.
  abbrev pub SessionTaken :
      SessionLockRegistry C → Option String → SessionLockRegistry C → Option ℕ → Type 0
  SessionTaken sessions none sessions' lease = (sessions' ≡ sessions) × (lease ≡ none)
  SessionTaken sessions (some key) sessions' lease =
      (l : ℕ) × (lease ≡ some l)
      × ((try_session sessions key).0 ≡ sessions')
      × ((try_session sessions key).1 ≡ SessionAttempt.admitted l)

  -- A refusal that changes nothing, or an admission with both leases.
  pub data IsAtomic (ws : WorkspaceLockRegistry) (sessions : SessionLockRegistry C)
      (r : JointAdmissionRequest) (result : WorkspaceLockRegistry × SessionLockRegistry C × Tried C)
      : Type 0 where
    refuses :
        ¬ BothAvailable ws sessions r
        → result.0 ≡ ws
        → result.1 ≡ sessions
        → ((blocking : Option String) × (result.2 ≡ workspace_waiting blocking))
          ⊎ (result.2 ≡ session_waiting)
          ⊎ ((why : Rejection C) × (result.2 ≡ throws why))
        → IsAtomic ws sessions r result
    takes_both :
        (leases : JointLeases)
        → BothAvailable ws sessions r
        → (let taken =
              try_workspace ws r.workspace r.workspace_policy (some r.invocation_id) r.owner_id in
            (result.0 ≡ taken.0) × (taken.1 ≡ admitted leases.workspace_lease))
        → SessionTaken sessions r.session result.1 leases.session_lease
        → result.2 ≡ admits leases
        → IsAtomic ws sessions r result

  join_lem :
      (taken : WorkspaceLockRegistry × Attempt) (sessions : SessionLockRegistry C)
      (key : Option String) (lease : ℕ)
      → taken.1 ≡ admitted lease
      → session_answer sessions key ≡ answers true
      → (l : JointLeases) × (l.workspace_lease ≡ lease)
        × ((join taken sessions key).0 ≡ taken.0)
        × SessionTaken sessions key (join taken sessions key).1 l.session_lease
        × ((join taken sessions key).2 ≡ admits l)
  unfolding join session_answer
  join_lem (ws, refused blocking) sessions key lease e free = absurd (cc)
  join_lem (ws, admitted l) sessions none lease e free =
      (record { session_lease = none; workspace_lease = l }, ground arith, refl, (refl, refl), refl)
  join_lem (ws, admitted l) sessions (some key) lease e free =
      let (s, got) = try_session-available sessions key free in
      (
        record { session_lease = some s; workspace_lease = l },
        ground arith,
        ground (arith, got),
        (s, refl, ground (arith, got), got),
        ground (arith, got),
      )

  take_both-IsAtomic :
      (ws : WorkspaceLockRegistry) (sessions : SessionLockRegistry C) (r : JointAdmissionRequest)
      → BothAvailable ws sessions r
      → IsAtomic ws sessions r (take_both ws sessions r)
  unfolding take_both
  take_both-IsAtomic ws sessions r free =
      let (lease, got) =
        try_workspace-available ws r.workspace r.workspace_policy r.invocation_id r.owner_id
          free.0 in
      let (l, same, kept, taken, done) = join_lem _ sessions r.session lease got free.1 in
      takes_both l free (kept, rw same got) taken done

  -- Whatever the state of both registries, an attempt either changes neither of them, because one
  -- of the resources is not available, and answers that a lock is waited for or that the session is
  -- quarantined; or it takes a lease of the workspace and, where the request has a session, one of
  -- the session, because all of them are available. The error about an admission that became
  -- unavailable is never thrown.
  pub try_acquire-IsAtomic :
      (ws : WorkspaceLockRegistry) (sessions : SessionLockRegistry C) (r : JointAdmissionRequest)
      → IsAtomic ws sessions r (try_acquire ws sessions r)
  unfolding try_acquire
  try_acquire-IsAtomic ws sessions r =
      if_elim (IsAtomic ws sessions r)
        (not (workspace_available ws r.workspace r.workspace_policy r.owner_id)) _ _
        (λ busy. refuses (λ both. ground arith) refl refl (inl (_, refl)))
        (λ free. by_session (session_answer sessions r.session) refl (ground arith))
    where
      by_session :
          (answer : Availability C)
          → session_answer sessions r.session ≡ answer
          → workspace_available ws r.workspace r.workspace_policy r.owner_id ≡ true
          → IsAtomic ws sessions r (elim answer [
            | Availability.throws why ↦ (ws, sessions, throws why)
            | answers free ↦
                if free then take_both ws sessions r else (ws, sessions, session_waiting)
          ])
      by_session (Availability.throws why) e free =
          refuses (λ both. ground arith) refl refl (inr (inr (why, refl)))
      by_session (answers true) e free = take_both-IsAtomic ws sessions r (free, e)
      by_session (answers false) e free = refuses (λ both. ground arith) refl refl (inr (inl refl))
