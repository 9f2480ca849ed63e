-- ===== src/WorkspaceLock/Admit.antt =====
-- `acquire`, `tryAcquire`, `isAvailable` and `blockingInvocationId` of
-- libs/runtime/src/runtime/workspace/workspace-lock.ts.
use seqlane.Prelude.{
  max_safe_integer, ℕ, suc, ◌+◌, String, Bool, true, false, ◌&&◌, ◌||◌, not, Option, none, some, [],
  ◌∷◌, ◌++◌, if◌then◌else◌, is_some, or_else, is_empty, holds_name, lookup, update, sort, by_rank,
  decimal, text_append,
}
use seqlane.WorkspaceLock.State.{
  WorkspacePolicy, exclusive, is_shared, WaitingWorkspaceLock, WorkspaceLockState,
  WorkspaceLockRegistry, find_state, create_lease, blocker, available,
}

pub data Admission : Type 0 where
  granted : (lease : ℕ) → Admission
  waits : (request : ℕ) (blocking_invocation_id : Option String) → Admission

-- `invocationId ?? `anonymous:${this.#nextAnonymousInvocation++}``
unfoldable pub holder_id : WorkspaceLockRegistry → Option String → WorkspaceLockRegistry × String
holder_id reg (some id) = (reg, id)
holder_id reg none = (
  record reg { next_anonymous_invocation = suc reg.next_anonymous_invocation },
  text_append "anonymous:" (decimal reg.next_anonymous_invocation),
)

-- The writer takes its own lock once more: `state.writerDepth += 1`.
unfoldable pub reenter : WorkspaceLockRegistry → String → ℕ → String → WorkspaceLockRegistry × ℕ
unfolding create_lease
reenter reg key a owner =
    let s = reg.store a in
    create_lease
      (record reg { store = update reg.store a (record s { writer_depth = s.writer_depth + 1 }) })
      key a exclusive owner

unfoldable pub grant :
    WorkspaceLockRegistry
    → String
    → ℕ
    → WorkspacePolicy
    → String
    → WorkspaceLockRegistry × Admission
unfolding create_lease
grant reg key a policy owner =
    let (reg', lease) = create_lease reg key a policy owner in (reg', granted lease)

-- The promise of `acquire`: the request joins the queue, which is sorted by creation ordinal.
unfoldable pub enqueue :
    WorkspaceLockRegistry
    → ℕ
    → WorkspacePolicy
    → ℕ
    → String
    → String
    → WorkspaceLockRegistry × Admission
unfolding blocker
enqueue reg a policy ordinal holder owner =
    let s = reg.store a in
    let entry : WaitingWorkspaceLock = record {
      policy = policy;
      creation_ordinal = ordinal;
      invocation_id = holder;
      owner_id = owner;
      request = reg.next_request;
    } in
    (
      record reg {
        store = update reg.store a (record s {
          waiting = sort (by_rank (λ w. w.creation_ordinal)) (s.waiting ++ entry ∷ []);
        });
        next_request = suc reg.next_request;
      },
      waits reg.next_request (blocker s),
    )

-- The tests of `acquire`, after its lock state was found at address `a`.
unfoldable pub admit :
    WorkspaceLockRegistry
    → String
    → ℕ
    → WorkspacePolicy
    → ℕ
    → String
    → String
    → WorkspaceLockRegistry × Admission
unfolding reenter grant enqueue
admit reg key a policy ordinal holder owner =
    let s = reg.store a in
    if holds_name s.writer_invocation_id owner
    then (let (reg', lease) = reenter reg key a owner in (reg', granted lease))
    else if is_shared policy && not (is_some s.writer_invocation_id) && is_empty s.waiting
    then grant reg key a policy owner
    else if not (is_shared policy)
        && not (is_some s.writer_invocation_id)
        && is_empty s.readers
        && is_empty s.waiting
    then grant reg key a policy owner
    else enqueue reg a policy ordinal holder owner

unfoldable pub acquire :
    WorkspaceLockRegistry
    → String
    → WorkspacePolicy
    → Option ℕ
    → Option String
    → Option String
    → WorkspaceLockRegistry × Admission
unfolding holder_id find_state admit
acquire reg key policy creation_ordinal invocation_id owner_id =
    let (reg₁, holder) = holder_id reg invocation_id in
    let (reg₂, a) = find_state reg₁ key in
    admit reg₂ key a policy (or_else creation_ordinal max_safe_integer) holder
      (or_else owner_id holder)

-- The lease of `tryAcquire`, or the blocking invocation that it reports.
pub data Attempt : Type 0 where
  admitted : (lease : ℕ) → Attempt
  refused : (blocking_invocation_id : Option String) → Attempt

unfoldable pub try_admit :
    WorkspaceLockRegistry → String → ℕ → WorkspacePolicy → String → WorkspaceLockRegistry × Attempt
unfolding reenter create_lease available blocker
try_admit reg key a policy owner =
    let s = reg.store a in
    if holds_name s.writer_invocation_id owner
    then (let (reg', lease) = reenter reg key a owner in (reg', admitted lease))
    else if available s policy
    then (let (reg', lease) = create_lease reg key a policy owner in (reg', admitted lease))
    else (reg, refused (blocker s))

unfoldable pub try_acquire :
    WorkspaceLockRegistry
    → String
    → WorkspacePolicy
    → Option String
    → Option String
    → WorkspaceLockRegistry × Attempt
unfolding holder_id find_state try_admit
try_acquire reg key policy invocation_id owner_id =
    let (reg₁, holder) = holder_id reg invocation_id in
    let (reg₂, a) = find_state reg₁ key in try_admit reg₂ key a policy (or_else owner_id holder)

-- `owner !== undefined && state?.writerInvocationId === owner`
unfoldable pub owns : WorkspaceLockState → Option String → Bool
owns s none = false
owns s (some owner) = holds_name s.writer_invocation_id owner

unfoldable pub is_available :
    WorkspaceLockRegistry → String → WorkspacePolicy → Option String → Bool
unfolding owns available
is_available reg key policy owner_id = elim (lookup key reg.locks) [
  | none ↦ true
  | some a ↦ owns (reg.store a) owner_id || available (reg.store a) policy
]

unfoldable pub blocking_invocation_id : WorkspaceLockRegistry → String → Option String
unfolding blocker
blocking_invocation_id reg key = elim (lookup key reg.locks) [
  | none ↦ none
  | some a ↦ blocker (reg.store a)
]
