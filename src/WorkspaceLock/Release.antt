-- ===== src/WorkspaceLock/Release.antt =====
-- `release`, `#release` and `#grantWaiting` of
-- libs/runtime/src/runtime/workspace/workspace-lock.ts.
use seqlane.Prelude.{
  ℕ, ◌-◌, String, Bool, true, ◌&&◌, ◌||◌, not, none, some, List, [], ◌∷◌, ◌++◌, leb, num_eq,
  if◌then◌else◌, is_some, or_else, is_empty, holds_name, get_elem?, set, lookup, insert, erase,
  update,
}
use seqlane.WorkspaceLock.State.{
  WorkspacePolicy, shared, exclusive, WaitingWorkspaceLock, WorkspaceLockState, WorkspaceLockLease,
  WorkspaceLockRegistry, create_lease, notify_change,
}

-- What `#release` does to the state before it grants.
unfoldable pub leave : WorkspaceLockState → WorkspacePolicy → String → WorkspaceLockState
leave s shared id =
    let depth = or_else (lookup id s.readers) 0 in
    if leb depth 1
    then record s { readers = erase id s.readers }
    else record s { readers = insert id (depth - 1) s.readers }
leave s exclusive id =
    if holds_name s.writer_invocation_id id
    then record s {
      writer_depth = s.writer_depth - 1;
      writer_invocation_id = if num_eq (s.writer_depth - 1) 0 then none else s.writer_invocation_id;
    }
    else s

-- `shift` of the head `w`, whose tail is `rest`, and `resolve` with a new lease.
unfoldable pub resolve_waiting :
    WorkspaceLockRegistry
    → String
    → ℕ
    → WaitingWorkspaceLock
    → List WaitingWorkspaceLock
    → WorkspaceLockRegistry
unfolding create_lease
resolve_waiting reg key a w rest =
    let s = reg.store a in
    let (reg', lease) =
      create_lease (record reg { store = update reg.store a (record s { waiting = rest }) }) key a
        w.policy w.owner_id in
    record reg' { resolved = reg'.resolved ++ (w.request, lease) ∷ [] }

-- The `while` loop of `#grantWaiting`; its list is `state.waiting`.
unfoldable pub grant_readers :
    WorkspaceLockRegistry → String → ℕ → List WaitingWorkspaceLock → WorkspaceLockRegistry
unfolding resolve_waiting
grant_readers reg key a [] = reg
grant_readers reg key a (w ∷ rest) = elim w.policy [
  | shared ↦ grant_readers (resolve_waiting reg key a w rest) key a rest
  | exclusive ↦ reg
]

unfoldable pub grant_first :
    WorkspaceLockRegistry → String → ℕ → List WaitingWorkspaceLock → WorkspaceLockRegistry
unfolding resolve_waiting grant_readers
grant_first reg key a [] = reg
grant_first reg key a (w ∷ rest) = elim w.policy [
  | exclusive ↦ if is_empty (reg.store a).readers then resolve_waiting reg key a w rest else reg
  | shared ↦ grant_readers reg key a (w ∷ rest)
]

-- `#grantWaiting`
unfoldable pub grant_waiting : WorkspaceLockRegistry → String → ℕ → WorkspaceLockRegistry
unfolding grant_first
grant_waiting reg key a =
    let s = reg.store a in
    if is_some s.writer_invocation_id || is_empty s.waiting
    then reg
    else grant_first reg key a s.waiting

-- The test by which `#release` drops the state from the map.
unfoldable pub is_idle : WorkspaceLockState → Bool
is_idle s = not (is_some s.writer_invocation_id) && is_empty s.readers && is_empty s.waiting

unfoldable pub forget_idle : WorkspaceLockRegistry → String → ℕ → WorkspaceLockRegistry
unfolding is_idle
forget_idle reg key a =
    if is_idle (reg.store a) then record reg { locks = erase key reg.locks } else reg

-- `#release`
unfoldable pub release_state :
    WorkspaceLockRegistry → String → ℕ → WorkspacePolicy → String → WorkspaceLockRegistry
unfolding notify_change leave grant_waiting forget_idle
release_state reg key a policy id =
    let reg₁ = notify_change reg in
    let reg₂ = record reg₁ { store = update reg₁.store a (leave (reg₁.store a) policy id) } in
    forget_idle (grant_waiting reg₂ key a) key a

unfoldable pub mark_released :
    WorkspaceLockRegistry → ℕ → WorkspaceLockLease → WorkspaceLockRegistry
mark_released reg lease l = record reg {
  leases = set reg.leases lease (record l { released = true });
}

-- `lease.release()`
unfoldable pub release : WorkspaceLockRegistry → ℕ → WorkspaceLockRegistry
unfolding mark_released release_state
release reg lease = elim (get_elem? reg.leases lease) [
  | none ↦ reg
  | some l ↦
      if l.released
      then reg
      else release_state (mark_released reg lease l) l.resource_key l.state l.policy l.invocation_id
]
