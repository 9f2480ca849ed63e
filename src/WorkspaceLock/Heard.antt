-- ===== src/WorkspaceLock/Heard.antt =====
-- The promises of `waitForChange` in workspace-lock.ts, and what the calls do to them.
use seqlane.Prelude.{
  ℕ, String, ◌≡◌, refl, get_elem?, true, ◌||◌, Option, none, some, List, [], ◌∷◌, Option-cases,
  Bool-cases, inl, inr, max_safe_integer, update, lookup, has_num, has_num-append, or_else, arith,
}
use seqlane.WorkspaceLock.State.{
  WorkspacePolicy, WaitingWorkspaceLock, WorkspaceLockLease, WorkspaceLockRegistry, find_state,
  create_state, create_lease, wait_for_change, notify_change,
}
use seqlane.WorkspaceLock.Admit.{
  holder_id, reenter, grant, enqueue, admit, acquire, try_admit, try_acquire,
}
use seqlane.WorkspaceLock.Release.{
  resolve_waiting, grant_readers, grant_first, grant_waiting, forget_idle, leave, release_state,
  mark_released, release,
}
use seqlane.WorkspaceLock.Machine.{Call, acquires, tries, releases, awaits_change, step}
use seqlane.WorkspaceLock.Exclusion.{IsOut}

-- The promise `n` of `waitForChange` was resolved, or the next change resolves it.
abbrev pub IsHeard : WorkspaceLockRegistry → ℕ → Type 0
IsHeard reg n = (has_num n reg.notified || has_num n reg.change_waiters) ≡ true

-- A call that resolves no promise and makes none.
abbrev IsQuiet : WorkspaceLockRegistry → WorkspaceLockRegistry → Type 0
IsQuiet reg reg' = (reg'.notified ≡ reg.notified) × (reg'.change_waiters ≡ reg.change_waiters)

find_state-IsQuiet :
    (reg : WorkspaceLockRegistry) (key : String) → IsQuiet reg (find_state reg key).0
unfolding find_state create_state
find_state-IsQuiet reg key = ground (arith, Option-cases (lookup key reg.locks))

admit-IsQuiet :
    (reg : WorkspaceLockRegistry) (key : String) (a : ℕ) (p : WorkspacePolicy) (ordinal : ℕ)
    (holder owner : String)
    → IsQuiet reg (admit reg key a p ordinal holder owner).0
unfolding admit reenter grant enqueue create_lease
admit-IsQuiet reg key a p ordinal holder owner = ground arith

acquire-IsQuiet :
    (reg : WorkspaceLockRegistry) (key : String) (p : WorkspacePolicy) (ordinal : Option ℕ)
    (invocation_id owner_id : Option String)
    → IsQuiet reg (acquire reg key p ordinal invocation_id owner_id).0
unfolding acquire holder_id
acquire-IsQuiet reg key p ordinal none owner_id =
    let (reg₁, holder) = holder_id reg none in
    let (reg₂, a) = find_state reg₁ key in
    ground (
      arith,
      find_state-IsQuiet reg₁ key,
      admit-IsQuiet reg₂ key a p (or_else ordinal max_safe_integer) holder
          (or_else owner_id holder),
    )
acquire-IsQuiet reg key p ordinal (some id) owner_id =
    let (reg₂, a) = find_state reg key in
    ground (
      arith,
      find_state-IsQuiet reg key,
      admit-IsQuiet reg₂ key a p (or_else ordinal max_safe_integer) id (or_else owner_id id),
    )

try_admit-IsQuiet :
    (reg : WorkspaceLockRegistry) (key : String) (a : ℕ) (p : WorkspacePolicy) (owner : String)
    → IsQuiet reg (try_admit reg key a p owner).0
unfolding try_admit reenter create_lease
try_admit-IsQuiet reg key a p owner = ground arith

try_acquire-IsQuiet :
    (reg : WorkspaceLockRegistry) (key : String) (p : WorkspacePolicy)
    (invocation_id owner_id : Option String)
    → IsQuiet reg (try_acquire reg key p invocation_id owner_id).0
unfolding try_acquire holder_id
try_acquire-IsQuiet reg key p none owner_id =
    let (reg₁, holder) = holder_id reg none in
    let (reg₂, a) = find_state reg₁ key in
    ground
      (arith, find_state-IsQuiet reg₁ key, try_admit-IsQuiet reg₂ key a p (or_else owner_id holder))
try_acquire-IsQuiet reg key p (some id) owner_id =
    let (reg₂, a) = find_state reg key in
    ground (arith, find_state-IsQuiet reg key, try_admit-IsQuiet reg₂ key a p (or_else owner_id id))

pub try_acquire-IsHeard :
    (reg : WorkspaceLockRegistry) (key : String) (p : WorkspacePolicy)
    (invocation_id owner_id : Option String) (n : ℕ)
    → IsHeard reg n
    → IsHeard (try_acquire reg key p invocation_id owner_id).0 n
try_acquire-IsHeard reg key p invocation_id owner_id n h =
    ground (arith, try_acquire-IsQuiet reg key p invocation_id owner_id, h)

grant_readers-IsQuiet :
    (ws : List WaitingWorkspaceLock) (reg : WorkspaceLockRegistry) (key : String) (a : ℕ)
    → IsQuiet reg (grant_readers reg key a ws)
unfolding grant_readers resolve_waiting create_lease
grant_readers-IsQuiet [] reg key a = (refl, refl)
grant_readers-IsQuiet (w ∷ rest) reg key a =
    ground (arith, grant_readers-IsQuiet rest (resolve_waiting reg key a w rest) key a)

grant_first-IsQuiet :
    (ws : List WaitingWorkspaceLock) (reg : WorkspaceLockRegistry) (key : String) (a : ℕ)
    → IsQuiet reg (grant_first reg key a ws)
unfolding grant_first resolve_waiting create_lease
grant_first-IsQuiet [] reg key a = (refl, refl)
grant_first-IsQuiet (w ∷ rest) reg key a =
    ground (arith, grant_readers-IsQuiet (w ∷ rest) reg key a)

grant_waiting-IsQuiet :
    (reg : WorkspaceLockRegistry) (key : String) (a : ℕ) → IsQuiet reg (grant_waiting reg key a)
unfolding grant_waiting
grant_waiting-IsQuiet reg key a =
    ground (arith, grant_first-IsQuiet (reg.store a).waiting reg key a)

forget_idle-IsQuiet :
    (reg : WorkspaceLockRegistry) (key : String) (a : ℕ) → IsQuiet reg (forget_idle reg key a)
unfolding forget_idle
forget_idle-IsQuiet reg key a = ground arith

-- What `#release` does to the promises.
release_state-notifies :
    (reg : WorkspaceLockRegistry) (key : String) (a : ℕ) (p : WorkspacePolicy) (id : String)
    → IsQuiet (notify_change reg) (release_state reg key a p id)
unfolding release_state
release_state-notifies reg key a p id =
    let reg₁ = notify_change reg in
    let reg₂ : WorkspaceLockRegistry = record reg₁ {
      store = update reg₁.store a (leave (reg₁.store a) p id);
    } in
    ground (
      arith,
      grant_waiting-IsQuiet reg₂ key a,
      forget_idle-IsQuiet (grant_waiting reg₂ key a) key a,
    )

notified-IsHeard :
    (reg reg' : WorkspaceLockRegistry) (n : ℕ)
    → IsQuiet (notify_change reg) reg'
    → IsHeard reg n
    → has_num n reg'.notified ≡ true
unfolding notify_change
notified-IsHeard reg reg' n quiet h =
    rw (quiet.0, has_num-append n reg.notified reg.change_waiters) h

-- The release of a lease that is out resolves every promise of `waitForChange` made so far.
pub release-notifies :
    (reg : WorkspaceLockRegistry) (i : ℕ) (l : WorkspaceLockLease) (n : ℕ)
    → IsOut reg i l
    → IsHeard reg n
    → has_num n (release reg i).notified ≡ true
unfolding release mark_released
release-notifies reg i l n out h =
    let marked = mark_released reg i l in
    ground (
      arith,
      out,
      h,
      notified-IsHeard marked (release_state marked l.resource_key l.state l.policy l.invocation_id)
          n (release_state-notifies marked l.resource_key l.state l.policy l.invocation_id) h,
    )

release-IsHeard :
    (reg : WorkspaceLockRegistry) (i n : ℕ) → IsHeard reg n → IsHeard (release reg i) n
unfolding release mark_released
release-IsHeard reg i n h = elim (Option-cases (get_elem? reg.leases i)) [
  | inl e ↦ ground (arith, e, h)
  | inr (l, e) ↦ elim (Bool-cases l.released) [
    | inl gone ↦ ground (arith, e, gone, h)
    | inr out ↦ ground (arith, release-notifies reg i l n (e, out) h)
  ]
]

pub wait_for_change-IsHeard :
    (reg : WorkspaceLockRegistry) (n : ℕ) → IsHeard reg n → IsHeard (wait_for_change reg).0 n
unfolding wait_for_change
wait_for_change-IsHeard reg n h =
    ground (arith, h, has_num-append n reg.change_waiters (reg.next_request ∷ []))

-- The promise that `waitForChange` makes.
pub wait_for_change-own :
    (reg : WorkspaceLockRegistry) → IsHeard (wait_for_change reg).0 (wait_for_change reg).1
unfolding wait_for_change has_num
wait_for_change-own reg =
    ground (arith, has_num-append reg.next_request reg.change_waiters (reg.next_request ∷ []))

-- No call forgets a promise of `waitForChange`.
pub step-IsHeard :
    (reg : WorkspaceLockRegistry) (call : Call) (n : ℕ) → IsHeard reg n → IsHeard (step reg call) n
unfolding step
step-IsHeard reg (acquires key p ordinal invocation_id owner_id) n h =
    ground (arith, acquire-IsQuiet reg key p ordinal invocation_id owner_id, h)
step-IsHeard reg (tries key p invocation_id owner_id) n h =
    try_acquire-IsHeard reg key p invocation_id owner_id n h
step-IsHeard reg (releases lease) n h = release-IsHeard reg lease n h
step-IsHeard reg awaits_change n h = wait_for_change-IsHeard reg n h
