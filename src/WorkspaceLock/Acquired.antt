-- ===== src/WorkspaceLock/Acquired.antt =====
-- `acquire` and `tryAcquire` as a whole keep the registry of workspace-lock.ts sound.
use seqlane.Prelude.{
  ℕ, String, ◌≡◌, ◌&&◌, not, Option, some, is_some, is_empty, holds_name, if_elim, lookup,
}
use seqlane.WorkspaceLock.State.{
  WorkspacePolicy, is_shared, WorkspaceLockState, WorkspaceLockRegistry, available,
}
use seqlane.WorkspaceLock.Admit.{Admission, Attempt, grant, admit, acquire, try_admit, try_acquire}
use seqlane.WorkspaceLock.Admitted.{
  IsSound, find_state-IsSound, Admits, create_lease-IsSound, reenter-IsSound, enqueue-IsSound,
  holder_id-IsSound, Admits-shared, Admits-exclusive, available-Admits, refused-IsHeld,
}

module _ (reg : WorkspaceLockRegistry) (key : String) (a : ℕ) (owner : String)
    (at : lookup key reg.locks ≡ some a) (h : IsSound reg) where
  grant-IsSound :
      (p : WorkspacePolicy) → Admits (reg.store a) p → IsSound (grant reg key a p owner).0
  unfolding grant
  grant-IsSound p free = create_lease-IsSound reg key a p owner at free h

  admit-IsSound :
      (p : WorkspacePolicy) (ordinal : ℕ) (holder : String)
      → IsSound (admit reg key a p ordinal holder owner).0
  unfolding admit
  admit-IsSound p ordinal holder =
      if_elim Ok (holds_name s.writer_invocation_id owner) _ _
        (λ own. reenter-IsSound reg key a owner at own h)
        (λ _.
          if_elim Ok (is_shared p && not (is_some s.writer_invocation_id) && is_empty s.waiting) _ _
            (λ free. grant-IsSound p (Admits-shared s p free))
            (λ other.
              if_elim Ok
                (not (is_shared p)
                  && not (is_some s.writer_invocation_id)
                  && is_empty s.readers
                  && is_empty s.waiting)
                _ _ (λ free. grant-IsSound p (Admits-exclusive s p free))
                (λ busy.
                  enqueue-IsSound reg a p ordinal holder owner
                    (refused-IsHeld s p (h.served a) other busy) h)))
    where
      s : WorkspaceLockState
      s = reg.store a

      Ok : WorkspaceLockRegistry × Admission → Type 0
      Ok r = IsSound r.0

  try_admit-IsSound : (p : WorkspacePolicy) → IsSound (try_admit reg key a p owner).0
  unfolding try_admit
  try_admit-IsSound p =
      if_elim Ok (holds_name s.writer_invocation_id owner) _ _
        (λ own. reenter-IsSound reg key a owner at own h)
        (λ _.
          if_elim Ok (available s p) _ _
            (λ free. create_lease-IsSound reg key a p owner at (available-Admits s p free) h)
            (λ _. h))
    where
      s : WorkspaceLockState
      s = reg.store a

      Ok : WorkspaceLockRegistry × Attempt → Type 0
      Ok r = IsSound r.0

pub acquire-IsSound :
    (reg : WorkspaceLockRegistry) (key : String) (p : WorkspacePolicy) (ordinal : Option ℕ)
    (invocation_id owner_id : Option String)
    → IsSound reg
    → IsSound (acquire reg key p ordinal invocation_id owner_id).0
unfolding acquire
acquire-IsSound reg key p ordinal invocation_id owner_id h =
    let (h', at) = find_state-IsSound _ key (holder_id-IsSound reg invocation_id h) in
    admit-IsSound _ key _ _ at h' p _ _

pub try_acquire-IsSound :
    (reg : WorkspaceLockRegistry) (key : String) (p : WorkspacePolicy)
    (invocation_id owner_id : Option String)
    → IsSound reg
    → IsSound (try_acquire reg key p invocation_id owner_id).0
unfolding try_acquire
try_acquire-IsSound reg key p invocation_id owner_id h =
    let (h', at) = find_state-IsSound _ key (holder_id-IsSound reg invocation_id h) in
    try_admit-IsSound _ key _ _ at h' p
