-- ===== src/WorkspaceLock/Admitted.antt =====
-- `acquire` and `tryAcquire` keep the books, and let nobody wait for a lock that nobody holds.
use seqlane.Prelude.{
  update_All, ℕ, ◌+◌, String, ◌≡◌, ◌≢◌, refl, ◌⊎◌, inl, inr, true, false, ◌&&◌, not, Option, none,
  some, [], is_some, is_empty, holds_name, Option-cases, lookup, update_self, update_twice, sort,
  sort-IsRanked, insert-ne-nil, arith,
}
use seqlane.WorkspaceLock.State.{
  WorkspacePolicy, shared, exclusive, is_shared, WorkspaceLockState, WorkspaceLockRegistry, enter,
  find_state, create_lease, available, blank_state,
}
use seqlane.WorkspaceLock.Admit.{holder_id, reenter, enqueue}
use seqlane.WorkspaceLock.Tally.{Tally, enter_shared-Tally, enter_exclusive-Tally, reenter-Tally}
use seqlane.WorkspaceLock.Booked.{
  IsBooked, ordinal_of, find_state-IsBooked, lease_out-IsBooked, rewrite-IsBooked, raised,
  Tally-cong,
}

-- Nobody waits unless somebody holds the lock.
abbrev pub IsServed : WorkspaceLockState → Type 0
IsServed s = (s.waiting ≡ []) ⊎ (is_some s.writer_invocation_id ≡ true) ⊎ (s.readers ≢ [])

pub record IsSound (reg : WorkspaceLockRegistry) : Type 0 where
  pub booked : IsBooked reg
  pub served : (a : ℕ) → IsServed (reg.store a)

find_state-IsServed :
    (reg : WorkspaceLockRegistry) (key : String)
    → ((a : ℕ) → IsServed (reg.store a))
    → (a : ℕ) → IsServed ((find_state reg key).0.store a)
unfolding find_state blank_state
find_state-IsServed reg key h = elim (Option-cases (lookup key reg.locks)) [
  | inl e ↦
      rw (e, find_state)
        (update_All (λ c s. IsServed s) reg.store reg.next_state _ (inl refl) (λ c _. h c))
  | inr (a, e) ↦ rw (e, find_state) h
]

pub find_state-IsSound :
    (reg : WorkspaceLockRegistry) (key : String)
    → IsSound reg
    → IsSound (find_state reg key).0
      × (lookup key (find_state reg key).0.locks ≡ some (find_state reg key).1)
find_state-IsSound reg key h =
    let (b, at) = find_state-IsBooked reg key h.booked in
    (record { booked = b; served = find_state-IsServed reg key h.served }, at)

pub enter-waiting :
    (s : WorkspaceLockState) (p : WorkspacePolicy) (id : String)
    → (enter s p id).waiting ≡ s.waiting
unfolding enter
enter-waiting s shared id = refl
enter-waiting s exclusive id = ground arith

-- Whoever enters holds the lock.
pub enter-IsServed :
    (s : WorkspaceLockState) (p : WorkspacePolicy) (id : String) → IsServed (enter s p id)
unfolding enter
enter-IsServed s shared id = inr (inr (insert-ne-nil id _ s.readers))
enter-IsServed s exclusive id = ground arith

-- A policy under which the state lets the owner in at once.
abbrev pub Admits : WorkspaceLockState → WorkspacePolicy → Type 0
Admits s shared = s.writer_invocation_id ≡ none
Admits s exclusive = (s.writer_invocation_id ≡ none) × (s.readers ≡ [])

pub enter-Tally :
    (s : WorkspaceLockState) (p : WorkspacePolicy) (id : String) (rs ws : String → ℕ)
    → Admits s p
    → Tally s rs ws
    → Tally (enter s p id) (raised p shared rs id) (raised p exclusive ws id)
enter-Tally s shared id rs ws free t =
    Tally-cong _ _ _ _ _ (λ o. ground arith) (λ o. ground arith)
      (enter_shared-Tally s id rs ws free t)
enter-Tally s exclusive id rs ws free t =
    Tally-cong _ _ _ _ _ (λ o. ground arith) (λ o. ground arith)
      (enter_exclusive-Tally s id rs ws free.0 free.1 t)

-- A lease goes out to one whom the state lets in.
pub create_lease-IsSound :
    (reg : WorkspaceLockRegistry) (key : String) (a : ℕ) (p : WorkspacePolicy) (id : String)
    → lookup key reg.locks ≡ some a
    → Admits (reg.store a) p
    → IsSound reg
    → IsSound (create_lease reg key a p id).0
unfolding create_lease
create_lease-IsSound reg key a p id at free h = record {
  booked =
      lease_out-IsBooked reg key a p id (enter (reg.store a) p id) at
        (enter-Tally (reg.store a) p id _ _ free (h.booked.tallied a))
        (rw (enter-waiting (reg.store a) p id) (h.booked.ordered a)) h.booked;
  served =
      update_All (λ c s. IsServed s) reg.store a _ (enter-IsServed (reg.store a) p id)
        (λ c _. h.served c);
}

pub reenter-IsSound :
    (reg : WorkspaceLockRegistry) (key : String) (a : ℕ) (owner : String)
    → lookup key reg.locks ≡ some a
    → holds_name (reg.store a).writer_invocation_id owner ≡ true
    → IsSound reg
    → IsSound (reenter reg key a owner).0
unfolding reenter
reenter-IsSound reg key a owner at own h =
    let s = reg.store a in
    let s⁺ : WorkspaceLockState = record s { writer_depth = s.writer_depth + 1 } in
    rw (update_self reg.store a s⁺, update_twice reg.store a s⁺ (enter s⁺ exclusive owner))
      (record {
        booked =
            lease_out-IsBooked reg key a exclusive owner (enter s⁺ exclusive owner) at
              (Tally-cong _ _ _ _ _ (λ o. ground arith) (λ o. ground arith)
                (reenter-Tally s owner _ _ own (h.booked.tallied a)))
              (rw (enter-waiting s⁺ exclusive owner) (h.booked.ordered a)) h.booked;
        served =
            update_All (λ c s. IsServed s) reg.store a _ (enter-IsServed s⁺ exclusive owner)
              (λ c _. h.served c);
      })

-- Somebody holds the lock.
abbrev pub IsHeld : WorkspaceLockState → Type 0
IsHeld s = (is_some s.writer_invocation_id ≡ true) ⊎ (s.readers ≢ [])

pub enqueue-IsSound :
    (reg : WorkspaceLockRegistry) (a : ℕ) (p : WorkspacePolicy) (ordinal : ℕ)
    (holder owner : String)
    → IsHeld (reg.store a)
    → IsSound reg
    → IsSound (enqueue reg a p ordinal holder owner).0
unfolding enqueue
enqueue-IsSound reg a p ordinal holder owner busy h =
    let b =
      rewrite-IsBooked reg a (record (reg.store a) { waiting = sort _ _ })
        (let t = h.booked.tallied a in
          record {
            readers_held = t.readers_held;
            writer_held = t.writer_held;
            readers_used = t.readers_used;
            excludes = t.excludes;
          })
        (sort-IsRanked ordinal_of _) h.booked in
    record {
      booked = record {
        tallied = b.tallied;
        mapped = b.mapped;
        allocated = b.allocated;
        ordered = b.ordered;
      };
      served =
          update_All (λ c s. IsServed s) reg.store a _ (ground (arith, busy)) (λ c _. h.served c);
    }

pub holder_id-IsSound :
    (reg : WorkspaceLockRegistry) (id : Option String) → IsSound reg → IsSound (holder_id reg id).0
unfolding holder_id
holder_id-IsSound reg none h = record {
  booked = record {
    tallied = h.booked.tallied;
    mapped = h.booked.mapped;
    allocated = h.booked.allocated;
    ordered = h.booked.ordered;
  };
  served = h.served;
}
holder_id-IsSound reg (some id) h = h

pub Admits-shared :
    (s : WorkspaceLockState) (p : WorkspacePolicy)
    → (is_shared p && not (is_some s.writer_invocation_id) && is_empty s.waiting) ≡ true
    → Admits s p
Admits-shared s shared e = ground arith
Admits-shared s exclusive e = cc

pub Admits-exclusive :
    (s : WorkspaceLockState) (p : WorkspacePolicy)
    → (not (is_shared p)
        && not (is_some s.writer_invocation_id)
        && is_empty s.readers
        && is_empty s.waiting)
      ≡ true
    → Admits s p
Admits-exclusive s shared e = cc
Admits-exclusive s exclusive e = ground arith

pub available-Admits :
    (s : WorkspaceLockState) (p : WorkspacePolicy) → available s p ≡ true → Admits s p
unfolding available
available-Admits s shared e = ground arith
available-Admits s exclusive e = ground arith

pub refused-IsHeld :
    (s : WorkspaceLockState) (p : WorkspacePolicy)
    → IsServed s
    → (is_shared p && not (is_some s.writer_invocation_id) && is_empty s.waiting) ≡ false
    → (not (is_shared p)
        && not (is_some s.writer_invocation_id)
        && is_empty s.readers
        && is_empty s.waiting)
      ≡ false
    → IsHeld s
refused-IsHeld s shared h e f = ground arith
refused-IsHeld s exclusive h e f = ground arith
