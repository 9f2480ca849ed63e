-- ===== src/WorkspaceLock/Granted.antt =====
-- `#grantWaiting` of libs/runtime/src/runtime/workspace/workspace-lock.ts: the books stay right,
-- and afterwards nobody waits for a lock that nobody holds.
use seqlane.Prelude.{
  update_All, ℕ, String, ◌≡◌, ◌≢◌, refl, sym, inl, inr, subst, ◌||◌, none, some, List, [], ◌∷◌,
  is_some, is_empty, num_eq, Bool-cases, if_elim, List-cases, lookup, update, update_self,
  update_twice, IsRanked, arith,
}
use seqlane.WorkspaceLock.State.{
  WorkspacePolicy, shared, exclusive, WorkspaceLockState, WaitingWorkspaceLock,
  WorkspaceLockRegistry, enter, create_lease, policy_elim,
}
use seqlane.WorkspaceLock.Release.{resolve_waiting, grant_readers, grant_first, grant_waiting}
use seqlane.WorkspaceLock.Tally.{Tally}
use seqlane.WorkspaceLock.Booked.{IsBooked, ordinal_of, lease_out-IsBooked}
use seqlane.WorkspaceLock.Admitted.{
  IsSound, IsServed, Admits, enter-waiting, enter-IsServed, enter-Tally,
}

-- The books are right, and every lock but the one at `a` is served.
pub record IsSettling (reg : WorkspaceLockRegistry) (a : ℕ) : Type 0 where
  pub booked : IsBooked reg
  pub served : (c : ℕ) → c ≢ a → IsServed (reg.store c)

settled :
    (reg : WorkspaceLockRegistry) (a : ℕ) → IsServed (reg.store a) → IsSettling reg a → IsSound reg
settled reg a here h = record {
  booked = h.booked;
  served = λ c. elim (Bool-cases (num_eq a c)) [
    | inl e ↦ let same : a ≡ c = ground arith in rw same at here
    | inr e ↦ h.served c (ground arith)
  ];
}

Tally-waiting :
    (s : WorkspaceLockState) (rs ws : String → ℕ) (rest : List WaitingWorkspaceLock)
    → Tally s rs ws
    → Tally (record s { waiting = rest }) rs ws
Tally-waiting s rs ws rest t = record {
  readers_held = t.readers_held;
  writer_held = t.writer_held;
  readers_used = t.readers_used;
  excludes = t.excludes;
}

Admits-waiting :
    (s : WorkspaceLockState) (p : WorkspacePolicy) (rest : List WaitingWorkspaceLock)
    → Admits s p
    → Admits (record s { waiting = rest }) p
Admits-waiting s shared rest h = h
Admits-waiting s exclusive rest h = h

pub resolve_waiting-store :
    (reg : WorkspaceLockRegistry) (key : String) (a : ℕ) (w : WaitingWorkspaceLock)
    (rest : List WaitingWorkspaceLock)
    → (resolve_waiting reg key a w rest).store
      ≡ update reg.store a (enter (record (reg.store a) { waiting = rest }) w.policy w.owner_id)
unfolding resolve_waiting create_lease
resolve_waiting-store reg key a w rest =
    let s : WorkspaceLockState = record (reg.store a) { waiting = rest } in
    rw (update_self reg.store a s) (update_twice reg.store a s _)

-- The head of the queue gets its lease where the state lets it in.
resolve_waiting-IsSound :
    (reg : WorkspaceLockRegistry) (key : String) (a : ℕ) (w : WaitingWorkspaceLock)
    (rest : List WaitingWorkspaceLock)
    → lookup key reg.locks ≡ some a
    → Admits (reg.store a) w.policy
    → IsRanked ordinal_of rest
    → IsSettling reg a
    → IsSound (resolve_waiting reg key a w rest)
unfolding resolve_waiting create_lease
resolve_waiting-IsSound reg key a w rest at free ranked h =
    let s : WorkspaceLockState = record (reg.store a) { waiting = rest } in
    let b =
      lease_out-IsBooked reg key a w.policy w.owner_id (enter s w.policy w.owner_id) at
        (enter-Tally s w.policy w.owner_id _ _ (Admits-waiting (reg.store a) w.policy rest free)
          (Tally-waiting (reg.store a) _ _ rest (h.booked.tallied a)))
        (rw (enter-waiting s w.policy w.owner_id) ranked) h.booked in
    rw (update_self reg.store a s, update_twice reg.store a s (enter s w.policy w.owner_id))
      (record {
        booked = record {
          tallied = b.tallied;
          mapped = b.mapped;
          allocated = b.allocated;
          ordered = b.ordered;
        };
        served =
            update_All (λ c z. IsServed z) reg.store a _ (enter-IsServed s w.policy w.owner_id)
              h.served;
      })

resolve_waiting-locks :
    (reg : WorkspaceLockRegistry) (key : String) (a : ℕ) (w : WaitingWorkspaceLock)
    (rest : List WaitingWorkspaceLock)
    → (resolve_waiting reg key a w rest).locks ≡ reg.locks
unfolding resolve_waiting create_lease
resolve_waiting-locks reg key a w rest = refl

grant_readers-locks :
    (ws : List WaitingWorkspaceLock) (reg : WorkspaceLockRegistry) (key : String) (a : ℕ)
    → (grant_readers reg key a ws).locks ≡ reg.locks
unfolding grant_readers
grant_readers-locks [] reg key a = refl
grant_readers-locks (w ∷ rest) reg key a = ground (
  arith,
  grant_readers-locks rest (resolve_waiting reg key a w rest) key a,
  resolve_waiting-locks reg key a w rest,
)

pub grant_waiting-locks :
    (reg : WorkspaceLockRegistry) (key : String) (a : ℕ)
    → (grant_waiting reg key a).locks ≡ reg.locks
unfolding grant_waiting grant_first
grant_waiting-locks reg key a = elim (List-cases (reg.store a).waiting) [
  | inl e ↦ ground arith
  | inr (w, rest, e) ↦
      ground
        (arith, grant_readers-locks (w ∷ rest) reg key a, resolve_waiting-locks reg key a w rest)
]

-- A reader leaves the lock without a writer.
enter_reader-free :
    (s : WorkspaceLockState) (p : WorkspacePolicy) (id : String)
    → p ≡ shared
    → s.writer_invocation_id ≡ none
    → (enter s p id).writer_invocation_id ≡ none
unfolding enter
enter_reader-free s shared id e free = free
enter_reader-free s exclusive id e free = cc

resolve_reader-free :
    (reg : WorkspaceLockRegistry) (key : String) (a : ℕ) (w : WaitingWorkspaceLock)
    (rest : List WaitingWorkspaceLock)
    → w.policy ≡ shared
    → (reg.store a).writer_invocation_id ≡ none
    → ((resolve_waiting reg key a w rest).store a).writer_invocation_id ≡ none
resolve_reader-free reg key a w rest e free =
    let s : WorkspaceLockState = record (reg.store a) { waiting = rest } in
    rw
      (
        resolve_waiting-store reg key a w rest,
        update_self reg.store a (enter s w.policy w.owner_id),
      )
      (enter_reader-free s w.policy w.owner_id e free)

-- The loop lets in the readers at the head of the queue.
grant_readers-IsSound :
    (ws : List WaitingWorkspaceLock) (reg : WorkspaceLockRegistry) (key : String) (a : ℕ)
    → lookup key reg.locks ≡ some a
    → (reg.store a).writer_invocation_id ≡ none
    → IsRanked ordinal_of ws
    → IsSound reg
    → IsSound (grant_readers reg key a ws)
unfolding grant_readers
grant_readers-IsSound [] reg key a at free ranked h = h
grant_readers-IsSound (w ∷ rest) reg key a at free ranked h =
    policy_elim IsSound w.policy _ _
      (λ e.
        grant_readers-IsSound rest (resolve_waiting reg key a w rest) key a
          (rw (resolve_waiting-locks reg key a w rest) at)
          (resolve_reader-free reg key a w rest e free) ranked.1
          (resolve_waiting-IsSound reg key a w rest at (subst (Admits (reg.store a)) (sym e) free)
            ranked.1 (record { booked = h.booked; served = λ c _. h.served c })))
      (λ _. h)

grant_first-IsSound :
    (ws : List WaitingWorkspaceLock) (reg : WorkspaceLockRegistry) (key : String) (a : ℕ)
    → (reg.store a).waiting ≡ ws
    → lookup key reg.locks ≡ some a
    → (reg.store a).writer_invocation_id ≡ none
    → IsSettling reg a
    → IsSound (grant_first reg key a ws)
unfolding grant_first grant_readers
grant_first-IsSound [] reg key a e at free h = settled reg a (inl e) h
grant_first-IsSound (w ∷ rest) reg key a e at free h =
    policy_elim IsSound w.policy _ _
      (λ p.
        policy_elim IsSound w.policy _ _
          (λ _.
            grant_readers-IsSound rest (resolve_waiting reg key a w rest) key a
              (rw (resolve_waiting-locks reg key a w rest) at)
              (resolve_reader-free reg key a w rest p free) ranked.1
              (resolve_waiting-IsSound reg key a w rest at
                (subst (Admits (reg.store a)) (sym p) free) ranked.1 h))
          (λ q. cc))
      (λ p.
        if_elim IsSound (is_empty (reg.store a).readers) _ _
          (λ alone.
            resolve_waiting-IsSound reg key a w rest at
              (subst (Admits (reg.store a)) (sym p) (free, ground arith)) ranked.1 h)
          (λ shared_out. settled reg a (ground arith) h))
  where
    ranked : IsRanked ordinal_of (w ∷ rest)
    ranked = subst (IsRanked ordinal_of) e (h.booked.ordered a)

-- The last step of a release serves the lock that it is about.
pub grant_waiting-IsSound :
    (reg : WorkspaceLockRegistry) (key : String) (a : ℕ)
    → lookup key reg.locks ≡ some a
    → IsSettling reg a
    → IsSound (grant_waiting reg key a)
unfolding grant_waiting
grant_waiting-IsSound reg key a at h =
    if_elim IsSound (is_some s.writer_invocation_id || is_empty s.waiting) _ _
      (λ e. settled reg a (ground arith) h)
      (λ e. grant_first-IsSound s.waiting reg key a refl at (ground arith) h)
  where
    s : WorkspaceLockState
    s = reg.store a
