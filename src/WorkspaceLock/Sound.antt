-- ===== src/WorkspaceLock/Sound.antt =====
-- Every history of calls keeps the registry of workspace-lock.ts sound.
use seqlane.Prelude.{
  update_All, ℕ, ◌+◌, String, ◌≡◌, ◌≢◌, refl, sym, inl, inr, true, false, some, List, [], ◌∷◌, ◌++◌,
  if◌then◌else◌, if_elim, Option-cases, lookup, lookup-erase, get_elem?, set, get_elem?-set_cases,
  update, IsRanked, eq_iff, arith,
}
use seqlane.WorkspaceLock.State.{
  WorkspacePolicy, shared, exclusive, WorkspaceLockState, WorkspaceLockLease, WorkspaceLockRegistry,
  empty_registry, blank_state, notify_change, wait_for_change,
}
use seqlane.WorkspaceLock.Release.{
  leave, is_idle, forget_idle, release_state, mark_released, release,
}
use seqlane.WorkspaceLock.Machine.{Call, acquires, tries, releases, awaits_change, step, run}
use seqlane.WorkspaceLock.Held.{held, held-set_released, held_pos, counts}
use seqlane.WorkspaceLock.Tally.{Tally, leave_shared-Tally, leave_exclusive-Tally}
use seqlane.WorkspaceLock.Booked.{IsBooked, TallyAt, Tally-cong, ordinal_of, raised, empty-IsBooked}
use seqlane.WorkspaceLock.Admitted.{IsSound, IsServed}
use seqlane.WorkspaceLock.Acquired.{acquire-IsSound, try_acquire-IsSound}
use seqlane.WorkspaceLock.Granted.{IsSettling, grant_waiting-IsSound, grant_waiting-locks}

leave-Tally :
    (s : WorkspaceLockState) (p : WorkspacePolicy) (id : String) (rs ws : String → ℕ)
    → Tally s (raised p shared rs id) (raised p exclusive ws id)
    → Tally (leave s p id) rs ws
leave-Tally s shared id rs ws t =
    leave_shared-Tally s id rs ws (Tally-cong _ _ _ _ _ (λ o. ground arith) (λ o. ground arith) t)
leave-Tally s exclusive id rs ws t =
    leave_exclusive-Tally s id rs ws
      (Tally-cong _ _ _ _ _ (λ o. ground arith) (λ o. ground arith) t)

pub leave-waiting :
    (s : WorkspaceLockState) (p : WorkspacePolicy) (id : String)
    → (leave s p id).waiting ≡ s.waiting
unfolding leave
leave-waiting s shared id = ground arith
leave-waiting s exclusive id = ground arith

-- The registry of `#release` when the lease `l` has left its lock state.
abbrev pub left : WorkspaceLockRegistry → ℕ → WorkspaceLockLease → WorkspaceLockRegistry
left reg i l = record reg {
  leases = set reg.leases i (record l { released = true });
  notified = reg.notified ++ reg.change_waiters;
  change_waiters = [];
  store = update reg.store l.state (leave (reg.store l.state) l.policy l.invocation_id);
}

module _ (reg : WorkspaceLockRegistry) (i : ℕ) (l : WorkspaceLockLease)
    (found : get_elem? reg.leases i ≡ some l) (out : l.released ≡ false) (h : IsSound reg) where
  gone :
      (p : WorkspacePolicy) (c : ℕ) (o : String)
      → held p c o reg.leases
        ≡ held p c o (set reg.leases i (record l { released = true }))
          + (if counts p c o l then 1 else 0)
  gone p c o = sym (held-set_released p c o reg.leases i l found)

  left-TallyAt :
      (c : ℕ) → TallyAt ((left reg i l).store c) c (set reg.leases i (record l { released = true }))
  left-TallyAt =
      update_All (λ c z. TallyAt z c (set reg.leases i (record l { released = true }))) reg.store
        l.state _
        (leave-Tally (reg.store l.state) l.policy l.invocation_id _ _ (
          Tally-cong _ _ _ _ _ (λ o. ground (arith, gone shared l.state o))
            (λ o. ground (arith, gone exclusive l.state o)) (h.booked.tallied l.state)))
        (λ c ne.
          Tally-cong _ _ _ _ _ (λ o. ground (arith, gone shared c o))
            (λ o. ground (arith, gone exclusive c o)) (h.booked.tallied c))

  left-IsSettling : IsSettling (left reg i l) l.state
  left-IsSettling = record {
    booked = record {
      tallied = left-TallyAt;
      mapped = λ j m e r. ground (
        arith,
        h.booked.mapped j m,
        get_elem?-set_cases reg.leases i (record l { released = true }) j m e,
      );
      allocated = h.booked.allocated;
      ordered =
          update_All (λ c z. IsRanked ordinal_of z.waiting) reg.store l.state _
            (rw (leave-waiting (reg.store l.state) l.policy l.invocation_id)
              (h.booked.ordered l.state))
            (λ c _. h.booked.ordered c);
    };
    served =
        update_All (λ c z. c ≢ l.state → IsServed z) reg.store l.state _ (λ ne. absurd (ne refl))
          (λ c _ _. h.served c);
  }

-- Nobody has a lease of an idle lock state.
idle-held :
    (reg : WorkspaceLockRegistry) (a : ℕ) (p : WorkspacePolicy) (o : String)
    → is_idle (reg.store a) ≡ true
    → IsBooked reg
    → held p a o reg.leases ≡ 0
unfolding is_idle lookup
idle-held reg a shared o idle b = ground (arith, (b.tallied a).readers_held o)
idle-held reg a exclusive o idle b = ground (arith, (b.tallied a).writer_held o)

forget_idle-IsSound :
    (reg : WorkspaceLockRegistry) (key : String) (a : ℕ)
    → lookup key reg.locks ≡ some a
    → IsSound reg
    → IsSound (forget_idle reg key a)
unfolding forget_idle
forget_idle-IsSound reg key a at h =
    if_elim IsSound (is_idle (reg.store a)) _ _
      (λ idle. record {
        booked = record {
          tallied = h.booked.tallied;
          mapped = λ i l e r.
              let m = h.booked.mapped i l e r in
              ground (
                arith,
                m,
                at,
                lookup-erase key l.resource_key reg.locks,
                eq_iff key l.resource_key,
                eq_iff l.invocation_id l.invocation_id,
                held_pos reg.leases i l l.policy a l.invocation_id e,
                idle-held reg a l.policy l.invocation_id idle h.booked,
              );
          allocated = λ k c e. ground (arith, h.booked.allocated k c, lookup-erase key k reg.locks);
          ordered = h.booked.ordered;
        };
        served = h.served;
      })
      (λ _. h)

release_state-IsSound :
    (reg : WorkspaceLockRegistry) (i : ℕ) (l : WorkspaceLockLease)
    → get_elem? reg.leases i ≡ some l
    → l.released ≡ false
    → IsSound reg
    → IsSound
        (release_state (mark_released reg i l) l.resource_key l.state l.policy l.invocation_id)
unfolding release_state mark_released notify_change
release_state-IsSound reg i l found out h =
    let at = h.booked.mapped i l found out in
    forget_idle-IsSound _ l.resource_key l.state
      (rw (grant_waiting-locks (left reg i l) l.resource_key l.state) at)
      (grant_waiting-IsSound (left reg i l) l.resource_key l.state at
        (left-IsSettling reg i l found out h))

release-IsSound : (reg : WorkspaceLockRegistry) (i : ℕ) → IsSound reg → IsSound (release reg i)
unfolding release
release-IsSound reg i h = elim (Option-cases (get_elem? reg.leases i)) [
  | inl e ↦ rw (e, release) h
  | inr (l, e) ↦
      rw (e, release)
        (if_elim IsSound l.released _ _ (λ _. h) (λ out. release_state-IsSound reg i l e out h))
]

wait_for_change-IsSound :
    (reg : WorkspaceLockRegistry) → IsSound reg → IsSound (wait_for_change reg).0
unfolding wait_for_change
wait_for_change-IsSound reg h = record {
  booked = record {
    tallied = h.booked.tallied;
    mapped = h.booked.mapped;
    allocated = h.booked.allocated;
    ordered = h.booked.ordered;
  };
  served = h.served;
}

-- A call keeps the registry sound: its books are right, and nobody waits for a lock that is free.
pub step-IsSound :
    (reg : WorkspaceLockRegistry) (call : Call) → IsSound reg → IsSound (step reg call)
unfolding step
step-IsSound reg (acquires key policy ordinal invocation_id owner_id) h =
    acquire-IsSound reg key policy ordinal invocation_id owner_id h
step-IsSound reg (tries key policy invocation_id owner_id) h =
    try_acquire-IsSound reg key policy invocation_id owner_id h
step-IsSound reg (releases lease) h = release-IsSound reg lease h
step-IsSound reg awaits_change h = wait_for_change-IsSound reg h

run_from-IsSound :
    (calls : List Call) (reg : WorkspaceLockRegistry) → IsSound reg → IsSound (run reg calls)
unfolding run
run_from-IsSound [] reg h = h
run_from-IsSound (call ∷ calls) reg h =
    run_from-IsSound calls (step reg call) (step-IsSound reg call h)

empty-IsSound : IsSound empty_registry
unfolding empty_registry blank_state
empty-IsSound = record { booked = empty-IsBooked; served = λ a. inl refl }

-- After any history of calls the registry is sound.
pub run-IsSound : (calls : List Call) → IsSound (run empty_registry calls)
run-IsSound calls = run_from-IsSound calls empty_registry empty-IsSound
