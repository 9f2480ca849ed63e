-- ===== src/WorkspaceLock/Booked.antt =====
-- The books of the registry: every lock state agrees with the leases that are out, every such lease
-- is of the state that its key maps to, and every queue is in creation order.
use seqlane.Prelude.{
  ℕ, ◌+◌, ◌<◌, String, ◌≡◌, sym, ◌∙◌, inl, inr, false, ◌&&◌, none, some, List, [], ◌∷◌, ◌++◌,
  if◌then◌else◌, Option-cases, lookup, lookup-insert, update_All, get_elem?, get_elem?-append_one,
  update, IsRanked, ◌==◌, eq_iff, arith,
}
use seqlane.WorkspaceLock.State.{
  WorkspacePolicy, shared, exclusive, WorkspaceLockState, WorkspaceLockLease, WaitingWorkspaceLock,
  WorkspaceLockRegistry, blank_state, empty_registry, create_state, find_state,
}
use seqlane.WorkspaceLock.Held.{held, held-append, held_none, same_policy}
use seqlane.WorkspaceLock.Tally.{Tally, blank-Tally}

abbrev pub ordinal_of : WaitingWorkspaceLock → ℕ
ordinal_of w = w.creation_ordinal

abbrev pub TallyAt : WorkspaceLockState → ℕ → List WorkspaceLockLease → Type 0
TallyAt s a ls = Tally s (λ o. held shared a o ls) (λ o. held exclusive a o ls)

pub record IsBooked (reg : WorkspaceLockRegistry) : Type 0 where
  pub tallied : (a : ℕ) → TallyAt (reg.store a) a reg.leases
  pub mapped :
      (i : ℕ) (l : WorkspaceLockLease)
      → get_elem? reg.leases i ≡ some l
      → l.released ≡ false
      → lookup l.resource_key reg.locks ≡ some l.state
  pub allocated : (key : String) (a : ℕ) → lookup key reg.locks ≡ some a → a < reg.next_state
  pub ordered : (a : ℕ) → IsRanked ordinal_of (reg.store a).waiting

pub Tally-cong :
    (s : WorkspaceLockState) (rs rs' ws ws' : String → ℕ)
    → ((o : String) → rs o ≡ rs' o)
    → ((o : String) → ws o ≡ ws' o)
    → Tally s rs ws
    → Tally s rs' ws'
Tally-cong s rs rs' ws ws' p q t = record {
  readers_held = λ o. t.readers_held o ∙ p o;
  writer_held = λ o. t.writer_held o ∙ q o;
  readers_used = t.readers_used;
  excludes = t.excludes;
}

pub empty-IsBooked : IsBooked empty_registry
unfolding empty_registry lookup held blank_state
empty-IsBooked = record {
  tallied = λ a. blank-Tally;
  mapped = λ i l e r. absurd (cc);
  allocated = λ key a e. absurd (cc);
  ordered = λ a. tt;
}

-- No lease is out of a state that is not allocated.
fresh-held :
    (p : WorkspacePolicy) (o : String) (reg : WorkspaceLockRegistry)
    → IsBooked reg
    → held p reg.next_state o reg.leases ≡ 0
fresh-held p o reg b =
    held_none p reg.next_state o reg.leases (λ i l e r same.
      let lt = b.allocated l.resource_key l.state (b.mapped i l e r) in omega arith)

create_state-IsBooked :
    (reg : WorkspaceLockRegistry) (key : String)
    → lookup key reg.locks ≡ none
    → IsBooked reg
    → IsBooked (create_state reg key).0
unfolding create_state blank_state
create_state-IsBooked reg key missing b = record {
  tallied =
      update_All (λ a s. TallyAt s a reg.leases) reg.store reg.next_state _
        (Tally-cong _ _ _ _ _ (λ o. sym (fresh-held shared o reg b))
          (λ o. sym (fresh-held exclusive o reg b)) blank-Tally)
        (λ a _. b.tallied a);
  mapped = λ i l e r. ground (
    arith,
    b.mapped i l e r,
    missing,
    lookup-insert key l.resource_key reg.next_state reg.locks,
    eq_iff key l.resource_key,
  );
  allocated =
      λ k a e. ground (arith, b.allocated k a, lookup-insert key k reg.next_state reg.locks);
  ordered =
      update_All (λ a s. IsRanked ordinal_of s.waiting) reg.store reg.next_state _ tt
        (λ a _. b.ordered a);
}

-- A lock state is found for every key, and the books stay right.
pub find_state-IsBooked :
    (reg : WorkspaceLockRegistry) (key : String)
    → IsBooked reg
    → IsBooked (find_state reg key).0
      × (lookup key (find_state reg key).0.locks ≡ some (find_state reg key).1)
unfolding find_state
find_state-IsBooked reg key b = elim (Option-cases (lookup key reg.locks)) [
  | inl e ↦
      rw (e, find_state)
        (
          create_state-IsBooked reg key e b,
          unfold create_state in
              ground (arith, lookup-insert key key reg.next_state reg.locks, eq_iff key key),
        )
  | inr (a, e) ↦ rw (e, find_state) (b, e)
]

abbrev pub lease_of : String → ℕ → WorkspacePolicy → String → WorkspaceLockLease
lease_of key a p id = record {
  resource_key = key;
  state = a;
  policy = p;
  invocation_id = id;
  released = false;
}

-- The owner's count under one policy grows by one, all others stay.
abbrev pub raised : WorkspacePolicy → WorkspacePolicy → (String → ℕ) → String → String → ℕ
raised p q f id o = f o + (if same_policy p q && id == o then 1 else 0)

-- A write of one state, and a lease of it goes out.
pub lease_out-IsBooked :
    (reg : WorkspaceLockRegistry) (key : String) (a : ℕ) (p : WorkspacePolicy) (id : String)
    (s : WorkspaceLockState)
    → lookup key reg.locks ≡ some a
    → Tally s
        (raised p shared (λ o. held shared a o reg.leases) id)
        (raised p exclusive (λ o. held exclusive a o reg.leases) id)
    → IsRanked ordinal_of s.waiting
    → IsBooked reg
    → IsBooked (record reg {
      store = update reg.store a s;
      leases = reg.leases ++ lease_of key a p id ∷ [];
    })
lease_out-IsBooked reg key a p id s at t ranked b = record {
  tallied =
      update_All (λ c z. TallyAt z c (reg.leases ++ lease_of key a p id ∷ [])) reg.store a s
        (Tally-cong s _ _ _ _
          (λ o. ground (arith, held-append shared a o reg.leases (lease_of key a p id)))
          (λ o. ground (arith, held-append exclusive a o reg.leases (lease_of key a p id))) t)
        (λ c ne.
          Tally-cong (reg.store c) _ _ _ _
            (λ o. ground (arith, held-append shared c o reg.leases (lease_of key a p id)))
            (λ o. ground (arith, held-append exclusive c o reg.leases (lease_of key a p id)))
            (b.tallied c));
  mapped = λ i l e r.
      ground (arith, b.mapped i l, get_elem?-append_one reg.leases (lease_of key a p id) i l e);
  allocated = b.allocated;
  ordered =
      update_All (λ c z. IsRanked ordinal_of z.waiting) reg.store a s ranked (λ c _. b.ordered c);
}

-- A write of one state that leaves its leases as they are.
pub rewrite-IsBooked :
    (reg : WorkspaceLockRegistry) (a : ℕ) (s : WorkspaceLockState)
    → TallyAt s a reg.leases
    → IsRanked ordinal_of s.waiting
    → IsBooked reg
    → IsBooked (record reg { store = update reg.store a s })
rewrite-IsBooked reg a s t ranked b = record {
  tallied = update_All (λ c z. TallyAt z c reg.leases) reg.store a s t (λ c _. b.tallied c);
  mapped = b.mapped;
  allocated = b.allocated;
  ordered =
      update_All (λ c z. IsRanked ordinal_of z.waiting) reg.store a s ranked (λ c _. b.ordered c);
}
