-- ===== src/SessionLock/Booked.antt =====
-- The books of the session registry: a lock state agrees with the leases that are out, each of
-- which is of the state that its key maps to.
use seqlane.Prelude.{
  ℕ, ◌+◌, ◌≤◌, ◌<◌, String, ◌≡◌, ◌≢◌, refl, sym, subst, ◌⊎◌, inl, inr, true, false, none, some, [],
  ◌∷◌, ◌++◌, if◌then◌else◌, is_some, Option-cases, lookup, lookup-insert, get_elem?,
  get_elem?-append_one, update, update_All, IsRanked, eq_iff, arith,
}
use seqlane.SessionLock.State.{
  WaitingSessionLock, SessionLockState, SessionLockLease, SessionLockRegistry, idle_state,
  empty_registry, create_state, find_state,
}
use seqlane.SessionLock.Held.{held, held-append, held_none}

abbrev pub ordinal_of : WaitingSessionLock → ℕ
ordinal_of w = w.creation_ordinal

abbrev pub lease_of : String → ℕ → SessionLockLease
lease_of key a = record { session_key = key; state = a; released = false }

module _ {C : Type 0} where
  -- A lock state of which `out` leases are out.
  pub record IsFit (s : SessionLockState C) (out : ℕ) : Type 0 where
    pub bounded : out ≤ (if s.busy then 1 else 0)
    pub counted : s.quarantined ≡ none → out ≡ (if s.busy then 1 else 0)
    pub quiet : is_some s.quarantined ≡ true → s.waiting ≡ []
    pub served : (s.waiting ≡ []) ⊎ (s.busy ≡ true)
    pub ordered : IsRanked ordinal_of s.waiting

  pub record IsSound (reg : SessionLockRegistry C) : Type 0 where
    pub fit : (a : ℕ) → IsFit (reg.store a) (held a reg.leases)
    pub mapped :
        (i : ℕ) (l : SessionLockLease)
        → get_elem? reg.leases i ≡ some l
        → l.released ≡ false
        → lookup l.session_key reg.locks ≡ some l.state
    pub allocated : (key : String) (a : ℕ) → lookup key reg.locks ≡ some a → a < reg.next_state

  idle-IsFit : IsFit idle_state 0
  unfolding idle_state
  idle-IsFit = record {
    bounded = omega arith;
    counted = λ _. refl;
    quiet = λ _. refl;
    served = inl refl;
    ordered = tt;
  }

  pub empty-IsSound : IsSound empty_registry
  unfolding empty_registry lookup held
  empty-IsSound = record {
    fit = λ a. idle-IsFit;
    mapped = λ i l e r. absurd (cc);
    allocated = λ key a e. absurd (cc);
  }

  create_state-IsSound :
      (reg : SessionLockRegistry C) (key : String)
      → lookup key reg.locks ≡ none
      → IsSound reg
      → IsSound (create_state reg key).0
  unfolding create_state
  create_state-IsSound reg key missing h = record {
    fit =
        update_All (λ a s. IsFit s (held a reg.leases)) reg.store reg.next_state idle_state
          (subst (IsFit idle_state) (sym fresh) idle-IsFit) (λ a _. h.fit a);
    mapped = λ i l e r. ground (
      arith,
      h.mapped i l e r,
      missing,
      lookup-insert key l.session_key reg.next_state reg.locks,
      eq_iff key l.session_key,
    );
    allocated =
        λ k a e. ground (arith, h.allocated k a, lookup-insert key k reg.next_state reg.locks);
  }
    where
      fresh : held reg.next_state reg.leases ≡ 0
      fresh = held_none reg.next_state reg.leases (λ i l e r same.
          let lt = h.allocated l.session_key l.state (h.mapped i l e r) in omega arith)

  pub find_state-IsSound :
      (reg : SessionLockRegistry C) (key : String)
      → IsSound reg
      → IsSound (find_state reg key).0
        × (lookup key (find_state reg key).0.locks ≡ some (find_state reg key).1)
  unfolding find_state
  find_state-IsSound reg key h = elim (Option-cases (lookup key reg.locks)) [
    | inl e ↦
        rw (e, find_state)
          (
            create_state-IsSound reg key e h,
            unfold create_state in
                ground (arith, lookup-insert key key reg.next_state reg.locks, eq_iff key key),
          )
    | inr (a, e) ↦ rw (e, find_state) (h, e)
  ]

  -- A write of one state that leaves its leases as they are.
  pub rewrite-IsSound :
      (reg : SessionLockRegistry C) (a : ℕ) (s : SessionLockState C)
      → IsFit s (held a reg.leases)
      → IsSound reg
      → IsSound (record reg { store = update reg.store a s })
  rewrite-IsSound reg a s f h = record {
    fit = update_All (λ c z. IsFit z (held c reg.leases)) reg.store a s f (λ c _. h.fit c);
    mapped = h.mapped;
    allocated = h.allocated;
  }

  -- A write of one state, and a lease of it goes out.
  pub lease_out-IsSound :
      (reg : SessionLockRegistry C) (key : String) (a : ℕ) (s : SessionLockState C)
      → lookup key reg.locks ≡ some a
      → IsFit s (held a reg.leases + 1)
      → ((c : ℕ) → c ≢ a → IsFit (reg.store c) (held c reg.leases))
      → ((i : ℕ) (l : SessionLockLease)
          → get_elem? reg.leases i ≡ some l
          → l.released ≡ false
          → lookup l.session_key reg.locks ≡ some l.state)
      → ((key : String) (a : ℕ) → lookup key reg.locks ≡ some a → a < reg.next_state)
      → IsSound
          (record reg { store = update reg.store a s; leases = reg.leases ++ lease_of key a ∷ [] })
  lease_out-IsSound reg key a s at f others mapped allocated = record {
    fit =
        update_All (λ c z. IsFit z (held c (reg.leases ++ lease_of key a ∷ []))) reg.store a s
          (subst (IsFit s) (ground (arith, held-append a reg.leases (lease_of key a))) f)
          (λ c ne.
            subst (IsFit (reg.store c)) (ground (arith, held-append c reg.leases (lease_of key a)))
              (others c ne));
    mapped = λ i l e r.
        ground (arith, mapped i l, get_elem?-append_one reg.leases (lease_of key a) i l e);
    allocated = allocated;
  }
