-- ===== src/SessionLock/Returned.antt =====
-- The release of a lease keeps the registry of session-lock.ts sound.
use seqlane.Prelude.{
  ℕ, ◌+◌, ◌≡◌, ◌≢◌, refl, sym, subst, inl, inr, true, false, none, some, List, [], ◌∷◌, ◌++◌,
  num_eq, if◌then◌else◌, if_elim, is_some, Option-cases, Bool-cases, lookup, lookup-erase,
  get_elem?, set, get_elem?-set_cases, update_self, update_twice, update_All, IsRanked, eq_iff,
  arith,
}
use seqlane.SessionLock.State.{
  WaitingSessionLock, SessionLockState, SessionLockLease, SessionLockRegistry, create_lease,
  notify_change,
}
use seqlane.SessionLock.Calls.{hand_over, release_state, mark_released, release}
use seqlane.SessionLock.Held.{held, held-set_released, one-le-held, counts}
use seqlane.SessionLock.Booked.{IsFit, IsSound, ordinal_of, lease_out-IsSound}

module _ {C : Type 0} where
  -- The leases once the one at `i` is released.
  abbrev left_leases : SessionLockRegistry C → ℕ → SessionLockLease → List SessionLockLease
  left_leases reg i l = set reg.leases i (record l { released = true })

  module _ (reg : SessionLockRegistry C) (i : ℕ) (l : SessionLockLease)
      (found : get_elem? reg.leases i ≡ some l) (out : l.released ≡ false) (h : IsSound reg) where
    -- The registry of `#release` after `#notifyChange`.
    abbrev left : SessionLockRegistry C
    left = record reg {
      leases = left_leases reg i l;
      notified = reg.notified ++ reg.change_waiters;
      change_waiters = [];
    }

    gone :
        (c : ℕ) → held c (left_leases reg i l) + (if counts c l then 1 else 0) ≡ held c reg.leases
    gone c = held-set_released c reg.leases i l found

    others-IsFit : (c : ℕ) → c ≢ l.state → IsFit (reg.store c) (held c (left_leases reg i l))
    others-IsFit c ne = subst (IsFit (reg.store c)) (ground (arith, gone c)) (h.fit c)

    left-mapped :
        (j : ℕ) (m : SessionLockLease)
        → get_elem? (left_leases reg i l) j ≡ some m
        → m.released ≡ false
        → lookup m.session_key reg.locks ≡ some m.state
    left-mapped j m e r =
        ground (
          arith,
          h.mapped j m,
          get_elem?-set_cases reg.leases i (record l { released = true }) j m e,
        )

    kept-IsSound : is_some (reg.store l.state).quarantined ≡ true → IsSound left
    kept-IsSound q = record {
      fit = λ c. elim (Bool-cases (num_eq l.state c)) [
        | inl e ↦
            let same : l.state ≡ c = ground arith in
            subst (λ c. IsFit (reg.store c) (held c (left_leases reg i l))) same
              (let f = h.fit l.state in
                record {
                  bounded = omega (arith, gone l.state, f.bounded);
                  counted = λ e. ground arith;
                  quiet = f.quiet;
                  served = f.served;
                  ordered = f.ordered;
                })
        | inr e ↦ others-IsFit c (ground arith)
      ];
      mapped = left-mapped;
      allocated = h.allocated;
    }

    -- The only lease of the state was the one that came back.
    none-held : (reg.store l.state).quarantined ≡ none → held l.state (left_leases reg i l) ≡ 0
    none-held sane = ground (arith, gone l.state, (h.fit l.state).counted sane)

    hand_over-IsSound :
        (ws : List WaitingSessionLock)
        → (reg.store l.state).waiting ≡ ws
        → (reg.store l.state).quarantined ≡ none
        → IsSound (hand_over left l.session_key l.state ws)
    unfolding hand_over create_lease
    hand_over-IsSound [] e sane = record {
      fit =
          update_All (λ c z. IsFit z (held c (left_leases reg i l))) reg.store l.state _
            (subst (IsFit (record (reg.store l.state) { busy = false })) (sym (none-held sane))
              (record {
                bounded = omega arith;
                counted = λ _. refl;
                quiet = λ _. e;
                served = inl e;
                ordered = rw e tt;
              }))
            others-IsFit;
      mapped = λ j m f r. ground (
        arith,
        left-mapped j m f r,
        h.mapped i l found out,
        none-held sane,
        one-le-held l.state (left_leases reg i l) j m f,
        lookup-erase l.session_key m.session_key reg.locks,
        eq_iff l.session_key m.session_key,
      );
      allocated = λ k a e. ground (arith, h.allocated k a, lookup-erase l.session_key k reg.locks);
    }
    hand_over-IsSound (w ∷ rest) e sane =
        let s : SessionLockState C = record (reg.store l.state) { waiting = rest } in
        let r =
          lease_out-IsSound left l.session_key l.state (record s { busy = true })
            (h.mapped i l found out)
            (subst (IsFit (record s { busy = true })) (ground (arith, none-held sane)) (record {
              bounded = omega arith;
              counted = λ _. refl;
              quiet = λ q. ground arith;
              served = inr refl;
              ordered = (subst (IsRanked ordinal_of) e (h.fit l.state).ordered).1;
            }))
            others-IsFit left-mapped h.allocated in
        rw
          (
            update_self reg.store l.state s,
            update_twice reg.store l.state s (record s { busy = true }),
          )
          (record { fit = r.fit; mapped = r.mapped; allocated = r.allocated })

    release_left-IsSound : IsSound (release_state (mark_released reg i l) l.session_key l.state)
    unfolding release_state mark_released notify_change
    release_left-IsSound =
        if_elim IsSound (is_some (reg.store l.state).quarantined) _ _ (λ q. kept-IsSound q)
          (λ sane. hand_over-IsSound (reg.store l.state).waiting refl (ground arith))

  pub release-IsSound :
      (reg : SessionLockRegistry C) (i : ℕ) → IsSound reg → IsSound (release reg i)
  unfolding release
  release-IsSound reg i h = elim (Option-cases (get_elem? reg.leases i)) [
    | inl e ↦ rw (e, release) h
    | inr (l, e) ↦
        rw (e, release)
          (if_elim IsSound l.released _ _ (λ _. h) (λ out. release_left-IsSound reg i l e out h))
  ]
