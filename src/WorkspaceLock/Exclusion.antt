-- ===== src/WorkspaceLock/Exclusion.antt =====
-- Who can hold a workspace lock of workspace-lock.ts at the same time, and who waits.
use seqlane.Prelude.{
  ℕ, suc, ◌<◌, String, ◌≡◌, ◌≢◌, refl, inl, inr, true, false, some, List, [], ◌∷◌, Bool-cases,
  Option-cases, List-cases, lookup, get_elem?, eq_iff, arith,
}
use seqlane.WorkspaceLock.State.{
  WorkspacePolicy, shared, exclusive, WorkspaceLockLease, WorkspaceLockRegistry, empty_registry,
}
use seqlane.WorkspaceLock.Machine.{Call, run}
use seqlane.WorkspaceLock.Held.{held, held_pos, counts}
use seqlane.WorkspaceLock.Tally.{Tally}
use seqlane.WorkspaceLock.Booked.{IsBooked}
use seqlane.WorkspaceLock.Admitted.{IsSound}
use seqlane.WorkspaceLock.Sound.{run-IsSound}

-- The lease has not been released.
abbrev pub IsOut : WorkspaceLockRegistry → ℕ → WorkspaceLockLease → Type 0
IsOut reg i l = (get_elem? reg.leases i ≡ some l) × (l.released ≡ false)

same-key-same-state :
    (reg : WorkspaceLockRegistry) (i j : ℕ) (l m : WorkspaceLockLease)
    → IsBooked reg
    → IsOut reg i l
    → IsOut reg j m
    → l.resource_key ≡ m.resource_key
    → l.state ≡ m.state
same-key-same-state reg i j l m b out_l out_m e =
    ground (arith, b.mapped i l out_l.0 out_l.1, b.mapped j m out_m.0 out_m.1)

-- A lock state whose writer has a lease lets nobody else have one.
writer-alone :
    (reg : WorkspaceLockRegistry) (i j : ℕ) (l m : WorkspaceLockLease)
    → IsBooked reg
    → IsOut reg i l
    → IsOut reg j m
    → l.state ≡ m.state
    → l.policy ≡ exclusive
    → (m.policy ≡ exclusive) × (m.invocation_id ≡ l.invocation_id)
unfolding lookup
writer-alone reg i j l m b out_l out_m same e =
    elim (Option-cases (reg.store l.state).writer_invocation_id) [
      | inl free ↦ absurd (ground (arith, counted_l, t.writer_held l.invocation_id))
      | inr (w, taken) ↦ ground (
        arith,
        counted_l,
        counted_m,
        t.writer_held l.invocation_id,
        t.writer_held m.invocation_id,
        t.readers_held m.invocation_id,
        t.excludes,
        eq_iff w l.invocation_id,
        eq_iff w m.invocation_id,
      )
    ]
  where
    t :
        Tally
          (reg.store l.state)
          (λ o. held shared l.state o reg.leases)
          (λ o. held exclusive l.state o reg.leases)
    t = b.tallied l.state

    counted_l : (k : ℕ) × (held exclusive l.state l.invocation_id reg.leases ≡ suc k)
    counted_l =
        held_pos reg.leases i l exclusive l.state l.invocation_id out_l.0
          (ground (arith, eq_iff l.invocation_id l.invocation_id))

    counted_m : (k : ℕ) × (held m.policy l.state m.invocation_id reg.leases ≡ suc k)
    counted_m =
        held_pos reg.leases j m m.policy l.state m.invocation_id out_m.0
          (ground (arith, eq_iff m.invocation_id m.invocation_id))

-- After any history of calls, an exclusive lease of a workspace that is not released shares the
-- workspace with leases of the same owner only, and those are exclusive too.
pub exclusive-lease-alone :
    (calls : List Call) (i j : ℕ) (l m : WorkspaceLockLease)
    → IsOut (run empty_registry calls) i l
    → IsOut (run empty_registry calls) j m
    → l.resource_key ≡ m.resource_key
    → l.policy ≡ exclusive
    → (m.policy ≡ exclusive) × (m.invocation_id ≡ l.invocation_id)
exclusive-lease-alone calls i j l m out_l out_m key e =
    let b = (run-IsSound calls).booked in
    writer-alone (run empty_registry calls) i j l m b out_l out_m
      (same-key-same-state (run empty_registry calls) i j l m b out_l out_m key) e

-- A count that is not zero counts a lease that is out.
held-IsOut :
    (p : WorkspacePolicy) (a : ℕ) (o : String) (ls : List WorkspaceLockLease)
    → 0 < held p a o ls
    → (i : ℕ) × (l : WorkspaceLockLease) × (get_elem? ls i ≡ some l) × (counts p a o l ≡ true)
unfolding held
held-IsOut p a o [] h = elim h [ ]
held-IsOut p a o (l ∷ ls) h = elim (Bool-cases (counts p a o l)) [
  | inl e ↦ (0, l, refl, e)
  | inr e ↦ let (i, m, found, c) = held-IsOut p a o ls (ground arith) in (suc i, m, found, c)
]

-- While a request waits for a lock state, a lease of that state is out.
waiting-IsOut :
    (reg : WorkspaceLockRegistry) (a : ℕ)
    → IsSound reg
    → (reg.store a).waiting ≢ []
    → (i : ℕ) × (l : WorkspaceLockLease) × IsOut reg i l × (l.state ≡ a)
unfolding lookup
waiting-IsOut reg a h busy = elim (List-cases (reg.store a).readers) [
  | inr ((o, d), rest, e) ↦
      let (i, l, found, c) =
        held-IsOut shared a o reg.leases
          (ground (arith, t.readers_used, t.readers_held o, eq_iff o o)) in
      (i, l, (found, ground arith), ground arith)
  | inl e ↦ elim (Option-cases (reg.store a).writer_invocation_id) [
    | inl free ↦ absurd (ground (arith, h.served a))
    | inr (w, taken) ↦
        let (i, l, found, c) =
          held-IsOut exclusive a w reg.leases
            (ground (arith, t.excludes, t.writer_held w, eq_iff w w)) in
        (i, l, (found, ground arith), ground arith)
  ]
]
  where
    t : Tally (reg.store a) (λ o. held shared a o reg.leases) (λ o. held exclusive a o reg.leases)
    t = h.booked.tallied a

-- After any history of calls, a queue in which a request waits belongs to a lock of which a lease
-- is out, so that a release is still to come: no request is left behind by a free lock.
pub waiting-has-lease :
    (calls : List Call) (a : ℕ)
    → ((run empty_registry calls).store a).waiting ≢ []
    → (i : ℕ) × (l : WorkspaceLockLease) × IsOut (run empty_registry calls) i l × (l.state ≡ a)
waiting-has-lease calls a busy = waiting-IsOut (run empty_registry calls) a (run-IsSound calls) busy
