-- ===== src/WorkspaceLock/Tally.antt =====
-- A lock state agrees with the leases that are out: the readers' depths, the writer and its depth
-- are counts of leases, and a writer shares the state with nobody.
use seqlane.Prelude.{
  ℕ, ◌+◌, ◌-◌, ◌<◌, String, ◌≡◌, refl, ◌⊎◌, inl, inr, true, none, List, [], ◌∷◌, if◌then◌else◌,
  is_some, or_else, holds_name, Option-cases, lookup, insert, erase, lookup-insert, lookup-erase,
  ◌==◌, eq_iff, arith,
}
use seqlane.WorkspaceLock.State.{shared, exclusive, WorkspaceLockState, enter, blank_state}
use seqlane.WorkspaceLock.Release.{leave}

abbrev pub reader_depth : WorkspaceLockState → String → ℕ
reader_depth s o = or_else (lookup o s.readers) 0

abbrev pub writer_depth_of : WorkspaceLockState → String → ℕ
writer_depth_of s o = if holds_name s.writer_invocation_id o then s.writer_depth else 0

abbrev pub AllUsed : List (String × ℕ) → Type 0
AllUsed [] = Unit
AllUsed ((id, depth) ∷ m) = (0 < depth) × AllUsed m

-- A writer is alone, and holds its lock at least once.
abbrev pub Excludes : WorkspaceLockState → Type 0
Excludes s =
    (s.writer_invocation_id ≡ none)
    ⊎ ((is_some s.writer_invocation_id ≡ true) × (0 < s.writer_depth) × (s.readers ≡ []))

pub record Tally (s : WorkspaceLockState) (readers_out writers_out : String → ℕ) : Type 0 where
  pub readers_held : (o : String) → reader_depth s o ≡ readers_out o
  pub writer_held : (o : String) → writer_depth_of s o ≡ writers_out o
  pub readers_used : AllUsed s.readers
  pub excludes : Excludes s

insert-AllUsed :
    (k : String) (d : ℕ) (m : List (String × ℕ)) → 0 < d → AllUsed m → AllUsed (insert k d m)
unfolding insert
insert-AllUsed k d [] h u = (h, tt)
insert-AllUsed k d ((j, e) ∷ m) h u = ground (arith, insert-AllUsed k d m h u.1)

erase-AllUsed : (k : String) (m : List (String × ℕ)) → AllUsed m → AllUsed (erase k m)
unfolding erase
erase-AllUsed k [] u = tt
erase-AllUsed k ((j, e) ∷ m) u = ground (arith, erase-AllUsed k m u.1)

-- One more for the owner `id`.
abbrev pub plus_one : (String → ℕ) → String → String → ℕ
plus_one f id o = f o + (if id == o then 1 else 0)

pub blank-Tally : Tally blank_state (λ _. 0) (λ _. 0)
unfolding blank_state lookup
blank-Tally = record {
  readers_held = λ o. refl;
  writer_held = λ o. refl;
  readers_used = tt;
  excludes = inl refl;
}

-- A new reader.
pub enter_shared-Tally :
    (s : WorkspaceLockState) (id : String) (rs ws : String → ℕ)
    → s.writer_invocation_id ≡ none
    → Tally s rs ws
    → Tally (enter s shared id) (plus_one rs id) ws
unfolding enter
enter_shared-Tally s id rs ws free t = record {
  readers_held = λ o. ground (
    arith,
    lookup-insert id o (or_else (lookup id s.readers) 0 + 1) s.readers,
    eq_iff id o,
    t.readers_held o,
    t.readers_held id,
  );
  writer_held = t.writer_held;
  readers_used = insert-AllUsed id _ s.readers (omega arith) t.readers_used;
  excludes = inl free;
}

-- A new writer of a lock that nobody holds.
pub enter_exclusive-Tally :
    (s : WorkspaceLockState) (id : String) (rs ws : String → ℕ)
    → s.writer_invocation_id ≡ none
    → s.readers ≡ []
    → Tally s rs ws
    → Tally (enter s exclusive id) rs (plus_one ws id)
unfolding enter
enter_exclusive-Tally s id rs ws free alone t = record {
  readers_held = λ o. ground (arith, t.readers_held o);
  writer_held = λ o. ground (arith, t.writer_held o);
  readers_used = ground (arith, t.readers_used);
  excludes = ground arith;
}

-- The writer once more.
pub reenter-Tally :
    (s : WorkspaceLockState) (id : String) (rs ws : String → ℕ)
    → holds_name s.writer_invocation_id id ≡ true
    → Tally s rs ws
    → Tally
        (enter (record s { writer_depth = s.writer_depth + 1 }) exclusive id)
        rs
        (plus_one ws id)
unfolding enter
reenter-Tally s id rs ws own t = elim (Option-cases s.writer_invocation_id) [
  | inl e ↦ ground (arith)
  | inr (w, e) ↦ record {
    readers_held = λ o. ground (arith, t.readers_held o);
    writer_held = λ o. ground (arith, t.writer_held o, eq_iff w id, eq_iff w o, eq_iff id o);
    readers_used = ground (arith, t.readers_used);
    excludes = ground (arith, t.excludes);
  }
]

-- A reader's release.
pub leave_shared-Tally :
    (s : WorkspaceLockState) (id : String) (rs ws : String → ℕ)
    → Tally s (plus_one rs id) ws
    → Tally (leave s shared id) rs ws
unfolding leave lookup
leave_shared-Tally s id rs ws t = record {
  readers_held = λ o. ground (
    arith,
    lookup-insert id o (or_else (lookup id s.readers) 0 - 1) s.readers,
    lookup-erase id o s.readers,
    eq_iff id o,
    eq_iff id id,
    t.readers_held o,
    t.readers_held id,
  );
  writer_held = λ o. ground (arith, t.writer_held o);
  readers_used = ground (
    arith,
    erase-AllUsed id s.readers t.readers_used,
    insert-AllUsed id (or_else (lookup id s.readers) 0 - 1) s.readers,
    t.readers_used,
  );
  excludes = ground (arith, t.excludes, t.readers_held id, eq_iff id id);
}

-- A writer's release.
pub leave_exclusive-Tally :
    (s : WorkspaceLockState) (id : String) (rs ws : String → ℕ)
    → Tally s rs (plus_one ws id)
    → Tally (leave s exclusive id) rs ws
unfolding leave
leave_exclusive-Tally s id rs ws t = elim (Option-cases s.writer_invocation_id) [
  | inl e ↦ absurd (ground (arith, t.writer_held id, eq_iff id id))
  | inr (w, e) ↦ record {
    readers_held = λ o. ground (arith, t.readers_held o);
    writer_held = λ o. ground (
      arith,
      t.writer_held o,
      t.writer_held id,
      eq_iff w id,
      eq_iff w o,
      eq_iff id o,
      eq_iff id id,
    );
    readers_used = ground (arith, t.readers_used);
    excludes = ground (arith, t.excludes, t.writer_held id, eq_iff id id);
  }
]
