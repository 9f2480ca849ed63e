-- ===== src/Prelude/Maps.antt =====
-- A JavaScript Map as an association list in insertion order, and a store as an updated function.
use Prim.Native.Nat.{ℕ}
use Prim.Native.String.{String}
use mathlib.Core.Path.{◌≡◌, refl, fun_ext}
use mathlib.Core.Logic.{◌≢◌}
use mathlib.Core.List.{List, [], ◌∷◌}
use mathlib.Core.Option.{Option, none, some}
use native.Mathlib.Omega.{arith}
use text.Mathlib.Text.{◌==◌}
use text.Mathlib.TextEquality.{eq_iff}
use mathlib.Core.Logic.{inl, inr}
use seqlane.Prelude.Tests.{if◌then◌else◌, num_eq, Bool-cases}

module _ {ℓ} {V : Type ℓ} where
  -- `map.delete(key)`, where a key stands once.
  unfoldable pub erase : String → List (String × V) → List (String × V)
  erase key [] = []
  erase key ((id, value) ∷ rest) =
      if id == key then erase key rest else (id, value) ∷ erase key rest

  -- `map.get(key)`
  unfoldable pub lookup : String → List (String × V) → Option V
  lookup key [] = none
  lookup key ((id, value) ∷ rest) = if id == key then some value else lookup key rest

  pub lookup-erase :
      (gone key : String) (map : List (String × V))
      → lookup key (erase gone map) ≡ (if gone == key then none else lookup key map)
  unfolding lookup erase
  lookup-erase gone key [] = ground arith
  lookup-erase gone key ((id, value) ∷ rest) =
      ground (arith, lookup-erase gone key rest, eq_iff id key, eq_iff id gone, eq_iff gone key)

  -- `map.set(key, value)` keeps the place of a key that is there, and appends a new one.
  unfoldable pub insert : String → V → List (String × V) → List (String × V)
  insert key new [] = (key, new) ∷ []
  insert key new ((id, value) ∷ rest) =
      if id == key then (id, new) ∷ rest else (id, value) ∷ insert key new rest

  pub insert-ne-nil : (key : String) (new : V) (map : List (String × V)) → insert key new map ≢ []
  unfolding insert
  insert-ne-nil key new [] = λ e. cc
  insert-ne-nil key new ((id, value) ∷ rest) = ground arith

  pub lookup-insert :
      (set key : String) (new : V) (map : List (String × V))
      → lookup key (insert set new map) ≡ (if set == key then some new else lookup key map)
  unfolding lookup insert
  lookup-insert set key new [] = refl
  lookup-insert set key new ((id, value) ∷ rest) =
      ground (arith, lookup-insert set key new rest, eq_iff id key, eq_iff id set, eq_iff set key)

-- A write to one place of a store.
unfoldable pub update {ℓ} : {A : Type ℓ} → (ℕ → A) → ℕ → A → ℕ → A
update f a v b = if num_eq a b then v else f b

pub update_self {ℓ} : {A : Type ℓ} (f : ℕ → A) (a : ℕ) (v : A) → update f a v a ≡ v
unfolding update
update_self f a v = ground arith

pub update_ne {ℓ} : {A : Type ℓ} (f : ℕ → A) (a b : ℕ) (v : A) → a ≢ b → update f a v b ≡ f b
unfolding update
update_ne f a b v h = ground arith

pub update_twice {ℓ} :
    {A : Type ℓ} (f : ℕ → A) (a : ℕ) (v w : A) → update (update f a v) a w ≡ update f a w
unfolding update
update_twice f a v w = fun_ext (λ b. ground arith)

-- What holds of a store at every place holds after a write of a value of which it holds.
pub update_All {ℓ κ} :
    {A : Type ℓ} (P : ℕ → A → Type κ) (f : ℕ → A) (a : ℕ) (v : A)
    → P a v
    → ((b : ℕ) → b ≢ a → P b (f b))
    → (b : ℕ) → P b (update f a v b)
unfolding update
update_All P f a v new old b = elim (Bool-cases (num_eq a b)) [
  | inl e ↦ rw e (let same : a ≡ b = ground arith in rw same at new)
  | inr e ↦ rw e (old b (ground arith))
]
