-- ===== src/Prelude/Splice.antt =====
-- `indexOf` and `splice(index, 1)`: an array without its first item that passes a test.
use Prim.Native.Nat.{ℕ, ◌≤◌}
use mathlib.Core.Path.{◌≡◌, subst}
use mathlib.Core.Logic.{◌⊎◌, inl, inr}
use mathlib.Core.Bool.{Bool}
use mathlib.Core.List.{List, [], ◌∷◌}
use mathlib.Core.Option.{Option, none, some}
use native.Mathlib.Omega.{arith}
use seqlane.Prelude.Tests.{if◌then◌else◌, Bool-cases, Option-cases}
use seqlane.Prelude.Lists.{All}
use seqlane.Prelude.Sorting.{IsRanked}

module _ {ℓ} {A : Type ℓ} (hit : A → Bool) where
  -- `none` where the item is not there.
  unfoldable pub splice_first : List A → Option (List A)
  splice_first [] = none
  splice_first (x ∷ xs) =
      let rest = splice_first xs in
      if hit x then some xs else elim rest [ none ↦ none | some ys ↦ some (x ∷ ys) ]

  splice_cases :
      (x : A) (xs ys : List A)
      → splice_first (x ∷ xs) ≡ some ys
      → (xs ≡ ys) ⊎ ((zs : List A) × (splice_first xs ≡ some zs) × (x ∷ zs ≡ ys))
  unfolding splice_first
  splice_cases x xs ys e = elim (Bool-cases (hit x)) [
    | inl h ↦ inl (ground arith)
    | inr h ↦ elim (Option-cases (splice_first xs)) [
      | inl f ↦ absurd (ground arith)
      | inr (zs, f) ↦ inr (zs, f, ground arith)
    ]
  ]

  pub splice_first-All {κ} :
      (P : A → Type κ) (xs ys : List A) → splice_first xs ≡ some ys → All P xs → All P ys
  unfolding splice_first
  splice_first-All P [] ys e h = cc
  splice_first-All P (x ∷ xs) ys e h = elim (splice_cases x xs ys e) [
    | inl same ↦ subst (All P) same h.1
    | inr (zs, f, same) ↦ subst (All P) same (h.0, splice_first-All P xs zs f h.1)
  ]

  pub splice_first-IsRanked :
      (rank : A → ℕ) (xs ys : List A)
      → splice_first xs ≡ some ys
      → IsRanked rank xs
      → IsRanked rank ys
  unfolding splice_first
  splice_first-IsRanked rank [] ys e h = cc
  splice_first-IsRanked rank (x ∷ xs) ys e h = elim (splice_cases x xs ys e) [
    | inl same ↦ subst (IsRanked rank) same h.1
    | inr (zs, f, same) ↦ subst (IsRanked rank) same (
      splice_first-All (λ y. rank x ≤ rank y) xs zs f h.0,
      splice_first-IsRanked rank xs zs f h.1,
    )
  ]

  -- An empty array has no item to take out.
  pub splice_first-nil : (xs : List A) → xs ≡ [] → splice_first xs ≡ none
  unfolding splice_first
  splice_first-nil xs e = rw e
