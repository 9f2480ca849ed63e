-- ===== src/Prelude/Sorting.antt =====
-- `Array.prototype.sort`, which is stable: an insertion sort that keeps equal items in order.
use Prim.Native.Nat.{ℕ, ◌≤◌}
use mathlib.Core.Logic.{inl, inr}
use mathlib.Core.Bool.{Bool}
use mathlib.Core.List.{List, [], ◌∷◌, Perm}
use mathlib.Core.List.Perm
use native.Mathlib.Omega.{arith}
use seqlane.Prelude.Tests.{if◌then◌else◌, leb, Bool-cases}
use seqlane.Prelude.Lists.{All}

module _ {ℓ} {A : Type ℓ} (before : A → A → Bool) where
  unfoldable pub sort_insert : A → List A → List A
  sort_insert x [] = x ∷ []
  sort_insert x (y ∷ ys) = if before x y then x ∷ y ∷ ys else y ∷ sort_insert x ys

  unfoldable pub sort : List A → List A
  unfolding sort_insert
  sort [] = []
  sort (x ∷ xs) = sort_insert x (sort xs)

  pub sort_insert-perm : (x : A) (ys : List A) → Perm (sort_insert x ys) (x ∷ ys)
  unfolding sort_insert
  sort_insert-perm x [] = Perm.rfl
  sort_insert-perm x (y ∷ ys) = elim (Bool-cases (before x y)) [
    | inl e ↦ rw e Perm.rfl
    | inr e ↦ rw e (Perm.trans (Perm.cons y (sort_insert-perm x ys)) (Perm.swap x y ys))
  ]

  pub sort-perm : (xs : List A) → Perm (sort xs) xs
  unfolding sort
  sort-perm [] = Perm.rfl
  sort-perm (x ∷ xs) = Perm.trans (sort_insert-perm x (sort xs)) (Perm.cons x (sort-perm xs))

  pub sort_insert-All {κ} :
      (P : A → Type κ) (x : A) (ys : List A) → P x → All P ys → All P (sort_insert x ys)
  unfolding sort_insert
  sort_insert-All P x [] p q = (p, tt)
  sort_insert-All P x (y ∷ ys) p q = elim (Bool-cases (before x y)) [
    | inl e ↦ rw e (p, q)
    | inr e ↦ rw e (q.0, sort_insert-All P x ys p q.1)
  ]

module _ {ℓ} {A : Type ℓ} (rank : A → ℕ) where
  -- The comparison of `(first, second) => rank(first) - rank(second)`.
  abbrev pub by_rank : A → A → Bool
  by_rank x y = leb (rank x) (rank y)

  -- Each item's rank is at most that of every item behind it.
  abbrev pub IsRanked : List A → Type 0
  IsRanked [] = Unit
  IsRanked (x ∷ xs) = All (λ y. rank x ≤ rank y) xs × IsRanked xs

  All-rank_trans :
      (m n : ℕ) (xs : List A) → m ≤ n → All (λ y. n ≤ rank y) xs → All (λ y. m ≤ rank y) xs
  All-rank_trans m n [] h q = tt
  All-rank_trans m n (x ∷ xs) h q = (omega arith, All-rank_trans m n xs h q.1)

  pub sort_insert-IsRanked :
      (x : A) (ys : List A) → IsRanked ys → IsRanked (sort_insert by_rank x ys)
  unfolding sort_insert
  sort_insert-IsRanked x [] q = (tt, tt)
  sort_insert-IsRanked x (y ∷ ys) q = elim (Bool-cases (leb (rank x) (rank y))) [
    | inl e ↦ rw e ((ground arith, All-rank_trans (rank x) (rank y) ys (ground arith) q.0), q)
    | inr e ↦ rw e (
      sort_insert-All by_rank (λ z. rank y ≤ rank z) x ys (ground arith) q.0,
      sort_insert-IsRanked x ys q.1,
    )
  ]

  pub sort-IsRanked : (xs : List A) → IsRanked (sort by_rank xs)
  unfolding sort
  sort-IsRanked [] = tt
  sort-IsRanked (x ∷ xs) = sort_insert-IsRanked x (sort by_rank xs) (sort-IsRanked xs)

pub sort-All {ℓ κ} :
    {A : Type ℓ} (before : A → A → Bool) (P : A → Type κ) (xs : List A)
    → All P xs
    → All P (sort before xs)
unfolding sort
sort-All before P [] h = tt
sort-All before P (x ∷ xs) h =
    sort_insert-All before P x (sort before xs) h.0 (sort-All before P xs h.1)
