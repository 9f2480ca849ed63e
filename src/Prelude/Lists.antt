-- ===== src/Prelude/Lists.antt =====
-- Lists measured and indexed by native numbers, under the library's names.
use Prim.Native.Nat.{ℕ, zero, suc, ◌+◌}
use mathlib.Core.Path.{◌≡◌, refl, subst}
use mathlib.Core.Logic.{◌⊎◌, inl, inr}
use mathlib.Core.List.{List, [], ◌∷◌, ◌++◌}
use mathlib.Core.Option.{Option, none, some}
use native.Mathlib.Omega.{arith}

module _ {ℓ} {A : Type ℓ} where
  abbrev pub length : List A → ℕ
  length [] = 0
  length (x ∷ xs) = suc (length xs)

  abbrev pub get_elem? : List A → ℕ → Option A
  get_elem? [] i = none
  get_elem? (x ∷ xs) zero = some x
  get_elem? (x ∷ xs) (suc i) = get_elem? xs i

  -- A write out of bounds changes nothing.
  abbrev pub set : List A → ℕ → A → List A
  set [] i v = []
  set (x ∷ xs) zero v = v ∷ xs
  set (x ∷ xs) (suc i) v = x ∷ set xs i v

  pub length-append : (xs ys : List A) → length (xs ++ ys) ≡ length xs + length ys
  length-append [] ys = omega arith
  length-append (x ∷ xs) ys = omega (arith, length-append xs ys)

  abbrev pub All {κ} : (A → Type κ) → List A → Type κ
  All P [] = Unit
  All P (x ∷ xs) = P x × All P xs

module _ {ℓ} {A : Type ℓ} where
  pub get_elem?-append_one :
      (xs : List A) (x : A) (i : ℕ) (y : A)
      → get_elem? (xs ++ x ∷ []) i ≡ some y
      → (get_elem? xs i ≡ some y) ⊎ (y ≡ x)
  get_elem?-append_one [] x zero y e = inr (cc)
  get_elem?-append_one [] x (suc i) y e = cc
  get_elem?-append_one (z ∷ xs) x zero y e = inl e
  get_elem?-append_one (z ∷ xs) x (suc i) y e = get_elem?-append_one xs x i y e

  pub get_elem?-set_cases :
      (xs : List A) (j : ℕ) (v : A) (i : ℕ) (y : A)
      → get_elem? (set xs j v) i ≡ some y
      → (get_elem? xs i ≡ some y) ⊎ (y ≡ v)
  get_elem?-set_cases [] j v i y e = inl e
  get_elem?-set_cases (z ∷ xs) zero v zero y e = inr (cc)
  get_elem?-set_cases (z ∷ xs) zero v (suc i) y e = inl e
  get_elem?-set_cases (z ∷ xs) (suc j) v zero y e = inl e
  get_elem?-set_cases (z ∷ xs) (suc j) v (suc i) y e = get_elem?-set_cases xs j v i y e

pub length-set {ℓ} : {A : Type ℓ} (xs : List A) (i : ℕ) (v : A) → length (set xs i v) ≡ length xs
length-set [] i v = refl
length-set (x ∷ xs) zero v = refl
length-set (x ∷ xs) (suc i) v = omega (arith, length-set xs i v)

pub append-nil_parts {ℓ} : {A : Type ℓ} (xs ys : List A) → xs ++ ys ≡ [] → (xs ≡ []) × (ys ≡ [])
append-nil_parts [] ys e = (refl, e)
append-nil_parts (x ∷ xs) ys e = absurd (cc)

pub All-get {ℓ κ} :
    {A : Type ℓ} (P : A → Type κ) (xs : List A) (i : ℕ) (x : A)
    → All P xs
    → get_elem? xs i ≡ some x
    → P x
All-get P [] i x h e = absurd (cc)
All-get P (y ∷ ys) zero x h e = let same : y ≡ x = ground arith in subst P same h.0
All-get P (y ∷ ys) (suc i) x h e = All-get P ys i x h.1 e
