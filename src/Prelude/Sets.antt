-- ===== src/Prelude/Sets.antt =====
-- A JavaScript Set of texts as a list in insertion order.
use Prim.Native.Nat.{ℕ}
use Prim.Native.String.{String}
use mathlib.Core.Path.{◌≡◌, refl, subst}
use mathlib.Core.Logic.{inl, inr}
use mathlib.Core.Bool.{Bool, true, false, ◌||◌}
use mathlib.Core.List.{List, [], ◌∷◌, ◌++◌}
use native.Mathlib.Omega.{arith}
use text.Mathlib.Text.{◌==◌}
use text.Mathlib.TextEquality.{eq_iff}
use seqlane.Prelude.Tests.{if◌then◌else◌, Bool-cases, num_eq}
use seqlane.Prelude.Lists.{All}

-- `set.has(key)`
unfoldable pub has : String → List String → Bool
has key [] = false
has key (k ∷ ks) = k == key || has key ks

-- `set.delete(key)`
unfoldable pub without : String → List String → List String
without key [] = []
without key (k ∷ ks) = if k == key then without key ks else k ∷ without key ks

-- `set.add(key)`
unfoldable pub add : String → List String → List String
unfolding has
add key keys = if has key keys then keys else keys ++ key ∷ []

pub has-snoc :
    (key k : String) (keys : List String) → has key (keys ++ k ∷ []) ≡ (has key keys || k == key)
unfolding has
has-snoc key k [] = ground arith
has-snoc key k (j ∷ keys) = ground (arith, has-snoc key k keys)

pub has-append :
    (key : String) (xs ys : List String) → has key (xs ++ ys) ≡ (has key xs || has key ys)
unfolding has
has-append key [] ys = refl
has-append key (x ∷ xs) ys = ground (arith, has-append key xs ys)

pub has-add : (key : String) (keys : List String) → has key (add key keys) ≡ true
unfolding add
has-add key keys = ground (arith, has-snoc key key keys, eq_iff key key)

pub add-grows :
    (new key : String) (keys : List String) → has key keys ≡ true → has key (add new keys) ≡ true
unfolding add
add-grows new key keys h = ground (arith, h, has-snoc key new keys)

-- `has` for numbers.
unfoldable pub has_num : ℕ → List ℕ → Bool
has_num n [] = false
has_num n (m ∷ ms) = num_eq m n || has_num n ms

pub has_num-append :
    (n : ℕ) (xs ys : List ℕ) → has_num n (xs ++ ys) ≡ (has_num n xs || has_num n ys)
unfolding has_num
has_num-append n [] ys = refl
has_num-append n (x ∷ xs) ys = ground (arith, has_num-append n xs ys)

unfoldable pub add_all : List String → List String → List String
unfolding add
add_all [] keys = keys
add_all (key ∷ rest) keys = add_all rest (add key keys)

pub add_all-append :
    (xs ys keys : List String) → add_all (xs ++ ys) keys ≡ add_all ys (add_all xs keys)
unfolding add_all
add_all-append [] ys keys = cc
add_all-append (x ∷ xs) ys keys = add_all-append xs ys (add x keys)

pub has-All :
    (P : String → Type 0) (key : String) (keys : List String)
    → has key keys ≡ true
    → All P keys
    → P key
unfolding has
has-All P key [] e h = absurd (ground arith)
has-All P key (k ∷ ks) e h = elim (Bool-cases (k == key)) [
  | inl same ↦ subst P ((eq_iff k key).0 same) h.0
  | inr other ↦ has-All P key ks (ground arith) h.1
]

All-snoc_split :
    (P : String → Type 0) (key : String) (keys : List String)
    → All P (keys ++ key ∷ [])
    → All P keys × P key
All-snoc_split P key [] h = (tt, h.0)
All-snoc_split P key (k ∷ ks) h = let (old, new) = All-snoc_split P key ks h.1 in ((h.0, old), new)

add-All :
    (P : String → Type 0) (key : String) (keys : List String)
    → All P (add key keys)
    → All P keys × P key
unfolding add
add-All P key keys h = elim (Bool-cases (has key keys)) [
  | inl e ↦
      let same : add key keys ≡ keys = ground arith in
      (subst (All P) same h, has-All P key keys e (subst (All P) same h))
  | inr e ↦
      let grown : add key keys ≡ keys ++ key ∷ [] = ground arith in
      All-snoc_split P key keys (subst (All P) grown h)
]

-- What holds of a set holds of every text that was added to it.
pub add_all-All :
    (P : String → Type 0) (xs keys : List String) → All P (add_all xs keys) → All P keys × All P xs
unfolding add_all
add_all-All P [] keys h = (h, tt)
add_all-All P (x ∷ xs) keys h =
    let (grown, rest) = add_all-All P xs (add x keys) h in
    let (old, new) = add-All P x keys grown in (old, (new, rest))

-- No text twice.
abbrev pub Distinct : List String → Type 0
Distinct [] = Unit
Distinct (x ∷ xs) = (has x xs ≡ false) × Distinct xs
