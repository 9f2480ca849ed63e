-- ===== src/SessionLock/Held.antt =====
-- The session leases that are out.
use seqlane.Prelude.{
  ℕ, zero, suc, ◌+◌, ◌≤◌, ◌≡◌, ◌≢◌, refl, ap, Bool, true, false, ◌&&◌, not, some, List, [], ◌∷◌,
  ◌++◌, num_eq, if◌then◌else◌, get_elem?, set, Bool-cases, inl, inr, arith,
}
use seqlane.SessionLock.State.{SessionLockLease}

-- The lease has not been released, and is of state `a`.
abbrev pub counts : ℕ → SessionLockLease → Bool
counts a l = not l.released && num_eq l.state a

unfoldable pub held : ℕ → List SessionLockLease → ℕ
held a [] = 0
held a (l ∷ ls) = (if counts a l then 1 else 0) + held a ls

pub held-append :
    (a : ℕ) (ls : List SessionLockLease) (l : SessionLockLease)
    → held a (ls ++ l ∷ []) ≡ held a ls + (if counts a l then 1 else 0)
unfolding held
held-append a [] l = omega arith
held-append a (x ∷ ls) l = omega (arith, held-append a ls l)

pub held-set_released :
    (a : ℕ) (ls : List SessionLockLease) (i : ℕ) (l : SessionLockLease)
    → get_elem? ls i ≡ some l
    → held a (set ls i (record l { released = true })) + (if counts a l then 1 else 0) ≡ held a ls
unfolding held
held-set_released a [] i l e = cc
held-set_released a (x ∷ ls) zero l e = ground arith
held-set_released a (x ∷ ls) (suc i) l e = ground (arith, held-set_released a ls i l e)

pub one-le-held :
    (a : ℕ) (ls : List SessionLockLease) (i : ℕ) (l : SessionLockLease)
    → get_elem? ls i ≡ some l
    → counts a l ≡ true
    → 1 ≤ held a ls
unfolding held
one-le-held a [] i l e c = cc
one-le-held a (x ∷ ls) zero l e c = ground arith
one-le-held a (x ∷ ls) (suc i) l e c = omega (arith, one-le-held a ls i l e c)

-- Two leases count as two.
pub two-le-held :
    (a : ℕ) (ls : List SessionLockLease) (i j : ℕ) (l m : SessionLockLease)
    → i ≢ j
    → get_elem? ls i ≡ some l
    → get_elem? ls j ≡ some m
    → counts a l ≡ true
    → counts a m ≡ true
    → 2 ≤ held a ls
unfolding held
two-le-held a [] i j l m ne e f c d = cc
two-le-held a (x ∷ ls) zero zero l m ne e f c d = absurd (ne refl)
two-le-held a (x ∷ ls) zero (suc j) l m ne e f c d = ground (arith, one-le-held a ls j m f d)
two-le-held a (x ∷ ls) (suc i) zero l m ne e f c d = ground (arith, one-le-held a ls i l e c)
two-le-held a (x ∷ ls) (suc i) (suc j) l m ne e f c d =
    omega (arith, two-le-held a ls i j l m (λ p. ne (ap suc p)) e f c d)

pub held_none :
    (a : ℕ) (ls : List SessionLockLease)
    → ((i : ℕ) (l : SessionLockLease) → get_elem? ls i ≡ some l → l.released ≡ false → l.state ≢ a)
    → held a ls ≡ 0
unfolding held
held_none a [] h = refl
held_none a (l ∷ ls) h = ground (arith, h 0 l refl, held_none a ls (λ i. h (suc i)))

-- A count that is not zero counts a lease that is out.
pub held-IsOut :
    (a : ℕ) (ls : List SessionLockLease)
    → 1 ≤ held a ls
    → (i : ℕ) × (l : SessionLockLease) × (get_elem? ls i ≡ some l) × (counts a l ≡ true)
unfolding held
held-IsOut a [] h = elim h [ ]
held-IsOut a (l ∷ ls) h = elim (Bool-cases (counts a l)) [
  | inl e ↦ (0, l, refl, e)
  | inr e ↦ let (i, m, found, c) = held-IsOut a ls (ground arith) in (suc i, m, found, c)
]
