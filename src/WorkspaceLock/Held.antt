-- ===== src/WorkspaceLock/Held.antt =====
-- The leases that are out: how many one owner holds of a lock state under a policy.
use seqlane.Prelude.{
  ℕ, zero, suc, ◌+◌, String, ◌≡◌, ◌≢◌, refl, Bool, true, false, ◌&&◌, not, some, List, [], ◌∷◌,
  ◌++◌, num_eq, if◌then◌else◌, get_elem?, set, ◌==◌, arith,
}
use seqlane.WorkspaceLock.State.{WorkspacePolicy, shared, exclusive, WorkspaceLockLease}

abbrev pub same_policy : WorkspacePolicy → WorkspacePolicy → Bool
same_policy shared shared = true
same_policy exclusive exclusive = true
same_policy shared exclusive = false
same_policy exclusive shared = false

-- The lease has not been released, is of state `a` under policy `p`, and belongs to `o`.
abbrev pub counts : WorkspacePolicy → ℕ → String → WorkspaceLockLease → Bool
counts p a o l =
    not l.released && num_eq l.state a && same_policy l.policy p && l.invocation_id == o

unfoldable pub held : WorkspacePolicy → ℕ → String → List WorkspaceLockLease → ℕ
held p a o [] = 0
held p a o (l ∷ ls) = (if counts p a o l then 1 else 0) + held p a o ls

pub held-append :
    (p : WorkspacePolicy) (a : ℕ) (o : String) (ls : List WorkspaceLockLease)
    (l : WorkspaceLockLease)
    → held p a o (ls ++ l ∷ []) ≡ held p a o ls + (if counts p a o l then 1 else 0)
unfolding held
held-append p a o [] l = omega arith
held-append p a o (x ∷ ls) l = omega (arith, held-append p a o ls l)

-- A release takes one lease out of the count, and no other.
pub held-set_released :
    (p : WorkspacePolicy) (a : ℕ) (o : String) (ls : List WorkspaceLockLease) (i : ℕ)
    (l : WorkspaceLockLease)
    → get_elem? ls i ≡ some l
    → held p a o (set ls i (record l { released = true })) + (if counts p a o l then 1 else 0)
      ≡ held p a o ls
unfolding held
held-set_released p a o [] i l e = cc
held-set_released p a o (x ∷ ls) zero l e = ground arith
held-set_released p a o (x ∷ ls) (suc i) l e = ground (arith, held-set_released p a o ls i l e)

-- A lease that is out counts for its owner.
pub held_pos :
    (ls : List WorkspaceLockLease) (i : ℕ) (l : WorkspaceLockLease) (p : WorkspacePolicy) (a : ℕ)
    (o : String)
    → get_elem? ls i ≡ some l
    → counts p a o l ≡ true
    → (k : ℕ) × (held p a o ls ≡ suc k)
unfolding held
held_pos [] i l p a o e c = cc
held_pos (x ∷ ls) zero l p a o e c = (held p a o ls, ground arith)
held_pos (x ∷ ls) (suc i) l p a o e c =
    let (k, h) = held_pos ls i l p a o e c in (k + (if counts p a o x then 1 else 0), omega arith)

-- No lease of a state counts if none that is out is of it.
pub held_none :
    (p : WorkspacePolicy) (a : ℕ) (o : String) (ls : List WorkspaceLockLease)
    → ((i : ℕ) (l : WorkspaceLockLease)
        → get_elem? ls i ≡ some l
        → l.released ≡ false
        → l.state ≢ a)
    → held p a o ls ≡ 0
unfolding held
held_none p a o [] h = refl
held_none p a o (l ∷ ls) h = ground (arith, h 0 l refl, held_none p a o ls (λ i. h (suc i)))
