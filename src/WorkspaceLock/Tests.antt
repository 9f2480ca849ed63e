-- ===== src/WorkspaceLock/Tests.antt =====
-- Runs of workspace-lock.ts, and its theorems at them.
use seqlane.Prelude.{
  ℕ, ◌≡◌, ◌≢◌, refl, false, none, some, List, [], ◌∷◌, ◌++◌, map, lookup, insert, erase, update,
  sort, decimal,
}
use seqlane.WorkspaceLock.State.{shared, exclusive, WorkspaceLockLease, empty_registry, blank_state}
use seqlane.WorkspaceLock.Admit.{acquire}
use seqlane.WorkspaceLock.Release.{release}
use seqlane.WorkspaceLock.Machine.{Call, acquires, run}
use seqlane.WorkspaceLock.Exclusion.{IsOut, exclusive-lease-alone, waiting-has-lease}
use seqlane.WorkspaceLock.Order.{
  admitted_next, came_back, requests, AllBefore, release-serves_in_order,
}

program : Unit {0}
unfolding run acquire release empty_registry blank_state lookup insert erase update sort decimal
program = tt

-- `a` has the workspace, and takes it once more.
abbrev twice_held : List Call
twice_held =
    acquires "repo" exclusive (some 1) (some "a") none
    ∷ acquires "repo" shared (some 2) (some "b") (some "a")
    ∷ []

-- `a` has the workspace; the readers `b` and `c` and the writer `d` wait.
abbrev contended : List Call
contended =
    acquires "repo" exclusive (some 1) (some "a") none
    ∷ acquires "repo" shared (some 4) (some "b") none
    ∷ acquires "repo" shared (some 2) (some "c") none
    ∷ acquires "repo" exclusive (some 7) (some "d") none
    ∷ []

abbrev lease_of_a : WorkspaceLockLease
lease_of_a = record {
  resource_key = "repo";
  state = 0;
  policy = exclusive;
  invocation_id = "a";
  released = false;
}

first-IsOut : IsOut (run empty_registry twice_held) 0 lease_of_a
unfolding program
first-IsOut = (refl, refl)

second-IsOut : IsOut (run empty_registry twice_held) 1 lease_of_a
unfolding program
second-IsOut = (refl, refl)

exclusive-lease-alone_example :
    (lease_of_a.policy ≡ exclusive) × (lease_of_a.invocation_id ≡ lease_of_a.invocation_id)
exclusive-lease-alone_example =
    exclusive-lease-alone twice_held 0 1 lease_of_a lease_of_a first-IsOut second-IsOut refl refl

contended_waits : ((run empty_registry contended).store 0).waiting ≢ []
unfolding program
contended_waits = λ e. cc

waiting-has-lease_example :
    (i : ℕ) × (l : WorkspaceLockLease) × IsOut (run empty_registry contended) i l × (l.state ≡ 0)
waiting-has-lease_example = waiting-has-lease contended 0 contended_waits

contended-IsOut : IsOut (run empty_registry contended) 0 lease_of_a
unfolding program
contended-IsOut = (refl, refl)

release-serves_in_order_example :
    let reg = run empty_registry contended in
    let ws = admitted_next (came_back reg lease_of_a) in
    (requests (release reg 0).resolved ≡ requests reg.resolved ++ map (λ w. w.request) ws)
    × (ws ++ ((release reg 0).store 0).waiting ≡ (reg.store 0).waiting)
    × AllBefore ws ((release reg 0).store 0).waiting
release-serves_in_order_example = release-serves_in_order contended 0 lease_of_a contended-IsOut

-- The readers come first, in creation order.
contended_served : requests (release (run empty_registry contended) 0).resolved ≡ 1 ∷ 0 ∷ []
unfolding program
contended_served = refl
