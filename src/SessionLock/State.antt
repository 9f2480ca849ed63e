-- ===== src/SessionLock/State.antt =====
-- The data of libs/runtime/src/runtime/session/session-lock.ts and its private helpers. The symbol
-- of a session is a name that no other session has. As leases and abort listeners keep references
-- to a lock state, the registry holds a store of states, and `locks` gives a key's address in it.
-- `settled` is the list of the promises that were settled later than they were made, in order.
-- `C` is the type of what a program can throw.
use seqlane.Prelude.{
  ℕ, suc, String, Bool, true, false, Option, none, some, List, [], ◌∷◌, ◌++◌, length, lookup,
  insert, update,
}

pub record WaitingSessionLock : Type 0 where
  pub creation_ordinal : ℕ
  pub request : ℕ

pub record SessionLockState (C : Type 0) : Type 0 where
  pub busy : Bool
  pub quarantined : Option C
  pub waiting : List WaitingSessionLock

pub record SessionLockLease : Type 0 where
  pub session_key : String
  pub state : ℕ
  pub released : Bool

-- `QuarantinedSessionError` with its cause, or the abort reason, where there is one.
pub data Rejection (C : Type 0) : Type 0 where
  quarantined_session : (cause : C) → Rejection C
  cancelled : (reason : Option C) → Rejection C

pub data Settlement (C : Type 0) : Type 0 where
  resolved : (lease : ℕ) → Settlement C
  rejected : Rejection C → Settlement C

pub record SessionLockRegistry (C : Type 0) : Type 0 where
  pub locks : List (String × ℕ)
  pub store : ℕ → SessionLockState C
  pub next_state : ℕ
  pub leases : List SessionLockLease
  pub settled : List (ℕ × Settlement C)
  pub next_request : ℕ
  pub change_waiters : List ℕ
  pub notified : List ℕ

module _ {C : Type 0} where
  unfoldable pub idle_state : SessionLockState C
  idle_state = record { busy = false; quarantined = none; waiting = [] }

  unfoldable pub empty_registry : SessionLockRegistry C
  empty_registry = record {
    locks = [];
    store = λ _. idle_state;
    next_state = 0;
    leases = [];
    settled = [];
    next_request = 0;
    change_waiters = [];
    notified = [];
  }

  -- `#createState`
  unfoldable pub create_state : SessionLockRegistry C → String → SessionLockRegistry C × ℕ
  create_state reg key = (
    record reg {
      locks = insert key reg.next_state reg.locks;
      store = update reg.store reg.next_state idle_state;
      next_state = suc reg.next_state;
    },
    reg.next_state,
  )

  -- `this.#locks.get(session.key) ?? this.#createState(session)`
  unfoldable pub find_state : SessionLockRegistry C → String → SessionLockRegistry C × ℕ
  unfolding create_state
  find_state reg key = elim (lookup key reg.locks) [
    | none ↦ create_state reg key
    | some a ↦ (reg, a)
  ]

  -- `#createLease`; a lease is named by its place in `leases`.
  unfoldable pub create_lease : SessionLockRegistry C → String → ℕ → SessionLockRegistry C × ℕ
  create_lease reg key a = (
    record reg {
      store = update reg.store a (record (reg.store a) { busy = true });
      leases = reg.leases ++ record { session_key = key; state = a; released = false } ∷ [];
    },
    length reg.leases,
  )

  -- `#notifyChange`
  unfoldable pub notify_change : SessionLockRegistry C → SessionLockRegistry C
  notify_change reg = record reg {
    notified = reg.notified ++ reg.change_waiters;
    change_waiters = [];
  }
