-- ===== src/WorkspaceLock/State.antt =====
-- The data of libs/runtime/src/runtime/workspace/workspace-lock.ts, and the private helpers that
-- both admission and release call. A lock state is an object that leases keep a reference to, so
-- the registry holds a store of states, and `locks` gives a key's address in it. A lease is an
-- entry of `leases`, with the `released` flag of its closure as a field. A promise is a request
-- number, which `resolved` pairs with the lease that settled it.
use seqlane.Prelude.{
  ◌≡◌, refl, ℕ, suc, ◌+◌, String, Bool, true, false, ◌&&◌, ◌||◌, not, Option, none, some, List, [],
  ◌∷◌, ◌++◌, if◌then◌else◌, is_some, or_else, or_option, is_empty, length, lookup, insert, update,
}

pub data WorkspacePolicy : Type 0 where
  shared exclusive : WorkspacePolicy

abbrev pub is_shared : WorkspacePolicy → Bool
is_shared shared = true
is_shared exclusive = false

pub record WaitingWorkspaceLock : Type 0 where
  pub policy : WorkspacePolicy
  pub creation_ordinal : ℕ
  pub invocation_id : String
  pub owner_id : String
  pub request : ℕ

pub record WorkspaceLockState : Type 0 where
  pub readers : List (String × ℕ)
  pub writer_invocation_id : Option String
  pub writer_depth : ℕ
  pub waiting : List WaitingWorkspaceLock

pub record WorkspaceLockLease : Type 0 where
  pub resource_key : String
  pub state : ℕ
  pub policy : WorkspacePolicy
  pub invocation_id : String
  pub released : Bool

pub record WorkspaceLockRegistry : Type 0 where
  pub locks : List (String × ℕ)
  pub store : ℕ → WorkspaceLockState
  pub next_state : ℕ
  pub leases : List WorkspaceLockLease
  pub resolved : List (ℕ × ℕ)
  pub next_request : ℕ
  pub change_waiters : List ℕ
  pub notified : List ℕ
  pub next_anonymous_invocation : ℕ

unfoldable pub blank_state : WorkspaceLockState
blank_state = record { readers = []; writer_invocation_id = none; writer_depth = 0; waiting = [] }

unfoldable pub empty_registry : WorkspaceLockRegistry
empty_registry = record {
  locks = [];
  store = λ _. blank_state;
  next_state = 0;
  leases = [];
  resolved = [];
  next_request = 0;
  change_waiters = [];
  notified = [];
  next_anonymous_invocation = 0;
}

-- `#createState`
unfoldable pub create_state : WorkspaceLockRegistry → String → WorkspaceLockRegistry × ℕ
create_state reg key = (
  record reg {
    locks = insert key reg.next_state reg.locks;
    store = update reg.store reg.next_state blank_state;
    next_state = suc reg.next_state;
  },
  reg.next_state,
)

-- `this.#locks.get(resource.key) ?? this.#createState(resource)`
unfoldable pub find_state : WorkspaceLockRegistry → String → WorkspaceLockRegistry × ℕ
unfolding create_state
find_state reg key = elim (lookup key reg.locks) [ none ↦ create_state reg key | some a ↦ (reg, a) ]

-- What `#createLease` does to the state.
unfoldable pub enter : WorkspaceLockState → WorkspacePolicy → String → WorkspaceLockState
enter s shared id = record s { readers = insert id (or_else (lookup id s.readers) 0 + 1) s.readers }
enter s exclusive id =
    if is_some s.writer_invocation_id
    then s
    else record s { writer_invocation_id = some id; writer_depth = 1 }

-- `#createLease`; a lease is named by its place in `leases`.
unfoldable pub create_lease :
    WorkspaceLockRegistry → String → ℕ → WorkspacePolicy → String → WorkspaceLockRegistry × ℕ
unfolding enter
create_lease reg key a policy id = (
  record reg {
    store = update reg.store a (enter (reg.store a) policy id);
    leases =
        reg.leases
        ++ record {
          resource_key = key;
          state = a;
          policy = policy;
          invocation_id = id;
          released = false;
        }
          ∷ [];
  },
  length reg.leases,
)

-- `state.readers.keys().next().value`
unfoldable pub first_reader : List (String × ℕ) → Option String
first_reader [] = none
first_reader ((id, depth) ∷ rest) = some id

-- `state.writerInvocationId ?? state.readers.keys().next().value`
unfoldable pub blocker : WorkspaceLockState → Option String
unfolding first_reader
blocker s = or_option s.writer_invocation_id (first_reader s.readers)

-- `available` in `tryAcquire`, and the last test of `isAvailable`.
unfoldable pub available : WorkspaceLockState → WorkspacePolicy → Bool
available s policy =
    is_empty s.waiting
    && not (is_some s.writer_invocation_id)
    && (is_shared policy || is_empty s.readers)

-- `#notifyChange`
unfoldable pub notify_change : WorkspaceLockRegistry → WorkspaceLockRegistry
notify_change reg = record reg {
  notified = reg.notified ++ reg.change_waiters;
  change_waiters = [];
}

-- The promise of `waitForChange`.
unfoldable pub wait_for_change : WorkspaceLockRegistry → WorkspaceLockRegistry × ℕ
wait_for_change reg = (
  record reg {
    change_waiters = reg.change_waiters ++ reg.next_request ∷ [];
    next_request = suc reg.next_request;
  },
  reg.next_request,
)

-- Both branches on a policy.
pub policy_elim {ℓ} :
    {A : Type 0} (P : A → Type ℓ) (p : WorkspacePolicy) (x y : A)
    → (p ≡ shared → P x)
    → (p ≡ exclusive → P y)
    → P (elim p [ shared ↦ x | exclusive ↦ y ])
policy_elim P shared x y f g = f refl
policy_elim P exclusive x y f g = g refl

pub policy_elim₂ {ℓ} :
    {A B : Type 0} (P : A → B → Type ℓ) (p : WorkspacePolicy) (x y : A) (u v : B)
    → (p ≡ shared → P x u)
    → (p ≡ exclusive → P y v)
    → P (elim p [ shared ↦ x | exclusive ↦ y ]) (elim p [ shared ↦ u | exclusive ↦ v ])
policy_elim₂ P shared x y u v f g = f refl
policy_elim₂ P exclusive x y u v f g = g refl
