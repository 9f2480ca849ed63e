-- ===== src/SessionLock/Calls.antt =====
-- The methods of libs/runtime/src/runtime/session/session-lock.ts, and the abort listener of a
-- waiting request.
use seqlane.Prelude.{
  ℕ, suc, String, Bool, true, false, ◌&&◌, ◌||◌, not, Option, none, some, List, [], ◌∷◌, ◌++◌,
  num_eq, if◌then◌else◌, is_some, is_empty, or_else, get_elem?, set, lookup, erase, update, sort,
  by_rank, map, max_safe_integer, splice_first,
}
use seqlane.SessionLock.State.{
  WaitingSessionLock, SessionLockLease, Rejection, quarantined_session, cancelled, Settlement,
  resolved, rejected, SessionLockRegistry, find_state, create_lease, notify_change,
}

-- An abort signal as `acquire` reads it.
pub record Signal (C : Type 0) : Type 0 where
  pub aborted : Bool
  pub reason : Option C

pub data Admission (C : Type 0) : Type 0 where
  rejects : Rejection C → Admission C
  granted : (lease : ℕ) → Admission C
  waits : (request : ℕ) → Admission C

-- What `tryAcquire` does: throws, returns undefined or returns a lease.
pub data Attempt (C : Type 0) : Type 0 where
  throws : Rejection C → Attempt C
  refused : Attempt C
  admitted : (lease : ℕ) → Attempt C

-- `isAvailable` throws for a quarantined session.
pub data Availability (C : Type 0) : Type 0 where
  throws : Rejection C → Availability C
  answers : Bool → Availability C

module _ {C : Type 0} where
  -- `signal?.aborted`, with the reason.
  unfoldable pub aborted_reason : Option (Signal C) → Option (Option C)
  aborted_reason none = none
  aborted_reason (some signal) = if signal.aborted then some signal.reason else none

  -- The promise of `acquire`: the request joins the queue, which is sorted by creation ordinal.
  unfoldable pub enqueue : SessionLockRegistry C → ℕ → ℕ → SessionLockRegistry C × Admission C
  enqueue reg a ordinal =
      let s = reg.store a in
      let entry : WaitingSessionLock = record {
        creation_ordinal = ordinal;
        request = reg.next_request;
      } in
      (
        record reg {
          store = update reg.store a (record s {
            waiting = sort (by_rank (λ w. w.creation_ordinal)) (s.waiting ++ entry ∷ []);
          });
          next_request = suc reg.next_request;
        },
        waits reg.next_request,
      )

  -- `acquire` after its lock state was found at `a`.
  unfoldable pub admit :
      SessionLockRegistry C
      → String
      → ℕ
      → ℕ
      → Option (Signal C)
      → SessionLockRegistry C × Admission C
  unfolding aborted_reason enqueue create_lease
  admit reg key a ordinal signal = elim (reg.store a).quarantined [
    | some cause ↦ (reg, rejects (quarantined_session cause))
    | none ↦ elim (aborted_reason signal) [
      | some reason ↦ (reg, rejects (cancelled reason))
      | none ↦
          if not (reg.store a).busy
          then (let (reg', lease) = create_lease reg key a in (reg', granted lease))
          else enqueue reg a ordinal
    ]
  ]

  unfoldable pub acquire :
      SessionLockRegistry C
      → String
      → Option ℕ
      → Option (Signal C)
      → SessionLockRegistry C × Admission C
  unfolding find_state admit
  acquire reg key creation_ordinal signal =
      let (reg', a) = find_state reg key in
      admit reg' key a (or_else creation_ordinal max_safe_integer) signal

  unfoldable pub try_admit : SessionLockRegistry C → String → ℕ → SessionLockRegistry C × Attempt C
  unfolding create_lease
  try_admit reg key a = elim (reg.store a).quarantined [
    | some cause ↦ (reg, Attempt.throws (quarantined_session cause))
    | none ↦
        if (reg.store a).busy || not (is_empty (reg.store a).waiting)
        then (reg, refused)
        else (let (reg', lease) = create_lease reg key a in (reg', admitted lease))
  ]

  unfoldable pub try_acquire : SessionLockRegistry C → String → SessionLockRegistry C × Attempt C
  unfolding find_state try_admit
  try_acquire reg key = let (reg', a) = find_state reg key in try_admit reg' key a

  unfoldable pub is_available : SessionLockRegistry C → String → Availability C
  is_available reg key = elim (lookup key reg.locks) [
    | none ↦ answers true
    | some a ↦ elim (reg.store a).quarantined [
      | some cause ↦ Availability.throws (quarantined_session cause)
      | none ↦ answers (not (reg.store a).busy && is_empty (reg.store a).waiting)
    ]
  ]

  -- The promise of `waitForChange`.
  unfoldable pub wait_for_change : SessionLockRegistry C → SessionLockRegistry C × ℕ
  wait_for_change reg = (
    record reg {
      change_waiters = reg.change_waiters ++ reg.next_request ∷ [];
      next_request = suc reg.next_request;
    },
    reg.next_request,
  )

  -- `waiting.reject(error)` for every request of the queue.
  reject_all : Rejection C → List WaitingSessionLock → List (ℕ × Settlement C)
  reject_all why ws = map (λ w. (w.request, rejected why)) ws

  unfoldable pub quarantine_state : SessionLockRegistry C → ℕ → C → SessionLockRegistry C
  unfolding reject_all notify_change
  quarantine_state reg a cause =
      let s = reg.store a in
      if is_some s.quarantined
      then reg
      else notify_change (record reg {
        store = update reg.store a (record s { quarantined = some cause; waiting = [] });
        settled = reg.settled ++ reject_all (quarantined_session cause) s.waiting;
      })

  unfoldable pub quarantine : SessionLockRegistry C → String → C → SessionLockRegistry C
  unfolding find_state quarantine_state
  quarantine reg key cause = let (reg', a) = find_state reg key in quarantine_state reg' a cause

  -- `onAbort` of the request that waits at `a`; a request that is settled has no listener left.
  unfoldable pub abort : SessionLockRegistry C → ℕ → ℕ → Option C → SessionLockRegistry C
  unfolding notify_change
  abort reg a request reason =
      elim (splice_first (λ w. num_eq w.request request) (reg.store a).waiting) [
        | none ↦ reg
        | some rest ↦ notify_change (record reg {
          store = update reg.store a (record (reg.store a) { waiting = rest });
          settled = reg.settled ++ (request, rejected (cancelled reason)) ∷ [];
        })
      ]

  -- The end of `#release`, by the queue.
  unfoldable pub hand_over :
      SessionLockRegistry C → String → ℕ → List WaitingSessionLock → SessionLockRegistry C
  unfolding create_lease
  hand_over reg key a [] = record reg {
    store = update reg.store a (record (reg.store a) { busy = false });
    locks = erase key reg.locks;
  }
  hand_over reg key a (w ∷ rest) =
      let (reg', lease) =
        create_lease
          (record reg { store = update reg.store a (record (reg.store a) { waiting = rest }) }) key
          a in
      record reg' { settled = reg'.settled ++ (w.request, resolved lease) ∷ [] }

  -- `#release`
  unfoldable pub release_state : SessionLockRegistry C → String → ℕ → SessionLockRegistry C
  unfolding notify_change hand_over
  release_state reg key a =
      let reg' = notify_change reg in
      if is_some (reg'.store a).quarantined
      then reg'
      else hand_over reg' key a (reg'.store a).waiting

  unfoldable pub mark_released :
      SessionLockRegistry C → ℕ → SessionLockLease → SessionLockRegistry C
  mark_released reg lease l = record reg {
    leases = set reg.leases lease (record l { released = true });
  }

  -- `lease.release()`
  unfoldable pub release : SessionLockRegistry C → ℕ → SessionLockRegistry C
  unfolding mark_released release_state
  release reg lease = elim (get_elem? reg.leases lease) [
    | none ↦ reg
    | some l ↦
        if l.released then reg else release_state (mark_released reg lease l) l.session_key l.state
  ]
