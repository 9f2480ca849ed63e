-- ===== src/SessionLock/Heard.antt =====
-- The promises of `waitForChange` in session-lock.ts, and what the calls do to them.
use seqlane.Prelude.{
  ℕ, String, ◌≡◌, true, ◌||◌, Option, [], ◌∷◌, inl, inr, num_eq, splice_first, Option-cases,
  Bool-cases, lookup, get_elem?, has_num, has_num-append, or_else, max_safe_integer, arith,
}
use seqlane.SessionLock.State.{
  SessionLockLease, SessionLockRegistry, find_state, create_state, create_lease, notify_change,
}
use seqlane.SessionLock.Calls.{
  Signal, enqueue, admit, acquire, try_admit, try_acquire, wait_for_change, quarantine_state,
  quarantine, abort, hand_over, release_state, mark_released, release,
}
use seqlane.SessionLock.Machine.{
  Call, acquires, tries, releases, aborts, quarantines, awaits_change, step,
}
use seqlane.SessionLock.Exclusion.{IsOut}

module _ {C : Type 0} where
  -- The promise `n` of `waitForChange` was resolved, or the next change resolves it.
  abbrev pub IsHeard : SessionLockRegistry C → ℕ → Type 0
  IsHeard reg n = (has_num n reg.notified || has_num n reg.change_waiters) ≡ true

  -- A call that resolves no promise and makes none.
  abbrev IsQuiet : SessionLockRegistry C → SessionLockRegistry C → Type 0
  IsQuiet reg reg' = (reg'.notified ≡ reg.notified) × (reg'.change_waiters ≡ reg.change_waiters)

  find_state-IsQuiet :
      (reg : SessionLockRegistry C) (key : String) → IsQuiet reg (find_state reg key).0
  unfolding find_state create_state
  find_state-IsQuiet reg key = ground (arith, Option-cases (lookup key reg.locks))

  admit-IsQuiet :
      (reg : SessionLockRegistry C) (key : String) (a ordinal : ℕ) (signal : Option (Signal C))
      → IsQuiet reg (admit reg key a ordinal signal).0
  unfolding admit enqueue create_lease
  admit-IsQuiet reg key a ordinal signal = ground arith

  acquire-IsQuiet :
      (reg : SessionLockRegistry C) (key : String) (ordinal : Option ℕ) (signal : Option (Signal C))
      → IsQuiet reg (acquire reg key ordinal signal).0
  unfolding acquire
  acquire-IsQuiet reg key ordinal signal =
      let (reg₁, a) = find_state reg key in
      ground (
        arith,
        find_state-IsQuiet reg key,
        admit-IsQuiet reg₁ key a (or_else ordinal max_safe_integer) signal,
      )

  try_admit-IsQuiet :
      (reg : SessionLockRegistry C) (key : String) (a : ℕ) → IsQuiet reg (try_admit reg key a).0
  unfolding try_admit create_lease
  try_admit-IsQuiet reg key a = ground arith

  pub try_acquire-IsHeard :
      (reg : SessionLockRegistry C) (key : String) (n : ℕ)
      → IsHeard reg n
      → IsHeard (try_acquire reg key).0 n
  unfolding try_acquire
  try_acquire-IsHeard reg key n h =
      let (reg₁, a) = find_state reg key in
      ground (arith, find_state-IsQuiet reg key, try_admit-IsQuiet reg₁ key a, h)

  -- What `#release` does to the promises.
  release_state-notifies :
      (reg : SessionLockRegistry C) (key : String) (a : ℕ)
      → IsQuiet (notify_change reg) (release_state reg key a)
  unfolding release_state notify_change hand_over create_lease
  release_state-notifies reg key a = ground arith

  notified-IsHeard :
      (reg reg' : SessionLockRegistry C) (n : ℕ)
      → IsQuiet (notify_change reg) reg'
      → IsHeard reg n
      → has_num n reg'.notified ≡ true
  unfolding notify_change
  notified-IsHeard reg reg' n quiet h =
      rw (quiet.0, has_num-append n reg.notified reg.change_waiters) h

  -- The release of a lease that is out resolves every promise of `waitForChange` made so far.
  pub release-notifies :
      (reg : SessionLockRegistry C) (i : ℕ) (l : SessionLockLease) (n : ℕ)
      → IsOut reg i l
      → IsHeard reg n
      → has_num n (release reg i).notified ≡ true
  unfolding release mark_released
  release-notifies reg i l n out h =
      let marked = mark_released reg i l in
      ground (
        arith,
        out,
        h,
        notified-IsHeard marked (release_state marked l.session_key l.state) n
            (release_state-notifies marked l.session_key l.state) h,
      )

  release-IsHeard :
      (reg : SessionLockRegistry C) (i n : ℕ) → IsHeard reg n → IsHeard (release reg i) n
  unfolding release
  release-IsHeard reg i n h = elim (Option-cases (get_elem? reg.leases i)) [
    | inl e ↦ ground (arith, e, h)
    | inr (l, e) ↦ elim (Bool-cases l.released) [
      | inl gone ↦ ground (arith, e, gone, h)
      | inr out ↦ ground (arith, release-notifies reg i l n (e, out) h)
    ]
  ]

  pub wait_for_change-IsHeard :
      (reg : SessionLockRegistry C) (n : ℕ) → IsHeard reg n → IsHeard (wait_for_change reg).0 n
  unfolding wait_for_change
  wait_for_change-IsHeard reg n h =
      ground (arith, h, has_num-append n reg.change_waiters (reg.next_request ∷ []))

  -- The promise that `waitForChange` makes.
  pub wait_for_change-own :
      (reg : SessionLockRegistry C) → IsHeard (wait_for_change reg).0 (wait_for_change reg).1
  unfolding wait_for_change has_num
  wait_for_change-own reg =
      ground (arith, has_num-append reg.next_request reg.change_waiters (reg.next_request ∷ []))

  abort-IsHeard :
      (reg : SessionLockRegistry C) (a request : ℕ) (reason : Option C) (n : ℕ)
      → IsHeard reg n
      → IsHeard (abort reg a request reason) n
  unfolding abort notify_change
  abort-IsHeard reg a request reason n h = ground (
    arith,
    h,
    Option-cases (splice_first (λ w. num_eq w.request request) (reg.store a).waiting),
    has_num-append n reg.notified reg.change_waiters,
  )

  quarantine-IsHeard :
      (reg : SessionLockRegistry C) (key : String) (cause : C) (n : ℕ)
      → IsHeard reg n
      → IsHeard (quarantine reg key cause) n
  unfolding quarantine quarantine_state notify_change
  quarantine-IsHeard reg key cause n h =
      ground
        (arith, h, find_state-IsQuiet reg key, has_num-append n reg.notified reg.change_waiters)

  -- No call forgets a promise of `waitForChange`.
  pub step-IsHeard :
      (reg : SessionLockRegistry C) (call : Call C) (n : ℕ)
      → IsHeard reg n
      → IsHeard (step reg call) n
  unfolding step
  step-IsHeard reg (acquires key ordinal signal) n h =
      ground (arith, acquire-IsQuiet reg key ordinal signal, h)
  step-IsHeard reg (tries key) n h = try_acquire-IsHeard reg key n h
  step-IsHeard reg (releases lease) n h = release-IsHeard reg lease n h
  step-IsHeard reg (aborts a request reason) n h = abort-IsHeard reg a request reason n h
  step-IsHeard reg (quarantines key cause) n h = quarantine-IsHeard reg key cause n h
  step-IsHeard reg awaits_change n h = wait_for_change-IsHeard reg n h
