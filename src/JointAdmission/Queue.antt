-- ===== src/JointAdmission/Queue.antt =====
-- The loop of `#process` in joint-admission.ts: requests are settled from the head of the queue,
-- and the loop pauses only at a request that cannot be admitted yet.
use seqlane.Prelude.{
  has, ℕ, String, ◌≡◌, ◌≢◌, refl, sym, ap, ◌∙◌, subst, true, List, [], ◌∷◌, ◌++◌, map,
  lookup-insert, lookup-erase, All, eq_iff, arith,
}
use mathlib.Core.List.{append_assoc, append-nil}
use seqlane.WorkspaceLock.State.{WorkspaceLockRegistry}
use seqlane.WorkspaceLock.Admit.{is_available as workspace_available}
use seqlane.SessionLock.State.{SessionLockRegistry}
use seqlane.SessionLock.Calls.{is_available as session_available}
use seqlane.JointAdmission.Attempt.{
  session_answer, JointAdmissionRequest, Tried, admits, throws, session_waiting, workspace_waiting,
  unexpected, try_acquire,
}
use seqlane.JointAdmission.Registry.{
  JointAdmissionRegistry, Outcome, resolved, rejected, settle, pause, after_attempt, process_queue,
  queue,
}
use seqlane.JointAdmission.Atomic.{
  BothAvailable, IsAtomic, refuses, takes_both, try_acquire-IsAtomic,
}

module _ {C : Type 0} where
  abbrev pub ids : List (ℕ × Outcome C) → List ℕ
  ids log = map (λ e. e.0) log

  ids-snoc :
      (log : List (ℕ × Outcome C)) (id : ℕ) (o : Outcome C)
      → ids (log ++ (id, o) ∷ []) ≡ ids log ++ id ∷ []
  ids-snoc [] id o = refl
  ids-snoc (e ∷ log) id o = rw (ids-snoc log id o)

  -- The loop is paused, because the head request cannot be admitted.
  abbrev pub IsPaused : JointAdmissionRegistry C → String → List JointAdmissionRequest → Type 0
  IsPaused reg key [] = Unit
  IsPaused reg key (r ∷ rest) =
      (has key reg.processing ≡ true) × (¬ BothAvailable reg.workspace_locks reg.session_locks r)

  -- The loop settled the requests of `done`, in order, and left those of `left` in the queue.
  pub record Progress (reg reg' : JointAdmissionRegistry C) (key : String)
      (rs : List JointAdmissionRequest) : Type 0 where
    pub done : List JointAdmissionRequest
    pub left : List JointAdmissionRequest
    pub split : done ++ left ≡ rs
    pub settled_ids : ids reg'.settled ≡ ids reg.settled ++ map (λ r. r.id) done
    pub left_queue : queue reg' key ≡ left
    pub paused : IsPaused reg' key left
    pub others :
        (k : String)
        → k ≢ key
        → (queue reg' k ≡ queue reg k)
          × (has k reg.processing ≡ true → has k reg'.processing ≡ true)

  queue-settle :
      (reg : JointAdmissionRegistry C) (r : JointAdmissionRequest)
      (rest : List JointAdmissionRequest) (o : Outcome C)
      → queue (settle reg r rest o) r.workspace ≡ rest
  unfolding settle
  queue-settle reg r rest o = ground (
    arith,
    lookup-insert r.workspace r.workspace rest reg.waiting,
    eq_iff r.workspace r.workspace,
  )

  -- The head request is settled, and the loop goes on with the rest.
  Progress-cons :
      (reg : JointAdmissionRegistry C) (ws : WorkspaceLockRegistry)
      (sessions : SessionLockRegistry C) (reg' : JointAdmissionRegistry C) (key : String)
      (r : JointAdmissionRequest) (rest : List JointAdmissionRequest) (o : Outcome C)
      → r.workspace ≡ key
      → Progress
          (settle (record reg { workspace_locks = ws; session_locks = sessions }) r rest o)
          reg'
          key
          rest
      → Progress reg reg' key (r ∷ rest)
  unfolding settle
  Progress-cons reg ws sessions reg' key r rest o k p = record {
    done = r ∷ p.done;
    left = p.left;
    split = ap (◌∷◌ r) p.split;
    settled_ids =
        p.settled_ids ∙ rw (ids-snoc reg.settled r.id o) (append_assoc (ids reg.settled) _ _);
    left_queue = p.left_queue;
    paused = p.paused;
    others = λ j ne.
        ground (
          arith,
          p.others j ne,
          lookup-insert r.workspace j rest reg.waiting,
          eq_iff r.workspace j,
        );
  }

  Progress-stop :
      (reg reg' : JointAdmissionRegistry C) (key : String) (rs : List JointAdmissionRequest)
      → reg'.settled ≡ reg.settled
      → queue reg' key ≡ rs
      → IsPaused reg' key rs
      → ((k : String)
          → k ≢ key
          → (queue reg' k ≡ queue reg k)
            × (has k reg.processing ≡ true → has k reg'.processing ≡ true))
      → Progress reg reg' key rs
  Progress-stop reg reg' key rs e q h others = record {
    done = [];
    left = rs;
    split = refl;
    settled_ids = rw e (sym (append-nil (ids reg.settled)));
    left_queue = q;
    paused = h;
    others = others;
  }

  -- A request that is blocked when the loop pauses is still blocked then.
  pause-blocked :
      (reg : JointAdmissionRegistry C) (key : String) (r : JointAdmissionRequest)
      → ¬ BothAvailable reg.workspace_locks reg.session_locks r
      → ¬ BothAvailable (pause reg key r).workspace_locks (pause reg key r).session_locks r
  unfolding pause workspace_available session_answer session_available
  pause-blocked reg key r busy both = busy both

  after_attempt-Progress :
      (reg : JointAdmissionRegistry C) (key : String) (r : JointAdmissionRequest)
      (rest : List JointAdmissionRequest)
      (tried : WorkspaceLockRegistry × SessionLockRegistry C × Tried C)
      (go : JointAdmissionRegistry C → JointAdmissionRegistry C)
      → queue reg key ≡ r ∷ rest
      → r.workspace ≡ key
      → IsAtomic reg.workspace_locks reg.session_locks r tried
      → ((reg' : JointAdmissionRegistry C)
          → queue reg' key ≡ rest
          → Progress reg' (go reg') key rest)
      → Progress reg (after_attempt reg key r rest tried go) key (r ∷ rest)
  unfolding after_attempt pause has
  after_attempt-Progress reg key r rest (ws, sessions, workspace_waiting b) go q k
        (refuses busy same_ws same_s _) more =
      Progress-stop reg _ key (r ∷ rest) refl q
        (
          ground (arith, eq_iff key key),
          pause-blocked (record reg { workspace_locks = ws; session_locks = sessions }) key r
              (rw (same_ws, same_s) busy),
        )
        (λ j ne. (refl, λ h. ground arith))
  after_attempt-Progress reg key r rest (ws, sessions, session_waiting) go q k
        (refuses busy same_ws same_s _) more =
      Progress-stop reg _ key (r ∷ rest) refl q
        (
          ground (arith, eq_iff key key),
          pause-blocked (record reg { workspace_locks = ws; session_locks = sessions }) key r
              (rw (same_ws, same_s) busy),
        )
        (λ j ne. (refl, λ h. ground arith))
  after_attempt-Progress reg key r rest (ws, sessions, throws why) go q k atomic more =
      let reg₁ = record reg { workspace_locks = ws; session_locks = sessions } in
      let next = settle reg₁ r rest (rejected why) in
      Progress-cons reg ws sessions (go next) key r rest (rejected why) k
        (more next (subst (λ k. queue next k ≡ rest) k (queue-settle reg₁ r rest (rejected why))))
  after_attempt-Progress reg key r rest (ws, sessions, unexpected) go q k atomic more =
      absurd (never atomic)
    where
      never : IsAtomic reg.workspace_locks reg.session_locks r (ws, sessions, unexpected) → ⊥
      never (refuses _ _ _ why) = ground arith
      never (takes_both _ _ _ _ e) = cc
  after_attempt-Progress reg key r rest (ws, sessions, admits leases) go q k atomic more =
      let reg₁ = record reg { workspace_locks = ws; session_locks = sessions } in
      let next = settle reg₁ r rest (resolved leases) in
      Progress-cons reg ws sessions (go next) key r rest (resolved leases) k (
        more next (subst (λ k. queue next k ≡ rest) k (queue-settle reg₁ r rest (resolved leases))))
  after_attempt-Progress reg key r rest (ws, sessions, workspace_waiting b) go q k
        (takes_both l free _ _ e) more =
      absurd (cc)
  after_attempt-Progress reg key r rest (ws, sessions, session_waiting) go q k
        (takes_both l free _ _ e) more =
      absurd (cc)

  -- From any state of the registry, the loop over the queue `rs` of a workspace, whose requests are
  -- all for it, settles a first part of the queue, each request once and in order, and leaves the
  -- rest in the queue. Where a rest is left, the loop is paused and the head of the rest cannot be
  -- admitted, because the workspace or its session is not available. The queues of other workspaces
  -- do not change, and a paused loop of theirs stays paused.
  pub process_queue-Progress :
      (rs : List JointAdmissionRequest) (reg : JointAdmissionRegistry C) (key : String)
      → All (λ r. r.workspace ≡ key) rs
      → queue reg key ≡ rs
      → Progress reg (process_queue reg key rs) key rs
  unfolding process_queue
  process_queue-Progress [] reg key keyed q =
      Progress-stop reg _ key [] refl
        (ground (arith, lookup-erase key key reg.waiting, eq_iff key key)) tt
        (λ j ne. (ground (arith, lookup-erase key j reg.waiting, eq_iff key j), λ h. h))
  process_queue-Progress (r ∷ rest) reg key keyed q =
      after_attempt-Progress reg key r rest (try_acquire reg.workspace_locks reg.session_locks r)
        (λ reg'. process_queue reg' key rest) q keyed.0
        (try_acquire-IsAtomic reg.workspace_locks reg.session_locks r)
        (λ reg' q'. process_queue-Progress rest reg' key keyed.1 q')
