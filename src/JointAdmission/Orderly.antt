-- ===== src/JointAdmission/Orderly.antt =====
-- The queues of joint-admission.ts over any history, and the loops that look after them.
use seqlane.Prelude.{
  has, without, ℕ, String, ◌≡◌, ◌≢◌, refl, sym, subst, inl, inr, Bool, true, ◌&&◌, Option, none,
  some, List, [], ◌∷◌, ◌++◌, if◌then◌else◌, if_elim, num_eq, or_else, is_empty, lookup, insert,
  erase, lookup-insert, lookup-erase, All, IsRanked, sort-IsRanked, sort-All, splice_first,
  splice_first-All, splice_first-IsRanked, splice_first-nil, Option-cases, name_cases, eq_iff,
  arith,
}
use seqlane.JointAdmission.Attempt.{JointAdmissionRequest}
use seqlane.JointAdmission.Registry.{
  JointAdmissionRegistry, queue, enqueue, process, process_queue, acquire, abort, race_is_over,
  wake,
}
use seqlane.JointAdmission.Listening.{Listens, run-IsListening}
use seqlane.JointAdmission.Queue.{Progress, IsPaused, process_queue-Progress}
use seqlane.JointAdmission.Machine.{
  Call, acquires, aborts, wakes, workspace_calls, session_calls, empty_registry, step, run,
}

abbrev pub ordinal_of : JointAdmissionRequest → ℕ
ordinal_of r = r.creation_ordinal

-- The queue of one workspace: its own requests, in creation order, and a paused loop if it has any.
pub record IsOrderlyQueue (key : String) (rs : List JointAdmissionRequest) (paused : Bool)
    : Type 0 where
  pub keyed : All (λ r. r.workspace ≡ key) rs
  pub ordered : IsRanked ordinal_of rs
  pub watched : rs ≢ [] → paused ≡ true

All-suffix :
    (P : JointAdmissionRequest → Type 0) (xs ys zs : List JointAdmissionRequest)
    → xs ++ ys ≡ zs
    → All P zs
    → All P ys
All-suffix P [] ys zs e h = subst (All P) (sym e) h
All-suffix P (x ∷ xs) ys [] e h = cc
All-suffix P (x ∷ xs) ys (z ∷ zs) e h = All-suffix P xs ys zs (ground arith) h.1

IsRanked-suffix :
    (xs ys zs : List JointAdmissionRequest)
    → xs ++ ys ≡ zs
    → IsRanked ordinal_of zs
    → IsRanked ordinal_of ys
IsRanked-suffix [] ys zs e h = subst (IsRanked ordinal_of) (sym e) h
IsRanked-suffix (x ∷ xs) ys [] e h = cc
IsRanked-suffix (x ∷ xs) ys (z ∷ zs) e h = IsRanked-suffix xs ys zs (ground arith) h.1

pub has-without : (k key : String) (ks : List String) → k ≢ key → has k (without key ks) ≡ has k ks
unfolding has without
has-without k key [] ne = refl
has-without k key (j ∷ ks) ne = ground (arith, has-without k key ks ne, eq_iff j key, eq_iff j k)

All-snoc :
    (P : JointAdmissionRequest → Type 0) (xs : List JointAdmissionRequest)
    (x : JointAdmissionRequest)
    → All P xs
    → P x
    → All P (xs ++ x ∷ [])
All-snoc P [] x h p = (p, tt)
All-snoc P (y ∷ xs) x h p = (h.0, All-snoc P xs x h.1 p)

module _ {C : Type 0} where
  abbrev pub IsOrderly : JointAdmissionRegistry C → Type 0
  IsOrderly reg = (key : String) → IsOrderlyQueue key (queue reg key) (has key reg.processing)

  -- The loop over a queue in order leaves every queue orderly.
  process_queue-IsOrderly :
      (reg : JointAdmissionRegistry C) (key : String)
      → All (λ r. r.workspace ≡ key) (queue reg key)
      → IsRanked ordinal_of (queue reg key)
      → ((k : String) → k ≢ key → IsOrderlyQueue k (queue reg k) (has k reg.processing))
      → IsOrderly (process_queue reg key (queue reg key))
  process_queue-IsOrderly reg key keyed ordered others k = elim (name_cases k key) [
    | inl (_, same) ↦ rw same here
    | inr (_, ne) ↦
        let (q, kept) = p.others k ne in
        let o = others k ne in
        record {
          keyed = rw q o.keyed;
          ordered = rw q o.ordered;
          watched = λ busy. kept (o.watched (λ e. busy (ground arith)));
        }
  ]
    where
      reg' : JointAdmissionRegistry C
      reg' = process_queue reg key (queue reg key)

      p : Progress reg reg' key (queue reg key)
      p = process_queue-Progress (queue reg key) reg key keyed refl

      watched :
          (left : List JointAdmissionRequest)
          → IsPaused reg' key left
          → left ≢ []
          → has key reg'.processing ≡ true
      watched [] h busy = absurd (busy refl)
      watched (r ∷ rest) h busy = h.0

      here : IsOrderlyQueue key (queue reg' key) (has key reg'.processing)
      here = rw (p.left_queue) (record {
        keyed = All-suffix _ p.done p.left (queue reg key) p.split keyed;
        ordered = IsRanked-suffix p.done p.left (queue reg key) p.split ordered;
        watched = watched p.left p.paused;
      })

  -- The queue of one workspace is written, and its loop is not running.
  write-others :
      (reg : JointAdmissionRegistry C) (key : String) (rs : List JointAdmissionRequest)
      → IsOrderly reg
      → (k : String) → k ≢ key
      → IsOrderlyQueue k (or_else (lookup k (insert key rs reg.waiting)) []) (has k reg.processing)
  write-others reg key rs h k ne =
      let same : lookup k (insert key rs reg.waiting) ≡ lookup k reg.waiting =
        ground (arith, lookup-insert key k rs reg.waiting, eq_iff key k) in
      rw same (h k)

  written :
      (reg : JointAdmissionRegistry C) (key : String) (rs : List JointAdmissionRequest)
      → or_else (lookup key (insert key rs reg.waiting)) [] ≡ rs
  written reg key rs = ground (arith, lookup-insert key key rs reg.waiting, eq_iff key key)

  acquire-IsOrderly :
      (reg : JointAdmissionRegistry C) (r : JointAdmissionRequest) (aborted : Option (Option C))
      → IsOrderly reg
      → IsOrderly (acquire reg r aborted)
  unfolding acquire process
  acquire-IsOrderly reg r (some reason) h = h
  acquire-IsOrderly reg r none h =
      if_elim IsOrderly (has r.workspace reg.processing) _ _
        (λ running k. elim (name_cases k r.workspace) [
          | inl (_, same) ↦
              rw (same, written reg r.workspace (enqueue reg r))
                (record { keyed = keyed; ordered = ordered; watched = λ _. running })
          | inr (_, ne) ↦ write-others reg r.workspace (enqueue reg r) h k ne
        ])
        (λ idle.
          let e = written reg r.workspace (enqueue reg r) in
          subst
            (λ rs. IsOrderly (
              process_queue
                (record reg { waiting = insert r.workspace (enqueue reg r) reg.waiting })
                r.workspace rs))
            e
            (process_queue-IsOrderly
              (record reg { waiting = insert r.workspace (enqueue reg r) reg.waiting }) r.workspace
              (rw e keyed) (rw e ordered) (write-others reg r.workspace (enqueue reg r) h)))
    where
      keyed : All (λ q. q.workspace ≡ r.workspace) (enqueue reg r)
      keyed =
          sort-All _ _ (queue reg r.workspace ++ r ∷ [])
            (All-snoc _ (queue reg r.workspace) r (h r.workspace).keyed refl)

      ordered : IsRanked ordinal_of (enqueue reg r)
      ordered = sort-IsRanked ordinal_of (queue reg r.workspace ++ r ∷ [])

  abort-IsOrderly :
      (reg : JointAdmissionRegistry C) (key : String) (id : ℕ) (reason : Option C)
      → IsOrderly reg
      → IsOrderly (abort reg key id reason)
  unfolding abort
  abort-IsOrderly reg key id reason h =
      elim (Option-cases (splice_first (λ r. num_eq r.id id) (queue reg key))) [
        | inl e ↦ rw (e, abort) h
        | inr (rest, e) ↦
            rw (e, abort)
              (λ k. elim (name_cases k key) [
                | inl (_, same) ↦ rw (same, left rest) (here rest e)
                | inr (_, ne) ↦ rw (elsewhere rest k ne) (h k)
              ])
      ]
    where
      left :
          (rest : List JointAdmissionRequest)
          → or_else
              (lookup key
                (if is_empty rest then erase key reg.waiting else insert key rest reg.waiting))
              []
            ≡ rest
      left [] = ground (arith, lookup-erase key key reg.waiting, eq_iff key key)
      left (r ∷ rs) = written reg key (r ∷ rs)

      elsewhere :
          (rest : List JointAdmissionRequest) (k : String)
          → k ≢ key
          → lookup k (if is_empty rest then erase key reg.waiting else insert key rest reg.waiting)
            ≡ lookup k reg.waiting
      elsewhere [] k ne = ground (arith, lookup-erase key k reg.waiting, eq_iff key k)
      elsewhere (r ∷ rs) k ne =
          ground (arith, lookup-insert key k (r ∷ rs) reg.waiting, eq_iff key k)

      here :
          (rest : List JointAdmissionRequest)
          → splice_first (λ r. num_eq r.id id) (queue reg key) ≡ some rest
          → IsOrderlyQueue key rest (has key reg.processing)
      here rest e = record {
        keyed = splice_first-All (λ r. num_eq r.id id) _ (queue reg key) rest e (h key).keyed;
        ordered =
            splice_first-IsRanked (λ r. num_eq r.id id) ordinal_of (queue reg key) rest e
              (h key).ordered;
        watched = λ _. (h key).watched (λ none_waits.
            ground (arith, e, splice_first-nil (λ r. num_eq r.id id) (queue reg key) none_waits));
      }

  wake-IsOrderly :
      (reg : JointAdmissionRegistry C) (key : String) → IsOrderly reg → IsOrderly (wake reg key)
  unfolding wake
  wake-IsOrderly reg key h =
      if_elim IsOrderly (has key reg.processing && race_is_over reg key) _ _
        (λ _.
          process_queue-IsOrderly (record reg { processing = without key reg.processing }) key
            (h key).keyed (h key).ordered (λ k ne. rw (has-without k key reg.processing ne) (h k)))
        (λ _. h)

  step-IsOrderly :
      (reg : JointAdmissionRegistry C) (call : Call C) → IsOrderly reg → IsOrderly (step reg call)
  unfolding step
  step-IsOrderly reg (acquires r aborted) h = acquire-IsOrderly reg r aborted h
  step-IsOrderly reg (aborts workspace request reason) h =
      abort-IsOrderly reg workspace request reason h
  step-IsOrderly reg (wakes workspace) h = wake-IsOrderly reg workspace h
  step-IsOrderly reg (workspace_calls call) h = h
  step-IsOrderly reg (session_calls call) h = h

  run_from-IsOrderly :
      (calls : List (Call C)) (reg : JointAdmissionRegistry C)
      → IsOrderly reg
      → IsOrderly (run reg calls)
  unfolding run
  run_from-IsOrderly [] reg h = h
  run_from-IsOrderly (call ∷ calls) reg h =
      run_from-IsOrderly calls (step reg call) (step-IsOrderly reg call h)

  -- After any history of calls, abort events, turns of loops and calls of other clients of the locks,
  -- the queue of every workspace holds only requests for it, in creation order. Where it is not
  -- empty, its loop is paused and awaits one promise of each lock, which that lock has resolved
  -- already or keeps for its next change.
  pub run-IsOrderly :
      (calls : List (Call C)) (key : String)
      → let reg = run empty_registry calls in
        IsOrderlyQueue key (queue reg key) (has key reg.processing)
        × (queue reg key ≢ [] → Listens reg key)
  unfolding empty_registry lookup
  run-IsOrderly calls key =
      let orderly =
        run_from-IsOrderly calls empty_registry
          (λ k. record { keyed = tt; ordered = tt; watched = λ busy. absurd (busy refl) }) key in
      (orderly, λ busy. run-IsListening calls key (orderly.watched busy))
