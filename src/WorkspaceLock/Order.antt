-- ===== src/WorkspaceLock/Order.antt =====
-- Whom a release of workspace-lock.ts lets in: one writer, or the readers in front of the first
-- waiting writer, taken from the front of a queue that is in creation order.
use seqlane.Prelude.{
  ℕ, ◌≤◌, String, ◌≡◌, refl, sym, ◌∙◌, inl, inr, subst, List, [], ◌∷◌, ◌++◌, map, if◌then◌else◌,
  is_some, is_empty, Bool-cases, if_elim, update_self, All, IsRanked, arith,
}
use mathlib.Core.List.{append_assoc, append-nil}
use seqlane.WorkspaceLock.State.{
  shared, exclusive, WorkspaceLockState, WorkspaceLockLease, WaitingWorkspaceLock,
  WorkspaceLockRegistry, enter, create_lease, policy_elim, policy_elim₂, empty_registry,
  notify_change,
}
use seqlane.WorkspaceLock.Release.{
  leave, resolve_waiting, grant_readers, grant_first, grant_waiting, forget_idle, release_state,
  mark_released, release,
}
use seqlane.WorkspaceLock.Machine.{Call, run}
use seqlane.WorkspaceLock.Booked.{ordinal_of}
use seqlane.WorkspaceLock.Admitted.{enter-waiting}
use seqlane.WorkspaceLock.Granted.{resolve_waiting-store}
use seqlane.WorkspaceLock.Sound.{run-IsSound, leave-waiting, left}
use seqlane.WorkspaceLock.Exclusion.{IsOut}

-- The readers in front of the first writer.
leading_readers : List WaitingWorkspaceLock → List WaitingWorkspaceLock
leading_readers [] = []
leading_readers (w ∷ ws) = elim w.policy [ shared ↦ w ∷ leading_readers ws | exclusive ↦ [] ]

first_admitted : List (String × ℕ) → List WaitingWorkspaceLock → List WaitingWorkspaceLock
unfolding leading_readers
first_admitted readers [] = []
first_admitted readers (w ∷ ws) = elim w.policy [
  | shared ↦ w ∷ leading_readers ws
  | exclusive ↦ if is_empty readers then w ∷ [] else []
]

-- The requests that a lock state lets in when a lease comes back.
pub admitted_next : WorkspaceLockState → List WaitingWorkspaceLock
unfolding first_admitted
admitted_next s = if is_some s.writer_invocation_id then [] else first_admitted s.readers s.waiting

abbrev pub requests : List (ℕ × ℕ) → List ℕ
requests log = map (λ r. r.0) log

-- `reg'` has settled the requests of `ws` after those of `reg`, and the queue at `a` is what is left.
abbrev Settles :
    WorkspaceLockRegistry
    → WorkspaceLockRegistry
    → ℕ
    → List WaitingWorkspaceLock
    → List WaitingWorkspaceLock
    → Type 0
Settles reg reg' a queue ws =
    (requests reg'.resolved ≡ requests reg.resolved ++ map (λ w. w.request) ws)
    × (ws ++ (reg'.store a).waiting ≡ queue)

requests-snoc :
    (log : List (ℕ × ℕ)) (r l : ℕ) → requests (log ++ (r, l) ∷ []) ≡ requests log ++ r ∷ []
requests-snoc [] r l = refl
requests-snoc (x ∷ log) r l = rw (requests-snoc log r l)

resolve_waiting-requests :
    (reg : WorkspaceLockRegistry) (key : String) (a : ℕ) (w : WaitingWorkspaceLock)
    (rest : List WaitingWorkspaceLock)
    → requests (resolve_waiting reg key a w rest).resolved ≡ requests reg.resolved ++ w.request ∷ []
unfolding resolve_waiting create_lease
resolve_waiting-requests reg key a w rest = requests-snoc reg.resolved w.request _

resolve_waiting-waiting :
    (reg : WorkspaceLockRegistry) (key : String) (a : ℕ) (w : WaitingWorkspaceLock)
    (rest : List WaitingWorkspaceLock)
    → ((resolve_waiting reg key a w rest).store a).waiting ≡ rest
resolve_waiting-waiting reg key a w rest =
    let s : WorkspaceLockState = record (reg.store a) { waiting = rest } in
    rw
      (
        resolve_waiting-store reg key a w rest,
        update_self reg.store a (enter s w.policy w.owner_id),
      )
      (enter-waiting s w.policy w.owner_id)

-- One request after another.
Settles-cons :
    (reg reg₁ reg₂ : WorkspaceLockRegistry) (a : ℕ) (w : WaitingWorkspaceLock)
    (rest ws : List WaitingWorkspaceLock)
    → requests reg₁.resolved ≡ requests reg.resolved ++ w.request ∷ []
    → Settles reg₁ reg₂ a rest ws
    → Settles reg reg₂ a (w ∷ rest) (w ∷ ws)
Settles-cons reg reg₁ reg₂ a w rest ws one more =
    (more.0 ∙ rw one (append_assoc (requests reg.resolved) (w.request ∷ []) _), rw more.1)

grant_readers-Settles :
    (ws : List WaitingWorkspaceLock) (reg : WorkspaceLockRegistry) (key : String) (a : ℕ)
    → (reg.store a).waiting ≡ ws
    → Settles reg (grant_readers reg key a ws) a ws (leading_readers ws)
unfolding grant_readers leading_readers
grant_readers-Settles [] reg key a e = (sym (append-nil (requests reg.resolved)), e)
grant_readers-Settles (w ∷ rest) reg key a e =
    policy_elim₂ (λ reg' ws. Settles reg reg' a (w ∷ rest) ws) w.policy _ _ _ _
      (λ _.
        Settles-cons reg (resolve_waiting reg key a w rest)
          (grant_readers (resolve_waiting reg key a w rest) key a rest) a w rest
          (leading_readers rest) (resolve_waiting-requests reg key a w rest)
          (grant_readers-Settles rest (resolve_waiting reg key a w rest) key a
            (resolve_waiting-waiting reg key a w rest)))
      (λ _. (sym (append-nil (requests reg.resolved)), e))

leading_readers-cons :
    (w : WaitingWorkspaceLock) (rest : List WaitingWorkspaceLock)
    → w.policy ≡ shared
    → leading_readers (w ∷ rest) ≡ w ∷ leading_readers rest
unfolding leading_readers
leading_readers-cons w rest p =
    policy_elim (λ l. l ≡ w ∷ leading_readers rest) w.policy _ _ (λ _. refl) (λ q. cc)

first_admitted-nil :
    (s : WorkspaceLockState) → s.waiting ≡ [] → first_admitted s.readers s.waiting ≡ []
unfolding first_admitted
first_admitted-nil s e = rw e

grant_first-Settles :
    (ws : List WaitingWorkspaceLock) (reg : WorkspaceLockRegistry) (key : String) (a : ℕ)
    → (reg.store a).waiting ≡ ws
    → Settles reg (grant_first reg key a ws) a ws (first_admitted (reg.store a).readers ws)
unfolding grant_first first_admitted
grant_first-Settles [] reg key a e = (sym (append-nil (requests reg.resolved)), e)
grant_first-Settles (w ∷ rest) reg key a e =
    policy_elim₂ (λ reg' ws. Settles reg reg' a (w ∷ rest) ws) w.policy _ _ _ _
      (λ p. first_reader-Settles p)
      (λ _. elim (Bool-cases (is_empty (reg.store a).readers)) [
        | inl alone ↦ rw alone (
            Settles-cons reg (resolve_waiting reg key a w rest) (resolve_waiting reg key a w rest) a
              w rest [] (resolve_waiting-requests reg key a w rest)
              (
                sym (append-nil (requests (resolve_waiting reg key a w rest).resolved)),
                resolve_waiting-waiting reg key a w rest,
              ))
        | inr busy ↦ rw busy (sym (append-nil (requests reg.resolved)), e)
      ])
  where
    first_reader-Settles :
        w.policy ≡ shared
        → Settles reg (grant_readers reg key a (w ∷ rest)) a (w ∷ rest) (w ∷ leading_readers rest)
    first_reader-Settles p =
        subst (Settles reg (grant_readers reg key a (w ∷ rest)) a (w ∷ rest))
          (leading_readers-cons w rest p) (grant_readers-Settles (w ∷ rest) reg key a e)

-- A lock state settles the requests that it lets in, in the order of its queue.
grant_waiting-Settles :
    (reg : WorkspaceLockRegistry) (key : String) (a : ℕ)
    → Settles reg (grant_waiting reg key a) a (reg.store a).waiting (admitted_next (reg.store a))
unfolding grant_waiting admitted_next
grant_waiting-Settles reg key a = elim (Bool-cases (is_some s.writer_invocation_id)) [
  | inl taken ↦ rw taken (sym (append-nil (requests reg.resolved)), refl)
  | inr free ↦ rw free (
      if_elim (λ reg'. Settles reg reg' a s.waiting (first_admitted s.readers s.waiting))
        (is_empty s.waiting) _ _
        (λ none_waits.
          subst (Settles reg reg a s.waiting) (sym (first_admitted-nil s (ground arith)))
            (sym (append-nil (requests reg.resolved)), refl))
        (λ _. grant_first-Settles s.waiting reg key a refl))
]
  where
    s : WorkspaceLockState
    s = reg.store a

abbrev pub came_back : WorkspaceLockRegistry → WorkspaceLockLease → WorkspaceLockState
came_back reg l = leave (reg.store l.state) l.policy l.invocation_id

release-left :
    (reg : WorkspaceLockRegistry) (i : ℕ) (l : WorkspaceLockLease)
    → IsOut reg i l
    → release reg i
      ≡ forget_idle (grant_waiting (left reg i l) l.resource_key l.state) l.resource_key l.state
unfolding release release_state mark_released notify_change
release-left reg i l out = rw (out.0, release) (rw out.1)

forget_idle-store :
    (reg : WorkspaceLockRegistry) (key : String) (a : ℕ)
    → ((forget_idle reg key a).store ≡ reg.store)
      × ((forget_idle reg key a).resolved ≡ reg.resolved)
unfolding forget_idle
forget_idle-store reg key a =
    if_elim (λ r. (r.store ≡ reg.store) × (r.resolved ≡ reg.resolved)) _ _ reg (λ _. (refl, refl))
      (λ _. (refl, refl))

release-Settles :
    (reg : WorkspaceLockRegistry) (i : ℕ) (l : WorkspaceLockLease)
    → IsOut reg i l
    → Settles reg
        (release reg i)
        l.state
        (reg.store l.state).waiting
        (admitted_next (came_back reg l))
release-Settles reg i l out =
    let reg' = left reg i l in
    let back = came_back reg l in
    let granted = grant_waiting reg' l.resource_key l.state in
    let (settled, kept) = grant_waiting-Settles reg' l.resource_key l.state in
    let (store, resolved) = forget_idle-store granted l.resource_key l.state in
    let here : reg'.store l.state ≡ back = update_self reg.store l.state back in
    let queue : back.waiting ≡ (reg.store l.state).waiting =
      leave-waiting (reg.store l.state) l.policy l.invocation_id in
    rw (release-left reg i l out, store, resolved)
      (
        rw here at settled,
        subst (λ s. admitted_next s ++ (granted.store l.state).waiting ≡ s.waiting) here kept
            ∙ queue,
      )

-- Every item of the first list ranks at most as high as every item of the second.
abbrev pub AllBefore : List WaitingWorkspaceLock → List WaitingWorkspaceLock → Type 0
AllBefore ws rest = All (λ w. All (λ v. w.creation_ordinal ≤ v.creation_ordinal) rest) ws

All-append_right {ℓ} : {A : Type 0} (P : A → Type ℓ) (xs ys : List A) → All P (xs ++ ys) → All P ys
All-append_right P [] ys h = h
All-append_right P (x ∷ xs) ys h = All-append_right P xs ys h.1

ranked-AllBefore :
    (ws rest : List WaitingWorkspaceLock) → IsRanked ordinal_of (ws ++ rest) → AllBefore ws rest
ranked-AllBefore [] rest h = tt
ranked-AllBefore (w ∷ ws) rest h = (All-append_right _ ws rest h.0, ranked-AllBefore ws rest h.1)

-- After any history of calls, the release of a lease that is out settles exactly the requests that
-- its lock state lets in once the lease has come back (none while somebody holds it against them,
-- else the writer at the head of the queue or the readers before the first writer), in the order
-- of the queue. The queue keeps the others, and each of these was created no earlier than each of
-- those let in.
pub release-serves_in_order :
    (calls : List Call) (i : ℕ) (l : WorkspaceLockLease)
    → IsOut (run empty_registry calls) i l
    → let reg = run empty_registry calls in
      let ws = admitted_next (came_back reg l) in
      (requests (release reg i).resolved ≡ requests reg.resolved ++ map (λ w. w.request) ws)
      × (ws ++ ((release reg i).store l.state).waiting ≡ (reg.store l.state).waiting)
      × AllBefore ws ((release reg i).store l.state).waiting
release-serves_in_order calls i l out =
    let reg = run empty_registry calls in
    let (settled, kept) = release-Settles reg i l out in
    (
      settled,
      kept,
      ranked-AllBefore _ _
          (subst (IsRanked ordinal_of) (sym kept) ((run-IsSound calls).booked.ordered l.state)),
    )
