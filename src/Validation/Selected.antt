-- ===== src/Validation/Selected.antt =====
-- `resolveSessionSelections` of plan-validation.ts ends within its fuel.
use seqlane.Prelude.{
  ℕ, zero, suc, ◌+◌, ◌≤◌, ◌<◌, String, ◌≡◌, ◌≢◌, refl, inl, inr, false, Option, none, some, List,
  [], ◌∷◌, ◌++◌, if◌then◌else◌, length, Bool-cases, Option-cases, lookup, has, ◌==◌, eq_iff, arith,
}
use seqlane.Binding.Json.{Json}
use seqlane.Plan.Nodes.{
  PlanSessionPolicy, isolated, reuse, fork, TaskNode, PlanNode, task, workflow, validation_check,
  validation_gate, repeat, choice,
}
use seqlane.Validation.References.{NodesById}
use seqlane.Validation.Sessions.{
  as_task, Resolving, return, inherit, resolve_source, resolve_policy, resolve_selection,
  selection_fuel, resolve_all, source_issues,
}

-- The entries of the map that are not being resolved.
fresh : NodesById → List String → ℕ
fresh [] resolving = 0
fresh ((id, n) ∷ rest) resolving = (if has id resolving then 0 else 1) + fresh rest resolving

fresh-cons :
    (nodes : NodesById) (id : String) (resolving : List String)
    → fresh nodes (id ∷ resolving) ≤ fresh nodes resolving
unfolding fresh has
fresh-cons [] id resolving = omega arith
fresh-cons ((key, n) ∷ rest) id resolving = ground (arith, fresh-cons rest id resolving)

fresh-enter :
    (nodes : NodesById) (id : String) (n : PlanNode) (resolving : List String)
    → lookup id nodes ≡ some n
    → has id resolving ≡ false
    → fresh nodes (id ∷ resolving) < fresh nodes resolving
unfolding fresh has lookup
fresh-enter [] id n resolving e new = absurd (cc)
fresh-enter ((key, m) ∷ rest) id n resolving e new = elim (Bool-cases (key == id)) [
  | inl same ↦ ground (
    arith,
    (eq_iff key id).0 same,
    new,
    eq_iff id id,
    eq_iff id key,
    fresh-cons rest id resolving,
  )
  | inr other ↦ ground (
    arith,
    other,
    eq_iff id key,
    eq_iff key id,
    fresh-enter rest id n resolving (ground (arith, e, other)) new,
  )
]

fresh-length : (nodes : NodesById) (resolving : List String) → fresh nodes resolving ≤ length nodes
unfolding fresh
fresh-length [] resolving = omega arith
fresh-length ((id, n) ∷ rest) resolving = ground (arith, fresh-length rest resolving)

inherit-ends :
    (id : String) (declared : Option Json) (o : Option Resolving)
    → o ≢ none
    → inherit id declared o ≢ none
inherit-ends id declared none h = absurd (h refl)
inherit-ends id declared (some st) h = λ e. cc

module _ (nodes : NodesById) (go : Resolving → String → Option Resolving) where
  -- The call ends from any state in which the same nodes are being resolved.
  abbrev EndsFrom : List String → Type 0
  EndsFrom resolving = (st : Resolving) (id : String) → st.resolving ≡ resolving → go st id ≢ none

  resolve_source-ends :
      (st : Resolving) (n : TaskNode) (from : String) (declared : Option Json) (id : String)
      → EndsFrom st.resolving
      → resolve_source nodes st n from declared id go ≢ none
  unfolding resolve_source
  resolve_source-ends st n from declared id h = by_source (as_task (lookup from nodes))
    where
      by_source :
          (o : Option TaskNode)
          → elim o [
            | none ↦ inherit id declared (
                some (return (record st { issues = st.issues ++ source_issues nodes n from }) none))
            | some source ↦
                inherit id declared (
                  go
                    (record st { issues = st.issues ++ source_issues nodes n from })
                    source.node_id)
          ]
            ≢ none
      by_source none =
          inherit-ends id declared
            (some (return (record st { issues = st.issues ++ source_issues nodes n from }) none))
            (λ e. cc)
      by_source (some source) =
          inherit-ends id declared
            (go (record st { issues = st.issues ++ source_issues nodes n from }) source.node_id)
            (h (record st { issues = st.issues ++ source_issues nodes n from }) source.node_id refl)

  resolve_policy-ends :
      (st : Resolving) (n : TaskNode) (policy : Option PlanSessionPolicy) (id : String)
      → EndsFrom st.resolving
      → resolve_policy nodes st n policy id go ≢ none
  unfolding resolve_policy
  resolve_policy-ends st n none id h = λ e. cc
  resolve_policy-ends st n (some (isolated model)) id h = λ e. cc
  resolve_policy-ends st n (some (reuse from)) id h = resolve_source-ends st n from none id h
  resolve_policy-ends st n (some (fork from model)) id h = resolve_source-ends st n from model id h

as_task-some :
    (o : Option PlanNode) (n : TaskNode) → as_task o ≡ some n → (m : PlanNode) × (o ≡ some m)
as_task-some none n e = absurd (cc)
as_task-some (some m) n e = (m, refl)

resolve_selection-ends :
    (fuel : ℕ) (nodes : NodesById) (st : Resolving) (id : String)
    → fresh nodes st.resolving < fuel
    → resolve_selection fuel nodes st id ≢ none
unfolding resolve_selection
resolve_selection-ends zero nodes st id h = absurd (omega arith)
resolve_selection-ends (suc fuel) nodes st id h = elim (Option-cases (lookup id st.selections)) [
  | inr (selection, e) ↦ rw (e, resolve_selection) (λ f. cc)
  | inl e ↦ elim (Bool-cases (has id st.resolving)) [
    | inl busy ↦ rw (e, resolve_selection) (rw (busy, resolve_selection) (λ f. cc))
    | inr free ↦ elim (Option-cases (as_task (lookup id nodes))) [
      | inl g ↦
          rw (e, resolve_selection)
            (rw (free, resolve_selection) (rw (g, resolve_selection) (λ f. cc)))
      | inr (n, g) ↦
          let (m, there) = as_task-some (lookup id nodes) n g in
          let less = fresh-enter nodes id m st.resolving there free in
          rw (e, resolve_selection)
            (rw (free, resolve_selection)
              (rw (g, resolve_selection)
                (resolve_policy-ends nodes (resolve_selection fuel nodes)
                  (record st { resolving = id ∷ st.resolving }) n n.session id
                  (λ st' id' same.
                    resolve_selection-ends fuel nodes st' id' (ground (arith, same, less, h))))))
    ]
  ]
]

-- The session selections of any list of nodes are resolved, also where reuses and forks form a cycle:
-- a chain of sources is as long as the plan at most.
pub resolve_all-ends :
    (nodes : NodesById) (st : Resolving) (ns : List PlanNode)
    → resolve_all nodes (some st) ns ≢ none
unfolding resolve_all
resolve_all-ends nodes st [] = λ e. cc
resolve_all-ends nodes st (task n ∷ ns) =
    elim (Option-cases (resolve_selection (selection_fuel nodes) nodes st n.node_id)) [
      | inl e ↦ absurd (
          resolve_selection-ends (selection_fuel nodes) nodes st n.node_id
            (omega (arith, fresh-length nodes st.resolving)) e)
      | inr (st', e) ↦ rw (e, resolve_all) (resolve_all-ends nodes st' ns)
    ]
resolve_all-ends nodes st (workflow n ∷ ns) = resolve_all-ends nodes st ns
resolve_all-ends nodes st (validation_check n ∷ ns) = resolve_all-ends nodes st ns
resolve_all-ends nodes st (validation_gate n ∷ ns) = resolve_all-ends nodes st ns
resolve_all-ends nodes st (repeat n ∷ ns) = resolve_all-ends nodes st ns
resolve_all-ends nodes st (choice n ∷ ns) = resolve_all-ends nodes st ns
