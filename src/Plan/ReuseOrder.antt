-- ===== src/Plan/ReuseOrder.antt =====
-- The dependencies that `lowerReuseSessionOrdering` gives to the tasks that reuse one session.
use seqlane.Prelude.{
  String, ◌≡◌, refl, ◌∙◌, Bool, false, Option, none, some, List, [], ◌∷◌, ◌++◌, length, get_elem?,
  if◌then◌else◌, or_option, lookup, lookup-insert, has, add, has-snoc, ◌==◌, ◌||◌, ap, subst,
  holds_name, eq_iff, arith,
}
use seqlane.Plan.Nodes.{
  PlanSessionPolicy, isolated, reuse, fork, TaskNode, PlanNode, task, workflow, validation_check,
  validation_gate, repeat, choice, node_id_of, depends_on_of,
}
use seqlane.Plan.SessionOrdering.{
  add_previous, lower_task, lower_node, lower_nodes, lower_reuse_session_ordering,
}

-- The session that a node reuses.
abbrev pub reused_from : Option PlanSessionPolicy → Option String
reused_from (some (reuse from)) = some from
reused_from _ = none

abbrev pub reused : PlanNode → Option String
reused (task n) = reused_from n.session
reused _ = none

abbrev reuses : String → Option String → Bool
reuses source none = false
reuses source (some from) = from == source

-- The last node of a list that reuses the session of `source`.
abbrev pub last_reuse_of : String → List PlanNode → Option String
last_reuse_of source [] = none
last_reuse_of source (n ∷ ns) =
    or_option (last_reuse_of source ns)
      (if reuses source (reused n) then some (node_id_of n) else none)

after : List (String × String) → List PlanNode → List (String × String)
unfolding lower_node
after last [] = last
after last (n ∷ ns) = after (lower_node last n).0 ns

task-last :
    (last : List (String × String)) (n : TaskNode) (session : Option PlanSessionPolicy)
    (source : String)
    → lookup source (lower_task last n session).0
      ≡ or_option
          (if reuses source (reused_from session) then some n.node_id else none)
          (lookup source last)
unfolding lower_task
task-last last n none source = refl
task-last last n (some (isolated m)) source = refl
task-last last n (some (fork from m)) source = refl
task-last last n (some (reuse from)) source =
    ground (arith, lookup-insert from source n.node_id last)

node-last :
    (last : List (String × String)) (n : PlanNode) (source : String)
    → lookup source (lower_node last n).0
      ≡ or_option
          (if reuses source (reused n) then some (node_id_of n) else none)
          (lookup source last)
unfolding lower_node
node-last last (task n) source = task-last last n n.session source
node-last last (workflow n) source = refl
node-last last (validation_check n) source = refl
node-last last (validation_gate n) source = refl
node-last last (repeat n) source = refl
node-last last (choice n) source = refl

after-last :
    (ns : List PlanNode) (last : List (String × String)) (source : String)
    → lookup source (after last ns) ≡ or_option (last_reuse_of source ns) (lookup source last)
unfolding after
after-last [] last source = refl
after-last (n ∷ ns) last source =
    ground (arith, after-last ns (lower_node last n).0 source, node-last last n source)

lowered_at :
    (before : List PlanNode) (n : PlanNode) (rest : List PlanNode) (last : List (String × String))
    → get_elem? (lower_nodes last (before ++ n ∷ rest)) (length before)
      ≡ some (lower_node (after last before) n).1
unfolding lower_nodes after
lowered_at [] n rest last = refl
lowered_at (m ∷ before) n rest last = lowered_at before n rest (lower_node last m).0

-- What a set has after `add_previous`.
has-add_lem : (new d : String) (ds : List String) → has d (add new ds) ≡ (has d ds || new == d)
unfolding add
has-add_lem new d ds = ground (arith, has-snoc d new ds, eq_iff new d)

has-add_previous :
    (o : Option String) (d : String) (ds : List String)
    → has d (add_previous o ds) ≡ (has d ds || holds_name o d)
has-add_previous none d ds = ground arith
has-add_previous (some previous) d ds = has-add_lem previous d ds

-- What a task that reuses the session of `source` depends on, by the last task that reused it.
abbrev DependsOn : PlanNode → PlanNode → String → Option String → Type 0
DependsOn n n' source previous =
    (d : String)
    → has d (depends_on_of n') ≡ (has d (depends_on_of n) || source == d || holds_name previous d)

reuser-depends :
    (last : List (String × String)) (n : PlanNode) (source : String)
    → reused n ≡ some source
    → (node_id_of (lower_node last n).1 ≡ node_id_of n)
      × DependsOn n (lower_node last n).1 source (lookup source last)
unfolding lower_node lower_task
reuser-depends last (task n) source e = by_session n.session e
  where
    by_session :
        (session : Option PlanSessionPolicy)
        → reused_from session ≡ some source
        → (node_id_of (lower_task last n session).1 ≡ n.node_id)
          × DependsOn (task n) (lower_task last n session).1 source (lookup source last)
    by_session none e = absurd (cc)
    by_session (some (isolated m)) e = absurd (cc)
    by_session (some (fork from m)) e = absurd (cc)
    by_session (some (reuse from)) e =
        let same : from ≡ source = ground (arith, e) in
        rw same (
          refl,
          λ d.
              has-add_previous (lookup source last) d (add source n.depends_on)
              ∙ ap (λ b. b || holds_name (lookup source last) d)
                  (has-add_lem source d n.depends_on),
        )
reuser-depends last (workflow n) source e = absurd (cc)
reuser-depends last (validation_check n) source e = absurd (cc)
reuser-depends last (validation_gate n) source e = absurd (cc)
reuser-depends last (repeat n) source e = absurd (cc)
reuser-depends last (choice n) source e = absurd (cc)

-- At the place of a task that reuses the session of `source`, the lowered list has a node with the
-- same id, and it depends exactly on what the task depended on, on `source`, and on the last task
-- before it that reuses the session of `source`, where there is one.
pub reuse-depends_on :
    (before : List PlanNode) (n : PlanNode) (rest : List PlanNode) (source : String)
    → reused n ≡ some source
    → (n' : PlanNode) × (get_elem?
          (lower_reuse_session_ordering (before ++ n ∷ rest))
          (length before)
        ≡ some n')
      × (node_id_of n' ≡ node_id_of n)
      × ((d : String)
          → has d (depends_on_of n') ≡ (
              has d (depends_on_of n) || source == d || holds_name (last_reuse_of source before) d))
unfolding lower_reuse_session_ordering
reuse-depends_on before n rest source e =
    let (same_id, depends) = reuser-depends (after [] before) n source e in
    let last : lookup source (after [] before) ≡ last_reuse_of source before =
      ground (arith, after-last before [] source) in
    (
      (lower_node (after [] before) n).1,
      lowered_at before n rest [],
      same_id,
      subst (DependsOn n (lower_node (after [] before) n).1 source) last depends,
    )
