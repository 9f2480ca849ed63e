-- ===== src/SharedSession/Ordered.antt =====
-- What it means that shared-session-order.ts rejects a plan, or does not.
use seqlane.Prelude.{
  String, ◌≡◌, ◌⊎◌, ap, ◌∙◌, subst, inl, inr, true, none, some, List, [], ◌∷◌, ◌++◌, Bool-cases,
  lookup, All, ◌==◌, eq_iff, arith,
}
use seqlane.Plan.Nodes.{PlanNode, node_id_of}
use seqlane.Constraints.Search.{Dependencies}
use seqlane.Constraints.Paths.{DependencyPath}
use seqlane.SharedSession.Preflight.{
  SharedSessionInvocation, SharedSessionTaskPair, Context, ordered_nodes_by_id, edges_of,
  has_node_path, group_sessions, pair_of, pairs_with, pairs_in, pairs_of,
  preflight_shared_session_order, reject_unordered_pairs,
}
use seqlane.SharedSession.Paths.{has_node_path_correct}
use seqlane.SharedSession.Grouped.{group_at, members_of, group_at-group_sessions, members_of-append}

-- The dependencies of the nodes, the last one of an id counted.
abbrev pub predecessors : List PlanNode → Dependencies
predecessors ns = edges_of (ordered_nodes_by_id ns [])

module _ (P : SharedSessionTaskPair → Type 0) where
  All-append_parts : (xs ys : List SharedSessionTaskPair) → All P (xs ++ ys) → All P xs × All P ys
  All-append_parts [] ys h = (tt, h)
  All-append_parts (x ∷ xs) ys h =
      let (left, right) = All-append_parts xs ys h.1 in ((h.0, left), right)

  pub All-append : (xs ys : List SharedSessionTaskPair) → All P xs → All P ys → All P (xs ++ ys)
  All-append [] ys h k = k
  All-append (x ∷ xs) ys h k = (h.0, All-append xs ys h.1 k)

abbrev IsOrderedPair : SharedSessionTaskPair → Type 0
IsOrderedPair pair = pair.ordered ≡ true

-- No error: all pairs are ordered.
none-ordered :
    (pairs : List SharedSessionTaskPair)
    → reject_unordered_pairs pairs ≡ none
    → All IsOrderedPair pairs
unfolding reject_unordered_pairs
none-ordered [] e = tt
none-ordered (pair ∷ pairs) e = elim (Bool-cases pair.ordered) [
  | inl o ↦ (o, none-ordered pairs (ground (arith, o, e)))
  | inr o ↦ absurd (ground (arith, o, e))
]

module _ (nodes : List (String × PlanNode)) where
  pairs_with-ordered :
      (first : SharedSessionInvocation) (between : List SharedSessionInvocation)
      (second : SharedSessionInvocation) (rest : List SharedSessionInvocation)
      → All IsOrderedPair (pairs_with nodes first (between ++ second ∷ rest))
      → IsOrderedPair (pair_of nodes first second)
  unfolding pairs_with
  pairs_with-ordered first [] second rest h = h.0
  pairs_with-ordered first (x ∷ between) second rest h =
      pairs_with-ordered first between second rest h.1

  pairs_in-ordered :
      (before : List SharedSessionInvocation) (first : SharedSessionInvocation)
      (between : List SharedSessionInvocation) (second : SharedSessionInvocation)
      (rest : List SharedSessionInvocation)
      → All IsOrderedPair (pairs_in nodes (before ++ (first ∷ (between ++ second ∷ rest))))
      → IsOrderedPair (pair_of nodes first second)
  unfolding pairs_in
  pairs_in-ordered [] first between second rest h =
      pairs_with-ordered first between second rest
        (All-append_parts IsOrderedPair (pairs_with nodes first (between ++ second ∷ rest))
          (pairs_in nodes (between ++ second ∷ rest)) h).0
  pairs_in-ordered (x ∷ before) first between second rest h =
      pairs_in-ordered before first between second rest
        (All-append_parts IsOrderedPair
          (pairs_with nodes x (before ++ (first ∷ (between ++ second ∷ rest))))
          (pairs_in nodes (before ++ (first ∷ (between ++ second ∷ rest)))) h).1

  pairs_of-group :
      (sessions : List (String × List SharedSessionInvocation)) (key : String)
      → All IsOrderedPair (pairs_of nodes sessions)
      → All IsOrderedPair (pairs_in nodes (group_at key sessions))
  unfolding pairs_of pairs_in lookup
  pairs_of-group [] key h = tt
  pairs_of-group ((k, invocations) ∷ rest) key h =
      let (here, there) =
        All-append_parts IsOrderedPair (pairs_in nodes invocations) (pairs_of nodes rest) h in
      elim (Bool-cases (k == key)) [
        | inl e ↦ rw e here
        | inr e ↦ rw e (pairs_of-group rest key there)
      ]

-- One of the two nodes depends on the other.
abbrev pub AreOrdered : List PlanNode → String → String → Type 0
AreOrdered ns first second =
    DependencyPath (predecessors ns) first second ⊎ DependencyPath (predecessors ns) second first

pair-ordered :
    (ns : List PlanNode) (first second : SharedSessionInvocation)
    → IsOrderedPair (pair_of (ordered_nodes_by_id ns []) first second)
    → AreOrdered ns first.node_id second.node_id
pair-ordered ns first second h =
    elim (Bool-cases (has_node_path (ordered_nodes_by_id ns []) first.node_id second.node_id)) [
      | inl e ↦
          inl ((has_node_path_correct (ordered_nodes_by_id ns []) first.node_id second.node_id).0 e)
      | inr e ↦ inr (
          (has_node_path_correct (ordered_nodes_by_id ns []) second.node_id first.node_id).0
            (ground (arith, h, e)))
    ]

-- The node has an invocation of the session.
pub record Uses (context : Context) (n : PlanNode) (key : String) : Type 0 where
  pub invocation_id : String
  pub invoked : context.invocation_ids (node_id_of n) ≡ some invocation_id
  pub resolved : context.resolved_sessions invocation_id ≡ some key

members_of-Uses :
    (context : Context) (key : String) (n : PlanNode) (rest : List PlanNode)
    (u : Uses context n key)
    → members_of context key (n ∷ rest)
      ≡ record { node_id = node_id_of n; invocation_id = u.invocation_id }
        ∷ members_of context key rest
unfolding members_of
members_of-Uses context key n rest u = ground (arith, u.invoked, u.resolved, eq_iff key key)

-- Where `rejectUnorderedSharedSessionPairs` does not throw, of any two nodes whose invocations have
-- the same session one depends on the other, at once or by way of others.
pub unrejected-AreOrdered :
    (context : Context) (before : List PlanNode) (left : PlanNode) (between : List PlanNode)
    (right : PlanNode) (rest : List PlanNode) (key : String)
    → Uses context left key
    → Uses context right key
    → reject_unordered_pairs
        (preflight_shared_session_order context (before ++ (left ∷ (between ++ (right ∷ rest)))))
      ≡ none
    → AreOrdered
        (before ++ (left ∷ (between ++ (right ∷ rest))))
        (node_id_of left)
        (node_id_of right)
unfolding preflight_shared_session_order lookup
unrejected-AreOrdered context before left between right rest key l r e =
    let ns = before ++ (left ∷ (between ++ (right ∷ rest))) in
    let nodes = ordered_nodes_by_id ns [] in
    let grouped =
      pairs_of-group nodes (group_sessions context ns []) key
        (none-ordered (pairs_of nodes (group_sessions context ns [])) e) in
    let first : SharedSessionInvocation = record {
      node_id = node_id_of left;
      invocation_id = l.invocation_id;
    } in
    let second : SharedSessionInvocation = record {
      node_id = node_id_of right;
      invocation_id = r.invocation_id;
    } in
    let split : group_at key (group_sessions context ns [])
        ≡ members_of context key before
          ++ (first ∷ (members_of context key between ++ second ∷ members_of context key rest)) =
      group_at-group_sessions context key ns []
      ∙ members_of-append context key before (left ∷ (between ++ (right ∷ rest)))
      ∙ ap (λ (l' : List SharedSessionInvocation). members_of context key before ++ l')
          (members_of-Uses context key left (between ++ (right ∷ rest)) l
            ∙ ap (λ (l' : List SharedSessionInvocation). first ∷ l')
                (members_of-append context key between (right ∷ rest)
                  ∙ ap (λ (l' : List SharedSessionInvocation). members_of context key between ++ l')
                      (members_of-Uses context key right rest r))) in
    pair-ordered ns first second (
      pairs_in-ordered nodes (members_of context key before) first (members_of context key between)
        second (members_of context key rest)
        (subst (λ (is : List SharedSessionInvocation). All IsOrderedPair (pairs_in nodes is)) split
          grouped))
