-- ===== src/SharedSession/Rejected.antt =====
-- The pair that shared-session-order.ts rejects.
use seqlane.Prelude.{
  String, ◌≡◌, refl, subst, inl, inr, false, ◌||◌, some, List, [], ◌∷◌, Bool-cases, All, arith,
}
use seqlane.Plan.Nodes.{PlanNode}
use seqlane.Constraints.Paths.{DependencyPath}
use seqlane.SharedSession.Preflight.{
  SharedSessionInvocation, SharedSessionTaskPair, Context, ordered_nodes_by_id, has_node_path,
  group_sessions, pairs_with, pairs_in, pairs_of, preflight_shared_session_order,
  reject_unordered_pairs,
}
use seqlane.SharedSession.Paths.{has_node_path_correct}
use seqlane.SharedSession.Grouped.{AreOfSession, AreGrouped, group_sessions-AreGrouped}
use seqlane.SharedSession.Ordered.{predecessors, All-append}

module _ (context : Context) (nodes : List (String × PlanNode)) where
  -- The pair is of one session, and its flag says whether its nodes are ordered.
  pub record IsReported (pair : SharedSessionTaskPair) : Type 0 where
    pub key : String
    pub first_session : context.resolved_sessions pair.first.invocation_id ≡ some key
    pub second_session : context.resolved_sessions pair.second.invocation_id ≡ some key
    pub flag : pair.ordered ≡ (
        has_node_path nodes pair.first.node_id pair.second.node_id
        || has_node_path nodes pair.second.node_id pair.first.node_id)

  pairs_with-IsReported :
      (key : String) (first : SharedSessionInvocation) (rest : List SharedSessionInvocation)
      → context.resolved_sessions first.invocation_id ≡ some key
      → AreOfSession context key rest
      → All IsReported (pairs_with nodes first rest)
  unfolding pairs_with
  pairs_with-IsReported key first [] e h = tt
  pairs_with-IsReported key first (second ∷ rest) e h = (
    record { key = key; first_session = e; second_session = h.0; flag = refl },
    pairs_with-IsReported key first rest e h.1,
  )

  pairs_in-IsReported :
      (key : String) (invocations : List SharedSessionInvocation)
      → AreOfSession context key invocations
      → All IsReported (pairs_in nodes invocations)
  unfolding pairs_in
  pairs_in-IsReported key [] h = tt
  pairs_in-IsReported key (first ∷ rest) h =
      All-append IsReported (pairs_with nodes first rest) (pairs_in nodes rest)
        (pairs_with-IsReported key first rest h.0 h.1) (pairs_in-IsReported key rest h.1)

  pairs_of-IsReported :
      (sessions : List (String × List SharedSessionInvocation))
      → AreGrouped context sessions
      → All IsReported (pairs_of nodes sessions)
  unfolding pairs_of
  pairs_of-IsReported [] h = tt
  pairs_of-IsReported ((key, invocations) ∷ rest) h =
      All-append IsReported (pairs_in nodes invocations) (pairs_of nodes rest)
        (pairs_in-IsReported key invocations h.0) (pairs_of-IsReported rest h.1)

  rejected-IsReported :
      (pairs : List SharedSessionTaskPair) (pair : SharedSessionTaskPair)
      → All IsReported pairs
      → reject_unordered_pairs pairs ≡ some pair
      → (pair.ordered ≡ false) × IsReported pair
  unfolding reject_unordered_pairs
  rejected-IsReported [] pair h e = absurd (cc)
  rejected-IsReported (p ∷ pairs) pair h e = elim (Bool-cases p.ordered) [
    | inl o ↦ rejected-IsReported pairs pair h.1 (ground (arith, o, e))
    | inr o ↦
        let same : p ≡ pair = ground (arith, o, e) in
        subst (λ (q : SharedSessionTaskPair). (q.ordered ≡ false) × IsReported q) same (o, h.0)
  ]

-- Two invocations of one session, none of whose nodes depends on the other.
pub record IsUnordered (context : Context) (ns : List PlanNode) (pair : SharedSessionTaskPair)
    : Type 0 where
  pub key : String
  pub first_session : context.resolved_sessions pair.first.invocation_id ≡ some key
  pub second_session : context.resolved_sessions pair.second.invocation_id ≡ some key
  pub no_path : ¬ DependencyPath (predecessors ns) pair.first.node_id pair.second.node_id
  pub no_path_back : ¬ DependencyPath (predecessors ns) pair.second.node_id pair.first.node_id

-- The pair for which `rejectUnorderedSharedSessionPairs` throws is of one session, and neither of its
-- nodes depends on the other.
pub rejected-IsUnordered :
    (context : Context) (ns : List PlanNode) (pair : SharedSessionTaskPair)
    → reject_unordered_pairs (preflight_shared_session_order context ns) ≡ some pair
    → IsUnordered context ns pair
unfolding preflight_shared_session_order
rejected-IsUnordered context ns pair e =
    let nodes = ordered_nodes_by_id ns [] in
    let (unordered, r) =
      rejected-IsReported context nodes (pairs_of nodes (group_sessions context ns [])) pair
        (pairs_of-IsReported context nodes (group_sessions context ns [])
          (group_sessions-AreGrouped context ns [] tt))
        e in
    record {
      key = r.key;
      first_session = r.first_session;
      second_session = r.second_session;
      no_path = λ p. ground (
        arith,
        unordered,
        r.flag,
        (has_node_path_correct nodes pair.first.node_id pair.second.node_id).1 p,
      );
      no_path_back = λ p. ground (
        arith,
        unordered,
        r.flag,
        (has_node_path_correct nodes pair.second.node_id pair.first.node_id).1 p,
      );
    }
