-- ===== src/SharedSession/Grouped.antt =====
-- The groups of invocations by session in shared-session-order.ts.
use seqlane.Prelude.{
  append-nil, append_assoc, String, ◌≡◌, refl, sym, ap, ◌∙◌, subst, inl, inr, Option, none, some,
  List, [], ◌∷◌, ◌++◌, if◌then◌else◌, or_else, Bool-cases, lookup, insert, lookup-insert, All, ◌==◌,
  eq_iff, arith,
}
use seqlane.Plan.Nodes.{PlanNode, node_id_of}
use seqlane.SharedSession.Preflight.{
  SharedSessionInvocation, Context, session_of, join_session, group_sessions,
}

abbrev Sessions : Type 0
Sessions = List (String × List SharedSessionInvocation)

abbrev pub group_at :
    String → List (String × List SharedSessionInvocation) → List SharedSessionInvocation
group_at key sessions = or_else (lookup key sessions) []

-- The invocation of a node, if it is of the session.
abbrev pub member_of :
    String → String → Option String → Option String → List SharedSessionInvocation
member_of key node_id (some id) (some k) =
    if k == key then record { node_id = node_id; invocation_id = id } ∷ [] else []
member_of key node_id _ _ = []

-- The invocations of the nodes that are of the session.
unfoldable pub members_of : Context → String → List PlanNode → List SharedSessionInvocation
members_of context key [] = []
members_of context key (n ∷ ns) =
    member_of key (node_id_of n) (context.invocation_ids (node_id_of n))
      (session_of context (context.invocation_ids (node_id_of n)))
    ++ members_of context key ns

join-group_at :
    (key node_id : String) (id k : Option String) (sessions : Sessions)
    → group_at key (join_session node_id id k sessions)
      ≡ group_at key sessions ++ member_of key node_id id k
unfolding lookup insert
join-group_at key node_id none k sessions = sym (append-nil (group_at key sessions))
join-group_at key node_id (some id) none sessions = sym (append-nil (group_at key sessions))
join-group_at key node_id (some id) (some k) sessions = ground (
  arith,
  lookup-insert k key (group_at k sessions ++ record { node_id = node_id; invocation_id = id } ∷ [])
      sessions,
  eq_iff k key,
  append-nil (group_at key sessions),
)

-- The loop puts each invocation behind the earlier ones of its session.
pub group_at-group_sessions :
    (context : Context) (key : String) (ns : List PlanNode) (sessions : Sessions)
    → group_at key (group_sessions context ns sessions)
      ≡ group_at key sessions ++ members_of context key ns
unfolding group_sessions members_of
group_at-group_sessions context key [] sessions = sym (append-nil (group_at key sessions))
group_at-group_sessions context key (n ∷ ns) sessions =
    let id = context.invocation_ids (node_id_of n) in
    let k = session_of context id in
    group_at-group_sessions context key ns (join_session (node_id_of n) id k sessions)
    ∙ ap (λ (l : List SharedSessionInvocation). l ++ members_of context key ns)
        (join-group_at key (node_id_of n) id k sessions)
    ∙ append_assoc (group_at key sessions) (member_of key (node_id_of n) id k)
        (members_of context key ns)

pub members_of-append :
    (context : Context) (key : String) (xs ys : List PlanNode)
    → members_of context key (xs ++ ys) ≡ members_of context key xs ++ members_of context key ys
unfolding members_of
members_of-append context key [] ys = refl
members_of-append context key (x ∷ xs) ys =
    let id = context.invocation_ids (node_id_of x) in
    ap
      (λ (l : List SharedSessionInvocation).
        member_of key (node_id_of x) id (session_of context id) ++ l)
      (members_of-append context key xs ys)
    ∙ sym (
        append_assoc (member_of key (node_id_of x) id (session_of context id))
          (members_of context key xs) (members_of context key ys))

-- Every invocation of a group is of its session.
abbrev pub AreOfSession : Context → String → List SharedSessionInvocation → Type 0
AreOfSession context key invocations =
    All (λ i. context.resolved_sessions i.invocation_id ≡ some key) invocations

abbrev pub AreGrouped : Context → Sessions → Type 0
AreGrouped context [] = Unit
AreGrouped context ((key, invocations) ∷ rest) =
    AreOfSession context key invocations × AreGrouped context rest

insert-AreGrouped :
    (context : Context) (key : String) (invocations : List SharedSessionInvocation)
    (sessions : Sessions)
    → AreOfSession context key invocations
    → AreGrouped context sessions
    → AreGrouped context (insert key invocations sessions)
unfolding insert
insert-AreGrouped context key invocations [] new h = (new, tt)
insert-AreGrouped context key invocations ((k, old) ∷ rest) new h = elim (Bool-cases (k == key)) [
  | inl e ↦
      rw e (subst (λ z. AreOfSession context z invocations) (sym ((eq_iff k key).0 e)) new, h.1)
  | inr e ↦ rw e (h.0, insert-AreGrouped context key invocations rest new h.1)
]

group_at-AreOfSession :
    (context : Context) (key : String) (sessions : Sessions)
    → AreGrouped context sessions
    → AreOfSession context key (group_at key sessions)
unfolding lookup
group_at-AreOfSession context key [] h = tt
group_at-AreOfSession context key ((k, old) ∷ rest) h = elim (Bool-cases (k == key)) [
  | inl e ↦ rw e (subst (λ z. AreOfSession context z old) ((eq_iff k key).0 e) h.0)
  | inr e ↦ rw e (group_at-AreOfSession context key rest h.1)
]

AreOfSession-snoc :
    (context : Context) (key : String) (xs : List SharedSessionInvocation)
    (x : SharedSessionInvocation)
    → AreOfSession context key xs
    → context.resolved_sessions x.invocation_id ≡ some key
    → AreOfSession context key (xs ++ x ∷ [])
AreOfSession-snoc context key [] x h e = (e, tt)
AreOfSession-snoc context key (y ∷ xs) x h e = (h.0, AreOfSession-snoc context key xs x h.1 e)

join-AreGrouped :
    (context : Context) (node_id : String) (id k : Option String) (sessions : Sessions)
    → session_of context id ≡ k
    → AreGrouped context sessions
    → AreGrouped context (join_session node_id id k sessions)
join-AreGrouped context node_id none k sessions e h = h
join-AreGrouped context node_id (some id) none sessions e h = h
join-AreGrouped context node_id (some id) (some k) sessions e h =
    insert-AreGrouped context k
      (group_at k sessions ++ record { node_id = node_id; invocation_id = id } ∷ []) sessions
      (AreOfSession-snoc context k (group_at k sessions)
        (record { node_id = node_id; invocation_id = id })
        (group_at-AreOfSession context k sessions h) e)
      h

pub group_sessions-AreGrouped :
    (context : Context) (ns : List PlanNode) (sessions : Sessions)
    → AreGrouped context sessions
    → AreGrouped context (group_sessions context ns sessions)
unfolding group_sessions
group_sessions-AreGrouped context [] sessions h = h
group_sessions-AreGrouped context (n ∷ ns) sessions h =
    let id = context.invocation_ids (node_id_of n) in
    group_sessions-AreGrouped context ns
      (join_session (node_id_of n) id (session_of context id) sessions)
      (join-AreGrouped context (node_id_of n) id (session_of context id) sessions refl h)
