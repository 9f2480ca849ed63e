-- ===== src/Transitions/Names.antt =====
-- The maps of legacy tool calls hold entries of open calls only.
use seqlane.Prelude.{
  String, ◌≡◌, Bool, true, false, ◌||◌, List, is_some, if◌then◌else◌, lookup, erase,
}
use seqlane.Transitions.Observations.{ObservationIdentity, legacy_tool_id}
use seqlane.Transitions.Dispatcher.{AttemptTransitionDispatcher, has_identity}

-- The two maps of names, and the closed identities.
record Names : Type 0 where
  pub tool_names : List (String × String)
  pub tool_message_ids : List (String × String)
  pub closed : List ObservationIdentity

abbrev names : AttemptTransitionDispatcher → Names
names d = record {
  tool_names = d.tool_names;
  tool_message_ids = d.tool_message_ids;
  closed = d.terminal_observations;
}

abbrev pub is_kept : AttemptTransitionDispatcher → String → Bool
is_kept d call_id =
    is_some (lookup call_id d.tool_names) || is_some (lookup call_id d.tool_message_ids)

abbrev AreOpen : Names → Type 0
AreOpen n =
    (c : String)
    → (is_some (lookup c n.tool_names) || is_some (lookup c n.tool_message_ids)) ≡ true
    → has_identity (legacy_tool_id c) n.closed ≡ false

abbrev forgotten : Bool → String → Names → Names
forgotten terminal c n =
    if terminal
    then record n {
      tool_names = erase c n.tool_names;
      tool_message_ids = erase c n.tool_message_ids;
    }
    else n
