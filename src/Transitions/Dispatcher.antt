-- ===== src/Transitions/Dispatcher.antt =====
-- libs/opencode/src/attempt-transitions.ts. The dispatcher's maps are its state; `observed` and
-- `activities` are what it passed to `onObservation` and `onActivity`, in order.
use seqlane.Prelude.{
  String, Bool, true, false, ◌&&◌, ◌||◌, Option, none, some, List, [], ◌∷◌, ◌++◌, ltb, is_some,
  if◌then◌else◌, or_else, or_option, lookup, insert, text_length, ◌==◌,
}
use seqlane.Binding.Json.{Entries, value_at, as_text}
use seqlane.Transitions.Observations.{
  ToolStatus, LegacyToolStatus, OpenCodeToolObservation, OpenCodeLegacyToolObservation,
  OpenCodeEventObservation, assistant, tool, ActivityKind, tool_kind, skill_kind, ActivityState,
  started, progressing, succeeded, OpenCodeActivity, ObservationIdentity, assistant_id, tool_id,
  legacy_tool_id,
}

pub record ActivityIdentity : Type 0 where
  pub kind : ActivityKind
  pub name : String

pub record AttemptTransitionDispatcher : Type 0 where
  pub activity_identities : List (String × ActivityIdentity)
  pub tool_names : List (String × String)
  pub tool_message_ids : List (String × String)
  pub terminal_observations : List ObservationIdentity
  pub observed : List OpenCodeEventObservation
  pub activities : List OpenCodeActivity

-- `stringField`
abbrev non_empty : Option String → Option String
non_empty none = none
non_empty (some s) = if s == "" then none else some s

unfoldable pub string_field : Option Entries → String → Option String
unfolding value_at
string_field none key = none
string_field (some details) key = non_empty (as_text (value_at key details))

-- `===` of two identities
unfoldable pub same_identity : ObservationIdentity → ObservationIdentity → Bool
same_identity (assistant_id s m) (assistant_id s' m') = s == s' && m == m'
same_identity (tool_id m c) (tool_id m' c') = m == m' && c == c'
same_identity (legacy_tool_id c) (legacy_tool_id c') = c == c'
same_identity _ _ = false

-- `terminalObservations.has(identity)`
unfoldable pub has_identity : ObservationIdentity → List ObservationIdentity → Bool
unfolding same_identity
has_identity i [] = false
has_identity i (j ∷ js) = same_identity j i || has_identity i js

unfoldable pub observation_identity : OpenCodeEventObservation → ObservationIdentity
observation_identity (assistant o) = assistant_id o.session_id o.message_id
observation_identity (tool o) = tool_id o.message_id o.call_id

abbrev pub is_final : ToolStatus → Bool
is_final ToolStatus.completed = true
is_final ToolStatus.error = true
is_final _ = false

unfoldable pub observation_is_terminal : OpenCodeEventObservation → Bool
observation_is_terminal (assistant o) = is_some o.completed || is_some o.error
observation_is_terminal (tool o) = is_final o.status

-- `previous?.kind === "skill" ? previous.name : undefined`
abbrev previous_skill : Option ActivityIdentity → Option String
previous_skill none = none
previous_skill (some identity) = elim identity.kind [
  | skill_kind ↦ some identity.name
  | tool_kind ↦ none
]

abbrev as_skill : Option String → Option ActivityIdentity
as_skill none = none
as_skill (some name) = some (record { kind = skill_kind; name = name })

unfoldable pub activity_identity :
    String → Option Entries → Option Entries → Option ActivityIdentity → Option ActivityIdentity
unfolding string_field
activity_identity name input metadata previous =
    if name == "skill"
    then as_skill (
        or_option (string_field metadata "name")
          (or_option (string_field input "name") (previous_skill previous)))
    else some (record { kind = tool_kind; name = name })

unfoldable pub activity_state : LegacyToolStatus → ActivityState
activity_state LegacyToolStatus.pending = started
activity_state LegacyToolStatus.running = started
activity_state LegacyToolStatus.called = started
activity_state LegacyToolStatus.progress = progressing
activity_state LegacyToolStatus.completed = succeeded
activity_state LegacyToolStatus.success = succeeded
activity_state LegacyToolStatus.error = ActivityState.failed
activity_state LegacyToolStatus.failed = ActivityState.failed

abbrev failure_message : ActivityState → Option String
failure_message ActivityState.failed = some "Tool failed"
failure_message _ = none

abbrev native_status : LegacyToolStatus → ToolStatus
native_status LegacyToolStatus.success = ToolStatus.completed
native_status LegacyToolStatus.completed = ToolStatus.completed
native_status LegacyToolStatus.failed = ToolStatus.error
native_status LegacyToolStatus.error = ToolStatus.error
native_status LegacyToolStatus.pending = ToolStatus.pending
native_status _ = ToolStatus.running

unfoldable pub native_tool_observation :
    OpenCodeLegacyToolObservation → Option String → Option String → Option OpenCodeToolObservation
native_tool_observation o none message_id = none
native_tool_observation o (some name) message_id = some (record {
  session_id = o.session_id;
  message_id = or_else message_id o.call_id;
  call_id = o.call_id;
  tool = name;
  status = native_status o.status;
  started_at = o.started_at;
  ended_at = o.ended_at;
  input = none;
  output = none;
  metadata = none;
})

-- The identity that `activityFromToolObservation` finds.
unfoldable pub call_identity :
    OpenCodeLegacyToolObservation → List (String × ActivityIdentity) → Option ActivityIdentity
unfolding activity_identity lookup
call_identity o identities = elim o.tool [
  | none ↦ lookup o.call_id identities
  | some name ↦ activity_identity name o.input o.metadata (lookup o.call_id identities)
]

unfoldable pub activity_of : OpenCodeLegacyToolObservation → ActivityIdentity → OpenCodeActivity
unfolding activity_state
activity_of o identity = record {
  activity_id = o.call_id;
  kind = identity.kind;
  name = identity.name;
  state = activity_state o.status;
  input = o.input;
  output = o.output;
  metadata = o.metadata;
  started_at = o.started_at;
  ended_at = o.ended_at;
  message = failure_message (activity_state o.status);
}

-- `activityFromToolObservation`, and `onActivity` with what it returns.
unfoldable pub report_activity :
    AttemptTransitionDispatcher → OpenCodeLegacyToolObservation → AttemptTransitionDispatcher
unfolding call_identity activity_of text_length
report_activity d o = elim (call_identity o d.activity_identities) [
  | none ↦ d
  | some identity ↦
      if ltb 256 (text_length o.call_id) || ltb 256 (text_length identity.name)
      then d
      else record d {
        activity_identities = insert o.call_id identity d.activity_identities;
        activities = d.activities ++ activity_of o identity ∷ [];
      }
]
