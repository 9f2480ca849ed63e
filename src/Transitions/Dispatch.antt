-- ===== src/Transitions/Dispatch.antt =====
-- `observation` and `legacyTool` of libs/opencode/src/attempt-transitions.ts, and runs of both.
use seqlane.Prelude.{
  String, Bool, true, false, ◌&&◌, not, Option, none, some, List, [], ◌∷◌, ◌++◌, ltb, num_eq,
  if◌then◌else◌, or_option, lookup, insert, erase, text_length,
}
use seqlane.Transitions.Observations.{
  LegacyToolStatus, OpenCodeLegacyToolObservation, OpenCodeToolObservation,
  OpenCodeEventObservation, assistant, tool, either_kind, ObservationIdentity, legacy_tool_id,
}
use seqlane.Transitions.Dispatcher.{
  AttemptTransitionDispatcher, has_identity, observation_identity, observation_is_terminal,
  native_tool_observation, report_activity,
}

unfoldable pub new_dispatcher : AttemptTransitionDispatcher
new_dispatcher = record {
  activity_identities = [];
  tool_names = [];
  tool_message_ids = [];
  terminal_observations = [];
  observed = [];
  activities = [];
}

abbrev pub close :
    Bool → ObservationIdentity → AttemptTransitionDispatcher → AttemptTransitionDispatcher
close terminal identity d =
    if terminal then record d { terminal_observations = identity ∷ d.terminal_observations } else d

abbrev pub observe :
    AttemptTransitionDispatcher → OpenCodeEventObservation → AttemptTransitionDispatcher
observe d o = record d { observed = d.observed ++ o ∷ [] }

abbrev pub report_tool :
    AttemptTransitionDispatcher → OpenCodeEventObservation → AttemptTransitionDispatcher
report_tool d (assistant o) = d
report_tool d (tool o) = report_activity d (either_kind o)

-- `dispatchObservation`
unfoldable pub dispatch_observation :
    AttemptTransitionDispatcher → OpenCodeEventObservation → AttemptTransitionDispatcher
unfolding has_identity observation_identity observation_is_terminal report_activity either_kind
dispatch_observation d o =
    let identity = observation_identity o in
    if has_identity identity d.terminal_observations
    then d
    else report_tool (observe (close (observation_is_terminal o) identity d) o) o

-- An identifier is neither empty nor longer than MAX_LEGACY_IDENTIFIER_LENGTH.
unfoldable pub is_identifier : String → Bool
unfolding text_length
is_identifier s = not (num_eq (text_length s) 0) && not (ltb 256 (text_length s))

unfoldable pub is_optional_identifier : Option String → Bool
unfolding is_identifier
is_optional_identifier none = true
is_optional_identifier (some s) = is_identifier s

unfoldable pub is_well_formed : OpenCodeLegacyToolObservation → Bool
unfolding is_identifier is_optional_identifier
is_well_formed o =
    is_identifier o.call_id && is_optional_identifier o.tool && is_optional_identifier o.message_id

unfoldable pub legacy_is_terminal : LegacyToolStatus → Bool
legacy_is_terminal LegacyToolStatus.completed = true
legacy_is_terminal LegacyToolStatus.error = true
legacy_is_terminal LegacyToolStatus.success = true
legacy_is_terminal LegacyToolStatus.failed = true
legacy_is_terminal _ = false

-- `map.set(key, value)` where there is a value.
abbrev pub insert_some : String → Option String → List (String × String) → List (String × String)
insert_some key none map = map
insert_some key (some value) map = insert key value map

abbrev pub observe_native :
    AttemptTransitionDispatcher → Option OpenCodeToolObservation → AttemptTransitionDispatcher
observe_native d none = d
observe_native d (some o) = observe d (tool o)

-- The names of the call after this observation: `toolNames` and `toolMessageIDs`.
unfoldable pub record_names :
    AttemptTransitionDispatcher → OpenCodeLegacyToolObservation → AttemptTransitionDispatcher
unfolding insert lookup
record_names d o = record d {
  tool_names = insert_some o.call_id o.tool d.tool_names;
  tool_message_ids =
      insert_some o.call_id (or_option (lookup o.call_id d.tool_message_ids) o.message_id)
        d.tool_message_ids;
}

unfoldable pub forget_names :
    Bool → String → AttemptTransitionDispatcher → AttemptTransitionDispatcher
unfolding erase
forget_names terminal call_id d =
    if terminal
    then record d {
      tool_names = erase call_id d.tool_names;
      tool_message_ids = erase call_id d.tool_message_ids;
    }
    else d

-- `dispatchLegacyTool` for an observation that is neither malformed nor late.
unfoldable pub accept_legacy_tool :
    AttemptTransitionDispatcher → OpenCodeLegacyToolObservation → AttemptTransitionDispatcher
unfolding legacy_is_terminal record_names forget_names native_tool_observation report_activity
accept_legacy_tool d o =
    let terminal = legacy_is_terminal o.status in
    let d₁ = record_names (close terminal (legacy_tool_id o.call_id) d) o in
    let native =
      native_tool_observation o (lookup o.call_id d₁.tool_names)
        (or_option (lookup o.call_id d.tool_message_ids) o.message_id) in
    forget_names terminal o.call_id (report_activity (observe_native d₁ native) o)

unfoldable pub dispatch_legacy_tool :
    AttemptTransitionDispatcher → OpenCodeLegacyToolObservation → AttemptTransitionDispatcher
unfolding is_well_formed has_identity accept_legacy_tool
dispatch_legacy_tool d o =
    if not (is_well_formed o)
    then d
    else if has_identity (legacy_tool_id o.call_id) d.terminal_observations
    then d
    else accept_legacy_tool d o

pub data Event : Type 0 where
  observation : OpenCodeEventObservation → Event
  legacy_tool : OpenCodeLegacyToolObservation → Event

unfoldable pub step : AttemptTransitionDispatcher → Event → AttemptTransitionDispatcher
unfolding dispatch_observation dispatch_legacy_tool
step d (observation o) = dispatch_observation d o
step d (legacy_tool o) = dispatch_legacy_tool d o

unfoldable pub run : AttemptTransitionDispatcher → List Event → AttemptTransitionDispatcher
unfolding step
run d [] = d
run d (event ∷ events) = run (step d event) events
