-- ===== src/Transitions/Observations.antt =====
-- The observations of libs/opencode/src/observations.ts and the activities of
-- libs/opencode/src/protocol.ts. A field that the dispatcher only passes on keeps its JSON value; a
-- number is its literal.
use seqlane.Prelude.{String, Option, none, some}
use seqlane.Binding.Json.{Json, string, Entries}

pub data ToolStatus : Type 0 where
  pending running completed error : ToolStatus

pub data LegacyToolStatus : Type 0 where
  pending running completed error called progress success failed : LegacyToolStatus

-- The fields that are passed on and never read.
pub record Usage : Type 0 where
  pub created : String
  pub provider : String
  pub model : String
  pub input_tokens : String
  pub output_tokens : String
  pub reasoning_tokens : String
  pub cache_read : String
  pub cache_write : String
  pub cost : String
  pub finish : Option String

pub record OpenCodeAssistantObservation : Type 0 where
  pub session_id : String
  pub message_id : String
  pub completed : Option String
  pub error : Option String
  pub usage : Usage

pub record OpenCodeToolObservation : Type 0 where
  pub session_id : String
  pub message_id : String
  pub call_id : String
  pub tool : String
  pub status : ToolStatus
  pub started_at : Option String
  pub ended_at : Option String
  pub input : Option Entries
  pub output : Option String
  pub metadata : Option Entries

pub record OpenCodeLegacyToolObservation : Type 0 where
  pub session_id : String
  pub message_id : Option String
  pub call_id : String
  pub tool : Option String
  pub status : LegacyToolStatus
  pub input : Option Entries
  pub output : Option Json
  pub metadata : Option Entries
  pub started_at : Option String
  pub ended_at : Option String

pub data OpenCodeEventObservation : Type 0 where
  assistant : OpenCodeAssistantObservation → OpenCodeEventObservation
  tool : OpenCodeToolObservation → OpenCodeEventObservation

pub data ActivityKind : Type 0 where
  tool_kind skill_kind : ActivityKind

pub data ActivityState : Type 0 where
  started progressing succeeded failed : ActivityState

pub record OpenCodeActivity : Type 0 where
  pub activity_id : String
  pub kind : ActivityKind
  pub name : String
  pub state : ActivityState
  pub input : Option Entries
  pub output : Option Json
  pub metadata : Option Entries
  pub started_at : Option String
  pub ended_at : Option String
  pub message : Option String

-- A tool observation where the source takes one of either kind: their fields have the same names.
unfoldable pub either_status : ToolStatus → LegacyToolStatus
either_status ToolStatus.pending = LegacyToolStatus.pending
either_status ToolStatus.running = LegacyToolStatus.running
either_status ToolStatus.completed = LegacyToolStatus.completed
either_status ToolStatus.error = LegacyToolStatus.error

abbrev text_json : Option String → Option Json
text_json none = none
text_json (some s) = some (string s)

unfoldable pub either_kind : OpenCodeToolObservation → OpenCodeLegacyToolObservation
unfolding either_status
either_kind o = record {
  session_id = o.session_id;
  message_id = some o.message_id;
  call_id = o.call_id;
  tool = some o.tool;
  status = either_status o.status;
  input = o.input;
  output = text_json o.output;
  metadata = o.metadata;
  started_at = o.started_at;
  ended_at = o.ended_at;
}

-- What `observationIdentity` and the identity of a legacy tool stringify: texts of different lists
-- differ.
pub data ObservationIdentity : Type 0 where
  assistant_id : (session_id message_id : String) → ObservationIdentity
  tool_id : (message_id call_id : String) → ObservationIdentity
  legacy_tool_id : (call_id : String) → ObservationIdentity
