-- ===== src/Transitions/Tests.antt =====
-- An attempt with one legacy tool call, and the theorems at it.
use seqlane.Prelude.{String, ◌≡◌, refl, Option, none, some, [], ◌∷◌, map, All}
use seqlane.Transitions.Observations.{LegacyToolStatus, ActivityState, started, succeeded}
use seqlane.Transitions.Dispatch.{Event, legacy_tool, new_dispatcher, step, run}
use seqlane.Transitions.Late.{late_event_ignored}
use seqlane.Transitions.Books.{IsBounded, activities-IsBounded}

abbrev bash_call : LegacyToolStatus → Option String → Event
bash_call status name = legacy_tool (record {
  session_id = "s";
  message_id = some "m";
  call_id = "c";
  tool = name;
  status = status;
  input = none;
  output = none;
  metadata = none;
  started_at = none;
  ended_at = none;
})

abbrev called : Event
called = bash_call LegacyToolStatus.called (some "bash")

abbrev finished : Event
finished = bash_call LegacyToolStatus.success none

called_then_finished :
    map {B = String × ActivityState}
      (λ a. (a.name, a.state))
      (run new_dispatcher (called ∷ finished ∷ called ∷ [])).activities
    ≡ ("bash", started) ∷ ("bash", succeeded) ∷ []
unfolding run new_dispatcher
called_then_finished = refl

late_event_ignored_example :
    step (run (step (run new_dispatcher (called ∷ [])) finished) (called ∷ [])) called
    ≡ run (step (run new_dispatcher (called ∷ [])) finished) (called ∷ [])
unfolding step
late_event_ignored_example =
    late_event_ignored (called ∷ []) (called ∷ []) finished called refl refl refl

activities-IsBounded_example :
    All IsBounded (run new_dispatcher (called ∷ finished ∷ [])).activities
activities-IsBounded_example = activities-IsBounded (called ∷ finished ∷ [])
