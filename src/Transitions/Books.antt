-- ===== src/Transitions/Books.antt =====
-- What the dispatcher reports and keeps, after any events.
use seqlane.Prelude.{
  String, ◌≡◌, ◌≤◌, refl, sym, ◌∙◌, subst, Bool, true, false, ◌||◌, not, Option, none, some, List,
  [], ◌∷◌, ◌++◌, ltb, if_elim, option_elim, text_length, All, arith,
}
use seqlane.Transitions.Observations.{
  OpenCodeActivity, OpenCodeLegacyToolObservation, OpenCodeEventObservation, assistant, tool,
  either_kind, ObservationIdentity, legacy_tool_id,
}
use seqlane.Transitions.Dispatcher.{
  AttemptTransitionDispatcher, has_identity, observation_identity, observation_is_terminal,
  call_identity, activity_of, report_activity,
}
use seqlane.Transitions.Dispatch.{
  new_dispatcher, close, report_tool, dispatch_observation, is_well_formed, legacy_is_terminal,
  record_names, forget_names, observe_native, accept_legacy_tool, dispatch_legacy_tool, Event,
  observation, legacy_tool, step, run,
}

abbrev pub IsBounded : OpenCodeActivity → Type 0
IsBounded a = (text_length a.activity_id ≤ 256) × (text_length a.name ≤ 256)

All-snoc :
    (P : OpenCodeActivity → Type 0) (xs : List OpenCodeActivity) (x : OpenCodeActivity)
    → All P xs
    → P x
    → All P (xs ++ x ∷ [])
All-snoc P [] x h p = (p, tt)
All-snoc P (y ∷ xs) x h p = (h.0, All-snoc P xs x h.1 p)

report_activity-IsBounded :
    (d : AttemptTransitionDispatcher) (o : OpenCodeLegacyToolObservation)
    → All IsBounded d.activities
    → All IsBounded (report_activity d o).activities
unfolding report_activity activity_of
report_activity-IsBounded d o h =
    option_elim (λ z. All IsBounded z.activities) (call_identity o d.activity_identities) d _
      (λ e. h)
      (λ identity e.
        if_elim (λ z. All IsBounded z.activities)
          (ltb 256 (text_length o.call_id) || ltb 256 (text_length identity.name)) d _ (λ long. h)
          (λ short. All-snoc IsBounded d.activities _ h (ground arith, ground arith)))

close-activities :
    (b : Bool) (i : ObservationIdentity) (d : AttemptTransitionDispatcher)
    → (close b i d).activities ≡ d.activities
close-activities true i d = refl
close-activities false i d = refl

report_tool-IsBounded :
    (d : AttemptTransitionDispatcher) (o : OpenCodeEventObservation)
    → All IsBounded d.activities
    → All IsBounded (report_tool d o).activities
report_tool-IsBounded d (assistant o) h = h
report_tool-IsBounded d (tool o) h = report_activity-IsBounded d (either_kind o) h

observe_native-activities :
    (d : AttemptTransitionDispatcher) (o : Option _)
    → (observe_native d o).activities ≡ d.activities
observe_native-activities d none = refl
observe_native-activities d (some o) = refl

forget_names-activities :
    (b : Bool) (c : String) (d : AttemptTransitionDispatcher)
    → (forget_names b c d).activities ≡ d.activities
unfolding forget_names
forget_names-activities true c d = refl
forget_names-activities false c d = refl

accept-IsBounded :
    (d : AttemptTransitionDispatcher) (o : OpenCodeLegacyToolObservation)
    → All IsBounded d.activities
    → All IsBounded (accept_legacy_tool d o).activities
unfolding accept_legacy_tool record_names
accept-IsBounded d o h =
    subst (All IsBounded) (sym (forget_names-activities (legacy_is_terminal o.status) o.call_id _))
      (report_activity-IsBounded _ o (
        subst (All IsBounded)
          (sym (
            observe_native-activities _ _
            ∙ close-activities (legacy_is_terminal o.status) (legacy_tool_id o.call_id) d))
          h))

step-IsBounded :
    (d : AttemptTransitionDispatcher) (event : Event)
    → All IsBounded d.activities
    → All IsBounded (step d event).activities
unfolding step dispatch_observation dispatch_legacy_tool
step-IsBounded d (observation o) h =
    if_elim (λ z. All IsBounded z.activities)
      (has_identity (observation_identity o) d.terminal_observations) d _ (λ late. h)
      (λ fresh. report_tool-IsBounded _ o (
        subst (All IsBounded)
          (sym (close-activities (observation_is_terminal o) (observation_identity o) d)) h))
step-IsBounded d (legacy_tool o) h =
    if_elim (λ z. All IsBounded z.activities) (not (is_well_formed o)) d _ (λ bad. h)
      (λ ok.
        if_elim (λ z. All IsBounded z.activities)
          (has_identity (legacy_tool_id o.call_id) d.terminal_observations) d _ (λ late. h)
          (λ fresh. accept-IsBounded d o h))

run-IsBounded :
    (events : List Event) (d : AttemptTransitionDispatcher)
    → All IsBounded d.activities
    → All IsBounded (run d events).activities
unfolding run
run-IsBounded [] d h = h
run-IsBounded (event ∷ events) d h = run-IsBounded events (step d event) (step-IsBounded d event h)

-- After any events, every activity that was reported has an id and a name of at most 256 characters.
pub activities-IsBounded :
    (events : List Event) → All IsBounded (run new_dispatcher events).activities
unfolding new_dispatcher
activities-IsBounded events = run-IsBounded events new_dispatcher tt
