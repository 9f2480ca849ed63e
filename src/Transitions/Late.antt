-- ===== src/Transitions/Late.antt =====
-- The identities that terminal events close, and the later events of such an identity.
use seqlane.Prelude.{
  String, ◌≡◌, refl, ◌∙◌, inl, inr, Bool, true, false, ◌||◌, Option, none, some, List, [], ◌∷◌, ltb,
  if_elim, Bool-cases, option_elim, text_length, eq_iff, arith,
}
use seqlane.Transitions.Observations.{
  OpenCodeLegacyToolObservation, OpenCodeEventObservation, assistant, tool, either_kind,
  ObservationIdentity, assistant_id, tool_id, legacy_tool_id,
}
use seqlane.Transitions.Dispatcher.{
  AttemptTransitionDispatcher, same_identity, has_identity, observation_identity,
  observation_is_terminal, call_identity, report_activity,
}
use seqlane.Transitions.Dispatch.{
  new_dispatcher, close, observe, report_tool, dispatch_observation, is_well_formed,
  legacy_is_terminal, record_names, forget_names, observe_native, accept_legacy_tool,
  dispatch_legacy_tool, Event, observation, legacy_tool, step, run,
}

abbrev pub identity_of : Event → ObservationIdentity
identity_of (observation o) = observation_identity o
identity_of (legacy_tool o) = legacy_tool_id o.call_id

abbrev pub is_terminal : Event → Bool
is_terminal (observation o) = observation_is_terminal o
is_terminal (legacy_tool o) = legacy_is_terminal o.status

-- A legacy event with a malformed identifier is dropped.
abbrev pub is_admissible : Event → Bool
is_admissible (observation o) = true
is_admissible (legacy_tool o) = is_well_formed o

same_identity_refl : (i : ObservationIdentity) → same_identity i i ≡ true
unfolding same_identity
same_identity_refl (assistant_id s m) = ground (arith, eq_iff s s, eq_iff m m)
same_identity_refl (tool_id m c) = ground (arith, eq_iff m m, eq_iff c c)
same_identity_refl (legacy_tool_id c) = ground (arith, eq_iff c c)

pub report_activity-terminal :
    (d : AttemptTransitionDispatcher) (o : OpenCodeLegacyToolObservation)
    → (report_activity d o).terminal_observations ≡ d.terminal_observations
unfolding report_activity
report_activity-terminal d o =
    option_elim (λ z. z.terminal_observations ≡ d.terminal_observations)
      (call_identity o d.activity_identities) d _ (λ e. refl)
      (λ identity e.
        if_elim (λ z. z.terminal_observations ≡ d.terminal_observations)
          (ltb 256 (text_length o.call_id) || ltb 256 (text_length identity.name)) d _
          (λ long. refl) (λ short. refl))

report_tool-terminal :
    (d : AttemptTransitionDispatcher) (o : OpenCodeEventObservation)
    → (report_tool d o).terminal_observations ≡ d.terminal_observations
report_tool-terminal d (assistant o) = refl
report_tool-terminal d (tool o) = report_activity-terminal d (either_kind o)

-- What the dispatch of an open event adds to the closed identities.
dispatch_observation-terminal :
    (d : AttemptTransitionDispatcher) (o : OpenCodeEventObservation)
    → has_identity (observation_identity o) d.terminal_observations ≡ false
    → (dispatch_observation d o).terminal_observations
      ≡ (close (observation_is_terminal o) (observation_identity o) d).terminal_observations
unfolding dispatch_observation
dispatch_observation-terminal d o fresh = rw fresh (
    report_tool-terminal (observe (close (observation_is_terminal o) (observation_identity o) d) o)
      o)

observe_native-terminal :
    (d : AttemptTransitionDispatcher) (o : Option _)
    → (observe_native d o).terminal_observations ≡ d.terminal_observations
observe_native-terminal d none = refl
observe_native-terminal d (some o) = refl

forget_names-terminal :
    (b : Bool) (c : String) (d : AttemptTransitionDispatcher)
    → (forget_names b c d).terminal_observations ≡ d.terminal_observations
unfolding forget_names
forget_names-terminal true c d = refl
forget_names-terminal false c d = refl

pub accept-terminal :
    (d : AttemptTransitionDispatcher) (o : OpenCodeLegacyToolObservation)
    → (accept_legacy_tool d o).terminal_observations
      ≡ (close (legacy_is_terminal o.status) (legacy_tool_id o.call_id) d).terminal_observations
unfolding accept_legacy_tool record_names
accept-terminal d o =
    forget_names-terminal (legacy_is_terminal o.status) o.call_id _
    ∙ report_activity-terminal _ o
    ∙ observe_native-terminal _ _

-- The closed identities after a step: the same, or one more where the event is terminal.
step-terminal :
    (d : AttemptTransitionDispatcher) (event : Event)
    → is_admissible event ≡ true
    → has_identity (identity_of event) d.terminal_observations ≡ false
    → (step d event).terminal_observations
      ≡ (close (is_terminal event) (identity_of event) d).terminal_observations
unfolding step dispatch_legacy_tool
step-terminal d (observation o) ok fresh = dispatch_observation-terminal d o fresh
step-terminal d (legacy_tool o) ok fresh = rw (ok, fresh) (accept-terminal d o)

step_late :
    (d : AttemptTransitionDispatcher) (event : Event)
    → has_identity (identity_of event) d.terminal_observations ≡ true
    → step d event ≡ d
unfolding step dispatch_observation dispatch_legacy_tool
step_late d (observation o) late = ground (arith, late)
step_late d (legacy_tool o) late = ground (arith, late)

step_malformed :
    (d : AttemptTransitionDispatcher) (event : Event)
    → is_admissible event ≡ false
    → step d event ≡ d
unfolding step dispatch_legacy_tool
step_malformed d (observation o) bad = absurd (cc)
step_malformed d (legacy_tool o) bad = ground (arith, bad)

step-grows :
    (d : AttemptTransitionDispatcher) (event : Event) (i : ObservationIdentity)
    → has_identity i d.terminal_observations ≡ true
    → has_identity i (step d event).terminal_observations ≡ true
unfolding has_identity
step-grows d event i closed =
    elim (Bool-cases (has_identity (identity_of event) d.terminal_observations)) [
      | inl late ↦ rw (step_late d event late) closed
      | inr fresh ↦ elim (Bool-cases (is_admissible event)) [
        | inr bad ↦ rw (step_malformed d event bad) closed
        | inl ok ↦ rw (step-terminal d event ok fresh) (
            if_elim (λ z. has_identity i z.terminal_observations ≡ true) (is_terminal event) _ d
              (λ e. ground (arith, closed)) (λ e. closed))
      ]
    ]

run-grows :
    (events : List Event) (d : AttemptTransitionDispatcher) (i : ObservationIdentity)
    → has_identity i d.terminal_observations ≡ true
    → has_identity i (run d events).terminal_observations ≡ true
unfolding run
run-grows [] d i closed = closed
run-grows (event ∷ events) d i closed =
    run-grows events (step d event) i (step-grows d event i closed)

step-closes :
    (d : AttemptTransitionDispatcher) (event : Event)
    → is_terminal event ≡ true
    → is_admissible event ≡ true
    → has_identity (identity_of event) (step d event).terminal_observations ≡ true
unfolding has_identity
step-closes d event last ok =
    elim (Bool-cases (has_identity (identity_of event) d.terminal_observations)) [
      | inl late ↦ rw (step_late d event late) late
      | inr fresh ↦ rw (step-terminal d event ok fresh) (
          if_elim (λ z. has_identity (identity_of event) z.terminal_observations ≡ true)
            (is_terminal event) _ d (λ e. ground (arith, same_identity_refl (identity_of event)))
            (λ e. ground (arith, last)))
    ]

-- Once a terminal event that is not malformed has been dispatched, a later event of the same identity
-- changes nothing, whatever came before and in between, and no callback is called for it. A native
-- event never has the identity of a legacy event, so the two events are of the same channel.
pub late_event_ignored :
    (before between : List Event) (event late : Event)
    → is_terminal event ≡ true
    → is_admissible event ≡ true
    → identity_of late ≡ identity_of event
    → let d = run (step (run new_dispatcher before) event) between in step d late ≡ d
late_event_ignored before between event late last ok same =
    let d = run (step (run new_dispatcher before) event) between in
    step_late d late (
      rw same (
        run-grows between (step (run new_dispatcher before) event) (identity_of event)
          (step-closes (run new_dispatcher before) event last ok)))
