-- ===== src/Binding/Faults.antt =====
-- When `resolveBinding` throws, and what it returns for a binding without references.
use seqlane.Prelude.{
  append-nil_parts, String, ◌≡◌, refl, ap, ap, ◌∙◌, sym, inl, inr, Option, none, some, List, [],
  ◌∷◌, ◌++◌, Option-cases, or_option, arith,
}
use seqlane.Binding.Json.{
  Json, undefined, null, boolean, number, string, array, object, Elements, last, element, Entries,
  empty, entry, ValueRef, parse_ref,
}
use seqlane.Binding.Resolve.{
  BindingResolutionError, Resolution, throws, returns, and_then, resolve_reference, resolve_binding,
  resolve_elements, resolve_entries,
}
use seqlane.Binding.References.{references, references_of_elements, references_of_entries}

abbrev pub fault {ℓ} : {A : Type ℓ} → Resolution A → Option BindingResolutionError
fault (throws e) = some e
fault (returns a) = none

module _ (workflow_input : Json) (results : List (String × Json)) where
  -- What the first of the references that fail throws.
  abbrev pub first_fault : List ValueRef → Option BindingResolutionError
  first_fault [] = none
  first_fault (r ∷ rs) =
      or_option (fault (resolve_reference r workflow_input results)) (first_fault rs)

  first_fault-append :
      (rs ss : List ValueRef) → first_fault (rs ++ ss) ≡ or_option (first_fault rs) (first_fault ss)
  first_fault-append [] ss = refl
  first_fault-append (r ∷ rs) ss = ground (arith, first_fault-append rs ss)

fault-map {ℓ κ} :
    {A : Type ℓ} {B : Type κ} (x : Resolution A) (f : A → B)
    → fault (and_then x (λ a. returns (f a))) ≡ fault x
fault-map (throws e) f = refl
fault-map (returns a) f = refl

fault-map₂ {ℓ κ μ} :
    {A : Type ℓ} {B : Type κ} {C : Type μ} (x : Resolution A) (y : Resolution B) (f : A → B → C)
    → fault (and_then x (λ a. and_then y (λ b. returns (f a b)))) ≡ or_option (fault x) (fault y)
fault-map₂ (throws e) y f = refl
fault-map₂ (returns a) (throws e) f = refl
fault-map₂ (returns a) (returns b) f = refl

mutual
  unfolding resolve_binding references

  fault-binding :
      (b i : Json) (m : List (String × Json))
      → fault (resolve_binding b i m) ≡ first_fault i m (references b)
  fault-binding (object es) i m = elim (Option-cases (parse_ref es)) [
    | inl e ↦ ground (arith, e, fault-map (resolve_entries es i m) object, fault-entries es i m)
    | inr (r, e) ↦ ground (arith, e, or_none (fault (resolve_reference r i m)))
  ]
    where
      or_none : {A : Type 0} (o : Option A) → o ≡ or_option o none
      or_none none = refl
      or_none (some a) = refl
  fault-binding (array vs) i m = fault-map (resolve_elements vs i m) array ∙ fault-elements vs i m
  fault-binding undefined i m = refl
  fault-binding null i m = refl
  fault-binding (boolean b) i m = refl
  fault-binding (number n) i m = refl
  fault-binding (string s) i m = refl

  fault-elements :
      (vs : Elements) (i : Json) (m : List (String × Json))
      → fault (resolve_elements vs i m) ≡ first_fault i m (references_of_elements vs)
  fault-elements last i m = refl
  fault-elements (element v vs) i m =
      fault-map₂ (resolve_binding v i m) (resolve_elements vs i m) element
      ∙ ap (λ o. or_option o (fault (resolve_elements vs i m))) (fault-binding v i m)
      ∙ ap (or_option (first_fault i m (references v))) (fault-elements vs i m)
      ∙ sym (first_fault-append i m (references v) (references_of_elements vs))

  fault-entries :
      (es : Entries) (i : Json) (m : List (String × Json))
      → fault (resolve_entries es i m) ≡ first_fault i m (references_of_entries es)
  fault-entries empty i m = refl
  fault-entries (entry key v rest) i m =
      fault-map₂ (resolve_binding v i m) (resolve_entries rest i m) (entry key)
      ∙ ap (λ o. or_option o (fault (resolve_entries rest i m))) (fault-binding v i m)
      ∙ ap (or_option (first_fault i m (references v))) (fault-entries rest i m)
      ∙ sym (first_fault-append i m (references v) (references_of_entries rest))

-- A binding throws exactly where one of its references does, and it throws what the first of these
-- throws, in reading order; it returns a value where every reference resolves.
pub resolve_binding-fault :
    (b workflow_input : Json) (results : List (String × Json))
    → fault (resolve_binding b workflow_input results)
      ≡ first_fault workflow_input results (references b)
resolve_binding-fault b workflow_input results = fault-binding b workflow_input results

mutual
  unfolding resolve_binding references

  closed-binding :
      (b i : Json) (m : List (String × Json))
      → references b ≡ []
      → resolve_binding b i m ≡ returns b
  closed-binding (object es) i m none_in = elim (Option-cases (parse_ref es)) [
    | inl e ↦ ground (arith, e, closed-entries es i m (ground (arith, e, none_in)))
    | inr (r, e) ↦ absurd (ground (arith, e, none_in))
  ]
  closed-binding (array vs) i m none_in = rw (closed-elements vs i m none_in) refl
  closed-binding undefined i m none_in = refl
  closed-binding null i m none_in = refl
  closed-binding (boolean b) i m none_in = refl
  closed-binding (number n) i m none_in = refl
  closed-binding (string s) i m none_in = refl

  closed-elements :
      (vs : Elements) (i : Json) (m : List (String × Json))
      → references_of_elements vs ≡ []
      → resolve_elements vs i m ≡ returns vs
  closed-elements last i m none_in = refl
  closed-elements (element v vs) i m none_in =
      let (here, later) = append-nil_parts (references v) (references_of_elements vs) none_in in
      rw (closed-binding v i m here, closed-elements vs i m later) refl

  closed-entries :
      (es : Entries) (i : Json) (m : List (String × Json))
      → references_of_entries es ≡ []
      → resolve_entries es i m ≡ returns es
  closed-entries empty i m none_in = refl
  closed-entries (entry key v rest) i m none_in =
      let (here, later) = append-nil_parts (references v) (references_of_entries rest) none_in in
      rw (closed-binding v i m here, closed-entries rest i m later) refl

-- A binding without references resolves to itself, whatever the input and the results.
pub resolve_binding_closed :
    (b workflow_input : Json) (results : List (String × Json))
    → references b ≡ []
    → resolve_binding b workflow_input results ≡ returns b
resolve_binding_closed b workflow_input results none_in =
    closed-binding b workflow_input results none_in
