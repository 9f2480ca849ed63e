-- ===== src/Binding/Roundtrip.antt =====
-- The serial form of a binding means what the binding means.
use seqlane.Prelude.{
  String, ◌≡◌, refl, ap, inl, inr, false, Option, none, some, List, [], ◌∷◌, Option-cases,
  Bool-cases, ◌==◌, arith,
}
use seqlane.Binding.Json.{
  Json, undefined, null, boolean, number, string, array, object, Elements, last, element, Entries,
  empty, entry, ValueRef, value_at, as_text, as_texts, texts, only_ref_keys, ref_from, parse_ref,
}
use seqlane.Binding.Resolve.{resolve_binding, resolve_elements, resolve_entries}
use seqlane.Binding.References.{references, references_of_elements, references_of_entries}
use seqlane.Binding.Serialize.{
  path_elements, ref_entries, serialize_binding, serialize_elements, serialize_entries,
}

texts-path_elements : (path : List String) → texts (path_elements path) ≡ some path
texts-path_elements [] = refl
texts-path_elements (segment ∷ rest) = rw (texts-path_elements rest) refl

ref_from-named :
    (id : Option String) (path : Option (List String)) (r : ValueRef)
    → ref_from id path ≡ some r
    → (r.node_id == "") ≡ false
ref_from-named none path r e = absurd (cc)
ref_from-named (some id) none r e = absurd (cc)
ref_from-named (some id) (some path) r e = ground arith

parse_ref-named : (es : Entries) (r : ValueRef) → parse_ref es ≡ some r → (r.node_id == "") ≡ false
unfolding parse_ref
parse_ref-named es r e =
    ref_from-named (as_text (value_at "nodeId" es)) (as_texts (value_at "path" es)) r
      (ground (arith, e))

parse_ref-ref_entries :
    (r : ValueRef) → (r.node_id == "") ≡ false → parse_ref (ref_entries r) ≡ some r
unfolding parse_ref only_ref_keys value_at
parse_ref-ref_entries r named = ground (arith, texts-path_elements r.path, named)

as_text-serialize : (v : Json) → as_text (some (serialize_binding v)) ≡ as_text (some v)
unfolding serialize_binding
as_text-serialize (object es) = elim (Option-cases (parse_ref es)) [
  | inl e ↦ ground (arith, e)
  | inr (r, e) ↦ ground (arith, e)
]
as_text-serialize (array vs) = refl
as_text-serialize undefined = refl
as_text-serialize null = refl
as_text-serialize (boolean b) = refl
as_text-serialize (number n) = refl
as_text-serialize (string s) = refl

texts-serialize : (vs : Elements) → texts (serialize_elements vs) ≡ texts vs
unfolding serialize_elements
texts-serialize last = refl
texts-serialize (element v vs) = rw (as_text-serialize v, texts-serialize vs) refl

as_texts-serialize : (v : Json) → as_texts (some (serialize_binding v)) ≡ as_texts (some v)
unfolding serialize_binding
as_texts-serialize (object es) = elim (Option-cases (parse_ref es)) [
  | inl e ↦ ground (arith, e)
  | inr (r, e) ↦ ground (arith, e)
]
as_texts-serialize (array vs) = texts-serialize vs
as_texts-serialize undefined = refl
as_texts-serialize null = refl
as_texts-serialize (boolean b) = refl
as_texts-serialize (number n) = refl
as_texts-serialize (string s) = refl

value_at-serialize :
    {A : Type 0} (F : Option Json → A)
    → ((v : Json) → F (some (serialize_binding v)) ≡ F (some v))
    → (key : String) (es : Entries) → F (value_at key (serialize_entries es)) ≡ F (value_at key es)
unfolding value_at serialize_entries
value_at-serialize F same key empty = refl
value_at-serialize F same key (entry k v rest) = elim (Bool-cases (k == key)) [
  | inl e ↦ rw e (same v)
  | inr e ↦ rw e (value_at-serialize F same key rest)
]

only_ref_keys-serialize : (es : Entries) → only_ref_keys (serialize_entries es) ≡ only_ref_keys es
unfolding only_ref_keys serialize_entries
only_ref_keys-serialize empty = refl
only_ref_keys-serialize (entry key v rest) = rw (only_ref_keys-serialize rest) refl

parse_ref-serialize : (es : Entries) → parse_ref (serialize_entries es) ≡ parse_ref es
unfolding parse_ref
parse_ref-serialize es = ground (
  arith,
  only_ref_keys-serialize es,
  value_at-serialize as_text as_text-serialize "type" es,
  value_at-serialize as_text as_text-serialize "nodeId" es,
  value_at-serialize as_texts as_texts-serialize "path" es,
)

mutual
  unfolding resolve_binding serialize_binding

  resolve-serialize :
      (b i : Json) (m : List (String × Json))
      → resolve_binding (serialize_binding b) i m ≡ resolve_binding b i m
  resolve-serialize (object es) i m = elim (Option-cases (parse_ref es)) [
    | inl e ↦ ground (arith, e, parse_ref-serialize es, resolve-serialize_entries es i m)
    | inr (r, e) ↦ ground (arith, e, parse_ref-ref_entries r (parse_ref-named es r e))
  ]
  resolve-serialize (array vs) i m = rw (resolve-serialize_elements vs i m) refl
  resolve-serialize undefined i m = refl
  resolve-serialize null i m = refl
  resolve-serialize (boolean b) i m = refl
  resolve-serialize (number n) i m = refl
  resolve-serialize (string s) i m = refl

  resolve-serialize_elements :
      (vs : Elements) (i : Json) (m : List (String × Json))
      → resolve_elements (serialize_elements vs) i m ≡ resolve_elements vs i m
  resolve-serialize_elements last i m = refl
  resolve-serialize_elements (element v vs) i m =
      rw (resolve-serialize v i m, resolve-serialize_elements vs i m) refl

  resolve-serialize_entries :
      (es : Entries) (i : Json) (m : List (String × Json))
      → resolve_entries (serialize_entries es) i m ≡ resolve_entries es i m
  resolve-serialize_entries empty i m = refl
  resolve-serialize_entries (entry key v rest) i m =
      rw (resolve-serialize v i m, resolve-serialize_entries rest i m) refl

mutual
  unfolding references serialize_binding

  references-serialize : (b : Json) → references (serialize_binding b) ≡ references b
  references-serialize (object es) = elim (Option-cases (parse_ref es)) [
    | inl e ↦ ground (arith, e, parse_ref-serialize es, references-serialize_entries es)
    | inr (r, e) ↦ ground (arith, e, parse_ref-ref_entries r (parse_ref-named es r e))
  ]
  references-serialize (array vs) = references-serialize_elements vs
  references-serialize undefined = refl
  references-serialize null = refl
  references-serialize (boolean b) = refl
  references-serialize (number n) = refl
  references-serialize (string s) = refl

  references-serialize_elements :
      (vs : Elements) → references_of_elements (serialize_elements vs) ≡ references_of_elements vs
  references-serialize_elements last = refl
  references-serialize_elements (element v vs) =
      rw (references-serialize v, references-serialize_elements vs) refl

  references-serialize_entries :
      (es : Entries) → references_of_entries (serialize_entries es) ≡ references_of_entries es
  references-serialize_entries empty = refl
  references-serialize_entries (entry key v rest) =
      rw (references-serialize v, references-serialize_entries rest) refl

mutual
  unfolding serialize_binding

  serialize-serialize : (b : Json) → serialize_binding (serialize_binding b) ≡ serialize_binding b
  serialize-serialize (object es) = elim (Option-cases (parse_ref es)) [
    | inl e ↦ ground (arith, e, parse_ref-serialize es, serialize-serialize_entries es)
    | inr (r, e) ↦ ground (arith, e, parse_ref-ref_entries r (parse_ref-named es r e))
  ]
  serialize-serialize (array vs) = ap array (serialize-serialize_elements vs)
  serialize-serialize undefined = refl
  serialize-serialize null = refl
  serialize-serialize (boolean b) = refl
  serialize-serialize (number n) = refl
  serialize-serialize (string s) = refl

  serialize-serialize_elements :
      (vs : Elements) → serialize_elements (serialize_elements vs) ≡ serialize_elements vs
  serialize-serialize_elements last = refl
  serialize-serialize_elements (element v vs) =
      rw (serialize-serialize v, serialize-serialize_elements vs) refl

  serialize-serialize_entries :
      (es : Entries) → serialize_entries (serialize_entries es) ≡ serialize_entries es
  serialize-serialize_entries empty = refl
  serialize-serialize_entries (entry key v rest) =
      rw (serialize-serialize v, serialize-serialize_entries rest) refl

-- The serial form of a binding resolves as the binding does, for every input and all results, errors
-- included; it has the same references in the same order, and serializing it again changes nothing.
pub serialize_binding_roundtrip :
    (b workflow_input : Json) (results : List (String × Json))
    → (resolve_binding (serialize_binding b) workflow_input results
        ≡ resolve_binding b workflow_input results)
      × (references (serialize_binding b) ≡ references b)
      × (serialize_binding (serialize_binding b) ≡ serialize_binding b)
serialize_binding_roundtrip b workflow_input results =
    (resolve-serialize b workflow_input results, references-serialize b, serialize-serialize b)
