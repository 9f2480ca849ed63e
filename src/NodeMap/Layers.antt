-- ===== src/NodeMap/Layers.antt =====
-- The layers of a map of run-node-map.ts, one by one.
use seqlane.Prelude.{
  ℕ, String, ◌≡◌, refl, ◌∙◌, subst, inl, inr, false, ◌||◌, none, List, [], ◌∷◌, or_option, is_some,
  Bool-cases, Option-cases, lookup, insert, lookup-insert, has, Distinct, ◌==◌, eq_iff, arith,
}
use seqlane.NodeMap.Overlay.{NodeMap, plain, overlay, get, has_key, set_all, flattened}

module _ {ℓ} {V : Type ℓ} where
  abbrev pub keys : List (String × V) → List String
  keys [] = []
  keys ((key, value) ∷ rest) = key ∷ keys rest

  -- No key is twice in one layer.
  abbrev pub IsLayered : NodeMap V → Type 0
  IsLayered (plain m) = Distinct (keys m)
  IsLayered (overlay base changes depth size) = IsLayered base × Distinct (keys changes)

  pub lookup-keys :
      (key : String) (m : List (String × V)) → is_some (lookup key m) ≡ has key (keys m)
  unfolding lookup has
  lookup-keys key [] = refl
  lookup-keys key ((k, v) ∷ rest) = ground (arith, lookup-keys key rest)

  pub absent_key :
      (key : String) (m : List (String × V)) → has key (keys m) ≡ false → lookup key m ≡ none
  unfolding lookup has
  absent_key key [] h = refl
  absent_key key ((k, v) ∷ rest) h = ground (arith, h, absent_key key rest (ground (arith, h)))

  pub lookup-set_all :
      (changes m : List (String × V)) (key : String)
      → Distinct (keys changes)
      → lookup key (set_all changes m) ≡ or_option (lookup key changes) (lookup key m)
  unfolding set_all lookup
  lookup-set_all [] m key h = refl
  lookup-set_all ((k, v) ∷ rest) m key h = elim (Bool-cases (k == key)) [
    | inl e ↦ ground (
      arith,
      e,
      lookup-set_all rest (insert k v m) key h.1,
      lookup-insert k key v m,
      absent_key key rest (subst (λ z. has z (keys rest) ≡ false) ((eq_iff k key).0 e) h.0),
    )
    | inr e ↦ ground (arith, e, lookup-set_all rest (insert k v m) key h.1, lookup-insert k key v m)
  ]

  has-keys-insert :
      (set key : String) (v : V) (m : List (String × V))
      → has key (keys (insert set v m)) ≡ (set == key || has key (keys m))
  unfolding insert has
  has-keys-insert set key v [] = refl
  has-keys-insert set key v ((k, w) ∷ rest) =
      ground (arith, has-keys-insert set key v rest, eq_iff k set, eq_iff k key, eq_iff set key)

  insert-Distinct :
      (set : String) (v : V) (m : List (String × V))
      → Distinct (keys m)
      → Distinct (keys (insert set v m))
  unfolding insert has
  insert-Distinct set v [] h = (refl, tt)
  insert-Distinct set v ((k, w) ∷ rest) h = elim (Bool-cases (k == set)) [
    | inl e ↦ rw e h
    | inr e ↦ rw e (
      ground (arith, h.0, has-keys-insert set k v rest, e, eq_iff set k, eq_iff k set),
      insert-Distinct set v rest h.1,
    )
  ]

  pub set_all-Distinct :
      (changes m : List (String × V)) → Distinct (keys m) → Distinct (keys (set_all changes m))
  unfolding set_all
  set_all-Distinct [] m h = h
  set_all-Distinct ((k, v) ∷ rest) m h =
      set_all-Distinct rest (insert k v m) (insert-Distinct k v m h)

  pub get-overlay :
      (base : NodeMap V) (changes : List (String × V)) (depth size : ℕ) (key : String)
      → get (overlay base changes depth size) key ≡ or_option (lookup key changes) (get base key)
  unfolding get
  get-overlay base changes depth size key = elim (Option-cases (lookup key changes)) [
    | inl e ↦ ground (arith, e)
    | inr (v, e) ↦ ground (arith, e)
  ]

  pub has_key-get : (m : NodeMap V) (key : String) → has_key m key ≡ is_some (get m key)
  unfolding has_key get
  has_key-get (plain m) key = refl
  has_key-get (overlay base changes depth size) key = elim (Option-cases (lookup key changes)) [
    | inl e ↦ ground (arith, e, has_key-get base key)
    | inr (v, e) ↦ ground (arith, e)
  ]

  pub lookup-flattened :
      (m : NodeMap V) (key : String) → IsLayered m → lookup key (flattened m) ≡ get m key
  unfolding flattened get
  lookup-flattened (plain m) key h = refl
  lookup-flattened (overlay base changes depth size) key h =
      lookup-set_all changes (flattened base) key h.1
      ∙ (ground (arith, lookup-flattened base key h.0, get-overlay base changes depth size key))

  pub flattened-Distinct : (m : NodeMap V) → IsLayered m → Distinct (keys (flattened m))
  unfolding flattened
  flattened-Distinct (plain m) h = h
  flattened-Distinct (overlay base changes depth size) h =
      set_all-Distinct changes (flattened base) (flattened-Distinct base h.0)
