-- ===== src/NodeMap/Listed.antt =====
-- The entries of a map of run-node-map.ts.
use seqlane.Prelude.{
  has-append, ℕ, ◌+◌, String, ◌≡◌, refl, sym, ap, subst, inl, inr, true, false, Option, none, some,
  List, [], ◌∷◌, ◌++◌, or_else, or_option, length, length-append, if◌then◌else◌, Bool-cases,
  Option-cases, lookup, has, Distinct, ◌==◌, eq_iff, arith,
}
use seqlane.NodeMap.Overlay.{NodeMap, plain, overlay, get, has_key, changed, additions, entries}
use seqlane.NodeMap.Layers.{keys, IsLayered, lookup-keys, get-overlay, has_key-get}

append-Distinct :
    (xs ys : List String)
    → Distinct xs
    → Distinct ys
    → ((key : String) → has key xs ≡ true → has key ys ≡ false)
    → Distinct (xs ++ ys)
unfolding has
append-Distinct [] ys h k apart = k
append-Distinct (x ∷ xs) ys h k apart = (
  ground (arith, h.0, apart x (ground (arith, eq_iff x x)), has-append x xs ys),
  append-Distinct xs ys h.1 k (λ key m. apart key (ground (arith, m))),
)

module _ {ℓ} {V : Type ℓ} where
  lookup-append :
      (xs ys : List (String × V)) (key : String)
      → lookup key (xs ++ ys) ≡ or_option (lookup key xs) (lookup key ys)
  unfolding lookup
  lookup-append [] ys key = refl
  lookup-append ((k, v) ∷ xs) ys key = ground (arith, lookup-append xs ys key)

  -- A value that replaces one that is there.
  abbrev replaced : Option V → Option V → Option V
  replaced new none = none
  replaced new (some old) = some (or_else new old)

  lookup-changed :
      (changes m : List (String × V)) (key : String)
      → lookup key (changed changes m) ≡ replaced (lookup key changes) (lookup key m)
  unfolding changed lookup
  lookup-changed changes [] key = refl
  lookup-changed changes ((k, v) ∷ rest) key = elim (Bool-cases (k == key)) [
    | inl e ↦ ground (arith, e, (eq_iff k key).0 e, lookup-changed changes rest key)
    | inr e ↦ ground (arith, e, lookup-changed changes rest key)
  ]

  keys-changed : (changes m : List (String × V)) → keys (changed changes m) ≡ keys m
  unfolding changed
  keys-changed changes [] = refl
  keys-changed changes ((k, v) ∷ rest) = ap (λ (l : List String). k ∷ l) (keys-changed changes rest)

  lookup-additions :
      (base : NodeMap V) (changes : List (String × V)) (key : String)
      → lookup key (additions base changes)
        ≡ (if has_key base key then none else lookup key changes)
  unfolding additions lookup
  lookup-additions base [] key = ground arith
  lookup-additions base ((k, v) ∷ rest) key = elim (Bool-cases (k == key)) [
    | inl e ↦ ground (arith, e, (eq_iff k key).0 e, lookup-additions base rest key)
    | inr e ↦ ground (arith, e, lookup-additions base rest key)
  ]

  -- A lookup in the entries is `get`.
  pub lookup-entries : (m : NodeMap V) (key : String) → lookup key (entries m) ≡ get m key
  unfolding entries get
  lookup-entries (plain m) key = refl
  lookup-entries (overlay base changes depth size) key =
      let parts = lookup-append (changed changes (entries base)) (additions base changes) key in
      let old = lookup-changed changes (entries base) key in
      let new = lookup-additions base changes key in
      let ih = lookup-entries base key in
      let known = has_key-get base key in
      let both = get-overlay base changes depth size key in
      elim (Option-cases (get base key)) [
        | inl e ↦ elim (Option-cases (lookup key changes)) [
          | inl f ↦ ground (arith, e, f, parts, old, new, ih, known, both)
          | inr (v, f) ↦ ground (arith, e, f, parts, old, new, ih, known, both)
        ]
        | inr (w, e) ↦ elim (Option-cases (lookup key changes)) [
          | inl f ↦ ground (arith, e, f, parts, old, new, ih, known, both)
          | inr (v, f) ↦ ground (arith, e, f, parts, old, new, ih, known, both)
        ]
      ]

  keys-append : (xs ys : List (String × V)) → keys (xs ++ ys) ≡ keys xs ++ keys ys
  keys-append [] ys = refl
  keys-append ((k, v) ∷ xs) ys = ap (λ (l : List String). k ∷ l) (keys-append xs ys)

  additions-Distinct :
      (base : NodeMap V) (changes : List (String × V))
      → Distinct (keys changes)
      → Distinct (keys (additions base changes))
  unfolding additions
  additions-Distinct base [] h = tt
  additions-Distinct base ((k, v) ∷ rest) h = elim (Bool-cases (has_key base k)) [
    | inl e ↦ rw e (additions-Distinct base rest h.1)
    | inr e ↦ rw e (
      ground (
        arith,
        h.0,
        lookup-keys k rest,
        lookup-keys k (additions base rest),
        lookup-additions base rest k,
        e,
      ),
      additions-Distinct base rest h.1,
    )
  ]

  -- No key is twice among the entries.
  pub entries-Distinct : (m : NodeMap V) → IsLayered m → Distinct (keys (entries m))
  unfolding entries
  entries-Distinct (plain m) h = h
  entries-Distinct (overlay base changes depth size) h =
      let old = entries-Distinct base h.0 in
      subst (λ is. Distinct is)
        (sym (keys-append (changed changes (entries base)) (additions base changes)))
        (append-Distinct (keys (changed changes (entries base))) (keys (additions base changes))
          (subst (λ is. Distinct is) (sym (keys-changed changes (entries base))) old)
          (additions-Distinct base changes h.1)
          (λ key m. ground (
            arith,
            subst (λ is. has key is ≡ true) (keys-changed changes (entries base)) m,
            lookup-keys key (entries base),
            lookup-keys key (additions base changes),
            lookup-additions base changes key,
            lookup-entries base key,
            has_key-get base key,
          )))

  length-changed : (changes m : List (String × V)) → length (changed changes m) ≡ length m
  unfolding changed
  length-changed changes [] = refl
  length-changed changes ((k, v) ∷ rest) = omega (arith, length-changed changes rest)

  pub length-entries_overlay :
      (base : NodeMap V) (changes : List (String × V)) (depth size : ℕ)
      → length (entries (overlay base changes depth size))
        ≡ length (entries base) + length (additions base changes)
  unfolding entries
  length-entries_overlay base changes depth size = omega (
    arith,
    length-append (changed changes (entries base)) (additions base changes),
    length-changed changes (entries base),
  )
