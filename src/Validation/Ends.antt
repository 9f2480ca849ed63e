-- ===== src/Validation/Ends.antt =====
-- `dependencyCycle` of plan-validation.ts ends within its fuel.
use seqlane.Prelude.{
  ℕ, ◌+◌, ◌≤◌, ◌<◌, String, ◌≡◌, ◌≢◌, refl, sym, ◌∙◌, subst, inl, inr, true, false, none, List, [],
  ◌∷◌, is_some, if◌then◌else◌, Bool-cases, lookup, insert, lookup-insert, ◌==◌, eq_iff, arith,
}
use seqlane.Validation.References.{NodesById, is_known}
use seqlane.Validation.Cycle.{Mark, Walk, Visit, starved, cycle, passed, visit_each}

-- The entries of nodes without a mark.
unfoldable pub unmarked : NodesById → List (String × Mark) → ℕ
unmarked [] marks = 0
unmarked ((id, n) ∷ nodes) marks =
    (if is_some (lookup id marks) then 0 else 1) + unmarked nodes marks

-- No mark is taken away.
abbrev pub Keeps : List (String × Mark) → List (String × Mark) → Type 0
Keeps old new = (v : String) → is_some (lookup v old) ≡ true → is_some (lookup v new) ≡ true

pub unmarked-Keeps :
    (nodes : NodesById) (old new : List (String × Mark))
    → Keeps old new
    → unmarked nodes new ≤ unmarked nodes old
unfolding unmarked
unmarked-Keeps [] old new k = omega arith
unmarked-Keeps ((id, n) ∷ nodes) old new k = ground (arith, k id, unmarked-Keeps nodes old new k)

pub insert-Keeps :
    (id : String) (m : Mark) (marks : List (String × Mark)) → Keeps marks (insert id m marks)
insert-Keeps id m marks v h = ground (arith, h, lookup-insert id v m marks)

pub unmarked-mark :
    (nodes : NodesById) (id : String) (m : Mark) (marks : List (String × Mark))
    → lookup id marks ≡ none
    → is_known nodes id ≡ true
    → unmarked nodes (insert id m marks) < unmarked nodes marks
unfolding unmarked is_known lookup
unmarked-mark [] id m marks e known = absurd (ground arith)
unmarked-mark ((k, n) ∷ nodes) id m marks e known = elim (Bool-cases (k == id)) [
  | inl same ↦
      let is : k ≡ id = (eq_iff k id).0 same in
      ground (
        arith,
        subst (λ z. lookup z marks ≡ none) (sym is) e,
        lookup-insert id k m marks,
        eq_iff id k,
        is,
        unmarked-Keeps nodes marks (insert id m marks) (insert-Keeps id m marks),
      )
  | inr other ↦ ground (
    arith,
    other,
    lookup-insert id k m marks,
    eq_iff id k,
    eq_iff k id,
    unmarked-mark nodes id m marks e (ground (arith, known, other)),
  )
]

-- A walk that goes on has kept the marks, and with few unmarked nodes it does not starve.
pub record Ends (nodes : NodesById) (bound : ℕ) (go : Walk → String → Visit) : Type 0 where
  pub keeps : (w w' : Walk) (d : String) → go w d ≡ passed w' → Keeps w.marks w'.marks
  pub fed :
      (w : Walk) (d : String)
      → unmarked nodes w.marks < bound
      → is_known nodes d ≡ true
      → go w d ≢ starved

abbrev on_each : NodesById → List String → (Walk → String → Visit) → Visit → Visit
on_each nodes ds go starved = starved
on_each nodes ds go (cycle c) = cycle c
on_each nodes ds go (passed w) = visit_each nodes w ds go

visit_each-known :
    (nodes : NodesById) (w : Walk) (d : String) (ds : List String) (go : Walk → String → Visit)
    → is_known nodes d ≡ true
    → visit_each nodes w (d ∷ ds) go ≡ on_each nodes ds go (go w d)
unfolding visit_each
visit_each-known nodes w d ds go known = by_visit (go w d) refl
  where
    by_visit :
        (v : Visit) → go w d ≡ v → visit_each nodes w (d ∷ ds) go ≡ on_each nodes ds go (go w d)
    by_visit starved f = ground (arith, f, known)
    by_visit (cycle c) f = ground (arith, f, known)
    by_visit (passed w₁) f = ground (arith, f, known)

visit_each-unknown :
    (nodes : NodesById) (w : Walk) (d : String) (ds : List String) (go : Walk → String → Visit)
    → is_known nodes d ≡ false
    → visit_each nodes w (d ∷ ds) go ≡ visit_each nodes w ds go
unfolding visit_each
visit_each-unknown nodes w d ds go unknown = ground (arith, unknown)

pub visit_each-Keeps :
    (nodes : NodesById) (bound : ℕ) (ds : List String) (w w' : Walk) (go : Walk → String → Visit)
    → Ends nodes bound go
    → visit_each nodes w ds go ≡ passed w'
    → Keeps w.marks w'.marks
unfolding visit_each
visit_each-Keeps nodes bound [] w w' go step e =
    let same : w ≡ w' = ground arith in subst (λ z. Keeps w.marks z.marks) same (λ v h. h)
visit_each-Keeps nodes bound (d ∷ ds) w w' go step e = elim (Bool-cases (is_known nodes d)) [
  | inl known ↦
      by_visit (go w d) refl (sym (visit_each-known nodes w d ds go known) ∙ e)
        (λ w₁. visit_each-Keeps nodes bound ds w₁ w' go step)
  | inr unknown ↦
      visit_each-Keeps nodes bound ds w w' go step
        (sym (visit_each-unknown nodes w d ds go unknown) ∙ e)
]
  where
    by_visit :
        (v : Visit)
        → go w d ≡ v
        → on_each nodes ds go v ≡ passed w'
        → ((w₁ : Walk) → visit_each nodes w₁ ds go ≡ passed w' → Keeps w₁.marks w'.marks)
        → Keeps w.marks w'.marks
    by_visit starved f g rest = absurd (cc)
    by_visit (cycle c) f g rest = absurd (cc)
    by_visit (passed w₁) f g rest = λ v h. rest w₁ g v (step.keeps w w₁ d f v h)

pub visit_each-fed :
    (nodes : NodesById) (bound : ℕ) (ds : List String) (w : Walk) (go : Walk → String → Visit)
    → Ends nodes bound go
    → unmarked nodes w.marks < bound
    → visit_each nodes w ds go ≢ starved
unfolding visit_each
visit_each-fed nodes bound [] w go step few = λ e. cc
visit_each-fed nodes bound (d ∷ ds) w go step few = elim (Bool-cases (is_known nodes d)) [
  | inl known ↦
      subst (λ z. z ≢ starved) (sym (visit_each-known nodes w d ds go known))
        (by_visit known (go w d) refl (λ w₁. visit_each-fed nodes bound ds w₁ go step))
  | inr unknown ↦
      subst (λ z. z ≢ starved) (sym (visit_each-unknown nodes w d ds go unknown))
        (visit_each-fed nodes bound ds w go step few)
]
  where
    by_visit :
        is_known nodes d ≡ true
        → (v : Visit) → go w d ≡ v
        → ((w₁ : Walk) → unmarked nodes w₁.marks < bound → visit_each nodes w₁ ds go ≢ starved)
        → on_each nodes ds go v ≢ starved
    by_visit known starved f rest = absurd (step.fed w d few known f)
    by_visit known (cycle c) f rest = λ e. cc
    by_visit known (passed w₁) f rest =
        rest w₁ (omega (arith, few, unmarked-Keeps nodes w.marks w₁.marks (step.keeps w w₁ d f)))
