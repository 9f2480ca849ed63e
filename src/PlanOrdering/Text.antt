-- ===== src/PlanOrdering/Text.antt =====
-- The comparison `<` of texts in JavaScript, which compares UTF-16 code units.
use Prim.Native.Nat.{Ordering, compare}
use Prim.Native.Char.{Char, code}
use Prim.Native.String.{[], ◌∷◌}
use seqlane.Prelude.{ℕ, ◌+◌, String, Bool, true, false, ◌&&◌, if◌then◌else◌, leb}

-- The order of a character among the others. Those from U+E000 to U+FFFF stand behind the ones that
-- take two code units, whose first unit is at most U+DBFF.
unfoldable pub unit_rank : Char → ℕ
unit_rank c = if leb 57344 (code c) && leb (code c) 65535 then code c + 1114112 else code c

-- `left < right`
unfoldable pub text_lt : String → String → Bool
unfolding unit_rank
text_lt [] [] = false
text_lt [] (d ∷ t) = true
text_lt (c ∷ s) [] = false
text_lt (c ∷ s) (d ∷ t) = elim (compare (unit_rank c) (unit_rank d)) [
  | Ordering.lt ↦ true
  | Ordering.eq ↦ text_lt s t
  | Ordering.gt ↦ false
]
