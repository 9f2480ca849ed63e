-- ===== src/Prelude/Decimal.antt =====
-- A number in a template literal, `${n}` for a natural number, and the length of a text, whose
-- characters count as one unit each (so in the basic multilingual plane).
use Prim.Native.Nat.{ℕ, zero, suc, ◌+◌, ◌/◌, ◌%◌}
use Prim.Native.String.{String, ◌++◌}
use mathlib.Core.List.{[], ◌∷◌}
use seqlane.Prelude.Tests.{if◌then◌else◌, ltb, or_else}
use seqlane.Prelude.Lists.{get_elem?}

digit : ℕ → String
digit d = or_else (get_elem? ("0" ∷ "1" ∷ "2" ∷ "3" ∷ "4" ∷ "5" ∷ "6" ∷ "7" ∷ "8" ∷ "9" ∷ []) d) ""

-- The fuel is above the number, so it is above the number of digits too.
decimal_digits : ℕ → ℕ → String
unfolding digit
decimal_digits zero n = ""
decimal_digits (suc fuel) n =
    let rest = decimal_digits fuel (n / 10) ++ digit (n % 10) in if ltb n 10 then digit n else rest

unfoldable pub decimal : ℕ → String
unfolding decimal_digits
decimal n = decimal_digits (n + 1) n

-- `text.length`
unfoldable pub text_length : String → ℕ
text_length String.[] = 0
text_length (String.◌∷◌ c s) = suc (text_length s)
