-- ===== src/Binding/Json.antt =====
-- The values of libs/core/src/bindings.ts and libs/runtime/src/runtime/plan/binding-resolution.ts:
-- JSON values and undefined, as bindings, workflow inputs and results are. An object is the list of
-- its entries in the order of `Object.entries`. A number is its literal, as `String(n)` prints it. The
-- characters of a text count as one unit each, which holds in the basic multilingual plane.
use seqlane.Prelude.{
  ℕ, suc, ◌+◌, String, Bool, true, ◌&&◌, ◌||◌, Option, none, some, List, [], ◌∷◌, if◌then◌else◌,
  holds_name, decimal, text_length, ◌==◌,
}

mutual
  pub data Json : Type 0 where
    undefined null : Json
    boolean : Bool → Json
    number : (literal : String) → Json
    string : String → Json
    array : Elements → Json
    object : Entries → Json

  pub data Elements : Type 0 where
    last : Elements
    element : Json → Elements → Elements

  pub data Entries : Type 0 where
    empty : Entries
    entry : (key : String) → Json → Entries → Entries

-- `ValueRef`, without its tag.
pub record ValueRef : Type 0 where
  pub node_id : String
  pub path : List String

-- The value at a key of an object.
unfoldable pub value_at : String → Entries → Option Json
value_at key empty = none
value_at key (entry k v rest) = if k == key then some v else value_at key rest

count : Elements → ℕ
count last = 0
count (element v vs) = suc (count vs)

-- The element of an array whose index is written as the segment; the first has the index `i`.
element_at : ℕ → Elements → String → Option Json
element_at i last segment = none
element_at i (element v vs) segment =
    let later = element_at (i + 1) vs segment in if decimal i == segment then some v else later

unit_at : ℕ → String → String → Option Json
unit_at i String.[] segment = none
unit_at i (String.◌∷◌ c s) segment =
    let later = unit_at (i + 1) s segment in
    if decimal i == segment then some (string (String.◌∷◌ c String.[])) else later

-- `hasOwnProperty.call(Object(current), segment)` and `current[segment]`
unfoldable pub own_property : Json → String → Option Json
unfolding value_at count element_at text_length unit_at
own_property undefined segment = none
own_property null segment = none
own_property (boolean b) segment = none
own_property (number n) segment = none
own_property (string s) segment =
    if segment == "length" then some (number (decimal (text_length s))) else unit_at 0 s segment
own_property (array vs) segment =
    if segment == "length" then some (number (decimal (count vs))) else element_at 0 vs segment
own_property (object es) segment = value_at segment es

abbrev pub as_text : Option Json → Option String
as_text (some (string s)) = some s
as_text _ = none

abbrev pub texts_cons : Option String → Option (List String) → Option (List String)
texts_cons (some s) (some ss) = some (s ∷ ss)
texts_cons _ _ = none

-- `z.array(z.string())`
abbrev pub texts : Elements → Option (List String)
texts last = some []
texts (element v vs) = texts_cons (as_text (some v)) (texts vs)

abbrev pub as_texts : Option Json → Option (List String)
as_texts (some (array vs)) = texts vs
as_texts _ = none

-- A strict object has no other keys.
unfoldable pub only_ref_keys : Entries → Bool
only_ref_keys empty = true
only_ref_keys (entry key v rest) =
    (key == "type" || key == "nodeId" || key == "path") && only_ref_keys rest

abbrev pub ref_from : Option String → Option (List String) → Option ValueRef
ref_from (some node_id) (some path) =
    if node_id == "" then none else some (record { node_id = node_id; path = path })
ref_from _ _ = none

-- `valueRefSchema.safeParse` of an object; every other value fails.
unfoldable pub parse_ref : Entries → Option ValueRef
unfolding only_ref_keys value_at
parse_ref es =
    if only_ref_keys es && holds_name (as_text (value_at "type" es)) "ref"
    then ref_from (as_text (value_at "nodeId" es)) (as_texts (value_at "path" es))
    else none
