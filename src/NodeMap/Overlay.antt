-- ===== src/NodeMap/Overlay.antt =====
-- `NodeMapOverlay` and `withMapChanges` of libs/tui/src/run-node-map.ts. Keys are texts.
use seqlane.Prelude.{
  ℕ, ◌+◌, String, Bool, ◌||◌, Option, List, [], ◌∷◌, ◌++◌, or_else, is_some, is_empty, length,
  if◌then◌else◌, leb, lookup, insert,
}

-- `MAX_OVERLAY_DEPTH`
abbrev pub max_overlay_depth : ℕ
max_overlay_depth = 128

-- A `Map`, or a `NodeMapOverlay` with its fields.
pub data NodeMap {ℓ} (V : Type ℓ) : Type ℓ where
  plain : List (String × V) → NodeMap V
  overlay : (base : NodeMap V) (changes : List (String × V)) (depth size : ℕ) → NodeMap V

module _ {ℓ} {V : Type ℓ} where
  abbrev pub depth_of : NodeMap V → ℕ
  depth_of (plain m) = 0
  depth_of (overlay base changes depth size) = depth

  abbrev pub size_of : NodeMap V → ℕ
  size_of (plain m) = length m
  size_of (overlay base changes depth size) = size

  unfoldable pub get : NodeMap V → String → Option V
  unfolding lookup
  get (plain m) key = lookup key m
  get (overlay base changes depth size) key =
      let under = get base key in if is_some (lookup key changes) then lookup key changes else under

  unfoldable pub has_key : NodeMap V → String → Bool
  unfolding lookup
  has_key (plain m) key = is_some (lookup key m)
  has_key (overlay base changes depth size) key = is_some (lookup key changes) || has_key base key

  -- `[key, this.changes.get(key) ?? value]` for each entry of the base.
  unfoldable pub changed : List (String × V) → List (String × V) → List (String × V)
  unfolding lookup
  changed changes [] = []
  changed changes ((key, value) ∷ rest) =
      (key, or_else (lookup key changes) value) ∷ changed changes rest

  -- The entries of the changes that the base does not have.
  unfoldable pub additions : NodeMap V → List (String × V) → List (String × V)
  unfolding has_key
  additions base [] = []
  additions base ((key, value) ∷ rest) =
      let others = additions base rest in if has_key base key then others else (key, value) ∷ others

  unfoldable pub entries : NodeMap V → List (String × V)
  unfolding changed additions
  entries (plain m) = m
  entries (overlay base changes depth size) =
      changed changes (entries base) ++ additions base changes

  -- The constructor.
  unfoldable pub new_overlay : NodeMap V → List (String × V) → NodeMap V
  unfolding additions
  new_overlay base changes =
      overlay base changes (depth_of base + 1) (size_of base + length (additions base changes))

  -- `compacted.set(key, value)` for each entry.
  unfoldable pub set_all : List (String × V) → List (String × V) → List (String × V)
  unfolding insert
  set_all [] m = m
  set_all ((key, value) ∷ rest) m = set_all rest (insert key value m)

  -- The overlays are applied to the base of all from the innermost one on.
  unfoldable pub flattened : NodeMap V → List (String × V)
  unfolding set_all
  flattened (plain m) = m
  flattened (overlay base changes depth size) = set_all changes (flattened base)

  unfoldable pub with_map_changes : NodeMap V → List (String × V) → NodeMap V
  unfolding set_all flattened new_overlay
  with_map_changes source changes =
      if is_empty changes
      then source
      else if leb max_overlay_depth (depth_of source)
      then plain (set_all changes (flattened source))
      else new_overlay source changes
