-- ===== src/NodeMap/Refined.antt =====
-- A map of run-node-map.ts is a function from keys to values, and `withMapChanges` overwrites it.
use seqlane.Prelude.{◌≤◌, String, ◌≡◌, Option, List, or_option, is_some, length, lookup, Distinct}
use seqlane.NodeMap.Overlay.{NodeMap, max_overlay_depth, depth_of, size_of, get, has_key, entries}
use seqlane.NodeMap.Layers.{keys, IsLayered}

module _ {ℓ} {V : Type ℓ} where
  -- The map stands for the function: its operations agree with it, each key has one entry, the size is
  -- the number of entries, and the overlays are not too deep.
  pub record Represents (m : NodeMap V) (f : String → Option V) : Type ℓ where
    pub layered : IsLayered m
    pub gets : (key : String) → get m key ≡ f key
    pub knows : (key : String) → has_key m key ≡ is_some (f key)
    pub lists : (key : String) → lookup key (entries m) ≡ f key
    pub distinct : Distinct (keys (entries m))
    pub sized : size_of m ≡ length (entries m)
    pub shallow : depth_of m ≤ max_overlay_depth

  -- The function with the changes.
  abbrev pub overwrite : (String → Option V) → List (String × V) → String → Option V
  overwrite f changes key = or_option (lookup key changes) (f key)
