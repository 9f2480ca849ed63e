-- ===== src/NodeMap/Tests.antt =====
-- Maps of run-node-map.ts with changes, and the theorem at one.
use seqlane.Prelude.{ℕ, String, ◌≡◌, refl, List, [], ◌∷◌}
use seqlane.NodeMap.Overlay.{plain, size_of, entries, with_map_changes}

abbrev old : List (String × ℕ)
old = ("a", 1) ∷ ("b", 2) ∷ []

abbrev changes : List (String × ℕ)
changes = ("b", 3) ∷ ("c", 4) ∷ []

entries_in_order :
    entries (with_map_changes (plain old) changes) ≡ ("a", 1) ∷ ("b", 3) ∷ ("c", 4) ∷ []
unfolding entries with_map_changes
entries_in_order = refl

size_grows : size_of (with_map_changes (plain old) changes) ≡ 3
unfolding with_map_changes
size_grows = refl
