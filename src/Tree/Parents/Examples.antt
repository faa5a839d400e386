-- ===== src/Tree/Parents/Examples.antt =====
-- The parent of a directory and the way up to the root.
use opake.Base.{ℕ, suc, ◌≤◌, ◌≡◌, ◌↔◌, true, some, Str, length}
use opake.Tree.Fixtures.{small, nested}
use opake.Tree.Parents.{find_parent, is_reachable_from_root}
use opake.Tree.Parents.Reachable.{
  FoundParent, find_parent-FoundParent, Ancestry, is_reachable_from_root_iff,
}

find_parent-FoundParent_example : FoundParent small nested (find_parent small nested)
find_parent-FoundParent_example = find_parent-FoundParent small nested

is_reachable_from_root_iff_example : (is_reachable_from_root small nested ≡ true) ↔ (
    (r : Str) × (k : ℕ) × (small.root_uri ≡ some r)
    × (k ≤ suc (length small.directories))
    × Ancestry small r k nested)
is_reachable_from_root_iff_example = is_reachable_from_root_iff small nested
