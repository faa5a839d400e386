-- ===== src/Tree/Roots/Examples.antt =====
-- A root that one record supersedes.
use opake.Base.{ℕ, suc, ◌≡◌, ◌⊎◌, none, some, [], ◌∷◌, Str, length}
use opake.Tree.{DirectoryTree}
use opake.Tree.Fixtures.{album, root, info}
use opake.Tree.Roots.{set_root}
use opake.Tree.Roots.Forward.{IsNext, Forward, set_root-Forward}

abbrev superseded : DirectoryTree
superseded = record {
  directories =
      (root, info [])
      ∷ (album, record (info []) { supersedes_uri = some root; lineage = some root })
      ∷ [];
  placeholders = [];
  root_uri = none;
}

set_root-Forward_example :
    (head : Str) × (k : ℕ) × ((set_root superseded root).root_uri ≡ some head)
    × Forward superseded.directories head k root
    × (((next : Str) → IsNext superseded.directories head next → ⊥)
        ⊎ (k ≡ suc (length superseded.directories)))
set_root-Forward_example = set_root-Forward superseded root
