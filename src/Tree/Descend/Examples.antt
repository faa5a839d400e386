-- ===== src/Tree/Descend/Examples.antt =====
-- Walks down a tree with a cycle, and down one whose placeholder hides a directory.
use opake.Base.{
  ◌≡◌, ◌≢◌, ◌↔◌, refl, none, some, [], ◌∷◌, List, Str, codes, str_eq, str_beq, str_beq_iff, Elem,
  get, arith, inl,
}
use opake.Error.{ok}
use opake.Records.{corrupt}
use opake.Atproto.{parse_at_uri, parse_segments, strip_prefix, split_once}
use opake.Tree.{DirectoryTree, EntryKind, entry_kind_from_uri}
use opake.Tree.Fixtures.{small, root, album, nested, info}
use opake.Tree.Descend.{collect_descendants, check_cycle}
use opake.Tree.Descend.Within.{Within, listed, then_kept, Crosses, IsClear}
use opake.Tree.Descend.Cycle.{collect_descendants_total, check_cycle_exact}

differ : root ≢ album
differ = λ e. ground (arith, (str_beq_iff root album).1 e)

collect_descendants_total_example :
    (found : List (Str × EntryKind)) × (collect_descendants small album ≡ some found)
    × (Elem (root, EntryKind.directory) found ↔ IsClear small album root)
collect_descendants_total_example = collect_descendants_total small album root differ

abbrev deep : Str
deep = codes "at://d/at.opake.directory/c"

-- The directory between the album and the deep one is unreadable.
abbrev hiding : DirectoryTree
hiding = record {
  directories = (root, info (album ∷ [])) ∷ (album, info (nested ∷ [])) ∷ (deep, info []) ∷ [];
  placeholders = (nested, record { reason = corrupt; entries = deep ∷ [] }) ∷ [];
  root_uri = some root;
}

check_cycle_exact_example :
    (check_cycle hiding album deep ≢ none)
    × ((check_cycle hiding album deep ≡ some (ok tt))
        ↔ ((album ≢ deep) × ((path : Within hiding album deep) → Crosses hiding album deep path)))
check_cycle_exact_example = check_cycle_exact hiding album deep

-- The deep directory is below the album all the same.
deep-Within : Within hiding album deep
unfolding get str_beq entry_kind_from_uri parse_at_uri parse_segments strip_prefix split_once
deep-Within =
    then_kept nested deep (listed nested (info (nested ∷ []), refl, inl refl, refl))
      (record { reason = corrupt; entries = deep ∷ [] }, refl, refl, inl refl, refl)
