-- ===== src/Tree/Apply/Examples.antt =====
-- Changes of a small tree.
use opake.Base.{
  ◌≡◌, refl, true, false, ◌&&◌, ◌||◌, not, Option, none, some, [], ◌∷◌, Str, codes, ◌==◌, str_eq,
  str_beq, option_eq, is_some, unwrap_or, map, get, contains_key, if◌then◌else◌, arith,
}
use opake.Records.{Directory, UnreadableRef, corrupt}
use opake.Tree.{
  DirectoryInfo, TreeChange, IsWellFormed, entries_for, is_directory, is_placeholder, is_effective,
  has_self_rkey, info_of,
}
use opake.Tree.Roots.{edge_counts, is_successor}
use opake.Tree.Fixtures.{small, root, album, record_of}
use opake.Tree.Apply.{apply_directory_delete, apply_unreadable_ref, apply_directory_delta}
use opake.Tree.Apply.Placeholders.{is_visible, apply_unreadable_ref_exact}
use opake.Tree.Apply.Deltas.{apply_directory_delta_exact, apply_directory_delete_exact}
use opake.Tree.Apply.Lineage.{apply_directory_delta-root, delta_ignores_lineage}

abbrev no_name : Str → DirectoryInfo → Option Str
no_name uri info = none

abbrev other : Str
other = codes "at://e/at.opake.directory/x"

-- It names the root as its predecessor and another chain as its lineage.
abbrev flipped : Directory
flipped = record_of (some root) (some other) (album ∷ [])

abbrev unreadable : UnreadableRef
unreadable = record { uri = some album; reason = corrupt }

small-IsWellFormed : IsWellFormed small
unfolding get
small-IsWellFormed = record { disjoint = λ u. ground arith }

apply_directory_delta_exact_example :
    ((u : Str)
      → entries_for (apply_directory_delta no_name small other flipped).0 u
        ≡ (if other == u then some (map (λ e. e.target) flipped.entries) else entries_for small u))
    × (contains_key (apply_directory_delta no_name small other flipped).0.directories other ≡ true)
    × (is_placeholder (apply_directory_delta no_name small other flipped).0 other ≡ false)
    × ((apply_directory_delta no_name small other flipped).1 ≡ (
        if contains_key small.directories other
        then TreeChange.updated other
        else TreeChange.inserted other))
apply_directory_delta_exact_example = apply_directory_delta_exact no_name small other flipped

apply_directory_delete_exact_example :
    ((u : Str)
      → entries_for (apply_directory_delete small album).0 u
        ≡ (if album == u then none else entries_for small u))
    × ((apply_directory_delete small album).0.root_uri ≡ (
        if is_directory small album && small.root_uri == some album then none else small.root_uri))
    × (is_effective (apply_directory_delete small album).1 ≡ is_directory small album)
apply_directory_delete_exact_example = apply_directory_delete_exact small album

apply_unreadable_ref_exact_example :
    ((apply_unreadable_ref small unreadable).1 ≡ is_visible small album)
    × ((u : Str)
        → entries_for (apply_unreadable_ref small unreadable).0 u ≡ (
            if is_visible small album && album == u
            then some (unwrap_or (entries_for small album) [])
            else entries_for small u))
    × ((u : Str)
        → contains_key (apply_unreadable_ref small unreadable).0.directories u
          ≡ (contains_key small.directories u && not (is_visible small album && album == u)))
    × ((apply_unreadable_ref small unreadable).0.root_uri ≡ small.root_uri)
apply_unreadable_ref_exact_example = apply_unreadable_ref_exact small unreadable album refl

apply_directory_delta-root_example :
    (apply_directory_delta no_name small other flipped).0.root_uri ≡ (
      if (is_some flipped.supersedes && small.root_uri == flipped.supersedes)
        || (not (is_some small.root_uri) && (flipped.is_workspace_root || has_self_rkey other))
      then some other
      else small.root_uri)
apply_directory_delta-root_example = apply_directory_delta-root no_name small other flipped

edge_refused : edge_counts small.directories other (info_of flipped) root ≡ false
unfolding edge_counts info_of get str_beq
edge_refused = refl

delta_ignores_lineage_example :
    ((apply_directory_delta no_name small other flipped).0.root_uri ≡ some other)
    × (is_successor small.directories root (other, info_of flipped) ≡ false)
delta_ignores_lineage_example =
    delta_ignores_lineage no_name small other flipped root refl refl edge_refused
