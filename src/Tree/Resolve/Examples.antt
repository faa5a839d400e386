-- ===== src/Tree/Resolve/Examples.antt =====
-- A path in the small tree.
use opake.Base.{
  ◌≡◌, refl, Option, none, some, List, [], ◌∷◌, Str, codes, str_eq, str_beq, nat_eq, get,
}
use opake.Error.{Result, ok}
use opake.Atproto.{parse_at_uri, parse_segments, strip_prefix, split_once}
use opake.Tree.{DirectoryTree, DirectoryInfo, EntryKind, entry_kind_from_uri}
use opake.Tree.Fixtures.{info, root, album, nested}
use opake.Tree.Resolve.{
  ResolvedPath, segments_of, split_slashes, find_child_directory, find_child_any, document_matches,
  walk_segments, resolve_path,
}
use opake.Tree.Resolve.Found.{LeadsTo, resolve_path-LeadsTo}

abbrev called : Str → List Str → DirectoryInfo
called name entries = record (info entries) { name = name }

abbrev named_tree : DirectoryTree
named_tree = record {
  directories =
      (root, called (codes "/") (album ∷ []))
      ∷ (album, called (codes "al") (nested ∷ []))
      ∷ (nested, called (codes "ne") [])
      ∷ [];
  placeholders = [];
  root_uri = some root;
}

abbrev silent : Str → Result (Option Str)
silent uri = ok none

abbrev at_nested : ResolvedPath
at_nested = record {
  uri = nested;
  kind = EntryKind.directory;
  name = codes "ne";
  parent_uri = some album;
}

resolved : resolve_path named_tree silent (codes "al//ne") ≡ ok at_nested
unfolding resolve_path segments_of split_slashes walk_segments find_child_directory find_child_any
    document_matches get str_beq entry_kind_from_uri parse_at_uri parse_segments strip_prefix
    split_once
resolved = refl

resolve_path-LeadsTo_example :
    (r : Str) × (named_tree.root_uri ≡ some r)
    × LeadsTo named_tree silent r (segments_of (codes "al//ne")) at_nested
resolve_path-LeadsTo_example =
    resolve_path-LeadsTo named_tree silent (codes "al//ne") at_nested resolved
