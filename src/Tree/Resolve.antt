-- ===== src/Tree/Resolve.antt =====
-- The resolution of a reference in directories/tree.rs: a URI, a path or a bare name. The names of
-- documents come from the argument `resolver`, asked by URI. A `HashMap` is read in its order.
pub mod Matches
pub mod Found
mod Examples
use opake.Base.{
  ℕ, suc, Bool, true, false, ◌&&◌, not, Option, none, some, List, [], ◌∷◌, ◌++◌, Str, codes, ◌==◌,
  str_eq, nat_eq, option_eq, all, is_empty, is_some, length, keep, map, Map, get, if◌then◌else◌,
}
use opake.Error.{Error, Result, ok, err, ◌>>=◌, not_found, invalid_record, ambiguous_name, message}
use opake.Atproto.{AtUri, strip_prefix, parse_at_uri}
use opake.Tree.{
  DirectoryInfo, DirectoryTree, EntryKind, entry_kind_from_uri, document_collection,
  root_directory_name,
}
use opake.Tree.Parents.{find_parent}

pub record ResolvedPath : Type 0 where
  pub uri : Str
  pub kind : EntryKind
  pub name : Str
  pub parent_uri : Option Str

-- Rust's `split('/')`: the parts between the slashes, empty ones included.
unfoldable pub split_slashes : Str → List Str
split_slashes [] = [] ∷ []
split_slashes (c ∷ s) = elim (c == b'/') [
  | true ↦ [] ∷ split_slashes s
  | false ↦ elim (split_slashes s) [ [] ↦ (c ∷ []) ∷ [] | part ∷ parts ↦ (c ∷ part) ∷ parts ]
]

unfoldable pub segments_of : Str → List Str
segments_of path = keep (λ s. not (is_empty s)) (split_slashes path)

abbrev is_root_reference : Str → Bool
is_root_reference s = all (λ c. c == b'/') s && not (is_empty s)

abbrev no_root : Error
no_root = not_found (message "no root directory — run `opake mkdir` first" [])

abbrev at_root : Option Str → Result ResolvedPath
at_root none = err no_root
at_root (some root) = ok (record {
  uri = root;
  kind = EntryKind.directory;
  name = root_directory_name;
  parent_uri = none;
})

-- A directory of the name.
abbrev pub has_name : Str → Option DirectoryInfo → Bool
has_name name none = false
has_name name (some info) = info.name == name

abbrev ambiguous : Str → List ResolvedPath → Error
ambiguous name matches = ambiguous_name name (length matches) (map (λ r. r.uri) matches)

-- One match is the answer.
abbrev pub only_match : Error → Str → List ResolvedPath → Result ResolvedPath
only_match e name [] = err e
only_match e name (r ∷ []) = ok r
only_match e name (r ∷ q ∷ rest) = err (ambiguous name (r ∷ q ∷ rest))

module _ (t : DirectoryTree) where
  abbrev pub first_named : List Str → Str → Option Str
  first_named [] name = none
  first_named (uri ∷ uris) name =
      if has_name name (get t.directories uri) then some uri else first_named uris name

  unfoldable pub find_child_directory : Str → Str → Result Str
  find_child_directory parent_uri name = elim (get t.directories parent_uri) [
    | none ↦ err (not_found (message "directory not found: {parent_uri}" (parent_uri ∷ [])))
    | some parent ↦ elim (first_named parent.entries name) [
      | none ↦
          err (not_found (message "no directory named {name:?} in {}" (name ∷ parent.name ∷ [])))
      | some uri ↦ ok uri
    ]
  ]

  unfoldable pub has_child_directory : Str → Str → Bool
  has_child_directory parent_uri name = elim (get t.directories parent_uri) [
    | none ↦ false
    | some parent ↦ is_some (first_named parent.entries name)
  ]

  abbrev pub match_of : EntryKind → Str → Str → Str → ResolvedPath
  match_of kind parent_uri name uri = record {
    uri = uri;
    kind = kind;
    name = name;
    parent_uri = some parent_uri;
  }

  abbrev pub directory_matches : Str → Str → List Str → List ResolvedPath
  directory_matches parent_uri name [] = []
  directory_matches parent_uri name (uri ∷ uris) =
      let rest = directory_matches parent_uri name uris in
      if has_name name (get t.directories uri)
      then match_of EntryKind.directory parent_uri name uri ∷ rest
      else rest

  -- Without a root only directories are searched.
  abbrev anywhere : Str → Map Str DirectoryInfo → List ResolvedPath
  anywhere name [] = []
  anywhere name ((uri, info) ∷ m) =
      let rest = anywhere name m in
      if info.name == name
      then record {
        uri = uri;
        kind = EntryKind.directory;
        name = name;
        parent_uri = find_parent t uri;
      }
        ∷ rest
      else rest

  module _ (resolver : Str → Result (Option Str)) where
    abbrev is_document : Str → Bool
    is_document uri = elim (entry_kind_from_uri uri) [
      | none ↦ false
      | some EntryKind.document ↦ true
      | some EntryKind.directory ↦ false
    ]

    abbrev pub named_so : Str → Option Str → Bool
    named_so name none = false
    named_so name (some n) = n == name

    -- An error of the resolver ends the search.
    unfoldable pub document_matches : Str → Str → List Str → Result (List ResolvedPath)
    document_matches parent_uri name [] = ok []
    document_matches parent_uri name (uri ∷ uris) = elim (is_document uri) [
      | false ↦ document_matches parent_uri name uris
      | true ↦ resolver uri >>= λ answer. document_matches parent_uri name uris >>= λ rest. ok (
          if named_so name answer
          then match_of EntryKind.document parent_uri name uri ∷ rest
          else rest)
    ]

    unfoldable pub find_child_any : Str → Str → Result ResolvedPath
    find_child_any parent_uri name = elim (get t.directories parent_uri) [
      | none ↦ err (not_found (message "directory not found: {parent_uri}" (parent_uri ∷ [])))
      | some parent ↦ document_matches parent_uri name parent.entries >>= λ documents.
          only_match
            (not_found
              (message "no document or directory named {name:?} in {}" (name ∷ parent.name ∷ [])))
            name (directory_matches parent_uri name parent.entries ++ documents)
    ]

    -- All segments but the last are directories.
    unfoldable pub walk_segments : Str → List Str → Result ResolvedPath
    walk_segments current [] = err (invalid_record (message "empty path" []))
    walk_segments current (last ∷ []) = find_child_any current last
    walk_segments current (segment ∷ next ∷ rest) =
        find_child_directory current segment >>= λ child. walk_segments child (next ∷ rest)

    unfoldable pub resolve_path : Str → Result ResolvedPath
    resolve_path path = elim t.root_uri [
      | none ↦ err no_root
      | some root ↦ walk_segments root (segments_of path)
    ]

    unfoldable pub resolve_bare_name : Str → Result ResolvedPath
    resolve_bare_name name = elim t.root_uri [
      | some root ↦ find_child_any root name
      | none ↦
          only_match
            (not_found (
              message "no document or directory named {name:?} — use `opake ls` to see your files"
                (name ∷ [])))
            name (anywhere name t.directories)
    ]

    abbrev document_uri : Str → AtUri → Result ResolvedPath
    document_uri reference u =
        if u.collection == document_collection
        then ok (record {
          uri = reference;
          kind = EntryKind.document;
          name = u.rkey;
          parent_uri = find_parent t reference;
        })
        else err (not_found (message "URI not found: {reference}" (reference ∷ [])))

    abbrev resolve_uri : Str → Result ResolvedPath
    resolve_uri reference = elim (get t.directories reference) [
      | some info ↦ ok (record {
        uri = reference;
        kind = EntryKind.directory;
        name = info.name;
        parent_uri = find_parent t reference;
      })
      | none ↦ parse_at_uri reference >>= document_uri reference
    ]

    unfoldable pub resolve : Str → Result ResolvedPath
    resolve reference =
        if is_some (strip_prefix (codes "at://") reference)
        then resolve_uri reference
        else if is_root_reference reference
        then at_root t.root_uri
        else if not (all (λ c. not (c == b'/')) reference)
        then resolve_path reference
        else resolve_bare_name reference

  -- The last directory and the one before it.
  unfoldable pub walk_directories : Str → Option Str → List Str → Result (Str × Option Str)
  walk_directories current parent [] = ok (current, parent)
  walk_directories current parent (segment ∷ rest) =
      find_child_directory current segment >>= λ child. walk_directories child (some current) rest

  abbrev directory_at : Str × Option Str → Result ResolvedPath
  directory_at (current, parent) = ok (record {
    uri = current;
    kind = EntryKind.directory;
    name = elim (get t.directories current) [ none ↦ codes "?" | some d ↦ d.name ];
    parent_uri = parent;
  })

  abbrev by_segments : Str → List Str → Result ResolvedPath
  by_segments root [] = err (invalid_record (message "empty path" []))
  by_segments root (s ∷ segments) = walk_directories root none (s ∷ segments) >>= directory_at

  abbrev directory_by_uri : Str → Result ResolvedPath
  directory_by_uri path = elim (get t.directories path) [
    | none ↦ err (not_found (message "directory not found: {path}" (path ∷ [])))
    | some info ↦ ok (record {
      uri = path;
      kind = EntryKind.directory;
      name = info.name;
      parent_uri = find_parent t path;
    })
  ]

  unfoldable pub resolve_directory : Str → Result ResolvedPath
  resolve_directory path =
      if is_root_reference path
      then at_root t.root_uri
      else if is_some (strip_prefix (codes "at://") path)
      then directory_by_uri path
      else elim t.root_uri [ none ↦ err no_root | some root ↦ by_segments root (segments_of path) ]
