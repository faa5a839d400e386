-- ===== src/Tree/Resolve/Found.antt =====
-- What a path resolves to, of directories/tree.rs.
use opake.Base.{
  ◌≡◌, refl, ap, ◌⊎◌, inl, inr, Option, some, List, [], ◌∷◌, ◌++◌, Str, str_eq, get, Elem, arith,
  Option-cases,
}
use opake.Error.{not_found, message, Result, ok, >>=-ok, Result-cases}
use opake.Tree.{DirectoryInfo, DirectoryTree, EntryKind}
use opake.Tree.Resolve.{
  ResolvedPath, segments_of, first_named, find_child_directory, match_of, directory_matches,
  document_matches, find_child_any, walk_segments, resolve_path,
}
use opake.Tree.Resolve.Matches.{
  has_name_sound, first_named-some, Named, Fits, directory-Elem, Elem-directory, document-Elem,
  Elem-document, Elem-append, append-Elem, only_match-ok,
}

module _ (t : DirectoryTree) where
  -- The segments name directories, each a child of the one before.
  pub data Walks : Str → List Str → Str → Type 0 where
    here : {d : Str} → Walks d [] d
    child :
        {d c e segment : Str} {rest : List Str} {parent info : DirectoryInfo}
        → get t.directories d ≡ some parent
        → Elem c parent.entries
        → get t.directories c ≡ some info
        → info.name ≡ segment
        → Walks c rest e
        → Walks d (segment ∷ rest) e

  child-Walks :
      (d segment c e : Str) (rest : List Str)
      → find_child_directory t d segment ≡ ok c
      → Walks c rest e
      → Walks d (segment ∷ rest) e
  unfolding find_child_directory
  child-Walks d segment c e rest h w = elim (Option-cases (get t.directories d)) [
    | inl q ↦ absurd (ground (arith, q, h))
    | inr (parent, q) ↦ elim (Option-cases (first_named t parent.entries segment)) [
      | inl f ↦ absurd (ground (arith, q, f, h))
      | inr (x, f) ↦
          let same : x ≡ c = ground (arith, q, f, h) in
          let (m, r) = first_named-some t parent.entries segment x f in
          let (info, g, n) = has_name_sound t segment (get t.directories x) r in
          Walks.child q (rw same at m) (rw same at g) n w
    ]
  ]

  module _ (resolver : Str → Result (Option Str)) where
    -- The one child of a directory that has the name.
    pub record OnlyChild (d name : Str) (r : ResolvedPath) : Type 0 where
      pub parent : DirectoryInfo
      pub found : get t.directories d ≡ some parent
      pub fits : Fits t resolver d name parent.entries r
      pub only : (u : Str) → Elem u parent.entries → Named t resolver name u → u ≡ r.uri

    one_match-OnlyChild :
        (d name : Str) (parent : DirectoryInfo) (documents : List ResolvedPath) (r : ResolvedPath)
        → get t.directories d ≡ some parent
        → document_matches t resolver d name parent.entries ≡ ok documents
        → directory_matches t d name parent.entries ++ documents ≡ r ∷ []
        → OnlyChild d name r
    one_match-OnlyChild d name parent documents r g h one = record {
      parent = parent;
      found = g;
      fits =
          elim (Elem-append t resolver (directory_matches t d name parent.entries) documents r
            (rw one (inl refl))) [
              | inl e ↦ directory-Elem t resolver d name parent.entries r e
              | inr e ↦ document-Elem t resolver d name parent.entries documents r h e
            ];
      only = λ u e n. elim n [
        | inl q ↦
            uri_of (match_of t EntryKind.directory d name u)
              (inl (Elem-directory t resolver d name parent.entries u e q))
        | inr (q, a) ↦
            uri_of (match_of t EntryKind.document d name u)
              (inr (Elem-document t resolver d name parent.entries documents u h e q a))
      ];
    }
      where
        uri_of :
            (m : ResolvedPath)
            → Elem m (directory_matches t d name parent.entries) ⊎ Elem m documents
            → m.uri ≡ r.uri
        uri_of m e =
            elim (rw one at
              (append-Elem t resolver (directory_matches t d name parent.entries) documents m e)) [
                | inl q ↦ ap (λ (x : ResolvedPath). x.uri) q
                | inr x ↦ absurd x
              ]

    find_child_any-OnlyChild :
        (d name : Str) (r : ResolvedPath)
        → find_child_any t resolver d name ≡ ok r
        → OnlyChild d name r
    unfolding find_child_any
    find_child_any-OnlyChild d name r h = elim (Option-cases (get t.directories d)) [
      | inl q ↦ absurd (ground (arith, q, h))
      | inr (parent, q) ↦ elim (Result-cases (document_matches t resolver d name parent.entries)) [
        | inl (e, k) ↦ absurd (ground (arith, q, k, h))
        | inr (documents, k) ↦ one_match-OnlyChild d name parent documents r q k (
            only_match-ok t resolver
              (not_found
                (message "no document or directory named {name:?} in {}" (name ∷ parent.name ∷ [])))
              name (directory_matches t d name parent.entries ++ documents) r
              (ground (arith, q, k, h)))
      ]
    ]

    -- The path leads through directories to one, whose only child of the last name is the result.
    abbrev pub LeadsTo : Str → List Str → ResolvedPath → Type 0
    LeadsTo from segments r =
        (init : List Str) × (last : Str) × (d : Str) × (segments ≡ init ++ (last ∷ []))
        × Walks from init d
        × OnlyChild d last r

    walk_segments-LeadsTo :
        (from : Str) (segments : List Str) (r : ResolvedPath)
        → walk_segments t resolver from segments ≡ ok r
        → LeadsTo from segments r
    unfolding walk_segments
    walk_segments-LeadsTo from [] r h = absurd (ground (arith, h))
    walk_segments-LeadsTo from (last ∷ []) r h =
        ([], last, from, refl, Walks.here, find_child_any-OnlyChild from last r h)
    walk_segments-LeadsTo from (segment ∷ next ∷ rest) r h =
        let (c, a, h') =
          >>=-ok (find_child_directory t from segment)
            (λ child. walk_segments t resolver child (next ∷ rest)) h in
        let (init, last, d, same, w, o) = walk_segments-LeadsTo c (next ∷ rest) r h' in
        (
          segment ∷ init,
          last,
          d,
          ap (λ l. segment ∷ l) same,
          child-Walks from segment c d init a w,
          o,
        )

    -- A path that resolves leads from the root through directories, each a child of the one before
    -- and named by its segment, to a directory of which the result is the only child, directory or
    -- document, that has the last segment's name.
    pub resolve_path-LeadsTo :
        (path : Str) (r : ResolvedPath)
        → resolve_path t resolver path ≡ ok r
        → (root : Str) × (t.root_uri ≡ some root) × LeadsTo root (segments_of path) r
    unfolding resolve_path
    resolve_path-LeadsTo path r h = elim (Option-cases t.root_uri) [
      | inl q ↦ absurd (ground (arith, q, h))
      | inr (root, q) ↦
          (root, q, walk_segments-LeadsTo root (segments_of path) r (ground (arith, q, h)))
    ]
