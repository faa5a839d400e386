-- ===== src/Tree/Resolve/Matches.antt =====
-- The children of a name that the resolution in directories/tree.rs collects.
use opake.Base.{
  ◌≡◌, refl, sym, ◌⊎◌, inl, inr, true, false, Option, none, some, List, [], ◌∷◌, ◌++◌, Str, ◌==◌,
  str_eq, str_beq_iff, get, Elem, arith, Bool-cases, if◌then◌else◌,
}
use opake.Error.{Error, Result, ok, ◌>>=◌, >>=-ok}
use opake.Tree.{DirectoryInfo, DirectoryTree, EntryKind}
use opake.Tree.Resolve.{
  ResolvedPath, has_name, only_match, first_named, match_of, directory_matches, is_document,
  named_so, document_matches,
}

module _ (t : DirectoryTree) where
  pub has_name_sound :
      (name : Str) (o : Option DirectoryInfo)
      → has_name name o ≡ true
      → (info : DirectoryInfo) × (o ≡ some info) × (info.name ≡ name)
  has_name_sound name none h = absurd (ground (arith, h))
  has_name_sound name (some info) h = (info, refl, (str_beq_iff info.name name).0 h)

  has_name_complete :
      (name : Str) (o : Option DirectoryInfo) (info : DirectoryInfo)
      → o ≡ some info
      → info.name ≡ name
      → has_name name o ≡ true
  has_name_complete name none info g n = absurd (ground (arith, g))
  has_name_complete name (some i) info g n = ground (arith, g, n, str_beq_iff i.name name)

  pub first_named-some :
      (uris : List Str) (name c : Str)
      → first_named t uris name ≡ some c
      → Elem c uris × (has_name name (get t.directories c) ≡ true)
  first_named-some [] name c h = cc h
  first_named-some (u ∷ uris) name c h = elim (Bool-cases (has_name name (get t.directories u))) [
    | inr q ↦ let (m, r) = first_named-some uris name c (ground (arith, q, h)) in (inr m, r)
    | inl q ↦ let same : u ≡ c = ground (arith, q, h) in (inl (sym same), rw same at q)
  ]

  module _ (resolver : Str → Result (Option Str)) where
    -- A child of the name: a directory so named, or a document that the resolver names so.
    abbrev pub Named : Str → Str → Type 0
    Named name u =
        (has_name name (get t.directories u) ≡ true)
        ⊎ ((is_document t resolver u ≡ true) × (resolver u ≡ ok (some name)))

    -- A match: one of the entries, of the name, in the directory.
    abbrev pub Fits : Str → Str → List Str → ResolvedPath → Type 0
    Fits p name uris m =
        Elem m.uri uris × Named name m.uri × (m.parent_uri ≡ some p) × (m.name ≡ name)

    later-Fits :
        (p name u : Str) (uris : List Str) (m : ResolvedPath)
        → Fits p name uris m
        → Fits p name (u ∷ uris) m
    later-Fits p name u uris m (e, n, q, r) = (inr e, n, q, r)

    pub directory-Elem :
        (p name : Str) (uris : List Str) (m : ResolvedPath)
        → Elem m (directory_matches t p name uris)
        → Fits p name uris m
    directory-Elem p name [] m h = absurd h
    directory-Elem p name (u ∷ uris) m h = elim (Bool-cases (has_name name (get t.directories u))) [
      | inr q ↦ later-Fits p name u uris m (directory-Elem p name uris m (rw q at h))
      | inl q ↦ elim (rw q at h) [
        | inl same ↦ rw same (inl refl, inl q, refl, refl)
        | inr rest ↦ later-Fits p name u uris m (directory-Elem p name uris m rest)
      ]
    ]

    pub Elem-directory :
        (p name : Str) (uris : List Str) (u : Str)
        → Elem u uris
        → has_name name (get t.directories u) ≡ true
        → Elem (match_of t EntryKind.directory p name u) (directory_matches t p name uris)
    Elem-directory p name [] u e g = absurd e
    Elem-directory p name (v ∷ uris) u (inl same) g = rw (same, rw same at g) (inl refl)
    Elem-directory p name (v ∷ uris) u (inr e) g =
        elim (Bool-cases (has_name name (get t.directories v))) [
          | inl q ↦ rw q (inr (Elem-directory p name uris u e g))
          | inr q ↦ rw q (Elem-directory p name uris u e g)
        ]

    abbrev kept_match : Str → Str → Str → Option Str → List ResolvedPath → List ResolvedPath
    kept_match p name u answer rest =
        if named_so t resolver name answer
        then match_of t EntryKind.document p name u ∷ rest
        else rest

    -- One entry of the search of documents: passed over, or asked.
    abbrev Asked : Str → Str → Str → List Str → List ResolvedPath → Type 0
    Asked p name u uris ms =
        (answer : Option Str) × (rest : List ResolvedPath) × (resolver u ≡ ok answer)
        × (document_matches t resolver p name uris ≡ ok rest)
        × (ms ≡ kept_match p name u answer rest)

    document_step :
        (p name u : Str) (uris : List Str) (ms : List ResolvedPath)
        → document_matches t resolver p name (u ∷ uris) ≡ ok ms
        → ((is_document t resolver u ≡ false) × (document_matches t resolver p name uris ≡ ok ms))
          ⊎ ((is_document t resolver u ≡ true) × Asked p name u uris ms)
    unfolding document_matches
    document_step p name u uris ms h = elim (Bool-cases (is_document t resolver u)) [
      | inr q ↦ inl (q, rw (q, document_matches) at h)
      | inl q ↦
          let (answer, a, h') =
            >>=-ok (resolver u)
              (λ answer. document_matches t resolver p name uris >>= λ rest.
                ok (kept_match p name u answer rest))
              (rw (q, document_matches) at h) in
          let (rest, b, h'') =
            >>=-ok (document_matches t resolver p name uris)
              (λ rest. ok (kept_match p name u answer rest)) h' in
          inr (q, (answer, rest, a, b, ground (arith, h'')))
    ]

    asked-Fits :
        (p name u : Str) (uris : List Str) (rest : List ResolvedPath) (m : ResolvedPath)
        (answer : Option Str)
        → is_document t resolver u ≡ true
        → resolver u ≡ ok answer
        → (Elem m rest → Fits p name uris m)
        → Elem m (kept_match p name u answer rest)
        → Fits p name (u ∷ uris) m
    asked-Fits p name u uris rest m none q a later e = later-Fits p name u uris m (later e)
    asked-Fits p name u uris rest m (some n) q a later e = elim (Bool-cases (n == name)) [
      | inr d ↦ later-Fits p name u uris m (later (rw d at e))
      | inl d ↦ elim (rw d at e) [
        | inr e' ↦ later-Fits p name u uris m (later e')
        | inl same ↦
            rw same (inl refl, inr (q, ground (arith, a, (str_beq_iff n name).0 d)), refl, refl)
      ]
    ]

    kept-Elem :
        (p name u : Str) (answer : Option Str) (rest : List ResolvedPath) (m : ResolvedPath)
        → Elem m rest
        → Elem m (kept_match p name u answer rest)
    kept-Elem p name u answer rest m e = elim (Bool-cases (named_so t resolver name answer)) [
      | inl q ↦ rw q (inr e)
      | inr q ↦ rw q e
    ]

    pub document-Elem :
        (p name : Str) (uris : List Str) (ms : List ResolvedPath) (m : ResolvedPath)
        → document_matches t resolver p name uris ≡ ok ms
        → Elem m ms
        → Fits p name uris m
    unfolding document_matches
    document-Elem p name [] ms m h e = absurd (ground (arith, h, e))
    document-Elem p name (u ∷ uris) ms m h e = elim (document_step p name u uris ms h) [
      | inl (q, h') ↦ later-Fits p name u uris m (document-Elem p name uris ms m h' e)
      | inr (q, (answer, rest, a, b, same)) ↦
          asked-Fits p name u uris rest m answer q a (document-Elem p name uris rest m b)
            (rw same at e)
    ]

    pub Elem-document :
        (p name : Str) (uris : List Str) (ms : List ResolvedPath) (u : Str)
        → document_matches t resolver p name uris ≡ ok ms
        → Elem u uris
        → is_document t resolver u ≡ true
        → resolver u ≡ ok (some name)
        → Elem (match_of t EntryKind.document p name u) ms
    unfolding document_matches
    Elem-document p name [] ms u h e d r = absurd e
    Elem-document p name (v ∷ uris) ms u h e d r = elim (document_step p name v uris ms h) [
      | inl (q, h') ↦ elim e [
        | inl same ↦ absurd (ground (arith, rw same at d, q))
        | inr later ↦ Elem-document p name uris ms u h' later d r
      ]
      | inr (q, (answer, rest, a, b, k)) ↦ rw k (elim e [
        | inl same ↦
            let named : answer ≡ some name = ground (arith, a, rw same at r) in
            rw (named, (str_beq_iff name name).1 refl, same) (inl refl)
        | inr later ↦
            kept-Elem p name v answer rest (match_of t EntryKind.document p name u)
              (Elem-document p name uris rest u b later d r)
      ])
    ]

    pub Elem-append :
        (xs ys : List ResolvedPath) (m : ResolvedPath) → Elem m (xs ++ ys) → Elem m xs ⊎ Elem m ys
    Elem-append [] ys m e = inr e
    Elem-append (x ∷ xs) ys m (inl q) = inl (inl q)
    Elem-append (x ∷ xs) ys m (inr e) = elim (Elem-append xs ys m e) [
      | inl a ↦ inl (inr a)
      | inr b ↦ inr b
    ]

    pub append-Elem :
        (xs ys : List ResolvedPath) (m : ResolvedPath) → Elem m xs ⊎ Elem m ys → Elem m (xs ++ ys)
    append-Elem [] ys m (inl e) = absurd e
    append-Elem [] ys m (inr e) = e
    append-Elem (x ∷ xs) ys m (inl (inl q)) = inl q
    append-Elem (x ∷ xs) ys m (inl (inr e)) = inr (append-Elem xs ys m (inl e))
    append-Elem (x ∷ xs) ys m (inr e) = inr (append-Elem xs ys m (inr e))

    pub only_match-ok :
        (e : Error) (name : Str) (ms : List ResolvedPath) (r : ResolvedPath)
        → only_match e name ms ≡ ok r
        → ms ≡ r ∷ []
    only_match-ok e name [] r h = absurd (ground (arith, h))
    only_match-ok e name (x ∷ []) r h = ground (arith, h)
    only_match-ok e name (x ∷ y ∷ rest) r h = absurd (ground (arith, h))
