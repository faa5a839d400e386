-- ===== src/Tree/Descend.antt =====
-- Walks down the tree: the descendants in post-order by an explicit stack, the counts for a delete
-- prompt, the documents below the root, and the cycle check of directories/move_entry.rs. A loop
-- takes fuel: `none` is fuel that ran out.
pub mod Steps
pub mod Ends
pub mod Below
pub mod Expand
pub mod Cycle
pub mod Within
mod Examples
use opake.Base.{
  ℕ, zero, suc, ◌+◌, Bool, true, false, ◌&&◌, Option, none, some, List, [], ◌∷◌, ◌++◌, Str, ◌==◌,
  str_eq, contains, length, any, Map, get, contains_key, if◌then◌else◌,
}
use opake.Error.{Result, ok, err, invalid_record, message}
use opake.Tree.{DirectoryInfo, DirectoryTree, EntryKind, entry_kind_from_uri, is_directory_kind}

-- The stack's top is the head; the flag marks a directory whose children were pushed.
pub record Descent : Type 0 where
  pub stack : List (Str × Bool)
  pub result : List (Str × EntryKind)

-- The counters and the stack of `count_descendants`.
pub record Count : Type 0 where
  pub documents : ℕ
  pub directories : ℕ
  pub pending : List Str

module _ (t : DirectoryTree) where
  -- One listed URI.
  pub visit_entry : Str → Descent → Descent
  visit_entry entry s = elim (entry_kind_from_uri entry) [
    | none ↦ s
    | some EntryKind.document ↦ record s { result = s.result ++ (entry, EntryKind.document) ∷ [] }
    | some EntryKind.directory ↦
        if contains_key t.directories entry
        then record s { stack = (entry, false) ∷ s.stack }
        else record s { result = s.result ++ (entry, EntryKind.directory) ∷ [] }
  ]

  -- `for entry_uri in dir.entries.iter().rev()`: the last entry first.
  pub visit_entries : List Str → Descent → Descent
  visit_entries [] s = s
  visit_entries (entry ∷ entries) s = visit_entry entry (visit_entries entries s)

  -- One pop that is a readable directory, not yet expanded or its mark.
  pub emit : Str → Str → Descent → Descent
  emit uri current s =
      if current == uri
      then s
      else record s { result = s.result ++ (current, EntryKind.directory) ∷ [] }

  -- The `while let` loop over the stack.
  unfoldable pub descend : Str → ℕ → List Str → Descent → Option (List (Str × EntryKind))
  descend uri zero expanded s = elim s.stack [ [] ↦ some s.result | w ∷ stack ↦ none ]
  descend uri (suc fuel) expanded s = elim s.stack [
    | [] ↦ some s.result
    | (current, visited) ∷ stack ↦
        let popped : Descent = record s { stack = stack } in
        elim (get t.directories current) [
          | none ↦ descend uri fuel expanded popped
          | some dir ↦ elim visited [
            | true ↦ descend uri fuel expanded (emit uri current popped)
            | false ↦ elim (contains expanded current) [
              | true ↦ descend uri fuel expanded popped
              | false ↦
                  descend uri fuel (current ∷ expanded)
                    (visit_entries dir.entries (record popped { stack = (current, true) ∷ stack }))
            ]
          ]
        ]
  ]

  -- The size of the listings that are not expanded yet, each with its own pop.
  pub weight : Map Str DirectoryInfo → List Str → ℕ
  weight [] expanded = 0
  weight ((uri, info) ∷ m) expanded =
      let rest = weight m expanded in
      if contains expanded uri then rest else suc (length info.entries) + rest

  pub start : Str → Descent
  start uri = record { stack = (uri, false) ∷ []; result = [] }

  unfoldable pub collect_descendants : Str → Option (List (Str × EntryKind))
  collect_descendants uri = descend uri (suc (weight t.directories [])) [] (start uri)

  pub documents_of : List (Str × EntryKind) → List Str
  documents_of [] = []
  documents_of ((uri, EntryKind.document) ∷ rest) = uri ∷ documents_of rest
  documents_of ((uri, EntryKind.directory) ∷ rest) = documents_of rest

  pub document_uris_in_subtree : Option (List Str)
  document_uris_in_subtree = elim t.root_uri [
    | none ↦ some []
    | some root ↦ elim (collect_descendants root) [
      | none ↦ none
      | some found ↦ some (documents_of found)
    ]
  ]

  -- `count_descendants`: every listed document or directory counts, and a directory is expanded once.
  pub count_entry : Str → Count → Count
  count_entry entry c = elim (entry_kind_from_uri entry) [
    | none ↦ c
    | some EntryKind.document ↦ record c { documents = suc c.documents }
    | some EntryKind.directory ↦ record c {
      directories = suc c.directories;
      pending = (if contains_key t.directories entry then entry ∷ c.pending else c.pending);
    }
  ]

  pub count_entries : List Str → Count → Count
  count_entries [] c = c
  count_entries (entry ∷ entries) c = count_entries entries (count_entry entry c)

  pub count_loop : ℕ → List Str → Count → Option (ℕ × ℕ)
  count_loop zero expanded c = elim c.pending [
    | [] ↦ some (c.documents, c.directories)
    | u ∷ us ↦ none
  ]
  count_loop (suc fuel) expanded c = elim c.pending [
    | [] ↦ some (c.documents, c.directories)
    | current ∷ pending ↦
        let popped : Count = record c { pending = pending } in
        elim (contains expanded current) [
          | true ↦ count_loop fuel expanded popped
          | false ↦ elim (get t.directories current) [
            | none ↦ count_loop fuel (current ∷ expanded) popped
            | some dir ↦ count_loop fuel (current ∷ expanded) (count_entries dir.entries popped)
          ]
        ]
  ]

  pub count_descendants : Str → Option (ℕ × ℕ)
  count_descendants uri =
      count_loop (suc (weight t.directories [])) []
        (record { documents = 0; directories = 0; pending = uri ∷ [] })

abbrev pub is_target : Str → Str × EntryKind → Bool
is_target target (uri, kind) = is_directory_kind (some kind) && uri == target

-- A directory moves neither into itself nor below itself.
pub check_cycle : DirectoryTree → Str → Str → Option (Result (Unit {0}))
check_cycle t source target = elim (source == target) [
  | true ↦ some (err (invalid_record (message "cannot move a directory into itself" [])))
  | false ↦ elim (collect_descendants t source) [
    | none ↦ none
    | some descendants ↦
        if any (is_target target) descendants
        then some (
            err (invalid_record (message "cannot move a directory into one of its descendants" [])))
        else some (ok tt)
  ]
]
