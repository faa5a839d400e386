-- ===== src/Tree/Apply/Placeholders.antt =====
-- `apply_unreadable_ref` of directories/tree.rs, by lookup.
use opake.Base.{
  not, ◌≡◌, Bool, ◌&&◌, some, [], Str, ◌==◌, str_eq, str_beq_iff, unwrap_or, get, get-insert,
  get-remove, contains_key, arith, Bool-cases, Option-cases, inl, inr, if◌then◌else◌,
}
use opake.Records.{UnreadableRef}
use opake.Tree.{DirectoryTree, IsWellFormed, entries_for, entry_kind_from_uri, is_directory_kind}
use opake.Tree.Apply.{preserved_entries, degrade, is_referenced, apply_unreadable_ref}

module _ (t : DirectoryTree) (uri : Str) (reference : UnreadableRef) where
  abbrev t' : DirectoryTree
  t' = degrade t uri reference

  entries_for-degrade :
      (u : Str)
      → entries_for t' u
        ≡ (if uri == u then some (unwrap_or (entries_for t uri) []) else entries_for t u)
  unfolding entries_for degrade preserved_entries
  entries_for-degrade u = ground (
    arith,
    get-remove t.directories uri u,
    get-insert t.placeholders uri u (record {
      reason = reference.reason;
      entries = preserved_entries (get t.directories uri) (get t.placeholders uri);
    }),
    str_beq_iff uri u,
  )

  degrade-IsWellFormed : IsWellFormed t → IsWellFormed t'
  unfolding degrade
  degrade-IsWellFormed w = record {
    disjoint = λ u.
        rw (get-remove t.directories uri u, get-insert t.placeholders uri u)
          (ground (arith, w.disjoint u));
  }

-- The reference makes a visible placeholder: it carries the URI of a directory that the tree
-- references.
abbrev pub is_visible : DirectoryTree → Str → Bool
is_visible t uri = is_directory_kind (entry_kind_from_uri uri) && is_referenced t uri

-- An unreadable reference answers whether its URI is a directory that the tree references; if so
-- the URI keeps its listing (empty, if unknown) and is readable no more; no other listing changes,
-- nor does the root.
pub apply_unreadable_ref_exact :
    (t : DirectoryTree) (reference : UnreadableRef) (uri : Str)
    → reference.uri ≡ some uri
    → ((apply_unreadable_ref t reference).1 ≡ is_visible t uri)
      × ((u : Str)
          → entries_for (apply_unreadable_ref t reference).0 u ≡ (
              if is_visible t uri && uri == u
              then some (unwrap_or (entries_for t uri) [])
              else entries_for t u))
      × ((u : Str)
          → contains_key (apply_unreadable_ref t reference).0.directories u
            ≡ (contains_key t.directories u && not (is_visible t uri && uri == u)))
      × ((apply_unreadable_ref t reference).0.root_uri ≡ t.root_uri)
unfolding apply_unreadable_ref
apply_unreadable_ref_exact t reference uri e = elim (Bool-cases (is_visible t uri)) [
  | inl b ↦ (
    ground (arith, e, b),
    λ u. ground (arith, e, b, entries_for-degrade t uri reference u),
    λ u. unfold degrade in ground (arith, e, b, get-remove t.directories uri u),
    unfold degrade in ground (arith, e, b),
  )
  | inr b ↦ (
    ground (arith, e, b),
    λ u. ground (arith, e, b),
    λ u. ground (arith, e, b),
    ground (arith, e, b),
  )
]

-- An unreadable reference never leaves a URI both readable and a placeholder, if none was before.
pub apply_unreadable_ref-IsWellFormed :
    (t : DirectoryTree) (reference : UnreadableRef)
    → IsWellFormed t
    → IsWellFormed (apply_unreadable_ref t reference).0
unfolding apply_unreadable_ref
apply_unreadable_ref-IsWellFormed t reference w = elim (Option-cases reference.uri) [
  | inl e ↦ rw (e, apply_unreadable_ref) w
  | inr (uri, e) ↦
      elim (Bool-cases (is_directory_kind (entry_kind_from_uri uri) && is_referenced t uri)) [
        | inl b ↦ rw (e, apply_unreadable_ref, b) (degrade-IsWellFormed t uri reference w)
        | inr b ↦ rw (e, apply_unreadable_ref, b) w
      ]
]
