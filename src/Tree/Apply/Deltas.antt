-- ===== src/Tree/Apply/Deltas.antt =====
-- `apply_directory_delta` and `apply_directory_delete` of directories/tree.rs, by lookup.
use opake.Base.{
  ◌∙◌, ==_refl, ◌≡◌, refl, true, false, ◌&&◌, ◌||◌, not, Option, none, some, Str, ◌==◌, str_eq,
  str_beq_iff, option_eq, is_some, get-insert, get-remove, contains_key, arith, Bool-cases,
  Option-cases, inl, inr, map, if◌then◌else◌,
}
use opake.Records.{Directory}
use opake.Tree.{
  DirectoryInfo, DirectoryTree, TreeChange, IsWellFormed, entries_for, is_directory, is_placeholder,
  has_self_rkey, info_of, is_effective, root_directory_name,
}
use opake.Tree.Apply.{
  apply_directory_delete, make_root, advance_root, adopt_root, delta_info, insert_record,
  apply_directory_delta,
}

-- Two trees with the same listings and placeholders, read by lookup.
pub record SameListings (a b : DirectoryTree) : Type 0 where
  pub listings : (u : Str) → entries_for a u ≡ entries_for b u
  pub readable : (u : Str) → contains_key a.directories u ≡ contains_key b.directories u
  pub placeholders : a.placeholders ≡ b.placeholders

make_root-SameListings :
    (t : DirectoryTree) (uri : Str) (info : DirectoryInfo)
    → entries_for t uri ≡ some info.entries
    → contains_key t.directories uri ≡ true
    → SameListings (make_root t uri info) t
unfolding make_root entries_for
make_root-SameListings t uri info h k = record {
  listings = λ u. ground (
    arith,
    get-insert t.directories uri u (record info { name = root_directory_name }),
    str_beq_iff uri u,
  );
  readable = λ u. ground (
    arith,
    get-insert t.directories uri u (record info { name = root_directory_name }),
    str_beq_iff uri u,
  );
  placeholders = refl;
}

SameListings-refl : (t : DirectoryTree) → SameListings t t
SameListings-refl t = record { listings = λ u. refl; readable = λ u. refl; placeholders = refl }

SameListings-trans :
    {a b c : DirectoryTree} → SameListings a b → SameListings b c → SameListings a c
SameListings-trans p q = record {
  listings = λ u. p.listings u ∙ q.listings u;
  readable = λ u. p.readable u ∙ q.readable u;
  placeholders = p.placeholders ∙ q.placeholders;
}

module _ (uri : Str) (info : DirectoryInfo) where
  advance_root-none : (t : DirectoryTree) → info.supersedes_uri ≡ none → advance_root t uri info ≡ t
  unfolding advance_root
  advance_root-none t e = ground arith

  advance_root-some :
      (t : DirectoryTree) (prior : Str)
      → info.supersedes_uri ≡ some prior
      → (t.root_uri == some prior) ≡ true
      → advance_root t uri info ≡ make_root t uri info
  unfolding advance_root
  advance_root-some t prior e b = ground (arith, e, b)

  advance_root_other :
      (t : DirectoryTree) (prior : Str)
      → info.supersedes_uri ≡ some prior
      → (t.root_uri == some prior) ≡ false
      → advance_root t uri info ≡ t
  unfolding advance_root
  advance_root_other t prior e b = ground (arith, e, b)

  abbrev Holds : DirectoryTree → Type 0
  Holds t = (entries_for t uri ≡ some info.entries) × (contains_key t.directories uri ≡ true)

  advance_root-SameListings :
      (t : DirectoryTree) → Holds t → SameListings (advance_root t uri info) t
  advance_root-SameListings t h = elim (Option-cases info.supersedes_uri) [
    | inl e ↦ rw (advance_root-none t e) (SameListings-refl t)
    | inr (prior, e) ↦ elim (Bool-cases (t.root_uri == some prior)) [
      | inl b ↦ rw (advance_root-some t prior e b) (make_root-SameListings t uri info h.0 h.1)
      | inr b ↦ rw (advance_root_other t prior e b) (SameListings-refl t)
    ]
  ]

  adopt_root-SameListings : (t : DirectoryTree) → Holds t → SameListings (adopt_root t uri info) t
  unfolding adopt_root
  adopt_root-SameListings t h =
      elim (Bool-cases
        (not (is_some t.root_uri) && (info.is_workspace_root || has_self_rkey uri))) [
          | inl b ↦ rw b (make_root-SameListings t uri info h.0 h.1)
          | inr b ↦ rw b (SameListings-refl t)
        ]

module _ (decrypt : Str → DirectoryInfo → Option Str) (t : DirectoryTree) (uri : Str)
    (dir : Directory) where
  entries_for-insert_record :
      (u : Str)
      → entries_for (insert_record decrypt t uri dir) u
        ≡ (if uri == u then some (map (λ e. e.target) dir.entries) else entries_for t u)
  unfolding entries_for insert_record delta_info info_of
  entries_for-insert_record u = ground (
    arith,
    get-insert t.directories uri u (delta_info decrypt uri dir),
    get-remove t.placeholders uri u,
    str_beq_iff uri u,
  )

  insert_record-readable : contains_key (insert_record decrypt t uri dir).directories uri ≡ true
  unfolding insert_record
  insert_record-readable =
      rw (get-insert t.directories uri uri (delta_info decrypt uri dir), ==_refl uri)

  delta-Holds : Holds uri (delta_info decrypt uri dir) (insert_record decrypt t uri dir)
  unfolding delta_info info_of
  delta-Holds = (entries_for-insert_record uri ∙ rw (==_refl uri), insert_record-readable)

  delta-SameListings :
      SameListings (apply_directory_delta decrypt t uri dir).0 (insert_record decrypt t uri dir)
  unfolding apply_directory_delta
  delta-SameListings =
      let info = delta_info decrypt uri dir in
      let t₁ = insert_record decrypt t uri dir in
      let s₁ = advance_root-SameListings uri info t₁ delta-Holds in
      let held : Holds uri info (advance_root t₁ uri info) =
        (s₁.listings uri ∙ delta-Holds.0, s₁.readable uri ∙ delta-Holds.1) in
      SameListings-trans (adopt_root-SameListings uri info (advance_root t₁ uri info) held) s₁

  -- A record delta sets the listing of its URI to the record's targets and changes no other
  -- listing; the URI is readable afterwards and no placeholder, and the change says whether it was
  -- readable before.
  pub apply_directory_delta_exact :
      ((u : Str)
        → entries_for (apply_directory_delta decrypt t uri dir).0 u
          ≡ (if uri == u then some (map (λ e. e.target) dir.entries) else entries_for t u))
      × (contains_key (apply_directory_delta decrypt t uri dir).0.directories uri ≡ true)
      × (is_placeholder (apply_directory_delta decrypt t uri dir).0 uri ≡ false)
      × ((apply_directory_delta decrypt t uri dir).1 ≡ (
          if contains_key t.directories uri
          then TreeChange.updated uri
          else TreeChange.inserted uri))
  unfolding is_placeholder
  apply_directory_delta_exact = (
    λ u. delta-SameListings.listings u ∙ entries_for-insert_record u,
    delta-SameListings.readable uri ∙ insert_record-readable,
    rw delta-SameListings.placeholders
        (unfold insert_record in rw (get-remove t.placeholders uri uri, ==_refl uri)),
    unfold apply_directory_delta in refl,
  )

  -- A record delta never leaves a URI both readable and a placeholder, if none was before.
  pub apply_directory_delta-IsWellFormed :
      IsWellFormed t → IsWellFormed (apply_directory_delta decrypt t uri dir).0
  apply_directory_delta-IsWellFormed w = record {
    disjoint = λ u.
        rw (delta-SameListings.readable u, delta-SameListings.placeholders)
          (unfold insert_record in
            rw
              (
                get-insert t.directories uri u (delta_info decrypt uri dir),
                get-remove t.placeholders uri u,
              )
              (ground (arith, w.disjoint u)));
  }

module _ (t : DirectoryTree) (uri : Str) where
  -- A delete removes the URI's listing and no other, clears the root exactly if the URI was the
  -- root of a tree that knew it, and reports a removal exactly if the tree knew the URI.
  pub apply_directory_delete_exact :
      ((u : Str)
        → entries_for (apply_directory_delete t uri).0 u
          ≡ (if uri == u then none else entries_for t u))
      × ((apply_directory_delete t uri).0.root_uri
          ≡ (if is_directory t uri && t.root_uri == some uri then none else t.root_uri))
      × (is_effective (apply_directory_delete t uri).1 ≡ is_directory t uri)
  unfolding apply_directory_delete entries_for is_directory is_effective
  apply_directory_delete_exact = (
    λ u.
        ground (
          arith,
          get-remove t.directories uri u,
          get-remove t.placeholders uri u,
          str_beq_iff uri u,
        ),
    ground arith,
    ground arith,
  )

  -- A delete never leaves a URI both readable and a placeholder, if none was before.
  pub apply_directory_delete-IsWellFormed :
      IsWellFormed t → IsWellFormed (apply_directory_delete t uri).0
  unfolding apply_directory_delete
  apply_directory_delete-IsWellFormed w = record {
    disjoint = λ u.
        ground
          (arith, get-remove t.directories uri u, get-remove t.placeholders uri u, w.disjoint u);
  }
