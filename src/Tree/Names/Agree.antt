-- ===== src/Tree/Names/Agree.antt =====
-- `decrypt_names_with_group_keys` beside `decrypt_directory_name`, both of directories/tree.rs.
use opake.Base.{
  ◌≡◌, refl, ◌∙◌, Option, none, some, [], ◌∷◌, Str, codes, ◌==◌, str_eq, str_beq_iff, option_eq,
  unwrap_or, Map, get, get-insert, arith, Bool-cases, Option-cases, inl, inr, if◌then◌else◌,
}
use opake.Tree.{DirectoryInfo, DirectoryTree, root_directory_name}
use opake.Tree.Names.{
  Crypto, GroupKeys, content_key, named, name_all, name_root, decrypt_names_with_group_keys,
  DecryptionCtx, ctx_content_key, decrypt_directory_name,
}

module _ {Key PrivateKeys : Type 0} (c : Crypto Key PrivateKeys) (did : Str)
    (private_keys : PrivateKeys) (group_keys : Map Str (GroupKeys Key)) where
  abbrev pub full_ctx : DecryptionCtx c
  full_ctx = record { did = did; private_keys = some private_keys; group_keys = group_keys }

  content_key_agrees :
      (info : DirectoryInfo)
      → ctx_content_key c info full_ctx ≡ content_key c did private_keys group_keys info
  unfolding ctx_content_key content_key
  content_key_agrees info = refl

  get-name_all :
      (m : Map Str DirectoryInfo) (u : Str) (info : DirectoryInfo)
      → get m u ≡ some info
      → get (name_all c did private_keys group_keys m) u
        ≡ some (named c did private_keys group_keys u info)
  unfolding get
  get-name_all [] u info h = cc h
  get-name_all ((v, i) ∷ m) u info h = elim (Bool-cases (v == u)) [
    | inl q ↦
        let e : v ≡ u = (str_beq_iff v u).0 q in
        let k : i ≡ info = ground (arith, q) in rw (q, e, k) refl
    | inr q ↦ ground (arith, q, get-name_all m u info (ground (arith, q)))
  ]

  named-name :
      (u : Str) (info : DirectoryInfo)
      → named c did private_keys group_keys u info
        ≡ record info { name = unwrap_or (decrypt_directory_name c u info full_ctx) (codes "?") }
  unfolding named decrypt_directory_name
  named-name u info = rw (content_key_agrees info) refl

  get-name_root :
      (root : Option Str) (m : Map Str DirectoryInfo) (u : Str) (info : DirectoryInfo)
      → get m u ≡ some info
      → get (name_root c root m) u
        ≡ some (if root == some u then record info { name = root_directory_name } else info)
  unfolding name_root
  get-name_root none m u info h = h
  get-name_root (some root) m u info h = elim (Option-cases (get m root)) [
    | inl e ↦ ground (arith, e, h, str_beq_iff root u)
    | inr (i, e) ↦ ground (
      arith,
      e,
      h,
      str_beq_iff root u,
      get-insert m root u (record i { name = root_directory_name }),
    )
  ]

  -- The whole-tree pass names the root / and every other readable directory as the one-record step
  -- does with the same keys, or ? where that step has no name; nothing else of a directory
  -- changes.
  pub decrypt_names_agree :
      (t : DirectoryTree) (u : Str) (info : DirectoryInfo)
      → get t.directories u ≡ some info
      → get (decrypt_names_with_group_keys c t did private_keys group_keys).directories u
        ≡ some (record info {
          name =
              (if t.root_uri == some u
                then root_directory_name
                else unwrap_or (decrypt_directory_name c u info full_ctx) (codes "?"));
        })
  unfolding decrypt_names_with_group_keys
  decrypt_names_agree t u info h =
      get-name_root t.root_uri _ u _ (get-name_all t.directories u info h)
      ∙ rw (named-name u info) (ground arith)
