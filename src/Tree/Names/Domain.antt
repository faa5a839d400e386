-- ===== src/Tree/Names/Domain.antt =====
-- `decrypt_names_with_group_keys` of directories/tree.rs keeps the directories and the placeholders.
use opake.Base.{
  ◌≡◌, refl, Option, none, some, [], ◌∷◌, Str, str_eq, str_beq_iff, Map, get, contains_key,
  get-insert, arith, Option-cases, inl, inr,
}
use opake.Tree.{DirectoryInfo, DirectoryTree, IsWellFormed, root_directory_name}
use opake.Tree.Names.{Crypto, GroupKeys, name_all, name_root, decrypt_names_with_group_keys}

module _ {Key PrivateKeys : Type 0} (c : Crypto Key PrivateKeys) (did : Str)
    (private_keys : PrivateKeys) (group_keys : Map Str (GroupKeys Key)) where
  contains_key-name_all :
      (m : Map Str DirectoryInfo) (u : Str)
      → contains_key (name_all c did private_keys group_keys m) u ≡ contains_key m u
  unfolding get
  contains_key-name_all [] u = refl
  contains_key-name_all ((v, i) ∷ m) u = ground (arith, contains_key-name_all m u)

  contains_key-name_root :
      (root : Option Str) (m : Map Str DirectoryInfo) (u : Str)
      → contains_key (name_root c root m) u ≡ contains_key m u
  unfolding name_root
  contains_key-name_root none m u = refl
  contains_key-name_root (some root) m u = elim (Option-cases (get m root)) [
    | inl e ↦ rw (e, name_root) refl
    | inr (i, e) ↦ ground (
      arith,
      e,
      str_beq_iff root u,
      get-insert m root u (record i { name = root_directory_name }),
    )
  ]

  pub decrypt_names-IsWellFormed :
      (t : DirectoryTree)
      → IsWellFormed t
      → IsWellFormed (decrypt_names_with_group_keys c t did private_keys group_keys)
  unfolding decrypt_names_with_group_keys
  decrypt_names-IsWellFormed t w = record {
    disjoint = λ u.
        rw
          (
            contains_key-name_root t.root_uri (name_all c did private_keys group_keys t.directories)
                u,
            contains_key-name_all t.directories u,
          )
          (w.disjoint u);
  }
