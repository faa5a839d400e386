-- ===== src/Tree/Names.antt =====
-- The decrypted names of the tree: the whole-tree pass and the one-record step. The primitives of
-- crates/opake-crypto are the parameter `Crypto`, a failed call being `none`.
pub mod Agree
pub mod Domain
mod Examples
use opake.Base.{
  ℕ, Bool, true, false, Option, none, some, List, [], ◌∷◌, Str, codes, ◌==◌, str_eq, nat_eq, find,
  map, unwrap_or, Map, get, insert, if◌then◌else◌,
}
use opake.Records.{WrappedKey, AtBytes, EncryptedMetadata, KeyringRef, KeyWrapping, direct, keyring}
use opake.Tree.{DirectoryInfo, DirectoryTree, anchor, root_directory_name}

-- `unwrap_key` in the cabinet's wrap context at the record's version; `unwrap_content_key` decodes
-- and unwraps a content key by a group key; `decrypt_metadata` takes the lineage anchor that the
-- seal context binds, and gives the name.
pub record Crypto (Key PrivateKeys : Type 0) : Type 0 where
  pub unwrap_key : WrappedKey → PrivateKeys → ℕ → Option Key
  pub unwrap_content_key : AtBytes → Key → Option Key
  pub decrypt_metadata : Key → EncryptedMetadata → Str → Option Str

pub record HistoricalKey (Key : Type 0) : Type 0 where
  pub rotation : ℕ
  pub key : Key

pub record GroupKeys (Key : Type 0) : Type 0 where
  pub current_rotation : ℕ
  pub current : Option Key
  pub historical : List (HistoricalKey Key)

infixl 5 ◌>>=◌
abbrev pub ◌>>=◌ : {A B : Type 0} → Option A → (A → Option B) → Option B
none >>= f = none
some a >>= f = f a

-- workspace.rs: the key of a rotation. `none` for one that the caller was not a member at.
unfoldable pub for_rotation : {Key : Type 0} → GroupKeys Key → ℕ → Option Key
for_rotation keys rotation =
    if rotation == keys.current_rotation
    then keys.current
    else (find (λ h. h.rotation == rotation) keys.historical >>= λ h. some h.key)

module _ {Key PrivateKeys : Type 0} (c : Crypto Key PrivateKeys) where
  pub group_content_key : Map Str (GroupKeys Key) → KeyringRef → Option Key
  group_content_key group_keys ref = get group_keys ref.keyring >>= λ keys.
      for_rotation keys ref.rotation >>= λ gk. c.unwrap_content_key ref.wrapped_content_key gk

  -- The content key of a directory, in the whole-tree pass.
  pub content_key : Str → PrivateKeys → Map Str (GroupKeys Key) → DirectoryInfo → Option Key
  content_key did private_keys group_keys info = elim info.key_wrapping [
    | direct keys ↦
        find (λ k. k.did == did) keys >>= λ w. c.unwrap_key w private_keys info.opake_version
    | keyring ref ↦ group_content_key group_keys ref
  ]

  pub named : Str → PrivateKeys → Map Str (GroupKeys Key) → Str → DirectoryInfo → DirectoryInfo
  named did private_keys group_keys uri info =
      let name = content_key did private_keys group_keys info >>= λ key.
      c.decrypt_metadata key info.encrypted_metadata (anchor uri info) in
      record info { name = unwrap_or name (codes "?") }

  abbrev name_all :
      Str → PrivateKeys → Map Str (GroupKeys Key) → Map Str DirectoryInfo → Map Str DirectoryInfo
  name_all did private_keys group_keys [] = []
  name_all did private_keys group_keys ((uri, info) ∷ m) =
      (uri, named did private_keys group_keys uri info) ∷ name_all did private_keys group_keys m

  -- The root directory is always named "/".
  pub name_root : Option Str → Map Str DirectoryInfo → Map Str DirectoryInfo
  name_root none m = m
  name_root (some root) m = elim (get m root) [
    | none ↦ m
    | some info ↦ insert m root (record info { name = root_directory_name })
  ]

  pub decrypt_names_with_group_keys :
      DirectoryTree → Str → PrivateKeys → Map Str (GroupKeys Key) → DirectoryTree
  decrypt_names_with_group_keys t did private_keys group_keys = record t {
    directories = name_root t.root_uri (name_all did private_keys group_keys t.directories);
  }

  pub record DecryptionCtx : Type 0 where
    pub did : Str
    pub private_keys : Option PrivateKeys
    pub group_keys : Map Str (GroupKeys Key)

  -- The one-record step: a context may lack the private keys.
  pub ctx_content_key : DirectoryInfo → DecryptionCtx → Option Key
  ctx_content_key info ctx = elim info.key_wrapping [
    | direct keys ↦ find (λ k. k.did == ctx.did) keys >>= λ w.
        ctx.private_keys >>= λ private_keys. c.unwrap_key w private_keys info.opake_version
    | keyring ref ↦ group_content_key ctx.group_keys ref
  ]

  pub decrypt_directory_name : Str → DirectoryInfo → DecryptionCtx → Option Str
  decrypt_directory_name uri info ctx = ctx_content_key info ctx >>= λ key.
      c.decrypt_metadata key info.encrypted_metadata (anchor uri info)

-- Names are cleared after a rotation, until they are decrypted again.
pub clear_names : Map Str DirectoryInfo → Map Str DirectoryInfo
clear_names [] = []
clear_names ((uri, info) ∷ m) = (uri, record info { name = [] }) ∷ clear_names m

pub invalidate_decrypted_names : DirectoryTree → DirectoryTree
invalidate_decrypted_names t = record t { directories = clear_names t.directories }
