-- ===== src/Workspace.antt =====
-- crates/opake-core/src/workspace.rs: the open workspace, its group keys by rotation, and the check
-- of its identity against its key material. The primitives of crates/opake-crypto are the
-- parameter `KeyringCrypto`.
pub mod Examples
use opake.Base.{
  ℕ, Bool, true, false, ◌&&◌, not, Option, none, some, List, [], ◌∷◌, Str, ◌==◌, str_eq, any, find,
  is_some, keep, map, unwrap_or, if◌then◌else◌,
}
use opake.Error.{Result, ok, err, Error}
use opake.Records.{
  WrappedKey, EncryptedMetadata, Keyring, KeyringMember, KeyHistoryEntry, is_manager_role,
}
use opake.Atproto.{AtUri, parse_at_uri}
use opake.Tree.Names.{HistoricalKey, GroupKeys, for_rotation}

pub record KeyringMetadata : Type 0 where
  pub name : Str
  pub description : Option Str
  pub icon : Option Str

-- `unwrap_key` in the keyring's wrap context: the private keys, the wrap, the anchor and the
-- record's version; `derive_workspace_identity_tag`; `decrypt_metadata` under the anchor.
pub record KeyringCrypto (Key PrivateKeys : Type 0) : Type 0 where
  pub unwrap_key : PrivateKeys → WrappedKey → Str → ℕ → Option Key
  pub derive_workspace_identity_tag : Key → Str → Str
  pub decrypt_metadata : Key → EncryptedMetadata → Str → Option KeyringMetadata

unfoldable pub lineage_anchor : Keyring → Str → Str
lineage_anchor k self_uri = unwrap_or k.lineage self_uri

abbrev member_dids : List KeyringMember → List Str
member_dids = map (λ m. m.did)

unfoldable pub manager_dids_from_keyring : Keyring → List Str
manager_dids_from_keyring k = member_dids (keep (λ m. is_manager_role m.role) k.members)

pub record Workspace (Key : Type 0) : Type 0 where
  pub uri : Str
  pub name : Str
  pub description : Option Str
  pub owner_did : Str
  pub key : Option Key
  pub rotation : ℕ
  pub historical_keys : List (HistoricalKey Key)
  pub manager_dids : List Str

module _ {Key : Type 0} where
  unfoldable pub is_manager : Workspace Key → Str → Bool
  is_manager w did = any (λ m. m == did) w.manager_dids

  unfoldable pub group_keys : Workspace Key → GroupKeys Key
  group_keys w = record {
    current_rotation = w.rotation;
    current = w.key;
    historical = w.historical_keys;
  }

  unfoldable pub key_for_rotation : Workspace Key → ℕ → Option Key
  key_for_rotation w rotation = for_rotation (group_keys w) rotation

  -- Historical keys never stand in for the current one.
  unfoldable pub current_key : Workspace Key → Result Key
  current_key w = elim w.key [
    | none ↦ err (Error.current_group_key_unavailable w.uri)
    | some key ↦ ok key
  ]

abbrev pub find_member : Str → List KeyringMember → Option KeyringMember
find_member did = find (λ m. m.did == did)

module _ {Key PrivateKeys : Type 0} (c : KeyringCrypto Key PrivateKeys) where
  abbrev pub tag_matches : Result AtUri → Option Key → Bool
  tag_matches (err e) key = false
  tag_matches (ok u) none = false
  tag_matches (ok u) (some key) = c.derive_workspace_identity_tag key u.authority == u.rkey

  -- A lineage without a predecessor, an anchor that does not parse, an unknown first key or another
  -- tag than the anchor's record key refuse.
  unfoldable pub verify_workspace_identity :
      Keyring → Str → Option Key → List (HistoricalKey Key) → Bool
  verify_workspace_identity k anchor current historical =
      if is_some k.lineage && not (is_some k.supersedes)
      then false
      else tag_matches (parse_at_uri anchor) (
          for_rotation
            (record { current_rotation = k.rotation; current = current; historical = historical })
            0)

  -- The key of one entry of the history, for the caller.
  abbrev pub history_key : Keyring → Str → Str → PrivateKeys → KeyHistoryEntry → Option Key
  history_key k did anchor keys hist = elim (find_member did hist.members) [
    | none ↦ none
    | some member ↦ elim member.wrapped_key [
      | none ↦ none
      | some wrap ↦ c.unwrap_key keys wrap anchor k.opake_version
    ]
  ]

  abbrev pub history_keys :
      Keyring → Str → Str → PrivateKeys → List KeyHistoryEntry → List (HistoricalKey Key)
  history_keys k did anchor keys [] = []
  history_keys k did anchor keys (hist ∷ rest) = elim (history_key k did anchor keys hist) [
    | none ↦ history_keys k did anchor keys rest
    | some key ↦
        record { rotation = hist.rotation; key = key } ∷ history_keys k did anchor keys rest
  ]

  unfoldable pub derive_historical_keys :
      Keyring → Str → Str → PrivateKeys → List (HistoricalKey Key)
  derive_historical_keys k did keyring_uri keys =
      history_keys k did (lineage_anchor k keyring_uri) keys k.key_history
