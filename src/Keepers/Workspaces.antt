-- ===== src/Keepers/Workspaces.antt =====
-- crates/opake-core, indexer/workspace_keeper/mod.rs: the list of workspaces as a list keeper, and the
-- entries that are built from keyring records.
use opake.Base.{
  List, ◌++◌, ◌≡◌, ◌↔◌, ℕ, Bool, true, ◌&&◌, not, Option, none, some, [], ◌∷◌, Str, codes, ◌==◌,
  str_eq, str_beq_iff, nat_eq, option_eq, option_beq_iff, length, nat_beq_iff, arith, if◌then◌else◌,
}
use opake.Records.{
  UnreadableRef, corrupt, Keyring, KeyringMember, Role, manager, editor, viewer, unknown,
}
use opake.Workspace.{
  KeyringCrypto, KeyringMetadata, lineage_anchor, verify_workspace_identity, derive_historical_keys,
  find_member,
}
use opake.Events.{
  IndexerEnvelope, keyring_workspace_id, KeyringDeleteOutcome, rolled_back, torn_down, unchanged,
  SseKeyringDeletePayload, deleted_workspace_id,
}
use opake.Keepers.{Listing, Keeper, Fired, upsert, delete}
use opake.Keepers.Runs.{withdraw_entry}

pub record WorkspaceEntry : Type 0 where
  pub workspace_id : Str
  pub head_uri : Str
  pub rotation : ℕ
  pub member_count : ℕ
  pub created_at : Option Str
  pub name : Option Str
  pub description : Option Str
  pub icon : Option Str
  pub my_role : Option Str

unfoldable pub same_workspace_entry : WorkspaceEntry → WorkspaceEntry → Bool
same_workspace_entry a b =
    (a.workspace_id == b.workspace_id
      && (a.head_uri == b.head_uri
          && (a.rotation == b.rotation && a.member_count == b.member_count)))
    && ((a.created_at == b.created_at && (a.name == b.name && a.description == b.description))
        && (a.icon == b.icon && a.my_role == b.my_role))

pub same_workspace_entry_iff : (a b : WorkspaceEntry) → (same_workspace_entry a b ≡ true) ↔ (a ≡ b)
unfolding same_workspace_entry
same_workspace_entry_iff a b = ground (
  arith,
  str_beq_iff a.workspace_id b.workspace_id,
  str_beq_iff a.head_uri b.head_uri,
  nat_beq_iff a.rotation b.rotation,
  nat_beq_iff a.member_count b.member_count,
  option_beq_iff a.created_at b.created_at,
  option_beq_iff a.name b.name,
  option_beq_iff a.description b.description,
  option_beq_iff a.icon b.icon,
  option_beq_iff a.my_role b.my_role,
)

-- A signal may stand under the identity or under the head.
instance abbrev pub workspace_listing : Listing WorkspaceEntry
workspace_listing = record {
  key = λ e. e.workspace_id;
  signal_keys = λ e. e.workspace_id ∷ e.head_uri ∷ [];
  same = record { equal = same_workspace_entry; equal_iff = same_workspace_entry_iff };
}

-- `Display` of `Role`.
abbrev pub role_to_string : Role → Str
role_to_string manager = codes "manager"
role_to_string editor = codes "editor"
role_to_string viewer = codes "viewer"
role_to_string (unknown s) = s

pub data EntryOutcome : Type 0 where
  entry : WorkspaceEntry → EntryOutcome
  not_member : EntryOutcome
  unreadable_wrap : Str → EntryOutcome
  identity_mismatch : EntryOutcome

-- The outcome of the current wrap of a member: absent, refused, or a key.
pub data CurrentWrap (Key : Type 0) : Type 0 where
  no_wrap bad_wrap : CurrentWrap Key
  good_wrap : Key → CurrentWrap Key

module _ {Key PrivateKeys : Type 0} (c : KeyringCrypto Key PrivateKeys) where
  abbrev pub current_wrap : PrivateKeys → Keyring → Str → KeyringMember → CurrentWrap Key
  current_wrap keys k head_uri member = elim member.wrapped_key [
    | none ↦ no_wrap
    | some wrap ↦ elim (c.unwrap_key keys wrap (lineage_anchor k head_uri) k.opake_version) [
      | none ↦ bad_wrap
      | some key ↦ good_wrap key
    ]
  ]

  abbrev pub metadata : Keyring → Str → Option Key → Option KeyringMetadata
  metadata k head_uri none = none
  metadata k head_uri (some key) =
      c.decrypt_metadata key k.encrypted_metadata (lineage_anchor k head_uri)

  abbrev pub meta_name : Option KeyringMetadata → Option Str
  meta_name none = none
  meta_name (some m) = some m.name

  abbrev pub meta_description : Option KeyringMetadata → Option Str
  meta_description none = none
  meta_description (some m) = m.description

  abbrev pub meta_icon : Option KeyringMetadata → Option Str
  meta_icon none = none
  meta_icon (some m) = m.icon

  -- The identity is verified before the metadata is decrypted.
  abbrev pub verified_entry :
      IndexerEnvelope Keyring → Str → PrivateKeys → KeyringMember → Option Key → EntryOutcome
  verified_entry env my_did keys member group_key =
      let k = env.body in
      let meta = metadata k env.uri group_key in
      if not (
        verify_workspace_identity c k (lineage_anchor k env.uri) group_key
          (derive_historical_keys c k my_did env.uri keys))
      then identity_mismatch
      else entry (record {
        workspace_id = keyring_workspace_id env;
        head_uri = env.uri;
        rotation = k.rotation;
        member_count = length k.members;
        created_at = some k.created_at;
        name = meta_name meta;
        description = meta_description meta;
        icon = meta_icon meta;
        my_role = some (role_to_string member.role);
      })

  abbrev pub wrapped_entry :
      IndexerEnvelope Keyring → Str → PrivateKeys → KeyringMember → CurrentWrap Key → EntryOutcome
  wrapped_entry env my_did keys member no_wrap = verified_entry env my_did keys member none
  wrapped_entry env my_did keys member bad_wrap = unreadable_wrap env.uri
  wrapped_entry env my_did keys member (good_wrap key) =
      verified_entry env my_did keys member (some key)

  unfoldable pub try_build_entry : IndexerEnvelope Keyring → Str → PrivateKeys → EntryOutcome
  try_build_entry env my_did keys = elim (find_member my_did env.body.members) [
    | none ↦ not_member
    | some member ↦ wrapped_entry env my_did keys member (current_wrap keys env.body env.uri member)
  ]

-- Where one outcome of a listing goes: the entries, or the references to unreadable records.
abbrev pub entries_with : EntryOutcome → List WorkspaceEntry → List WorkspaceEntry
entries_with (entry e) es = e ∷ es
entries_with not_member es = es
entries_with (unreadable_wrap uri) es = es
entries_with identity_mismatch es = es

abbrev pub unreadable_with : EntryOutcome → List UnreadableRef → List UnreadableRef
unreadable_with (entry e) refs = refs
unreadable_with not_member refs = refs
unreadable_with (unreadable_wrap uri) refs =
    refs ++ (record { uri = some uri; reason = corrupt } ∷ [])
unreadable_with identity_mismatch refs = refs

module _ {Key PrivateKeys : Type 0} (c : KeyringCrypto Key PrivateKeys) (my_did : Str)
    (keys : PrivateKeys) where
  -- What a fetched listing installs.
  unfoldable pub fetch_workspace_entries :
      List (IndexerEnvelope Keyring) → List UnreadableRef → List WorkspaceEntry × List UnreadableRef
  fetch_workspace_entries [] refs = ([], refs)
  fetch_workspace_entries (env ∷ envs) refs =
      let outcome = try_build_entry c env my_did keys in
      let (es, unreadable) = fetch_workspace_entries envs (unreadable_with outcome refs) in
      (entries_with outcome es, unreadable)

module _ {Callback : Type 0} where
  unfoldable pub apply_keyring_record :
      Keeper WorkspaceEntry Callback → Str → EntryOutcome → Fired WorkspaceEntry Callback
  apply_keyring_record k workspace_id (entry e) = upsert k e
  apply_keyring_record k workspace_id not_member = delete k workspace_id
  apply_keyring_record k workspace_id (unreadable_wrap uri) = withdraw_entry k workspace_id uri
  apply_keyring_record k workspace_id identity_mismatch = (k, [])

  abbrev pub deleted_by :
      KeyringDeleteOutcome → Str → Keeper WorkspaceEntry Callback → Fired WorkspaceEntry Callback
  deleted_by unchanged workspace_id k = (k, [])
  deleted_by rolled_back workspace_id k = (k, [])
  deleted_by torn_down workspace_id k = delete k workspace_id

  -- Only a chain without a live record takes the entry away.
  unfoldable pub apply_keyring_delete :
      Keeper WorkspaceEntry Callback → SseKeyringDeletePayload → Fired WorkspaceEntry Callback
  apply_keyring_delete k p = deleted_by p.outcome (deleted_workspace_id p) k
