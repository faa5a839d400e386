-- ===== src/Events.antt =====
-- indexer/types.rs and indexer/sse/events.rs of crates/opake-core: envelopes, the lenient
-- classification of records, and the events of the stream. JSON is the parameter `Json`, and the typed
-- parse and the vocabulary check of a record are the parameter `Reader`.
pub mod Decode
pub mod Delivery
mod Examples
use opake.Base.{
  ℕ, Bool, true, false, ◌&&◌, Option, none, some, List, [], ◌∷◌, ◌++◌, Str, codes, ◌==◌, str_eq,
  ltb, unwrap_or, if◌then◌else◌,
}
use opake.Error.{Error, Result, ok, err, ◌>>=◌, sse, message}
use opake.Records.{
  AtBytes, WrappedKey, EncryptedMetadata, KeyringRef, Directory, Keyring, UnreadableReason,
  UnreadableRef, corrupt, needs_newer_client, schema_version,
}

-- A record with the metadata of the indexer.
pub record IndexerEnvelope (Body : Type 0) : Type 0 where
  pub uri : Str
  pub body : Body
  pub indexed_at : Str
  pub deleted_at : Option Str

-- The URI of the genesis keyring.
unfoldable pub keyring_workspace_id : IndexerEnvelope Keyring → Str
keyring_workspace_id e = unwrap_or e.body.lineage e.uri

pub record Grant : Type 0 where
  pub opake_version : ℕ
  pub document : Str
  pub recipient : Str
  pub wrapped_key : WrappedKey
  pub encrypted_metadata : EncryptedMetadata
  pub created_at : Str

pub record EncryptionEnvelope : Type 0 where
  pub algo : Str
  pub nonce : AtBytes
  pub keys : List WrappedKey

pub record KeyringEncryption : Type 0 where
  pub keyring_ref : KeyringRef
  pub algo : Str
  pub nonce : AtBytes

pub data Encryption : Type 0 where
  direct_encryption : EncryptionEnvelope → Encryption
  keyring_encryption : KeyringEncryption → Encryption

pub record CidLink : Type 0 where
  pub link : Str

pub record BlobRef : Type 0 where
  pub blob_type : Str
  pub reference : CidLink
  pub mime_type : Str
  pub size : ℕ

pub record Document : Type 0 where
  pub opake_version : ℕ
  pub blob : BlobRef
  pub encryption : Encryption
  pub encrypted_metadata : EncryptedMetadata
  pub supersedes : Option Str
  pub supersedes_cid : Option Str
  pub lineage : Option Str
  pub workspace_id : Option Str
  pub created_at : Str
  pub modified_at : Option Str

pub data EnvelopeClassification (Body : Type 0) : Type 0 where
  understood : IndexerEnvelope Body → EnvelopeClassification Body
  unreadable : UnreadableRef → EnvelopeClassification Body

-- `from_slice`, `Value::Null` on failure; `get` of a field; `as_str`; `is_null`.
pub record Json (Value : Type 0) : Type 0 where
  pub parse_or_null : Str → Value
  pub field : Value → Str → Option Value
  pub as_str : Value → Option Str
  pub is_null : Value → Bool

-- `peek_version`, `RecordKind::floor_present`, `from_value` and `RecordKind::vocabulary_valid`.
pub record Reader (Value Body : Type 0) : Type 0 where
  pub peek_version : Value → Option ℕ
  pub floor_present : Value → Bool
  pub from_value : Value → Option Body
  pub vocabulary_valid : ℕ → Value → Bool

pub data Classified (Body : Type 0) : Type 0 where
  readable : Body → Classified Body
  refused : UnreadableReason → Classified Body

unfoldable pub is_future_version : ℕ → Bool
is_future_version version = ltb schema_version version

-- `get` and `as_str`.
unfoldable pub text_field : {Value : Type 0} → Json Value → Value → Str → Option Str
text_field j value name = elim (j.field value name) [ none ↦ none | some v ↦ j.as_str v ]

module _ {Value Body : Type 0} (r : Reader Value Body) where
  -- The version is judged first, and the vocabulary last.
  unfoldable pub classify_record : Value → Classified Body
  unfolding is_future_version
  classify_record raw = elim (r.peek_version raw) [
    | none ↦ refused corrupt
    | some version ↦ elim (is_future_version version) [
      | true ↦ refused (if r.floor_present raw then needs_newer_client else corrupt)
      | false ↦ elim (r.from_value raw) [
        | none ↦ refused corrupt
        | some body ↦ if r.vocabulary_valid version raw then readable body else refused corrupt
      ]
    ]
  ]

  module _ (j : Json Value) where
    -- An understood record needs a URI to be placed by.
    pub place : Value → Option Str → Classified Body → EnvelopeClassification Body
    place value uri (refused reason) = unreadable (record { uri = uri; reason = reason })
    place value none (readable body) = unreadable (record { uri = none; reason = corrupt })
    place value (some uri) (readable body) = understood (record {
      uri = uri;
      body = body;
      indexed_at = unwrap_or (text_field j value (codes "indexedAt")) [];
      deleted_at = text_field j value (codes "deletedAt");
    })

    pub classify_sse_envelope : Str → EnvelopeClassification Body
    classify_sse_envelope bytes =
        let value = j.parse_or_null bytes in
        let uri = text_field j value (codes "uri") in
        elim (j.field value (codes "record")) [
          | none ↦ unreadable (record { uri = uri; reason = corrupt })
          | some raw ↦ place value uri (classify_record raw)
        ]

-- The envelope of a listing, its record not yet read.
pub record RawEnvelope (Value : Type 0) : Type 0 where
  pub uri : Str
  pub raw : Value
  pub indexed_at : Str
  pub deleted_at : Option Str

-- An `Option<String>` with a default: absent or null is none, and what else is no string fails.
abbrev pub optional_text : {Value : Type 0} → Json Value → Value → Option (Option Str)
optional_text j v =
    if j.is_null v then some none else (elim (j.as_str v) [ none ↦ none | some s ↦ some (some s) ])

abbrev pub optional_text_field : {Value : Type 0} → Json Value → Value → Str → Option (Option Str)
optional_text_field j value name = elim (j.field value name) [
  | none ↦ some none
  | some v ↦ optional_text j v
]

-- All fields are there, each of its type.
abbrev pub strict :
    {Value : Type 0}
    → Option Str
    → Option Value
    → Option Str
    → Option (Option Str)
    → Option (RawEnvelope Value)
strict (some uri) (some raw) (some indexed_at) (some deleted_at) =
    some (record { uri = uri; raw = raw; indexed_at = indexed_at; deleted_at = deleted_at })
strict _ _ _ _ = none

-- The derived parse of an envelope object, as the listings use it: a missing or mistyped field
-- fails, and with it the whole listing.
unfoldable pub raw_envelope : {Value : Type 0} → Json Value → Value → Option (RawEnvelope Value)
raw_envelope j value =
    strict (text_field j value (codes "uri")) (j.field value (codes "record"))
      (text_field j value (codes "indexedAt")) (optional_text_field j value (codes "deletedAt"))

module _ {Value Body : Type 0} (r : Reader Value Body) where
  abbrev pub listed :
      RawEnvelope Value
      → Classified Body
      → List (IndexerEnvelope Body) × List UnreadableRef
      → List (IndexerEnvelope Body) × List UnreadableRef
  listed env (readable body) (records, refs) = (
    record { uri = env.uri; body = body; indexed_at = env.indexed_at; deleted_at = env.deleted_at }
        ∷ records,
    refs,
  )
  listed env (refused reason) (records, refs) =
      (records, record { uri = some env.uri; reason = reason } ∷ refs)

  -- The typed envelopes, and the references to the records that were skipped.
  unfoldable pub classify_envelopes :
      List (RawEnvelope Value) → List (IndexerEnvelope Body) × List UnreadableRef
  classify_envelopes [] = ([], [])
  classify_envelopes (env ∷ rest) = listed env (classify_record r env.raw) (classify_envelopes rest)

pub data KeyringDeleteOutcome : Type 0 where
  rolled_back torn_down unchanged : KeyringDeleteOutcome

pub record SseKeyringDeletePayload : Type 0 where
  pub uri : Str
  pub workspace_id : Option Str
  pub outcome : KeyringDeleteOutcome

unfoldable pub deleted_workspace_id : SseKeyringDeletePayload → Str
deleted_workspace_id p = unwrap_or p.workspace_id p.uri

pub record SseChainForked : Type 0 where
  pub workspace_id : Str
  pub scope : Str
  pub path : Option Str
  pub your_uri : Str
  pub fork_point_uri : Str
  pub winner_uri : Str
  pub winner_cid : Str

pub data CorruptScope : Type 0 where
  directory_scope document_scope keyring_scope grant_scope : CorruptScope

pub record SseCorruptRecord : Type 0 where
  pub uri : Option Str
  pub reason : UnreadableReason
  pub scope : CorruptScope

-- A delete payload is its URI.
pub data SseEvent : Type 0 where
  directory_upsert : IndexerEnvelope Directory → SseEvent
  directory_delete : Str → SseEvent
  document_upsert : IndexerEnvelope Document → SseEvent
  document_delete : Str → SseEvent
  keyring_upsert : IndexerEnvelope Keyring → SseEvent
  keyring_delete : SseKeyringDeletePayload → SseEvent
  grant_upsert : IndexerEnvelope Grant → SseEvent
  grant_delete : Str → SseEvent
  corrupt_record : SseCorruptRecord → SseEvent
  chain_forked : SseChainForked → SseEvent
  reconnect : SseEvent

unfoldable pub event_workspace_id : SseEvent → Option Str
event_workspace_id (directory_upsert e) = e.body.workspace_id
event_workspace_id (document_upsert e) = e.body.workspace_id
event_workspace_id (keyring_upsert e) = some (unwrap_or e.body.lineage e.uri)
event_workspace_id (chain_forked f) = some f.workspace_id
event_workspace_id (keyring_delete p) = some (deleted_workspace_id p)
event_workspace_id _ = none
