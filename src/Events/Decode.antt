-- ===== src/Events/Decode.antt =====
-- indexer/sse/events.rs: the wire names of the events, and the decoding of a frame by its name.
use opake.Base.{Option, none, some, [], ◌∷◌, Str, codes, ◌==◌, str_eq, if◌then◌else◌}
use opake.Error.{Result, ok, err, ◌>>=◌, sse, message}
use opake.Records.{Directory, Keyring}
use opake.Events.{
  SseEvent, directory_upsert, directory_delete, document_upsert, document_delete, keyring_upsert,
  keyring_delete, grant_upsert, grant_delete, corrupt_record, chain_forked, reconnect, CorruptScope,
  directory_scope, document_scope, keyring_scope, grant_scope, IndexerEnvelope, Grant, Document,
  Json, Reader, EnvelopeClassification, understood, unreadable, SseKeyringDeletePayload,
  SseChainForked, classify_sse_envelope,
}

abbrev pub directory_upsert_name : Str
directory_upsert_name = codes "at.opake.directory:upsert"

abbrev pub directory_delete_name : Str
directory_delete_name = codes "at.opake.directory:delete"

abbrev pub document_upsert_name : Str
document_upsert_name = codes "at.opake.document:upsert"

abbrev pub document_delete_name : Str
document_delete_name = codes "at.opake.document:delete"

abbrev pub keyring_upsert_name : Str
keyring_upsert_name = codes "at.opake.keyring:upsert"

abbrev pub keyring_delete_name : Str
keyring_delete_name = codes "at.opake.keyring:delete"

abbrev pub grant_upsert_name : Str
grant_upsert_name = codes "at.opake.grant:upsert"

abbrev pub grant_delete_name : Str
grant_delete_name = codes "at.opake.grant:delete"

abbrev pub chain_forked_name : Str
chain_forked_name = codes "chain:forked"

unfoldable pub event_name : SseEvent → Str
event_name (directory_upsert e) = directory_upsert_name
event_name (directory_delete uri) = directory_delete_name
event_name (document_upsert e) = document_upsert_name
event_name (document_delete uri) = document_delete_name
event_name (keyring_upsert e) = keyring_upsert_name
event_name (keyring_delete p) = keyring_delete_name
event_name (grant_upsert e) = grant_upsert_name
event_name (grant_delete uri) = grant_delete_name
event_name (corrupt_record c) = codes "__corrupt__"
event_name (chain_forked f) = chain_forked_name
event_name reconnect = codes "__reconnect__"

-- What the serializer gives: one reader for each kind, and the strict decoders of the payloads.
pub record Wire (Value : Type 0) : Type 0 where
  pub json : Json Value
  pub directories : Reader Value Directory
  pub documents : Reader Value Document
  pub keyrings : Reader Value Keyring
  pub grants : Reader Value Grant
  pub decode_delete : Str → Option Str
  pub decode_keyring_delete : Str → Option SseKeyringDeletePayload
  pub decode_forked : Str → Option SseChainForked

-- A poison record is a delivered event.
unfoldable pub upsert_event :
    {Body : Type 0}
    → EnvelopeClassification Body
    → CorruptScope
    → (IndexerEnvelope Body → SseEvent)
    → SseEvent
upsert_event (understood env) scope on_ok = on_ok env
upsert_event (unreadable ref) scope on_ok =
    corrupt_record (record { uri = ref.uri; reason = ref.reason; scope = scope })

abbrev pub decode : {A : Type 0} → Option A → Str → Result A
decode none tag = err (sse (message "failed to parse {tag} payload" (tag ∷ [])))
decode (some a) tag = ok a

module _ {Value : Type 0} (w : Wire Value) where
  -- The chain of string tests of the `match`.
  unfoldable pub from_name_and_data : Str → Str → Result SseEvent
  from_name_and_data name bytes =
      if name == directory_upsert_name
      then ok (
          upsert_event (classify_sse_envelope w.directories w.json bytes) directory_scope
            directory_upsert)
      else if name == directory_delete_name
      then (do uri ← decode (w.decode_delete bytes) name; ok (directory_delete uri))
      else if name == document_upsert_name
      then ok (
          upsert_event (classify_sse_envelope w.documents w.json bytes) document_scope
            document_upsert)
      else if name == document_delete_name
      then (do uri ← decode (w.decode_delete bytes) name; ok (document_delete uri))
      else if name == keyring_upsert_name
      then ok (
          upsert_event (classify_sse_envelope w.keyrings w.json bytes) keyring_scope keyring_upsert)
      else if name == keyring_delete_name
      then (do p ← decode (w.decode_keyring_delete bytes) name; ok (keyring_delete p))
      else if name == grant_upsert_name
      then ok (upsert_event (classify_sse_envelope w.grants w.json bytes) grant_scope grant_upsert)
      else if name == grant_delete_name
      then (do uri ← decode (w.decode_delete bytes) name; ok (grant_delete uri))
      else if name == chain_forked_name
      then (do f ← decode (w.decode_forked bytes) name; ok (chain_forked f))
      else err (sse (message "unknown event type: {other}" (name ∷ [])))
