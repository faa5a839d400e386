-- ===== src/Events/Delivery.antt =====
-- Records that arrive by the event stream and by a listing, of indexer/types.rs and
-- indexer/sse/events.rs.
use opake.Base.{
  ◌≡◌, inl, inr, refl, Bool, true, false, ◌||◌, some, List, [], ◌∷◌, Str, codes, ◌==◌, str_eq,
  str_beq, str_beq_iff, Option, none, arith, Bool-cases, Option-cases,
}
use opake.Error.{Error, ok, err}
use opake.Records.{UnreadableRef}
use opake.Events.{
  IndexerEnvelope, EnvelopeClassification, understood, unreadable, Json, Reader, Classified,
  readable, refused, classify_record, text_field, optional_text_field, optional_text, strict,
  raw_envelope, place, classify_sse_envelope, RawEnvelope, listed, classify_envelopes, SseEvent,
}
use opake.Events.Decode.{
  Wire, from_name_and_data, directory_upsert_name, document_upsert_name, keyring_upsert_name,
  grant_upsert_name,
}

-- One classified envelope as the listing counts it.
abbrev pub as_listed :
    {Body : Type 0} → EnvelopeClassification Body → List (IndexerEnvelope Body) × List UnreadableRef
as_listed (understood env) = (env ∷ [], [])
as_listed (unreadable ref) = ([], ref ∷ [])

-- `as_str` of null gives nothing.
abbrev pub IsNullNoText : {Value : Type 0} → Json Value → Type 0
IsNullNoText {Value} j = (v : Value) → j.is_null v ≡ true → j.as_str v ≡ none

-- An optional text that parses strictly is the one that is read leniently.
optional_text-as_str :
    {Value : Type 0} (j : Json Value) (v : Value) (t : Option Str)
    → IsNullNoText j
    → optional_text j v ≡ some t
    → j.as_str v ≡ t
optional_text-as_str j v t n h = elim (Bool-cases (j.is_null v)) [
  | inl q ↦ ground (arith, q, n v q, h)
  | inr q ↦ elim (Option-cases (j.as_str v)) [
    | inl a ↦ absurd (ground (arith, q, a, h))
    | inr (s, a) ↦ ground (arith, q, a, h)
  ]
]

optional_text_field-text_field :
    {Value : Type 0} (j : Json Value) (value : Value) (name : Str) (t : Option Str)
    → IsNullNoText j
    → optional_text_field j value name ≡ some t
    → text_field j value name ≡ t
unfolding text_field
optional_text_field-text_field j value name t n h = elim (Option-cases (j.field value name)) [
  | inl q ↦ ground (arith, q, h)
  | inr (v, q) ↦
      rw (q, text_field) (optional_text-as_str j v t n (rw (q, optional_text_field) at h))
]

-- The fields of an envelope that parses strictly.
record HasFields {Value : Type 0} (uri : Option Str) (raw : Option Value) (indexed_at : Option Str)
    (deleted_at : Option (Option Str)) (env : RawEnvelope Value) : Type 0 where
  uri_lem : uri ≡ some env.uri
  raw_lem : raw ≡ some env.raw
  indexed_lem : indexed_at ≡ some env.indexed_at
  deleted_lem : deleted_at ≡ some env.deleted_at

strict-HasFields :
    {Value : Type 0} (uri : Option Str) (raw : Option Value) (indexed_at : Option Str)
    (deleted_at : Option (Option Str)) (env : RawEnvelope Value)
    → strict uri raw indexed_at deleted_at ≡ some env
    → HasFields uri raw indexed_at deleted_at env
strict-HasFields none raw indexed_at deleted_at env h = cc h
strict-HasFields (some u) none indexed_at deleted_at env h = cc h
strict-HasFields (some u) (some r) none deleted_at env h = cc h
strict-HasFields (some u) (some r) (some i) none env h = cc h
strict-HasFields (some u) (some r) (some i) (some d) env h = record {
  uri_lem = ground (arith, h);
  raw_lem = ground (arith, h);
  indexed_lem = ground (arith, h);
  deleted_lem = ground (arith, h);
}

place-listed :
    {Value Body : Type 0} (r : Reader Value Body) (j : Json Value) (value : Value)
    (env : RawEnvelope Value) (c : Classified Body)
    → text_field j value (codes "indexedAt") ≡ some env.indexed_at
    → text_field j value (codes "deletedAt") ≡ env.deleted_at
    → as_listed (place r j value (some env.uri) c) ≡ listed r env c ([], [])
unfolding place
place-listed r j value env (readable body) p q = rw (p, q) refl
place-listed r j value env (refused reason) p q = refl

-- Where `as_str` of a null gives nothing, an envelope that the strict parser of the listings
-- accepts is classified as an event of the stream as it is as an element of a listing: the same
-- typed envelope with the same metadata, or the same reference with the same reason.
pub sse-eq-listing :
    {Value Body : Type 0} (r : Reader Value Body) (j : Json Value) (bytes : Str)
    (env : RawEnvelope Value)
    → IsNullNoText j
    → raw_envelope j (j.parse_or_null bytes) ≡ some env
    → as_listed (classify_sse_envelope r j bytes) ≡ classify_envelopes r (env ∷ [])
unfolding raw_envelope classify_sse_envelope classify_envelopes
sse-eq-listing r j bytes env n h =
    let value = j.parse_or_null bytes in
    let f =
      strict-HasFields (text_field j value (codes "uri")) (j.field value (codes "record"))
        (text_field j value (codes "indexedAt")) (optional_text_field j value (codes "deletedAt"))
        env h in
    rw (f.raw_lem, classify_sse_envelope, f.uri_lem)
      (place-listed r j value env (classify_record r env.raw) f.indexed_lem
        (optional_text_field-text_field j value (codes "deletedAt") env.deleted_at n f.deleted_lem))

abbrev pub is_upsert_name : Str → Bool
is_upsert_name name =
    name == directory_upsert_name
    || (name == document_upsert_name || (name == keyring_upsert_name || name == grant_upsert_name))

module _ {Value : Type 0} (w : Wire Value) (bytes : Str) where
  delivered :
      (name : Str)
      → is_upsert_name name ≡ true
      → (e : SseEvent) × (from_name_and_data w name bytes ≡ ok e)
  unfolding from_name_and_data str_beq
  delivered name h = elim (Bool-cases (name == directory_upsert_name)) [
    | inl q ↦ rw ((str_beq_iff name directory_upsert_name).0 q) (_, refl)
    | inr n₁ ↦ elim (Bool-cases (name == document_upsert_name)) [
      | inl q ↦ rw ((str_beq_iff name document_upsert_name).0 q) (_, refl)
      | inr n₂ ↦ elim (Bool-cases (name == keyring_upsert_name)) [
        | inl q ↦ rw ((str_beq_iff name keyring_upsert_name).0 q) (_, refl)
        | inr n₃ ↦ elim (Bool-cases (name == grant_upsert_name)) [
          | inl q ↦ rw ((str_beq_iff name grant_upsert_name).0 q) (_, refl)
          | inr n₄ ↦ absurd (ground (arith, n₁, n₂, n₃, n₄, h))
        ]
      ]
    ]
  ]

-- An upsert is never an error: what fails to decode is another event.
pub from_name_and_data-upsert :
    {Value : Type 0} (w : Wire Value) (name bytes : Str) (e : Error)
    → from_name_and_data w name bytes ≡ err e
    → is_upsert_name name ≡ false
from_name_and_data-upsert w name bytes e h = elim (Bool-cases (is_upsert_name name)) [
  | inr n ↦ n
  | inl q ↦ let (event, p) = delivered w bytes name q in absurd (ground (arith, h, p))
]
