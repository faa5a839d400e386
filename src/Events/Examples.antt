-- ===== src/Events/Examples.antt =====
-- Runs of the lenient classification, over JSON values that are texts.
use opake.Base.{
  ◌≡◌, refl, true, false, none, some, [], ◌∷◌, Str, codes, str_eq, str_beq, ◌==◌, if◌then◌else◌,
  arith,
}
use opake.Error.{err, sse, message}
use opake.Events.{
  Json, Reader, RawEnvelope, raw_envelope, text_field, classify_sse_envelope, classify_envelopes,
}
use opake.Events.Decode.{Wire, from_name_and_data}
use opake.Events.Delivery.{as_listed, IsNullNoText, sse-eq-listing}

-- Every field is there and holds the whole value as a string, but for a null date of deletion.
abbrev values : Json Str
values = record {
  parse_or_null = λ s. s;
  field = λ v name. some (if name == codes "deletedAt" then [] else v);
  as_str = λ v. if v == [] then none else some v;
  is_null = λ v. v == [];
}

-- A reader of records that understands all versions 1.
abbrev reads : {Body : Type 0} → Body → Reader Str Body
reads body = record {
  peek_version = λ v. some 1;
  floor_present = λ v. true;
  from_value = λ v. some body;
  vocabulary_valid = λ n v. true;
}

abbrev parsed : RawEnvelope Str
parsed = record { uri = codes "x"; raw = codes "x"; indexed_at = codes "x"; deleted_at = none }

strictly_parsed : raw_envelope values (codes "x") ≡ some parsed
unfolding raw_envelope text_field str_beq
strictly_parsed = refl

nulls : IsNullNoText values
nulls v h = ground (arith, h)

sse-eq-listing_example :
    as_listed (classify_sse_envelope (reads (codes "y")) values (codes "x"))
    ≡ classify_envelopes (reads (codes "y")) (parsed ∷ [])
sse-eq-listing_example =
    sse-eq-listing (reads (codes "y")) values (codes "x") parsed nulls strictly_parsed

-- A reader that understands nothing.
abbrev silent : {Body : Type 0} → Reader Str Body
silent = record {
  peek_version = λ v. none;
  floor_present = λ v. false;
  from_value = λ v. none;
  vocabulary_valid = λ n v. false;
}

abbrev wire : Wire Str
wire = record {
  json = values;
  directories = silent;
  documents = silent;
  keyrings = silent;
  grants = silent;
  decode_delete = λ s. none;
  decode_keyring_delete = λ s. none;
  decode_forked = λ s. none;
}

refuses :
    from_name_and_data wire (codes "nope") []
    ≡ err (sse (message "unknown event type: {other}" (codes "nope" ∷ [])))
unfolding from_name_and_data str_beq
refuses = refl
