-- ===== src/Tree/Cached.antt =====
-- `with_delta` and `from_cached_records` of directories/tree.rs. JSON is the pair `to_value` and
-- `from_value` of the serializer.
mod Examples
pub mod Lookup
use opake.Base.{
  Bool, true, false, not, Option, none, some, List, [], ◌∷◌, ◌++◌, Str, codes, ◌==◌, str_eq,
  contains, keep, is_some, Map, insert_all, keys, values,
}
use opake.Records.{Directory}
use opake.Events.{IndexerEnvelope}
use opake.Tree.{DirectoryTree}
use opake.Tree.Roots.{from_records}

pub record CachedRecord (Value : Type 0) : Type 0 where
  pub uri : Str
  pub cid : Str
  pub value : Value

unfoldable pub deleted_uris : List (IndexerEnvelope Directory) → List Str
deleted_uris [] = []
deleted_uris (e ∷ es) = elim e.deleted_at [
  | none ↦ deleted_uris es
  | some time ↦ e.uri ∷ deleted_uris es
]

module _ {Value : Type 0} (to_value : Directory → Option Value) where
  -- The records to insert, in order; one that does not serialize is skipped.
  unfoldable pub upserts : List (IndexerEnvelope Directory) → List (Str × CachedRecord Value)
  upserts [] = []
  upserts (e ∷ es) = elim e.deleted_at [
    | some time ↦ upserts es
    | none ↦ elim (to_value e.body) [
      | none ↦ upserts es
      | some value ↦ (e.uri, record { uri = e.uri; cid = []; value = value }) ∷ upserts es
    ]
  ]

  unfoldable pub upserted : List (IndexerEnvelope Directory) → Map Str (CachedRecord Value)
  upserted envelopes = insert_all [] (upserts envelopes)

  unfoldable pub with_delta :
      List (CachedRecord Value) → List (IndexerEnvelope Directory) → List (CachedRecord Value)
  with_delta records envelopes =
      keep (λ r. not (contains (keys (upserted envelopes)) r.uri))
        (keep (λ r. not (contains (deleted_uris envelopes) r.uri)) records)
      ++ values (upserted envelopes)

module _ {Value : Type 0} (from_value : Value → Option Directory) where
  pub readable_records : List (CachedRecord Value) → List (Str × Directory)
  readable_records [] = []
  readable_records (r ∷ rs) = elim (r.uri == codes "__sync__") [
    | true ↦ readable_records rs
    | false ↦ elim (from_value r.value) [
      | none ↦ readable_records rs
      | some dir ↦ (r.uri, dir) ∷ readable_records rs
    ]
  ]

  pub from_cached_records : List (CachedRecord Value) → DirectoryTree
  from_cached_records records = from_records (readable_records records)
