-- ===== src/Chain.antt =====
-- directories/chain.rs of crates/opake-core: fetching a chain link, walking a supersede chain back
-- to its genesis, and the check of the genesis URI. The network (DID resolution, `getRecord` over
-- HTTP, JSON) is the parameter `Network`. The walk's loop takes fuel: `none` is fuel that ran out.
pub mod Walk
pub mod Genesis
pub mod Fuel
mod Examples
use opake.Base.{
  ℕ, zero, suc, Bool, true, false, ◌&&◌, Option, none, some, List, [], ◌∷◌, Str, ◌==◌, str_eq, ltb,
  contains, last, unwrap_or, if◌then◌else◌, Map, get, insert,
}
use opake.Error.{
  Result, ok, err, ◌>>=◌, chain_cycle, chain_genesis_mismatch, chain_link_corrupt,
  chain_link_needs_newer_client, invalid_record, message,
}
use opake.Atproto.{AtUri, parse_at_uri}
use opake.Records.{Directory, Keyring, schema_version}

-- Records that take part in a supersede chain.
pub record Superseding (R : Type 0) : Type 0 where
  pub supersedes_uri : R → Option Str
  pub supersedes_cid : R → Option Str
  pub declared_lineage : R → Option Str

instance abbrev pub directory_superseding : Superseding Directory
directory_superseding = record {
  supersedes_uri = λ d. d.supersedes;
  supersedes_cid = λ d. d.supersedes_cid;
  declared_lineage = λ d. d.lineage;
}

instance abbrev pub keyring_superseding : Superseding Keyring
keyring_superseding = record {
  supersedes_uri = λ k. k.supersedes;
  supersedes_cid = λ k. k.supersedes_cid;
  declared_lineage = λ k. k.lineage;
}

-- The genesis URI that the record declares, or its own URI.
abbrev pub lineage_anchor : {R : Type 0} ⦃s : Superseding R⦄ → R → Str → Str
lineage_anchor ⦃s⦄ r own_uri = unwrap_or (s.declared_lineage r) own_uri

pub record ChainNode (R : Type 0) : Type 0 where
  pub uri : Str
  pub cid : Str
  pub node : R

abbrev pub anchor_of : {R : Type 0} ⦃s : Superseding R⦄ → ChainNode R → Str
anchor_of n = lineage_anchor n.node n.uri

-- What `com.atproto.repo.getRecord` answers: the URI and the CID are the server's.
pub record RecordEntry (Value : Type 0) : Type 0 where
  pub uri : Str
  pub cid : Str
  pub value : Value

-- `resolve_pds` is `resolve_did_document` and `pds_from_did_document`; `peek_version` and `parse`
-- read the JSON value.
pub record Network (Value R : Type 0) : Type 0 where
  pub resolve_pds : Str → Result Str
  pub get_record_public : Str → AtUri → Result (RecordEntry Value)
  pub peek_version : Value → Option ℕ
  pub parse : Value → Option R

module _ {Value R : Type 0} (net : Network Value R) where
  unfoldable pub resolve_cached : Map Str Str → Str → Result (Str × Map Str Str)
  resolve_cached cache did = elim (get cache did) [
    | some cached ↦ ok (cached, cache)
    | none ↦ (do resolved ← net.resolve_pds did; ok (resolved, insert cache did resolved))
  ]

  -- The version is judged before the typed parse.
  unfoldable pub classify_link : RecordEntry Value → Result (ChainNode R)
  classify_link entry = elim (net.peek_version entry.value) [
    | none ↦ err (chain_link_corrupt entry.uri)
    | some version ↦
        if ltb schema_version version
        then err (chain_link_needs_newer_client entry.uri version schema_version)
        else (elim (net.parse entry.value) [
          | none ↦ err (chain_link_corrupt entry.uri)
          | some r ↦ ok (record { uri = entry.uri; cid = entry.cid; node = r })
        ])
  ]

  unfoldable pub fetch_with_cache : Map Str Str → Str → Result (ChainNode R × Map Str Str)
  fetch_with_cache cache uri = do
    parsed ← parse_at_uri uri
    (pds, cache') ← resolve_cached cache parsed.authority
    entry ← net.get_record_public pds parsed
    link ← classify_link entry
    ok (link, cache')

  pub fetch_chain_node : Str → Result (ChainNode R)
  fetch_chain_node uri = do (link, cache) ← fetch_with_cache [] uri; ok link

-- The pin, if the child carries one, is the CID that was served.
abbrev pub pin_holds : Option Str → Str → Bool
pin_holds none cid = true
pin_holds (some pinned) cid = pinned == cid

module _ {R : Type 0} ⦃s : Superseding R⦄ where
  -- Both checks on a fetched node against the child whose back-edge led to it.
  unfoldable pub link_holds : Option (ChainNode R) → ChainNode R → Bool
  link_holds none n = true
  link_holds (some child) n =
      anchor_of child == anchor_of n && pin_holds (s.supersedes_cid child.node) n.cid

module _ {Value R : Type 0} ⦃s : Superseding R⦄ (net : Network Value R) where
  abbrev pub Walked : Type 0
  Walked = Option (Result (List (ChainNode R)))

  -- `nodes.push(node)` before what the rest of the walk pushes.
  abbrev pub push_node : ChainNode R → Walked → Walked
  push_node n none = none
  push_node n (some (err e)) = some (err e)
  push_node n (some (ok nodes)) = some (ok (n ∷ nodes))

  -- `child` is `nodes.last()`.
  unfoldable pub walk : ℕ → Option (ChainNode R) → List Str → Map Str Str → Str → Walked
  walk zero child visited cache uri = none
  walk (suc fuel) child visited cache uri = elim (contains visited uri) [
    | true ↦ some (err (chain_cycle uri))
    | false ↦ elim (fetch_with_cache net cache uri) [
      | err e ↦ some (err e)
      | ok (n, cache') ↦ elim (link_holds child n) [
        | false ↦ some (ok [])
        | true ↦ elim (s.supersedes_uri n.node) [
          | none ↦ some (ok (n ∷ []))
          | some prior ↦ push_node n (walk fuel (some n) (uri ∷ visited) cache' prior)
        ]
      ]
    ]
  ]

  unfoldable pub walk_back_to_genesis : ℕ → Str → Walked
  walk_back_to_genesis fuel start_uri = walk fuel none [] [] start_uri

  -- The genesis check of `verify_and_walk_chain` on the chain that the walk returned.
  unfoldable pub check_genesis : List (ChainNode R) → Str → Result (List (ChainNode R))
  check_genesis chain expected = elim (last chain) [
    | none ↦ err (invalid_record (message "chain walk returned empty result" []))
    | some genesis ↦
        if genesis.uri == expected
        then ok chain
        else err (chain_genesis_mismatch expected genesis.uri)
  ]

  unfoldable pub verify_and_walk_chain : ℕ → Str → Str → Walked
  verify_and_walk_chain fuel head_uri expected = elim (walk_back_to_genesis fuel head_uri) [
    | none ↦ none
    | some walked ↦ some (do chain ← walked; check_genesis chain expected)
  ]
