-- ===== src/Chain/Examples.antt =====
-- A chain of two directory records on a small network, and one forged answer.
use opake.Base.{
  ◌≡◌, ◌≢◌, refl, false, Option, none, some, [], ◌∷◌, Str, codes, ◌==◌, str_eq, str_beq,
  str_beq_iff, last, if◌then◌else◌, All, arith, Map, get, insert,
}
use opake.Error.{ok, err, >>=-ok, not_found, message}
use opake.Atproto.{parse_at_uri, parse_segments, strip_prefix}
use opake.Atproto.Split.{split_once}
use opake.Records.{AtBytes, EncryptedMetadata, Directory, direct}
use opake.Chain.{
  directory_superseding, ChainNode, RecordEntry, Network, anchor_of, resolve_cached, classify_link,
  fetch_with_cache, link_holds, walk, walk_back_to_genesis, check_genesis, verify_and_walk_chain,
}
use opake.Chain.Walk.{Chained, walk_back_to_genesis-Chained}
use opake.Chain.Fuel.{IsUniverse, walk_back_to_genesis_ends}
use opake.Chain.Genesis.{verify_and_walk_chain_sound, forged_genesis}

abbrev no_bytes : AtBytes
no_bytes = record { encoded = [] }

abbrev no_metadata : EncryptedMetadata
no_metadata = record { ciphertext = no_bytes; nonce = no_bytes }

abbrev genesis_uri : Str
genesis_uri = codes "at://did:plc:a/at.opake.directory/g"

abbrev head_uri : Str
head_uri = codes "at://did:plc:a/at.opake.directory/h"

abbrev version : Option Str → Option Str → Option Str → Directory
version prior cid lineage = record {
  opake_version = 1;
  key_wrapping = direct [];
  encrypted_metadata = no_metadata;
  entries = [];
  supersedes = prior;
  supersedes_cid = cid;
  lineage = lineage;
  workspace_id = none;
  is_workspace_root = false;
  created_at = [];
  modified_at = none;
}

abbrev genesis_node : ChainNode Directory
genesis_node = record { uri = genesis_uri; cid = codes "c1"; node = version none none none }

abbrev head_node : ChainNode Directory
head_node = record {
  uri = head_uri;
  cid = codes "c2";
  node = version (some genesis_uri) (some (codes "c1")) (some genesis_uri);
}

abbrev entry_of : ChainNode Directory → RecordEntry Directory
entry_of n = record { uri = n.uri; cid = n.cid; value = n.node }

-- Answers by the record key alone; a value is the record itself.
abbrev honest : Network Directory Directory
honest = record {
  resolve_pds = λ did. ok (codes "pds");
  get_record_public = λ pds u.
      if u.rkey == codes "g"
      then ok (entry_of genesis_node)
      else if u.rkey == codes "h"
      then ok (entry_of head_node)
      else err (not_found (message "record" []));
  peek_version = λ d. some d.opake_version;
  parse = λ d. some d;
}

honest_walk : walk_back_to_genesis honest 3 head_uri ≡ some (ok (head_node ∷ genesis_node ∷ []))
unfolding walk_back_to_genesis walk fetch_with_cache parse_at_uri parse_segments strip_prefix
    split_once resolve_cached classify_link link_holds get insert str_beq
honest_walk = refl

honest_accepts :
    verify_and_walk_chain honest 3 head_uri genesis_uri ≡ some (ok (head_node ∷ genesis_node ∷ []))
unfolding verify_and_walk_chain check_genesis walk_back_to_genesis walk fetch_with_cache
    parse_at_uri parse_segments strip_prefix split_once resolve_cached classify_link link_holds get
    insert str_beq
honest_accepts = refl

walk_back_to_genesis-Chained_example : Chained honest head_uri none (head_node ∷ genesis_node ∷ [])
walk_back_to_genesis-Chained_example =
    walk_back_to_genesis-Chained honest 3 head_uri (head_node ∷ genesis_node ∷ []) honest_walk

verify_and_walk_chain_sound_example :
    Chained honest head_uri none (head_node ∷ genesis_node ∷ [])
    × ((g : ChainNode Directory) × (last (head_node ∷ genesis_node ∷ []) ≡ some g)
        × (g.uri ≡ genesis_uri)
        × All (λ n. anchor_of n ≡ anchor_of g) (head_node ∷ genesis_node ∷ []))
verify_and_walk_chain_sound_example =
    verify_and_walk_chain_sound honest 3 head_uri genesis_uri (head_node ∷ genesis_node ∷ [])
      honest_accepts

-- Every record that can be had supersedes the genesis, itself included: a cycle.
abbrev cyclic : Network Directory Directory
cyclic = record {
  resolve_pds = λ did. ok (codes "pds");
  get_record_public = λ pds u. ok (
      entry_of (record {
        uri = genesis_uri;
        cid = codes "c1";
        node = version (some genesis_uri) none none;
      }));
  peek_version = λ d. some 1;
  parse = λ d. some (version (some genesis_uri) none none);
}

cyclic-serves :
    (cache : Map Str Str) (uri : Str) (n : ChainNode Directory) (cache' : Map Str Str)
    → fetch_with_cache cyclic cache uri ≡ ok (n, cache')
    → n.node.supersedes ≡ some genesis_uri
unfolding fetch_with_cache classify_link str_beq
cyclic-serves cache uri n cache' f =
    let (u, p, f₁) = >>=-ok (parse_at_uri uri) _ f in
    let (found, r, f₂) = >>=-ok (resolve_cached cyclic cache u.authority) _ f₁ in ground (arith, f₂)

cyclic-IsUniverse : IsUniverse cyclic (genesis_uri ∷ head_uri ∷ [])
cyclic-IsUniverse = record {
  closed = λ cache uri n cache' prior f s.
      ground (arith, cyclic-serves cache uri n cache' f, s, str_beq_iff genesis_uri prior);
}

walk_back_to_genesis_ends_example : walk_back_to_genesis cyclic 3 head_uri ≢ none
unfolding str_beq
walk_back_to_genesis_ends_example =
    walk_back_to_genesis_ends cyclic (genesis_uri ∷ head_uri ∷ []) 3 head_uri cyclic-IsUniverse refl
      (omega arith)

-- The server of the head answers with a record of its own that claims the genesis URI.
abbrev forged_node : ChainNode Directory
forged_node = record { uri = genesis_uri; cid = codes "evil"; node = version none none none }

abbrev forging : Network Directory Directory
forging = record {
  resolve_pds = λ did. ok (codes "pds");
  get_record_public = λ pds u. ok (entry_of forged_node);
  peek_version = λ d. some 1;
  parse = λ d. some d;
}

forged_fetch :
    fetch_with_cache forging [] head_uri ≡ ok (forged_node, (codes "did:plc:a", codes "pds") ∷ [])
unfolding fetch_with_cache parse_at_uri parse_segments strip_prefix split_once resolve_cached
    classify_link get insert str_beq
forged_fetch = refl

forged_genesis_example :
    verify_and_walk_chain forging 1 head_uri genesis_uri ≡ some (ok (forged_node ∷ []))
forged_genesis_example =
    forged_genesis forging 0 head_uri genesis_uri forged_node
      ((codes "did:plc:a", codes "pds") ∷ []) forged_fetch refl refl
