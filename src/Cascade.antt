-- ===== src/Cascade.antt =====
-- directories/cascade.rs of crates/opake-core: a cascade of directory supersedes, leaf first, each
-- level listing the head that was just written below it. The server is the parameter `Pds`: its
-- answer to a write may depend on all writes before it, so the state is the log of the writes that
-- were sent, oldest first.
pub mod Patch
pub mod Threads
pub mod Successors
mod Examples
use mathlib.Core.List.{reverse}
use opake.Base.{
  ℕ, Bool, true, false, Option, none, some, List, [], ◌∷◌, ◌++◌, Str, ◌==◌, str_eq, any, last,
  is_empty, if◌then◌else◌, Map,
}
use opake.Error.{Result, ok, err, ◌>>=◌, invalid_record, message}
use opake.Records.{
  KeyWrapping, EncryptedMetadata, ListingEntry, new_entry, Directory, schema_version,
}
use opake.Chain.{ChainNode, anchor_of, directory_superseding, Network, fetch_with_cache}

-- An answer to a write, and a chain head: a URI and a CID.
pub record ChainHead : Type 0 where
  pub uri : Str
  pub cid : Str

pub data LevelMode : Type 0 where
  supersede : Str → Str → KeyWrapping → EncryptedMetadata → Str → LevelMode
  genesis : KeyWrapping → EncryptedMetadata → Option Str → LevelMode

pub data AncestorLinkage : Type 0 where
  replace : Str → AncestorLinkage
  add : AncestorLinkage

pub record AncestorLevel : Type 0 where
  pub mode : LevelMode
  pub linkage : AncestorLinkage
  pub entries : List ListingEntry
  pub is_workspace_root : Bool

pub record LeafLevel : Type 0 where
  pub mode : LevelMode
  pub entries : List ListingEntry
  pub is_workspace_root : Bool

pub record CascadeStep : Type 0 where
  pub new_head : ChainHead
  pub superseded : Option Str

-- `put_record` at the rkey, or `create_record` with none, in the directory collection.
pub record Write : Type 0 where
  pub rkey : Option Str
  pub body : Directory

abbrev pub Pds : Type 0
Pds = List Write → Write → Result ChainHead

abbrev pub Logged : Type 0 → Type 0
Logged A = Result A × List Write

-- `unpack_mode` and the record literal of `write_level`.
pub level_write : Str → LevelMode → List ListingEntry → Bool → Str → Write
level_write workspace_id (supersede prior_uri prior_cid wrapping metadata lineage) entries root
      now =
    record {
      rkey = none;
      body = record {
        opake_version = schema_version;
        key_wrapping = wrapping;
        encrypted_metadata = metadata;
        entries = entries;
        supersedes = some prior_uri;
        supersedes_cid = some prior_cid;
        lineage = some lineage;
        workspace_id = some workspace_id;
        is_workspace_root = root;
        created_at = now;
        modified_at = some now;
      };
    }
level_write workspace_id (genesis wrapping metadata rkey) entries root now = record {
  rkey = rkey;
  body = record {
    opake_version = schema_version;
    key_wrapping = wrapping;
    encrypted_metadata = metadata;
    entries = entries;
    supersedes = none;
    supersedes_cid = none;
    lineage = none;
    workspace_id = some workspace_id;
    is_workspace_root = root;
    created_at = now;
    modified_at = some now;
  };
}

step_of : Write → Result ChainHead → Result CascadeStep
step_of w answer = do head ← answer; ok (record { new_head = head; superseded = w.body.supersedes })

pub send : Pds → List Write → Write → Logged CascadeStep
send pds log w = (step_of w (pds log w), log ++ w ∷ [])

-- The first entry with the target is overwritten.
pub replace_entry : List ListingEntry → Str → ChainHead → Option (List ListingEntry)
replace_entry [] prior link = none
replace_entry (e ∷ es) prior link =
    let rest = replace_entry es prior link in
    if e.target == prior
    then some (new_entry link.uri link.cid ∷ es)
    else (elim rest [ none ↦ none | some es' ↦ some (e ∷ es') ])

abbrev pub or_missing : Str → Option (List ListingEntry) → Result (List ListingEntry)
or_missing prior none = err (
    invalid_record
      (message "cascade ancestor missing expected child URI {prior_child_uri}" (prior ∷ [])))
or_missing prior (some patched) = ok patched

pub patch_child_pointer :
    List ListingEntry → AncestorLinkage → ChainHead → Result (List ListingEntry)
patch_child_pointer entries (replace prior) link =
    or_missing prior (replace_entry entries prior link)
patch_child_pointer entries add link =
    if any (λ e. e.target == link.uri) entries
    then err (
        invalid_record
          (message "cascade ancestor already contains child {new_uri}" (link.uri ∷ [])))
    else ok (entries ++ new_entry link.uri link.cid ∷ [])

module _ (pds : Pds) (workspace_id modified_at : Str) where
  write_ancestor : List Write → AncestorLevel → ChainHead → Logged CascadeStep
  write_ancestor log a link = elim (patch_child_pointer a.entries a.linkage link) [
    | err e ↦ (err e, log)
    | ok entries ↦
        send pds log (level_write workspace_id a.mode entries a.is_workspace_root modified_at)
  ]

  abbrev prepend : CascadeStep → Logged (List CascadeStep) → Logged (List CascadeStep)
  prepend step (ok steps, log) = (ok (step ∷ steps), log)
  prepend step (err e, log) = (err e, log)

  -- The ancestors leaf-side first, and the head of the level below; the steps in order.
  climb : List Write → ChainHead → List AncestorLevel → Logged (List CascadeStep)
  climb log link [] = (ok [], log)
  climb log link (a ∷ rest) =
      let (written, log') = write_ancestor log a link in
      elim written [
        | err e ↦ (err e, log')
        | ok step ↦ prepend step (climb log' step.new_head rest)
      ]

  pub execute_cascade : List Write → List AncestorLevel → LeafLevel → Logged (List CascadeStep)
  execute_cascade log ancestors leaf =
      let (written, log') =
        send pds log
          (level_write workspace_id leaf.mode leaf.entries leaf.is_workspace_root modified_at) in
      elim written [
        | err e ↦ (err e, log')
        | ok step ↦ prepend step (climb log' step.new_head (reverse ancestors))
      ]

-- A level that supersedes a fetched node: all but the listing is carried over.
abbrev supersede_node : ChainNode Directory → LevelMode
supersede_node n = supersede n.uri n.cid n.node.key_wrapping n.node.encrypted_metadata (anchor_of n)

pub ancestor_of : ChainNode Directory → Str → AncestorLevel
ancestor_of n child_uri = record {
  mode = supersede_node n;
  linkage = replace child_uri;
  entries = n.node.entries;
  is_workspace_root = n.node.is_workspace_root;
}

pub leaf_of : ChainNode Directory → List ListingEntry → LeafLevel
leaf_of n entries = record {
  mode = supersede_node n;
  entries = entries;
  is_workspace_root = n.node.is_workspace_root;
}

-- Root to leaf: each ancestor is linked to the node after it, and the last node is the leaf.
pub build_levels :
    ChainNode Directory
    → List (ChainNode Directory)
    → List ListingEntry
    → List AncestorLevel × LeafLevel
build_levels n [] new_leaf_entries = ([], leaf_of n new_leaf_entries)
build_levels n (m ∷ rest) new_leaf_entries =
    let (ancestors, leaf) = build_levels m rest new_leaf_entries in
    (ancestor_of n m.uri ∷ ancestors, leaf)

module _ {Value : Type 0} (net : Network Value Directory) where
  pub fetch_all : Map Str Str → List Str → Result (List (ChainNode Directory))
  fetch_all cache [] = ok []
  fetch_all cache (uri ∷ uris) = do
    (n, cache') ← fetch_with_cache net cache uri
    rest ← fetch_all cache' uris
    ok (n ∷ rest)

  abbrev empty_chain : Result (List AncestorLevel × LeafLevel)
  empty_chain = err (invalid_record (message "build_deep_cascade_levels: empty uri_chain" []))

  pub build_deep_cascade_levels :
      List Str → List ListingEntry → Result (List AncestorLevel × LeafLevel)
  build_deep_cascade_levels uri_chain new_leaf_entries = do
    records ← fetch_all [] uri_chain
    (elim records [ [] ↦ empty_chain | n ∷ rest ↦ ok (build_levels n rest new_leaf_entries) ])
