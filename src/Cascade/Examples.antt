-- ===== src/Cascade/Examples.antt =====
-- A cascade of two levels, and two patches.
use mathlib.Core.List.{reverse}
use opake.Base.{◌≡◌, refl, false, none, some, List, [], ◌∷◌, ◌++◌, Str, codes, str_eq, str_beq}
use opake.Error.{ok}
use opake.Records.{ListingEntry, new_entry, Directory, direct}
use opake.Chain.{ChainNode}
use opake.Cascade.{
  ChainHead, replace, CascadeStep, Write, Pds, level_write, step_of, send, replace_entry,
  patch_child_pointer, write_ancestor, climb, execute_cascade, supersede_node, ancestor_of, leaf_of,
  build_levels,
}
use opake.Cascade.Patch.{Patched, patch_child_pointer-Patched}
use opake.Cascade.Threads.{Climbs, execute_cascade-Climbs}
use opake.Cascade.Successors.{Zip, Succeeds, cascade-Succeeds}

abbrev node_of : Str → List ListingEntry → ChainNode Directory
node_of uri entries = record {
  uri = uri;
  cid = codes "c";
  node = record {
    opake_version = 1;
    key_wrapping = direct [];
    encrypted_metadata = record {
      ciphertext = record { encoded = [] };
      nonce = record { encoded = [] };
    };
    entries = entries;
    supersedes = none;
    supersedes_cid = none;
    lineage = none;
    workspace_id = none;
    is_workspace_root = false;
    created_at = [];
    modified_at = none;
  };
}

abbrev top : ChainNode Directory
top = node_of (codes "root") (new_entry (codes "leaf") (codes "c") ∷ [])

abbrev below : ChainNode Directory
below = node_of (codes "leaf") []

abbrev fresh : List ListingEntry
fresh = new_entry (codes "doc") (codes "d") ∷ []

-- Every write is taken, and its URI is "new" with one mark for each write before it.
abbrev mark : List Write → Str
mark [] = codes "new"
mark (w ∷ ws) = 33 ∷ mark ws

abbrev taking : Pds
taking = λ log w. ok (record { uri = mark log; cid = codes "n" })

abbrev first_write : Write
first_write = level_write (codes "w") (supersede_node below) fresh false (codes "now")

abbrev second_entries : List ListingEntry
second_entries = new_entry (codes "new") (codes "n") ∷ []

abbrev second_write : Write
second_write = level_write (codes "w") (supersede_node top) second_entries false (codes "now")

abbrev first_head : ChainHead
first_head = record { uri = codes "new"; cid = codes "n" }

abbrev second_head : ChainHead
second_head = record { uri = codes "!new"; cid = codes "n" }

abbrev steps : List CascadeStep
steps =
    record { new_head = first_head; superseded = some (codes "leaf") }
    ∷ record { new_head = second_head; superseded = some (codes "root") }
    ∷ []

two_levels :
    execute_cascade taking
      (codes "w")
      (codes "now")
      []
      (build_levels top (below ∷ []) fresh).0
      (build_levels top (below ∷ []) fresh).1
    ≡ (ok steps, first_write ∷ second_write ∷ [])
unfolding execute_cascade climb write_ancestor send step_of level_write build_levels ancestor_of
    leaf_of patch_child_pointer replace_entry str_beq
two_levels = refl

patch_child_pointer-Patched_example :
    Patched (new_entry (codes "leaf") (codes "c") ∷ []) (replace (codes "leaf")) first_head (
      patch_child_pointer
        (new_entry (codes "leaf") (codes "c") ∷ [])
        (replace (codes "leaf"))
        first_head)
patch_child_pointer-Patched_example =
    patch_child_pointer-Patched (new_entry (codes "leaf") (codes "c") ∷ []) (replace (codes "leaf"))
      first_head

execute_cascade-Climbs_example :
    (w : Write) × (ws : List Write) × (head : ChainHead) × (w
      ≡ level_write
          (codes "w")
          (leaf_of below fresh).mode
          (leaf_of below fresh).entries
          (leaf_of below fresh).is_workspace_root
          (codes "now"))
    × (first_write ∷ second_write ∷ [] ≡ [] ++ w ∷ ws)
    × (taking [] w ≡ ok head)
    × Climbs taking
        (codes "w")
        (codes "now")
        ([] ++ w ∷ [])
        head
        (reverse (ancestor_of top (codes "leaf") ∷ []))
        ws
unfolding build_levels
execute_cascade-Climbs_example =
    execute_cascade-Climbs taking (codes "w") (codes "now") [] (ancestor_of top (codes "leaf") ∷ [])
      (leaf_of below fresh) steps (first_write ∷ second_write ∷ []) two_levels

second-Climbs :
    Climbs taking
      (codes "w")
      (codes "now")
      (first_write ∷ [])
      first_head
      (ancestor_of top (codes "leaf") ∷ [])
      (second_write ∷ [])
unfolding ancestor_of patch_child_pointer replace_entry str_beq
second-Climbs = ((second_entries, refl, refl), (second_head, refl, tt))

cascade-Succeeds_example :
    (ws : List Write) × (first_write ∷ second_write ∷ [] ≡ [] ++ ws)
    × Zip Succeeds (reverse (top ∷ below ∷ [])) ws
cascade-Succeeds_example =
    cascade-Succeeds taking (codes "w") (codes "now") top (below ∷ []) fresh [] steps
      (first_write ∷ second_write ∷ []) two_levels
