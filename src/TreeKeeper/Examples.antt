-- ===== src/TreeKeeper/Examples.antt =====
-- Runs of the live trees of indexer/tree_keeper/mod.rs.
use opake.Base.{
  ◌≡◌, refl, ℕ, none, some, [], ◌∷◌, codes, str_eq, str_beq, nat_eq, option_eq, get, arith,
}
use opake.Records.{Keyring}
use opake.Events.{IndexerEnvelope, directory_delete}
use opake.Atproto.{parse_at_uri, parse_segments, strip_prefix, split_once}
use opake.Tree.{IsWellFormed}
use opake.Tree.Fixtures.{small, album}
use opake.Tree.Names.{Crypto, for_rotation}
use opake.Workspace.{lineage_anchor, derive_historical_keys, verify_workspace_identity}
use opake.Workspace.Examples.{crypto, genesis, genesis_uri}
use opake.TreeKeeper.{
  WorkspaceTree, held_cabinet, held_workspace, cabinet_scope, workspace_scope, TreeKeeper,
}
use opake.TreeKeeper.Adopt.{adopt_into, adopted}
use opake.TreeKeeper.Apply.{apply_event, apply_keeper_delete}
use opake.TreeKeeper.Places.{IsPlaced, Returns}
use opake.TreeKeeper.Placed.{apply_event-Returns}
use opake.TreeKeeper.Closing.{DeletesOnce, delete_closes_exactly}
use opake.TreeKeeper.Echo.{Adopts, adopt_into-Adopts}

abbrev names : Crypto ℕ ℕ
names = record {
  unwrap_key = λ w keys version. none;
  unwrap_content_key = λ wrapped key. none;
  decrypt_metadata = λ key m anchor. none;
}

abbrev held : WorkspaceTree ℕ ℕ
held = record { tree = small; group_key = none; rotation = 3; historical_keys = []; keys = 0 }

abbrev keeper : TreeKeeper ℕ ℕ ℕ
keeper = record {
  did = codes "me";
  cabinet = some (held_cabinet small 0);
  workspaces = (genesis_uri, held_workspace held) ∷ [];
  watchers = (0, record { scope = cabinet_scope; directory_uri = album; callback = 7 }) ∷ [];
  next_watcher_id = 1;
}

small-IsWellFormed : IsWellFormed small
unfolding get
small-IsWellFormed = record { disjoint = λ u. ground arith }

keeper-IsPlaced : IsPlaced keeper
unfolding get
keeper-IsPlaced = record {
  cabinet_placed = small-IsWellFormed;
  workspaces_placed = (small-IsWellFormed, tt);
  handles_given = (omega arith, tt);
  handles_unique = (refl, tt);
}

apply_event-Returns_example :
    Returns IsPlaced (apply_event names crypto keeper (directory_delete album))
apply_event-Returns_example =
    apply_event-Returns names crypto keeper (directory_delete album) keeper-IsPlaced

delete_closes_exactly_example :
    DeletesOnce keeper album
      (cabinet_scope ∷ workspace_scope genesis_uri ∷ [])
      (apply_keeper_delete keeper album)
delete_closes_exactly_example = delete_closes_exactly keeper album keeper-IsPlaced

abbrev at_genesis : IndexerEnvelope Keyring
at_genesis = record { uri = genesis_uri; body = genesis; indexed_at = []; deleted_at = none }

abbrev after_rotation : WorkspaceTree ℕ ℕ
after_rotation = adopted names crypto held genesis_uri (codes "me") (some 7) 0 []

adopts : adopt_into names crypto held genesis_uri (codes "me") at_genesis ≡ some after_rotation
unfolding adopt_into str_beq lineage_anchor derive_historical_keys verify_workspace_identity
    for_rotation parse_at_uri parse_segments strip_prefix split_once
adopts = refl

adopt_into-Adopts_example :
    Adopts names crypto held genesis_uri (codes "me") at_genesis after_rotation
adopt_into-Adopts_example =
    adopt_into-Adopts names crypto held genesis_uri (codes "me") at_genesis after_rotation adopts
