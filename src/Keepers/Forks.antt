-- ===== src/Keepers/Forks.antt =====
-- crates/opake-core, indexer/chain_fork_keeper.rs: the subscribers of chain forks.
use opake.Base.{ℕ, suc, List, [], Map, insert, remove, nat_eq, map}
use opake.Events.{SseChainForked}

pub record ChainForkKeeper (Callback : Type 0) : Type 0 where
  pub watchers : Map ℕ Callback
  pub next_watcher_id : ℕ

module _ {Callback : Type 0} where
  abbrev pub new_fork_keeper : ChainForkKeeper Callback
  new_fork_keeper = record { watchers = []; next_watcher_id = 0 }

  -- No first firing: forks are not a state.
  unfoldable pub install_watcher :
      ChainForkKeeper Callback → Callback → ℕ × ChainForkKeeper Callback
  install_watcher k cb = (
    k.next_watcher_id,
    record {
      watchers = insert k.watchers k.next_watcher_id cb;
      next_watcher_id = suc k.next_watcher_id;
    },
  )

  unfoldable pub unwatch : ChainForkKeeper Callback → ℕ → ChainForkKeeper Callback
  unwatch k handle = record k { watchers = remove k.watchers handle }

  unfoldable pub dispatch :
      ChainForkKeeper Callback → SseChainForked → List (Callback × SseChainForked)
  dispatch k event = map (λ (w : ℕ × Callback). (w.1, event)) k.watchers

  unfoldable pub uninstall_all : ChainForkKeeper Callback → ChainForkKeeper Callback
  uninstall_all k = record k { watchers = [] }
