-- ===== src/TreeKeeper/Adopted.antt =====
-- The trees that `adopt_keyring_rotation` of indexer/tree_keeper/mod.rs leaves.
use opake.Base.{
  ◌&&◌, not, option_eq, Option, none, some, List, Str, Eq, str_eq, nat_eq, ◌==◌, Bool-cases,
  Option-cases, inl, inr,
}
use opake.Records.{Keyring}
use opake.Events.{IndexerEnvelope}
use opake.Tree.{IsWellFormed}
use opake.Tree.Names.{Crypto, HistoricalKey}
use opake.Tree.Names.Domain.{decrypt_names-IsWellFormed}
use opake.Workspace.{
  KeyringCrypto, lineage_anchor, find_member, verify_workspace_identity, derive_historical_keys,
}
use opake.TreeKeeper.{WorkspaceTree, HeldTree, held_cabinet, held_workspace}
use opake.TreeKeeper.Adopt.{adopt_into, adopt_held, with_keys, event_group_key, same_history}
use opake.TreeKeeper.Places.{IsWorkspace, OnSome}

module _ {Key PrivateKeys : Type 0} (c : Crypto Key PrivateKeys) (w : KeyringCrypto Key PrivateKeys)
    ⦃e : Eq Key⦄ where
  with_keys-IsWellFormed :
      (t : WorkspaceTree Key PrivateKeys) (uri did : Str) (env : IndexerEnvelope Keyring)
      (key : Option Key) (historical : List (HistoricalKey Key))
      → IsWellFormed t.tree
      → OnSome
          (λ (x : WorkspaceTree Key PrivateKeys). IsWellFormed x.tree)
          (with_keys c w t uri did env key historical)
  with_keys-IsWellFormed t uri did env key historical h =
      elim (Bool-cases (
        not (
          verify_workspace_identity w env.body (lineage_anchor env.body env.uri) key historical))) [
            | inl q ↦ rw q tt
            | inr q ↦
                elim (Bool-cases (
                  t.rotation == env.body.rotation
                  && (t.group_key == key && same_history c w t.historical_keys historical))) [
                    | inl r ↦ rw (q, r) tt
                    | inr r ↦ rw (q, r) (decrypt_names-IsWellFormed c did t.keys _ t.tree h)
                  ]
          ]

  pub adopt_held-IsWellFormed :
      (o : Option (HeldTree Key PrivateKeys)) (uri did : Str) (env : IndexerEnvelope Keyring)
      → OnSome IsWorkspace o
      → OnSome
          (λ (x : WorkspaceTree Key PrivateKeys). IsWellFormed x.tree)
          (adopt_held c w o uri did env)
  unfolding adopt_into
  adopt_held-IsWellFormed none uri did env a = tt
  adopt_held-IsWellFormed (some (held_cabinet t s)) uri did env a = tt
  adopt_held-IsWellFormed (some (held_workspace t)) uri did env a =
      elim (Option-cases (find_member did env.body.members)) [
        | inl q ↦ rw (q, OnSome, adopt_into) tt
        | inr (m, q) ↦
            rw (q, OnSome, adopt_into)
              (with_keys-IsWellFormed t uri did env (event_group_key c w t.keys env m)
                (derive_historical_keys w env.body did env.uri t.keys) a)
      ]
