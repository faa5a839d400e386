-- ===== src/TreeKeeper/Echo.antt =====
-- What `adopt_keyring_rotation` of indexer/tree_keeper/mod.rs adopts, and a second delivery of the
-- same event.
use opake.Base.{
  ◌≡◌, refl, subst, true, Option, none, some, List, [], ◌∷◌, Str, Eq, str_eq, nat_eq, option_eq,
  option_beq_iff, nat_beq_iff, arith, Bool-cases, Option-cases, inl, inr,
}
use opake.Records.{Keyring, KeyringMember}
use opake.Events.{IndexerEnvelope}
use opake.Tree.Names.{Crypto, HistoricalKey, decrypt_names_with_group_keys}
use opake.Workspace.{
  KeyringCrypto, lineage_anchor, find_member, verify_workspace_identity, derive_historical_keys,
}
use opake.TreeKeeper.{WorkspaceTree}
use opake.TreeKeeper.Adopt.{view_of, event_group_key, same_history, adopted, with_keys, adopt_into}

module _ {Key PrivateKeys : Type 0} (c : Crypto Key PrivateKeys) (w : KeyringCrypto Key PrivateKeys)
    ⦃e : Eq Key⦄ where
  same_history_refl : (hs : List (HistoricalKey Key)) → same_history c w hs hs ≡ true
  same_history_refl [] = refl
  same_history_refl (h ∷ hs) =
      ground
        (arith, nat_beq_iff h.rotation h.rotation, e.equal_iff h.key h.key, same_history_refl hs)

  module _ (t : WorkspaceTree Key PrivateKeys) (uri did : Str) (env : IndexerEnvelope Keyring) where
    abbrev pub IsVerified : Option Key → List (HistoricalKey Key) → Type 0
    IsVerified key historical =
        verify_workspace_identity w env.body (lineage_anchor env.body env.uri) key historical ≡ true

    -- The new state: the event's keys, proved for the identity, and the names decrypted with them.
    pub record Adopts (t' : WorkspaceTree Key PrivateKeys) : Type 0 where
      pub verified : IsVerified t'.group_key t'.historical_keys
      pub rotation : t'.rotation ≡ env.body.rotation
      pub historical : t'.historical_keys ≡ derive_historical_keys w env.body did env.uri t.keys
      pub names :
          t'.tree ≡ decrypt_names_with_group_keys c t.tree did t.keys ((uri, view_of t') ∷ [])
      pub echo : adopt_into c w t' uri did env ≡ none

    adopted-Adopts :
        (m : KeyringMember)
        → find_member did env.body.members ≡ some m
        → IsVerified
            (event_group_key c w t.keys env m)
            (derive_historical_keys w env.body did env.uri t.keys)
        → Adopts (
            adopted c w t uri did
              (event_group_key c w t.keys env m)
              env.body.rotation
              (derive_historical_keys w env.body did env.uri t.keys))
    unfolding adopt_into
    adopted-Adopts m f v =
        let key = event_group_key c w t.keys env m in
        let historical = derive_historical_keys w env.body did env.uri t.keys in
        record {
          verified = v;
          rotation = refl;
          historical = refl;
          names = refl;
          echo =
              rw
                (
                  f,
                  adopt_into,
                  v,
                  (nat_beq_iff env.body.rotation env.body.rotation).1 refl,
                  (option_beq_iff key key).1 refl,
                  same_history_refl historical,
                )
                refl;
        }

    with_keys-Adopts :
        (m : KeyringMember) (t' : WorkspaceTree Key PrivateKeys)
        → find_member did env.body.members ≡ some m
        → with_keys c w t uri did env
            (event_group_key c w t.keys env m)
            (derive_historical_keys w env.body did env.uri t.keys)
          ≡ some t'
        → Adopts t'
    with_keys-Adopts m t' f h =
        let key = event_group_key c w t.keys env m in
        let historical = derive_historical_keys w env.body did env.uri t.keys in
        elim (Bool-cases
          (verify_workspace_identity w env.body (lineage_anchor env.body env.uri) key historical)) [
            | inr v ↦ absurd (ground (arith, rw v at h))
            | inl v ↦
                let same : adopted c w t uri did key env.body.rotation historical ≡ t' =
                  ground (arith, v, h) in
                subst Adopts same (adopted-Adopts m f v)
          ]

    -- A keyring event that is adopted into a live tree carries keys that are proved for the
    -- workspace's identity, sets the rotation and the history to the event's and the names to
    -- those of the whole-tree pass with the new keys, and is not adopted a second time.
    pub adopt_into-Adopts :
        (t' : WorkspaceTree Key PrivateKeys) → adopt_into c w t uri did env ≡ some t' → Adopts t'
    unfolding adopt_into
    adopt_into-Adopts t' h = elim (Option-cases (find_member did env.body.members)) [
      | inl q ↦ absurd (ground (arith, rw (q, adopt_into) at h))
      | inr (m, q) ↦ with_keys-Adopts m t' q (rw (q, adopt_into) at h)
    ]
