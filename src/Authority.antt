-- ===== src/Authority.antt =====
-- `verify_keyring_chain_authority` of directories/chain.rs in crates/opake-core: who may author each
-- supersede of a keyring chain. Byte fields are compared after decoding (`decode`, base64).
pub mod Escalation
pub mod Leave
mod Examples
use opake.Base.{
  ℕ, Bool, true, false, ◌&&◌, ◌||◌, not, Option, none, some, List, [], ◌∷◌, Str, ◌==◌, str_eq,
  nat_eq, any, find, keep, is_some, if◌then◌else◌,
}
use opake.Error.{Result, ok, err, ◌>>=◌, chain_authority_violation}
use opake.Atproto.{parse_at_uri}
use opake.Records.{
  AtBytes, WrappedKey, EncryptedMetadata, Keyring, KeyringMember, KeyHistoryEntry, same_role,
  is_manager_role,
}
use opake.Chain.{ChainNode}

module _ (decode : AtBytes → Option Str) where
  -- Both sides decode, to the same bytes.
  same_bytes : AtBytes → AtBytes → Bool
  same_bytes a b = elim (decode a) [
    | none ↦ false
    | some x ↦ elim (decode b) [ none ↦ false | some y ↦ x == y ]
  ]

  same_optional_wrapped_key : Option WrappedKey → Option WrappedKey → Bool
  same_optional_wrapped_key none none = true
  same_optional_wrapped_key (some next) (some expected) =
      next.did == expected.did
      && (next.algo == expected.algo && same_bytes next.ciphertext expected.ciphertext)
  same_optional_wrapped_key _ _ = false

  same_optional_approval : Option AtBytes → Option AtBytes → Bool
  same_optional_approval none none = true
  same_optional_approval (some next) (some expected) = same_bytes next expected
  same_optional_approval _ _ = false

  same_member : KeyringMember → KeyringMember → Bool
  same_member next expected =
      next.did == expected.did
      && (same_role next.role expected.role
          && (same_optional_wrapped_key next.wrapped_key expected.wrapped_key
              && same_optional_approval next.unverified_key_approval
                  expected.unverified_key_approval))

  same_metadata : EncryptedMetadata → EncryptedMetadata → Bool
  same_metadata next expected =
      same_bytes next.ciphertext expected.ciphertext && same_bytes next.nonce expected.nonce

  -- Equal lengths, and `zip` and `all`.
  same_members : List KeyringMember → List KeyringMember → Bool
  same_members [] [] = true
  same_members (next ∷ ns) (expected ∷ es) = same_member next expected && same_members ns es
  same_members _ _ = false

  same_history : List KeyHistoryEntry → List KeyHistoryEntry → Bool
  same_history [] [] = true
  same_history (next ∷ ns) (expected ∷ es) =
      (next.rotation == expected.rotation && same_members next.members expected.members)
      && same_history ns es
  same_history _ _ = false

  -- The author's own entry, looked up in the prior keyring, and the comparison of everything else.
  removes_only : Keyring → Keyring → Str → Option KeyringMember → Bool
  removes_only supersede prior author_did none = false
  removes_only supersede prior author_did (some author) =
      if is_manager_role author.role || any (λ m. m.did == author_did) supersede.members
      then false
      else same_members supersede.members (keep (λ m. not (m.did == author_did)) prior.members)
        && (supersede.opake_version == prior.opake_version
            && (supersede.algo == prior.algo
                && (supersede.rotation == prior.rotation
                    && (same_metadata supersede.encrypted_metadata prior.encrypted_metadata
                        && same_history supersede.key_history prior.key_history))))

  pub pure_self_removal : Keyring → Keyring → Str → Bool
  pure_self_removal supersede prior author_did =
      removes_only supersede prior author_did (find (λ m. m.did == author_did) prior.members)

  pub is_manager : Keyring → Str → Bool
  is_manager k did = any (λ m. m.did == did && is_manager_role m.role) k.members

  pub may_author : Keyring → Keyring → Str → Bool
  may_author supersede prior author_did =
      is_manager prior author_did || pure_self_removal supersede prior author_did

  -- One window of the chain.
  pub check_author : ChainNode Keyring → ChainNode Keyring → Result (Unit {0})
  check_author supersede prior = do
    parsed ← parse_at_uri supersede.uri
    (if may_author supersede.node prior.node parsed.authority
        then ok tt
        else err (chain_authority_violation supersede.uri parsed.authority))

  -- `chain.windows(2)`, in head to genesis order.
  pub verify_keyring_chain_authority : List (ChainNode Keyring) → Result (Unit {0})
  verify_keyring_chain_authority [] = ok tt
  verify_keyring_chain_authority (genesis ∷ []) = ok tt
  verify_keyring_chain_authority (supersede ∷ prior ∷ rest) = do
    done ← check_author supersede prior
    verify_keyring_chain_authority (prior ∷ rest)
