-- ===== src/Authority/Examples.antt =====
-- Two keyring chains of two links: a manager who adds a manager, and an editor who leaves.
use opake.Base.{
  ◌≡◌, refl, true, false, ◌&&◌, not, Option, none, some, List, [], ◌∷◌, Str, codes, ◌==◌, str_eq,
  str_beq,
}
use opake.Error.{ok}
use opake.Atproto.{AtUri, parse_at_uri, parse_segments, strip_prefix}
use opake.Atproto.Split.{split_once}
use opake.Records.{AtBytes, KeyringMember, Role, manager, editor, Keyring, same_role}
use opake.Chain.{ChainNode}
use opake.Authority.{
  same_bytes, same_optional_wrapped_key, same_optional_approval, same_member, same_metadata,
  same_members, same_history, removes_only, pure_self_removal, is_manager, may_author, check_author,
  verify_keyring_chain_authority,
}
use opake.Authority.Escalation.{no_escalation}
use opake.Authority.Leave.{is_member, leave_exact}

abbrev raw : AtBytes → Option Str
raw b = some b.encoded

abbrev no_bytes : AtBytes
no_bytes = record { encoded = [] }

abbrev member : Str → Role → KeyringMember
member did role = record {
  did = did;
  role = role;
  wrapped_key = none;
  unverified_key_approval = none;
}

abbrev keyring_of : List KeyringMember → Keyring
keyring_of members = record {
  opake_version = 1;
  algo = codes "aes";
  members = members;
  rotation = 0;
  key_history = [];
  encrypted_metadata = record { ciphertext = no_bytes; nonce = no_bytes };
  supersedes = none;
  supersedes_cid = none;
  lineage = none;
  created_at = [];
  modified_at = none;
}

abbrev ann : Str
ann = codes "did:plc:ann"

abbrev bob : Str
bob = codes "did:plc:bob"

abbrev before : ChainNode Keyring
before = record {
  uri = codes "at://did:plc:ann/at.opake.keyring/1";
  cid = codes "c1";
  node = keyring_of (member ann manager ∷ member bob editor ∷ []);
}

abbrev promoted : ChainNode Keyring
promoted = record {
  uri = codes "at://did:plc:ann/at.opake.keyring/2";
  cid = codes "c2";
  node = keyring_of (member ann manager ∷ member bob manager ∷ []);
}

accepted : verify_keyring_chain_authority raw (promoted ∷ before ∷ []) ≡ ok tt
unfolding verify_keyring_chain_authority check_author may_author is_manager parse_at_uri
    parse_segments strip_prefix split_once str_beq
accepted = refl

bob_new : is_manager raw promoted.node bob ≡ true
unfolding is_manager str_beq
bob_new = refl

bob_old : is_manager raw before.node bob ≡ false
unfolding is_manager str_beq
bob_old = refl

no_escalation_example :
    (u : AtUri) × (parse_at_uri promoted.uri ≡ ok u)
    × (is_manager raw before.node u.authority ≡ true)
no_escalation_example = no_escalation raw [] promoted before [] bob accepted bob_new bob_old

abbrev left : Keyring
left = keyring_of (member ann manager ∷ [])

bob_leaves : may_author raw left before.node bob ≡ true
unfolding may_author is_manager pure_self_removal removes_only same_members same_member same_role
    same_optional_wrapped_key same_optional_approval same_metadata same_bytes same_history str_beq
bob_leaves = refl

leave_exact_example :
    ((did : Str) → is_member left did ≡ (is_member before.node did && not (did == bob)))
    × (is_member before.node bob ≡ true)
    × (left.rotation ≡ before.node.rotation)
    × (left.algo ≡ before.node.algo)
    × (left.opake_version ≡ before.node.opake_version)
leave_exact_example = leave_exact raw left before.node bob bob_leaves bob_old
