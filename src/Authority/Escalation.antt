-- ===== src/Authority/Escalation.antt =====
-- `verify_keyring_chain_authority` of directories/chain.rs and the managers of a keyring chain.
use opake.Base.{
  ◌≡◌, ◌⊎◌, inl, inr, refl, Bool, true, false, ◌&&◌, not, Option, List, [], ◌∷◌, ◌++◌, Str, ◌==◌,
  str_eq, str_beq_iff, any, find, keep, arith, Option-cases,
}
use opake.Error.{ok, Result-cases}
use opake.Atproto.{AtUri, parse_at_uri}
use opake.Records.{AtBytes, Keyring, KeyringMember, Role, same_role, is_manager_role}
use opake.Chain.{ChainNode}
use opake.Authority.{
  same_member, same_members, removes_only, pure_self_removal, is_manager, may_author, check_author,
  verify_keyring_chain_authority,
}

same_role-manager : (a b : Role) → same_role a b ≡ true → is_manager_role a ≡ is_manager_role b
unfolding same_role
same_role-manager Role.manager b h = ground arith
same_role-manager Role.editor b h = ground arith
same_role-manager Role.viewer b h = ground arith
same_role-manager (Role.unknown s) b h = ground arith

module _ (decode : AtBytes → Option Str) where
  abbrev manages : Str → KeyringMember → Bool
  manages did m = m.did == did && is_manager_role m.role

  same_member-manages :
      (did : Str) (a b : KeyringMember)
      → same_member decode a b ≡ true
      → manages did a ≡ manages did b
  unfolding same_member
  same_member-manages did a b h =
      ground (arith, str_beq_iff a.did b.did, same_role-manager a.role b.role)

  same_members-manages :
      (did : Str) (xs ys : List KeyringMember)
      → same_members decode xs ys ≡ true
      → any (manages did) xs ≡ any (manages did) ys
  unfolding same_members
  same_members-manages did [] [] h = refl
  same_members-manages did (a ∷ xs) (b ∷ ys) h =
      ground (arith, same_member-manages did a b, same_members-manages did xs ys)
  same_members-manages did [] (b ∷ ys) h = cc h
  same_members-manages did (a ∷ xs) [] h = cc h

  keep-manages :
      (did author : Str) (ms : List KeyringMember)
      → any (manages did) (keep (λ m. not (m.did == author)) ms) ≡ true
      → any (manages did) ms ≡ true
  keep-manages did author [] h = h
  keep-manages did author (m ∷ ms) h = ground (arith, keep-manages did author ms)

  -- What a self-removal keeps: a manager of the superseding keyring was a manager before.
  removal-manages :
      (s p : Keyring) (author did : Str)
      → pure_self_removal decode s p author ≡ true
      → is_manager decode s did ≡ true
      → is_manager decode p did ≡ true
  unfolding pure_self_removal removes_only is_manager
  removal-manages s p author did h m =
      let kept : List KeyringMember = keep (λ m. not (m.did == author)) p.members in
      elim (Option-cases (find (λ (m : KeyringMember). m.did == author) p.members)) [
        | inl e ↦ absurd (ground arith)
        | inr (a, e) ↦
            ground
              (arith, e, same_members-manages did s.members kept, keep-manages did author p.members)
      ]

  authority-tail :
      (s : ChainNode Keyring) (rest : List (ChainNode Keyring))
      → verify_keyring_chain_authority decode (s ∷ rest) ≡ ok tt
      → verify_keyring_chain_authority decode rest ≡ ok tt
  unfolding verify_keyring_chain_authority
  authority-tail s [] h = refl
  authority-tail s (p ∷ rest) h = ground arith

  authority-suffix :
      (before rest : List (ChainNode Keyring))
      → verify_keyring_chain_authority decode (before ++ rest) ≡ ok tt
      → verify_keyring_chain_authority decode rest ≡ ok tt
  authority-suffix [] rest h = h
  authority-suffix (s ∷ before) rest h = authority-suffix before rest (authority-tail s _ h)

  author_of :
      (s p : ChainNode Keyring) (rest : List (ChainNode Keyring))
      → verify_keyring_chain_authority decode (s ∷ p ∷ rest) ≡ ok tt
      → (u : AtUri) × (parse_at_uri s.uri ≡ ok u)
        × ((is_manager decode p.node u.authority ≡ true)
            ⊎ (pure_self_removal decode s.node p.node u.authority ≡ true))
  unfolding verify_keyring_chain_authority check_author may_author
  author_of s p rest h = elim (Result-cases (parse_at_uri s.uri)) [
    | inl (x, e) ↦ absurd (ground arith)
    | inr (u, e) ↦ (u, e, ground arith)
  ]

  -- In a keyring chain that the authority check accepts, whoever is a manager after a link and was
  -- none before it was put there by an author who parsed from the link's URI and was a manager of
  -- the prior keyring.
  pub no_escalation :
      (before : List (ChainNode Keyring)) (s p : ChainNode Keyring)
      (after : List (ChainNode Keyring)) (did : Str)
      → verify_keyring_chain_authority decode (before ++ s ∷ p ∷ after) ≡ ok tt
      → is_manager decode s.node did ≡ true
      → is_manager decode p.node did ≡ false
      → (u : AtUri) × (parse_at_uri s.uri ≡ ok u) × (is_manager decode p.node u.authority ≡ true)
  no_escalation before s p after did h m n =
      let (u, e, a) = author_of s p after (authority-suffix before (s ∷ p ∷ after) h) in
      (u, e, ground (arith, removal-manages s.node p.node u.authority did))
