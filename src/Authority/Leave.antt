-- ===== src/Authority/Leave.antt =====
-- `pure_self_removal` of directories/chain.rs: supersedes by somebody who is not a manager.
use opake.Base.{
  ◌≡◌, refl, Bool, true, false, ◌&&◌, not, Option, some, List, [], ◌∷◌, Str, ◌==◌, str_eq, nat_eq,
  nat_beq_iff, str_beq_iff, any, find, keep, arith, Option-cases, inl, inr,
}
use opake.Records.{AtBytes, Keyring, KeyringMember}
use opake.Authority.{
  same_member, same_members, removes_only, pure_self_removal, is_manager, may_author,
}

abbrev pub is_member : Keyring → Str → Bool
is_member k did = any (λ m. m.did == did) k.members

module _ (decode : AtBytes → Option Str) where
  same_members-did :
      (did : Str) (xs ys : List KeyringMember)
      → same_members decode xs ys ≡ true
      → any (λ m. m.did == did) xs ≡ any (λ m. m.did == did) ys
  unfolding same_members same_member
  same_members-did did [] [] h = refl
  same_members-did did (a ∷ xs) (b ∷ ys) h =
      ground (arith, str_beq_iff a.did b.did, same_members-did did xs ys)
  same_members-did did [] (b ∷ ys) h = cc h
  same_members-did did (a ∷ xs) [] h = cc h

  keep-did :
      (did author : Str) (ms : List KeyringMember)
      → any (λ m. m.did == did) (keep (λ m. not (m.did == author)) ms)
        ≡ (any (λ m. m.did == did) ms && not (did == author))
  keep-did did author [] = refl
  keep-did did author (m ∷ ms) = ground (
    arith,
    keep-did did author ms,
    str_beq_iff m.did author,
    str_beq_iff m.did did,
    str_beq_iff did author,
  )

  find-any :
      (did : Str) (ms : List KeyringMember) (a : KeyringMember)
      → find (λ m. m.did == did) ms ≡ some a
      → any (λ m. m.did == did) ms ≡ true
  find-any did [] a h = cc h
  find-any did (m ∷ ms) a h = ground (arith, find-any did ms a)

  removal_facts :
      (s p : Keyring) (author : Str)
      → pure_self_removal decode s p author ≡ true
      → (same_members decode s.members (keep (λ m. not (m.did == author)) p.members) ≡ true)
        × (is_member p author ≡ true)
        × (s.rotation ≡ p.rotation)
        × (s.algo ≡ p.algo)
        × (s.opake_version ≡ p.opake_version)
  unfolding pure_self_removal removes_only
  removal_facts s p author h =
      elim (Option-cases (find (λ (m : KeyringMember). m.did == author) p.members)) [
        | inl e ↦ absurd (ground arith)
        | inr (a, e) ↦ ground (
          arith,
          e,
          find-any author p.members a e,
          str_beq_iff s.algo p.algo,
          nat_beq_iff s.rotation p.rotation,
        )
      ]

  -- A supersede that may be authored by someone who is no manager of the prior keyring removes
  -- that author, a member, and no one else, and keeps the rotation, the algorithm and the version.
  pub leave_exact :
      (s p : Keyring) (author : Str)
      → may_author decode s p author ≡ true
      → is_manager decode p author ≡ false
      → ((did : Str) → is_member s did ≡ (is_member p did && not (did == author)))
        × (is_member p author ≡ true)
        × (s.rotation ≡ p.rotation)
        × (s.algo ≡ p.algo)
        × (s.opake_version ≡ p.opake_version)
  leave_exact s p author h m =
      let removal : pure_self_removal decode s p author ≡ true =
        unfold may_author in ground arith in
      let (same, here, rotation, algo, version) = removal_facts s p author removal in
      (
        λ did. ground (
          arith,
          same_members-did did s.members (keep (λ k. not (k.did == author)) p.members) same,
          keep-did did author p.members,
        ),
        here,
        rotation,
        algo,
        version,
      )
