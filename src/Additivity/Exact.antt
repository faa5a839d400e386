-- ===== src/Additivity/Exact.antt =====
-- The additivity check of directories/chain.rs, against a description of additive listings.
use opake.Base.{
  ◌≡◌, ◌↔◌, ◌⊎◌, inl, inr, refl, Bool, true, false, ◌&&◌, not, Option, some, List, [], ◌∷◌, Str,
  ◌==◌, str_eq, str_beq_iff, contains, keep, is_empty, Map, get, insert_all, arith, ap, All,
  Option-cases, Bool-cases,
}
use opake.Error.{ok, Result-cases}
use opake.Atproto.{AtUri, parse_at_uri}
use opake.Records.{Directory}
use opake.Additivity.{
  targets, claimed_by, dedup, missing_entries, check_record, check_records,
  verify_directory_additivity,
}

contains-dedup : (xs : List Str) (u : Str) → contains (dedup xs) u ≡ contains xs u
unfolding dedup
contains-dedup [] u = refl
contains-dedup (x ∷ xs) u =
    ground (arith, contains-dedup xs u, contains-dedup xs x, str_beq_iff x u)

contains-keep :
    (p : Str → Bool) (xs : List Str) (u : Str) → contains (keep p xs) u ≡ (contains xs u && p u)
contains-keep p [] u = refl
contains-keep p (x ∷ xs) u = elim (Bool-cases (x == u)) [
  | inl e ↦ ground (arith, contains-keep p xs u, ap p ((str_beq_iff x u).0 e))
  | inr e ↦ ground (arith, e, contains-keep p xs u)
]

empty_of_contains : (xs : List Str) → is_empty xs ≡ true → (u : Str) → contains xs u ≡ false
empty_of_contains [] h u = refl
empty_of_contains (x ∷ xs) h u = cc h

empty_of_none : (xs : List Str) → ((u : Str) → contains xs u ≡ false) → is_empty xs ≡ true
empty_of_none [] h = refl
empty_of_none (x ∷ xs) h = ground (arith, h x, str_beq_iff x x)

-- `u` is superseded by one of the targets.
abbrev pub Claims : (Str → Option Str) → List Str → Str → Type 0
Claims supersedes_of ts u = (t : Str) × (contains ts t ≡ true) × (supersedes_of t ≡ some u)

module _ (supersedes_of : Str → Option Str) where
  claimed_by_sound :
      (ts : List Str) (u : Str)
      → contains (claimed_by supersedes_of ts) u ≡ true
      → Claims supersedes_of ts u
  unfolding claimed_by
  claimed_by_sound [] u h = cc h
  claimed_by_sound (t ∷ ts) u h = elim (Option-cases (supersedes_of t)) [
    | inl e ↦ let (t', m, c) = claimed_by_sound ts u (ground arith) in (t', ground (arith, m), c)
    | inr (v, e) ↦ elim (Bool-cases (v == u)) [
      | inl q ↦ (t, ground (arith, str_beq_iff t t), ground (arith, e, str_beq_iff v u))
      | inr q ↦ let (t', m, c) = claimed_by_sound ts u (ground arith) in (t', ground (arith, m), c)
    ]
  ]

  claimed_by_complete :
      (ts : List Str) (u t : Str)
      → contains ts t ≡ true
      → supersedes_of t ≡ some u
      → contains (claimed_by supersedes_of ts) u ≡ true
  unfolding claimed_by
  claimed_by_complete [] u t m c = cc m
  claimed_by_complete (x ∷ ts) u t m c = elim (Bool-cases (x == t)) [
    | inl q ↦
        let e : supersedes_of x ≡ some u = rw ((str_beq_iff x t).0 q) c in
        ground (arith, e, str_beq_iff u u)
    | inr q ↦ ground (arith, claimed_by_complete ts u t)
  ]

  -- Every entry of the prior listing is still there, or some new target supersedes it.
  abbrev pub IsAdditive : Directory → Directory → Type 0
  IsAdditive prior dir =
      (t : Str)
      → contains (targets prior) t ≡ true
      → (contains (targets dir) t ≡ true) ⊎ Claims supersedes_of (targets dir) t

  contains-missing :
      (prior dir : Directory) (t : Str)
      → contains (missing_entries supersedes_of prior dir) t ≡ (
          (contains (targets prior) t && not (contains (targets dir) t))
          && not (contains (claimed_by supersedes_of (dedup (targets dir))) t))
  unfolding missing_entries
  contains-missing prior dir t = simp (contains-keep, contains-dedup)

  missing_entries-IsAdditive :
      (prior dir : Directory)
      → is_empty (missing_entries supersedes_of prior dir) ≡ true
      → IsAdditive prior dir
  missing_entries-IsAdditive prior dir h t m = elim (Bool-cases (contains (targets dir) t)) [
    | inl e ↦ inl e
    | inr e ↦
        let c : contains (claimed_by supersedes_of (dedup (targets dir))) t ≡ true = ground (
          arith,
          contains-missing prior dir t,
          empty_of_contains (missing_entries supersedes_of prior dir) h t,
        ) in
        let (t', k, q) = claimed_by_sound (dedup (targets dir)) t c in
        inr (t', rw (contains-dedup (targets dir) t') at k, q)
  ]

  IsAdditive-missing_entries :
      (prior dir : Directory)
      → IsAdditive prior dir
      → is_empty (missing_entries supersedes_of prior dir) ≡ true
  IsAdditive-missing_entries prior dir h = empty_of_none _ λ t.
      rw (contains-missing prior dir t) (elim (Bool-cases (contains (targets prior) t)) [
        | inr e ↦ ground arith
        | inl e ↦ elim (h t e) [
          | inl k ↦ ground arith
          | inr (t', m, q) ↦ ground (
            arith,
            claimed_by_complete (dedup (targets dir)) t t' (rw (contains-dedup (targets dir) t') m)
                q,
          )
        ]
      ])

module _ (is_manager : Str → Bool) (supersedes_of : Str → Option Str) where
  -- A record with a back-edge has an author, who is a manager, or its supersede is additive over the
  -- prior record, if the snapshot holds that.
  abbrev pub IsAccepted : Map Str Directory → Str × Directory → Type 0
  IsAccepted by_uri (uri, dir) =
      (prior_uri : Str)
      → dir.supersedes ≡ some prior_uri
      → (u : AtUri) × (parse_at_uri uri ≡ ok u)
        × ((is_manager u.authority ≡ true)
            ⊎ ((prior : Directory)
                → get by_uri prior_uri ≡ some prior
                → IsAdditive supersedes_of prior dir))

  check_record_sound :
      (by_uri : Map Str Directory) (uri : Str) (dir : Directory)
      → check_record is_manager supersedes_of by_uri uri dir ≡ ok tt
      → IsAccepted by_uri (uri, dir)
  unfolding check_record
  check_record_sound by_uri uri dir h prior_uri e = elim (Result-cases (parse_at_uri uri)) [
    | inl (x, p) ↦ absurd (ground arith)
    | inr (u, p) ↦ elim (Bool-cases (is_manager u.authority)) [
      | inl m ↦ (u, p, inl m)
      | inr m ↦
          (u, p, inr (λ prior g. missing_entries-IsAdditive supersedes_of prior dir (ground arith)))
    ]
  ]

  check_record_complete :
      (by_uri : Map Str Directory) (uri : Str) (dir : Directory)
      → IsAccepted by_uri (uri, dir)
      → check_record is_manager supersedes_of by_uri uri dir ≡ ok tt
  unfolding check_record
  check_record_complete by_uri uri dir h = elim (Option-cases dir.supersedes) [
    | inl e ↦ ground arith
    | inr (prior_uri, e) ↦
        let (u, p, a) = h prior_uri e in
        elim a [
          | inl m ↦ ground arith
          | inr f ↦ elim (Option-cases (get by_uri prior_uri)) [
            | inl g ↦ ground arith
            | inr (prior, g) ↦
                ground (arith, IsAdditive-missing_entries supersedes_of prior dir (f prior g))
          ]
        ]
  ]

  check_records_iff :
      (by_uri : Map Str Directory) (records : List (Str × Directory))
      → (check_records is_manager supersedes_of by_uri records ≡ ok tt)
        ↔ All (IsAccepted by_uri) records
  unfolding check_records
  check_records_iff by_uri [] = (λ h. tt, λ h. refl)
  check_records_iff by_uri ((uri, dir) ∷ rest) = (
    λ h. (
      check_record_sound by_uri uri dir (ground arith),
      (check_records_iff by_uri rest).0 (ground arith),
    ),
    λ h.
        ground
          (arith, check_record_complete by_uri uri dir h.0, (check_records_iff by_uri rest).1 h.1),
  )

  -- The additivity check accepts a record set exactly if every record is accepted: it supersedes
  -- nothing, or its URI parses and its author is a manager or every target of the indexed prior
  -- listing is kept or superseded by a new target.
  pub verify_directory_additivity_iff :
      (records : List (Str × Directory))
      → (verify_directory_additivity is_manager supersedes_of records ≡ ok tt)
        ↔ All (IsAccepted (insert_all [] records)) records
  unfolding verify_directory_additivity
  verify_directory_additivity_iff records = check_records_iff (insert_all [] records) records
