-- ===== src/Tree/Cached/Lookup.antt =====
-- `with_delta` of directories/tree.rs, URI by URI.
use opake.Base.{
  ◌≡◌, ◌≢◌, ◌⊎◌, refl, ap, true, some, Elem, get-insert, not, Option, none, List, [], ◌∷◌, ◌++◌,
  Str, ◌==◌, str_eq, str_beq_iff, contains, keep, find, is_some, Map, get, insert, insert_all, keys,
  values, All, arith, Bool-cases, Option-cases, inl, inr, if◌then◌else◌,
}
use opake.Records.{Directory}
use opake.Events.{IndexerEnvelope}
use opake.Tree.Cached.{CachedRecord, deleted_uris, upserts, upserted, with_delta}

module _ {Value : Type 0} where
  abbrev pub cached : List (CachedRecord Value) → Str → Option (CachedRecord Value)
  cached records uri = find (λ r. r.uri == uri) records

  abbrev Keyed : Map Str (CachedRecord Value) → Type 0
  Keyed m = All (λ p. p.1.uri ≡ p.0) m

  insert-Keyed :
      (m : Map Str (CachedRecord Value)) (r : CachedRecord Value)
      → Keyed m
      → Keyed (insert m r.uri r)
  unfolding insert
  insert-Keyed [] r h = (refl, tt)
  insert-Keyed ((j, w) ∷ m) r h = elim (Bool-cases (j == r.uri)) [
    | inl e ↦ rw (e, insert) (refl, h.1)
    | inr e ↦ rw (e, insert) (h.0, insert-Keyed m r h.1)
  ]

  cached-values :
      (m : Map Str (CachedRecord Value)) (u : Str) → Keyed m → cached (values m) u ≡ get m u
  unfolding get
  cached-values [] u h = refl
  cached-values ((j, w) ∷ m) u h = rw h.0 (rw (cached-values m u h.1) refl)

  contains-keys :
      (m : Map Str (CachedRecord Value)) (u : Str) → contains (keys m) u ≡ is_some (get m u)
  unfolding get
  contains-keys [] u = refl
  contains-keys ((j, w) ∷ m) u = ground (arith, contains-keys m u)

  cached-append :
      (xs ys : List (CachedRecord Value)) (u : Str)
      → cached (xs ++ ys) u ≡ (if is_some (cached xs u) then cached xs u else cached ys u)
  cached-append [] ys u = refl
  cached-append (x ∷ xs) ys u = ground (arith, cached-append xs ys u)

  cached-keep :
      (drop : List Str) (xs : List (CachedRecord Value)) (u : Str)
      → cached (keep (λ r. not (contains drop r.uri)) xs) u
        ≡ (if contains drop u then none else cached xs u)
  cached-keep drop [] u = ground arith
  cached-keep drop (x ∷ xs) u = elim (Bool-cases (x.uri == u)) [
    | inl e ↦
        ground
          (arith, e, cached-keep drop xs u, ap (λ v. contains drop v) ((str_beq_iff x.uri u).0 e))
    | inr e ↦ ground (arith, e, cached-keep drop xs u)
  ]

module _ {Value : Type 0} (to_value : Directory → Option Value) where
  insert_all-upserts-Keyed :
      (m : Map Str (CachedRecord Value)) (es : List (IndexerEnvelope Directory))
      → Keyed m
      → Keyed (insert_all m (upserts to_value es))
  unfolding upserts
  insert_all-upserts-Keyed m [] h = h
  insert_all-upserts-Keyed m (e ∷ es) h = elim (Option-cases e.deleted_at) [
    | inr (time, d) ↦ rw (d, upserts) (insert_all-upserts-Keyed m es h)
    | inl d ↦ elim (Option-cases (to_value e.body)) [
      | inl v ↦ rw (d, v, upserts) (insert_all-upserts-Keyed m es h)
      | inr (value, v) ↦
          rw (d, v, upserts)
            (insert_all-upserts-Keyed
              (insert m e.uri (record { uri = e.uri; cid = []; value = value })) es
              (insert-Keyed m (record { uri = e.uri; cid = []; value = value }) h))
    ]
  ]

  -- The envelope is a live record of the URI that serializes to the cached one.
  pub record IsUpsert (e : IndexerEnvelope Directory) (u : Str) (r : CachedRecord Value)
      : Type 0 where
    pub of_uri : e.uri ≡ u
    pub live : e.deleted_at ≡ none
    pub value : to_value e.body ≡ some r.value
    pub uri : r.uri ≡ u
    pub cid : r.cid ≡ []

  abbrev pub NoUpsert : List (IndexerEnvelope Directory) → Str → Type 0
  NoUpsert es u =
      (e : IndexerEnvelope Directory) → Elem e es → (r : CachedRecord Value) → IsUpsert e u r → ⊥

  -- The last upsert of the URI among the envelopes.
  pub data LastUpsert (u : Str) (r : CachedRecord Value)
      : List (IndexerEnvelope Directory) → Type 0 where
    here :
        (e : IndexerEnvelope Directory) (es : List (IndexerEnvelope Directory))
        → IsUpsert e u r
        → NoUpsert es u
        → LastUpsert u r (e ∷ es)
    later :
        (e : IndexerEnvelope Directory) (es : List (IndexerEnvelope Directory))
        → LastUpsert u r es
        → LastUpsert u r (e ∷ es)

  -- Some envelope says that the URI was deleted.
  abbrev pub Deletes : List (IndexerEnvelope Directory) → Str → Type 0
  Deletes es u = (e : IndexerEnvelope Directory) × Elem e es × (e.uri ≡ u) × (e.deleted_at ≢ none)

  NoUpsert-cons :
      (e : IndexerEnvelope Directory) (es : List (IndexerEnvelope Directory)) (u : Str)
      → NoUpsert es u
      → ((r : CachedRecord Value) → IsUpsert e u r → ⊥)
      → NoUpsert (e ∷ es) u
  NoUpsert-cons e es u n h x (inl q) r k = h r (rw q at k)
  NoUpsert-cons e es u n h x (inr m) r k = n x m r k

  -- What the upserts make of a map.
  abbrev Upserted : Map Str (CachedRecord Value) → List (IndexerEnvelope Directory) → Str → Type 0
  Upserted m es u =
      ((r : CachedRecord Value) × LastUpsert u r es
        × (get (insert_all m (upserts to_value es)) u ≡ some r))
      ⊎ (NoUpsert es u × (get (insert_all m (upserts to_value es)) u ≡ get m u))

  skipped-Upserted :
      (m : Map Str (CachedRecord Value)) (e : IndexerEnvelope Directory)
      (es : List (IndexerEnvelope Directory)) (u : Str)
      → upserts to_value (e ∷ es) ≡ upserts to_value es
      → ((r : CachedRecord Value) → IsUpsert e u r → ⊥)
      → Upserted m es u
      → Upserted m (e ∷ es) u
  skipped-Upserted m e es u q h (inl (r, l, g)) = rw q (inl (r, later e es l, g))
  skipped-Upserted m e es u q h (inr (n, g)) = rw q (inr (NoUpsert-cons e es u n h, g))

  taken-Upserted :
      (m : Map Str (CachedRecord Value)) (e : IndexerEnvelope Directory)
      (es : List (IndexerEnvelope Directory)) (u : Str) (v : Value)
      → upserts to_value (e ∷ es)
        ≡ (e.uri, record { uri = e.uri; cid = []; value = v }) ∷ upserts to_value es
      → e.deleted_at ≡ none
      → to_value e.body ≡ some v
      → Upserted (insert m e.uri (record { uri = e.uri; cid = []; value = v })) es u
      → Upserted m (e ∷ es) u
  taken-Upserted m e es u v q d t (inl (r, l, g)) = rw q (inl (r, later e es l, g))
  taken-Upserted m e es u v q d t (inr (n, g)) =
      let r : CachedRecord Value = record { uri = e.uri; cid = []; value = v } in
      elim (Bool-cases (e.uri == u)) [
        | inl k ↦
            let same : e.uri ≡ u = (str_beq_iff e.uri u).0 k in
            rw q (
              inl (
                r,
                here e es (record { of_uri = same; live = d; value = t; uri = same; cid = refl }) n,
                ground (arith, g, k, get-insert m e.uri u r),
              ))
        | inr k ↦ rw q (
            inr (
              NoUpsert-cons e es u n
                  (λ x (i : IsUpsert e u x). ground (arith, k, i.of_uri, str_beq_iff e.uri u)),
              ground (arith, g, k, get-insert m e.uri u r),
            ))
      ]

  insert_all-Upserted :
      (m : Map Str (CachedRecord Value)) (es : List (IndexerEnvelope Directory)) (u : Str)
      → Upserted m es u
  unfolding upserts
  insert_all-Upserted m [] u = inr (λ e k r i. k, refl)
  insert_all-Upserted m (e ∷ es) u = elim (Option-cases e.deleted_at) [
    | inr (time, d) ↦
        skipped-Upserted m e es u (ground (arith, d))
          (λ r (i : IsUpsert e u r). ground (arith, d, i.live)) (insert_all-Upserted m es u)
    | inl d ↦ elim (Option-cases (to_value e.body)) [
      | inl t ↦
          skipped-Upserted m e es u (ground (arith, d, t))
            (λ r (i : IsUpsert e u r). ground (arith, t, i.value)) (insert_all-Upserted m es u)
      | inr (v, t) ↦
          taken-Upserted m e es u v (ground (arith, d, t)) d t (
            insert_all-Upserted (insert m e.uri (record { uri = e.uri; cid = []; value = v })) es u)
    ]
  ]

  deleted_uris-Deletes :
      (es : List (IndexerEnvelope Directory)) (u : Str)
      → contains (deleted_uris es) u ≡ true
      → Deletes es u
  unfolding deleted_uris
  deleted_uris-Deletes [] u h = cc h
  deleted_uris-Deletes (e ∷ es) u h = elim (Option-cases e.deleted_at) [
    | inl d ↦
        let (x, m, p, k) = deleted_uris-Deletes es u (ground (arith, d, h)) in (x, inr m, p, k)
    | inr (time, d) ↦ elim (Bool-cases (e.uri == u)) [
      | inl q ↦ (e, inl refl, (str_beq_iff e.uri u).0 q, λ n. ground (arith, d, n))
      | inr q ↦
          let (x, m, p, k) = deleted_uris-Deletes es u (ground (arith, d, q, h)) in (x, inr m, p, k)
    ]
  ]

  Deletes-deleted_uris :
      (es : List (IndexerEnvelope Directory)) (u : Str)
      → Deletes es u
      → contains (deleted_uris es) u ≡ true
  unfolding deleted_uris
  Deletes-deleted_uris [] u (x, m, p, d) = absurd m
  Deletes-deleted_uris (e ∷ es) u (x, inl q, n, d) = elim (Option-cases e.deleted_at) [
    | inl k ↦ absurd (d (rw q k))
    | inr (time, k) ↦
        let same : e.uri ≡ u = rw q at n in ground (arith, k, same, str_beq_iff e.uri u)
  ]
  Deletes-deleted_uris (e ∷ es) u (x, inr m, p, d) = elim (Option-cases e.deleted_at) [
    | inl k ↦ ground (arith, k, Deletes-deleted_uris es u (x, m, p, d))
    | inr (time, k) ↦ ground (arith, k, Deletes-deleted_uris es u (x, m, p, d))
  ]

  -- What the cache may answer for a URI after a delta.
  pub data Answers (records : List (CachedRecord Value)) (es : List (IndexerEnvelope Directory))
      (u : Str) : Option (CachedRecord Value) → Type 0 where
    fresh : (r : CachedRecord Value) → LastUpsert u r es → Answers records es u (some r)
    gone : NoUpsert es u → Deletes es u → Answers records es u none
    kept : NoUpsert es u → (Deletes es u → ⊥) → Answers records es u (cached records u)

  with_delta-cached :
      (records : List (CachedRecord Value)) (envelopes : List (IndexerEnvelope Directory)) (u : Str)
      → cached (with_delta to_value records envelopes) u ≡ (
          if is_some (get (upserted to_value envelopes) u)
          then get (upserted to_value envelopes) u
          else if contains (deleted_uris envelopes) u
          then none
          else cached records u)
  unfolding with_delta
  with_delta-cached records envelopes u =
      let m : Map Str (CachedRecord Value) = upserted to_value envelopes in
      let keyed : Keyed m = unfold upserted in insert_all-upserts-Keyed [] envelopes tt in
      let dropped : List Str = deleted_uris envelopes in
      ground (
        arith,
        cached-append
            (keep (λ r. not (contains (keys m) r.uri))
              (keep (λ r. not (contains dropped r.uri)) records))
            (values m) u,
        cached-keep (keys m) (keep (λ r. not (contains dropped r.uri)) records) u,
        cached-keep dropped records u,
        contains-keys m u,
        cached-values m u keyed,
      )

  -- After a delta the cache answers for a URI with the last live record of the delta for it that
  -- serializes, whether or not the delta also deletes the URI; else with nothing, if the delta
  -- deletes the URI; else with what was cached.
  pub with_delta_exact :
      (records : List (CachedRecord Value)) (envelopes : List (IndexerEnvelope Directory)) (u : Str)
      → Answers records envelopes u (cached (with_delta to_value records envelopes) u)
  unfolding upserted get
  with_delta_exact records envelopes u =
      rw (with_delta-cached records envelopes u) (elim (insert_all-Upserted [] envelopes u) [
        | inl (r, l, g) ↦ rw g (fresh r l)
        | inr (n, g) ↦ elim (Bool-cases (contains (deleted_uris envelopes) u)) [
          | inl d ↦ rw (g, d) (gone n (deleted_uris-Deletes envelopes u d))
          | inr d ↦ rw (g, d) (kept n (λ k. ground (arith, d, Deletes-deleted_uris envelopes u k)))
        ]
      ])
