-- ===== src/Keepers/Snapshots.antt =====
-- The snapshot of a list keeper, of indexer/inbox_keeper/mod.rs and indexer/workspace_keeper/mod.rs:
-- what it depends on.
use opake.Base.{
  ◌≡◌, refl, some, List, [], ◌∷◌, Str, All, Map, get, remove, map, Bool-cases, inl, inr, ◌==◌,
  str_eq, nat_eq, contains_key, option_eq, ◌&&◌, not,
}
use opake.Base.Order.{sort_by, sorted_unique, sort_by-IsSorted, lookup-sort_by}
use opake.Base.Unique.{
  IsUnique, Shows, lookup-map, map-IsDistinct, insert-IsUnique, remove-IsUnique,
  insert_all-IsUnique, All-insert, All-remove, All-insert_all,
}
use opake.Records.{UnreadableReason, UnreadableRef}
use opake.Keepers.{
  Listing, Keeper, Signal, signal_of, signals_from, clear, is_same, snapshot, upsert, delete,
  signal_unreadable, bootstrap_with_signals, reason_eq,
}

-- The sorted elements of two maps.
sorted_same :
    {V A : Type 0} (key : A → Str) (f : Str × V → A) (m n : Map Str V)
    → All (Shows key f) m
    → IsUnique m
    → All (Shows key f) n
    → IsUnique n
    → ((u : Str) → get m u ≡ get n u)
    → sort_by key (map f m) ≡ sort_by key (map f n)
sorted_same key f m n a d b e h =
    let p = map-IsDistinct key f m a d in
    let q = map-IsDistinct key f n b e in
    sorted_unique key (sort_by key (map f m)) (sort_by key (map f n))
      (sort_by-IsSorted key (map f m) p) (sort_by-IsSorted key (map f n) q)
      (λ u.
        rw
          (
            lookup-sort_by key (map f m) u p,
            lookup-sort_by key (map f n) u q,
            lookup-map key f m u a,
            lookup-map key f n u b,
            h u,
          )
          refl)

signal-Shows : (m : Map Str UnreadableReason) → All (Shows (λ (s : Signal). s.uri) signal_of) m
signal-Shows [] = tt
signal-Shows ((u, r) ∷ m) = (refl, signal-Shows m)

module _ {Entry Callback : Type 0} ⦃l : Listing Entry⦄ where
  -- Each entry stands under its own key, and each key once.
  pub record IsWellFormed (k : Keeper Entry Callback) : Type 0 where
    pub keyed : All (Shows l.key (λ (p : Str × Entry). p.1)) k.entries
    pub entries_unique : IsUnique k.entries
    pub unreadable_unique : IsUnique k.unreadable

  -- Two list keepers that hold each entry under its own key and every key once, with the same
  -- lookups and the same loaded flag, give equal snapshots, whatever the order of their maps.
  pub snapshot_determined :
      (j k : Keeper Entry Callback)
      → IsWellFormed j
      → IsWellFormed k
      → ((u : Str) → get j.entries u ≡ get k.entries u)
      → ((u : Str) → get j.unreadable u ≡ get k.unreadable u)
      → j.loaded ≡ k.loaded
      → snapshot j ≡ snapshot k
  unfolding snapshot
  snapshot_determined j k a b e s h =
      rw
        (
          sorted_same l.key (λ (p : Str × Entry). p.1) j.entries k.entries a.keyed a.entries_unique
              b.keyed b.entries_unique e,
          sorted_same (λ (s : Signal). s.uri) signal_of j.unreadable k.unreadable
              (signal-Shows j.unreadable) a.unreadable_unique (signal-Shows k.unreadable)
              b.unreadable_unique s,
          h,
        )
        refl

clear-IsUnique :
    (us : List Str) (m : Map Str UnreadableReason) → IsUnique m → IsUnique (clear us m).0
unfolding clear
clear-IsUnique [] m h = h
clear-IsUnique (u ∷ us) m h = clear-IsUnique us (remove m u) (remove-IsUnique m u h)

module _ {Entry Callback : Type 0} ⦃l : Listing Entry⦄ (k : Keeper Entry Callback) where
  pub upsert-IsWellFormed : (e : Entry) → IsWellFormed k → IsWellFormed (upsert k e).0
  unfolding upsert
  upsert-IsWellFormed e w =
      elim (Bool-cases
        (is_same e (get k.entries (l.key e)) && not (clear (l.signal_keys e) k.unreadable).1)) [
          | inl q ↦
              rw (q, upsert)
                (record {
                  keyed = w.keyed;
                  entries_unique = w.entries_unique;
                  unreadable_unique =
                      clear-IsUnique (l.signal_keys e) k.unreadable w.unreadable_unique;
                })
          | inr q ↦
              rw (q, upsert)
                (record {
                  keyed =
                      All-insert (Shows l.key (λ (p : Str × Entry). p.1)) k.entries (l.key e) e
                        w.keyed refl;
                  entries_unique = insert-IsUnique k.entries (l.key e) e w.entries_unique;
                  unreadable_unique =
                      clear-IsUnique (l.signal_keys e) k.unreadable w.unreadable_unique;
                })
        ]

  pub delete-IsWellFormed : (u : Str) → IsWellFormed k → IsWellFormed (delete k u).0
  unfolding delete
  delete-IsWellFormed u w = elim (Bool-cases (contains_key k.entries u)) [
    | inl q ↦
        rw (q, delete)
          (record {
            keyed = All-remove (Shows l.key (λ (p : Str × Entry). p.1)) k.entries u w.keyed;
            entries_unique = remove-IsUnique k.entries u w.entries_unique;
            unreadable_unique = w.unreadable_unique;
          })
    | inr q ↦ rw (q, delete) w
  ]

  pub signal_unreadable-IsWellFormed :
      (u : Str) (r : UnreadableReason) → IsWellFormed k → IsWellFormed (signal_unreadable k u r).0
  unfolding signal_unreadable
  signal_unreadable-IsWellFormed u r w = elim (Bool-cases (get k.unreadable u == some r)) [
    | inl q ↦ rw (q, signal_unreadable) w
    | inr q ↦
        rw (q, signal_unreadable)
          (record {
            keyed = w.keyed;
            entries_unique = w.entries_unique;
            unreadable_unique = insert-IsUnique k.unreadable u r w.unreadable_unique;
          })
  ]

  keyed-All :
      (es : List Entry) → All (Shows l.key (λ (p : Str × Entry). p.1)) (map (λ e. (l.key e, e)) es)
  keyed-All [] = tt
  keyed-All (e ∷ es) = (refl, keyed-All es)

  pub bootstrap-IsWellFormed :
      (es : List Entry) (refs : List UnreadableRef)
      → IsWellFormed (bootstrap_with_signals k es refs).0
  unfolding bootstrap_with_signals
  bootstrap-IsWellFormed es refs = record {
    keyed =
        All-insert_all (Shows l.key (λ (p : Str × Entry). p.1)) [] (map (λ e. (l.key e, e)) es) tt
          (keyed-All es);
    entries_unique = insert_all-IsUnique [] (map (λ e. (l.key e, e)) es) tt;
    unreadable_unique = insert_all-IsUnique [] (signals_from refs) tt;
  }
