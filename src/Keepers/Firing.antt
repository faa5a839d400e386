-- ===== src/Keepers/Firing.antt =====
-- When the watchers of a list keeper are fired, of indexer/inbox_keeper/mod.rs and
-- indexer/workspace_keeper/mod.rs.
use opake.Base.{
  ◌≡◌, ◌≢◌, refl, ◌⊎◌, inl, inr, true, none, some, List, [], ◌∷◌, Str, ◌==◌, str_eq, option_eq,
  str_beq_iff, option_beq_iff, contains, Map, get, contains_key, remove, get-remove, arith,
  Bool-cases, ◌↔◌, ℕ, ap, map, values, Elem, subst,
}
use opake.Base.Order.{sort_by-Elem}
use opake.Records.{UnreadableReason, corrupt}
use opake.Keepers.{
  Listing, Keeper, Snapshot, Signal, signal_of, snapshot, reason_eq, clear, is_same, upsert, delete,
  signal_unreadable, notify,
}
use opake.Keepers.Lookups.{
  clear-unchanged, is_same-some, entries-upsert, unreadable-upsert, entries-delete,
  unreadable-signal,
}
use opake.Keepers.Runs.{
  KeeperOp, put, drop, mark, withdraw, ignore, withdraw_entry, apply, entries-withdraw,
  unreadable-withdraw,
}

cleared_some :
    (us : List Str) (m : Map Str UnreadableReason)
    → (clear us m).1 ≡ true
    → (u : Str) × (contains us u ≡ true) × (get m u ≢ none)
unfolding clear
cleared_some [] m h = cc h
cleared_some (u ∷ us) m h = elim (Bool-cases (contains_key m u)) [
  | inl p ↦ (u, ground (arith, str_beq_iff u u), λ q. ground (arith, p, q))
  | inr p ↦
      let (v, c, d) = cleared_some us (remove m u) (ground (arith, p)) in
      (v, ground (arith, c), λ q. d (ground (arith, get-remove m u v, q)))
]

values-Elem : {V : Type 0} (m : Map Str V) (v : V) → Elem v (values m) → (u : Str) × Elem (u, v) m
values-Elem [] v h = absurd h
values-Elem ((j, w) ∷ m) v (inl q) = (j, inl (ap (λ x. (j, x)) q))
values-Elem ((j, w) ∷ m) v (inr h) = let (u, k) = values-Elem m v h in (u, inr k)

Elem-values : {V : Type 0} (m : Map Str V) (u : Str) (v : V) → Elem (u, v) m → Elem v (values m)
Elem-values [] u v h = absurd h
Elem-values ((j, w) ∷ m) u v (inl q) = inl (ap (λ p. p.1) q)
Elem-values ((j, w) ∷ m) u v (inr h) = inr (Elem-values m u v h)

signals-Elem :
    (m : Map Str UnreadableReason) (g : Signal)
    → Elem g (map signal_of m)
    → Elem (g.uri, g.reason) m
signals-Elem [] g h = absurd h
signals-Elem ((u, r) ∷ m) g (inl q) = inl (ap (λ (s : Signal). (s.uri, s.reason)) q)
signals-Elem ((u, r) ∷ m) g (inr h) = inr (signals-Elem m g h)

Elem-signals :
    (m : Map Str UnreadableReason) (g : Signal)
    → Elem (g.uri, g.reason) m
    → Elem g (map signal_of m)
Elem-signals [] g h = absurd h
Elem-signals ((u, r) ∷ m) g (inl q) = inl (ap signal_of q)
Elem-signals ((u, r) ∷ m) g (inr h) = inr (Elem-signals m g h)

module _ {Entry Callback : Type 0} ⦃l : Listing Entry⦄ where
  abbrev pub Same : Keeper Entry Callback → Keeper Entry Callback → Type 0
  Same j k =
      (u : Str) → (get j.entries u ≡ get k.entries u) × (get j.unreadable u ≡ get k.unreadable u)

  -- A key at which the list or the signals differ.
  abbrev pub Differ : Keeper Entry Callback → Keeper Entry Callback → Type 0
  Differ j k =
      (u : Str) × ((get j.entries u ≢ get k.entries u) ⊎ (get j.unreadable u ≢ get k.unreadable u))

  abbrev Notifies :
      Keeper Entry Callback → Keeper Entry Callback × List (Callback × Snapshot Entry) → Type 0
  Notifies k (k', fired) = (Same k k' × (fired ≡ [])) ⊎ (Differ k k' × (fired ≡ notify k'))

  fires-upsert : (k : Keeper Entry Callback) (e : Entry) → Notifies k (upsert k e)
  unfolding upsert
  fires-upsert k e = elim (Bool-cases (is_same e (get k.entries (l.key e)))) [
    | inl p ↦ elim (Bool-cases (clear (l.signal_keys e) k.unreadable).1) [
      | inl q ↦
          let (v, c, d) = cleared_some (l.signal_keys e) k.unreadable q in
          inr (
            (
              v,
              inr (λ (r : get k.unreadable v ≡ get (upsert k e).0.unreadable v).
                  d (ground (arith, r, unreadable-upsert k e v, c))),
            ),
            ground (arith, p, q),
          )
      | inr q ↦ inl (
        λ u. (
          ground (
            arith,
            entries-upsert k e u,
            is_same-some k e (get k.entries (l.key e)) p,
            str_beq_iff (l.key e) u,
          ),
          ground (arith, clear-unchanged (l.signal_keys e) k.unreadable u q, p, q),
        ),
        ground (arith, p, q),
      )
    ]
    | inr p ↦ inr (
      (
        l.key e,
        inl (λ (r : get k.entries (l.key e) ≡ get (upsert k e).0.entries (l.key e)). ground (
          arith,
          r,
          p,
          entries-upsert k e (l.key e),
          str_beq_iff (l.key e) (l.key e),
          l.same.equal_iff e e,
        )),
      ),
      ground (arith, p),
    )
  ]

  fires-delete : (k : Keeper Entry Callback) (v : Str) → Notifies k (delete k v)
  unfolding delete
  fires-delete k v = elim (Bool-cases (contains_key k.entries v)) [
    | inl p ↦ inr (
      (
        v,
        inl (λ (r : get k.entries v ≡ get (delete k v).0.entries v).
            ground (arith, r, p, entries-delete k v v, str_beq_iff v v)),
      ),
      ground (arith, p),
    )
    | inr p ↦ inl (λ u. (ground (arith, p), ground (arith, p)), ground (arith, p))
  ]

  fires-signal :
      (k : Keeper Entry Callback) (v : Str) (r : UnreadableReason)
      → Notifies k (signal_unreadable k v r)
  unfolding signal_unreadable
  fires-signal k v r = elim (Bool-cases (get k.unreadable v == some r)) [
    | inl p ↦ inl (λ u. (ground (arith, p), ground (arith, p)), ground (arith, p))
    | inr p ↦ inr (
      (
        v,
        inr (λ (h : get k.unreadable v ≡ get (signal_unreadable k v r).0.unreadable v). ground (
          arith,
          h,
          p,
          unreadable-signal k v r v,
          str_beq_iff v v,
          option_beq_iff (get k.unreadable v) (some r),
        )),
      ),
      ground (arith, p),
    )
  ]

  fires-withdraw : (k : Keeper Entry Callback) (id v : Str) → Notifies k (withdraw_entry k id v)
  unfolding withdraw_entry
  fires-withdraw k id v = elim (Bool-cases (contains_key k.entries id)) [
    | inl p ↦ inr (
      (
        id,
        inl (λ (r : get k.entries id ≡ get (withdraw_entry k id v).0.entries id).
            ground (arith, r, p, entries-withdraw k id v id, str_beq_iff id id)),
      ),
      ground (arith, p),
    )
    | inr p ↦ elim (Bool-cases (get k.unreadable v == some corrupt)) [
      | inl q ↦ inl (
        λ u. (ground (arith, p, entries-withdraw k id v u, str_beq_iff id u), ground (arith, p, q)),
        ground (arith, p, q),
      )
      | inr q ↦ inr (
        (
          v,
          inr (λ (h : get k.unreadable v ≡ get (withdraw_entry k id v).0.unreadable v). ground (
            arith,
            h,
            q,
            unreadable-withdraw k id v v,
            str_beq_iff v v,
            option_beq_iff (get k.unreadable v) (some corrupt),
          )),
        ),
        ground (arith, p, q),
      )
    ]
  ]

  apply-Notifies : (k : Keeper Entry Callback) (op : KeeperOp Entry) → Notifies k (apply k op)
  unfolding apply
  apply-Notifies k (put e) = fires-upsert k e
  apply-Notifies k (drop u) = fires-delete k u
  apply-Notifies k (mark u r) = fires-signal k u r
  apply-Notifies k (withdraw id u) = fires-withdraw k id u
  apply-Notifies k ignore = inl (λ u. (refl, refl), refl)

  watchers-apply :
      (k : Keeper Entry Callback) (op : KeeperOp Entry) → (apply k op).0.watchers ≡ k.watchers
  unfolding apply upsert delete signal_unreadable withdraw_entry
  watchers-apply k (put e) = ground arith
  watchers-apply k (drop u) = ground arith
  watchers-apply k (mark u r) = ground arith
  watchers-apply k (withdraw id u) = ground arith
  watchers-apply k ignore = refl

  -- The snapshot holds exactly the entries and the signals of the keeper.
  pub record IsSnapshotOf (k : Keeper Entry Callback) (s : Snapshot Entry) : Type 0 where
    pub entries : (e : Entry) → Elem e s.entries ↔ ((u : Str) × Elem (u, e) k.entries)
    pub unreadable : (g : Signal) → Elem g s.unreadable ↔ Elem (g.uri, g.reason) k.unreadable
    pub loaded : s.loaded ≡ k.loaded

  snapshot-IsSnapshotOf : (k : Keeper Entry Callback) → IsSnapshotOf k (snapshot k)
  unfolding snapshot
  snapshot-IsSnapshotOf k = record {
    entries = λ e. (
      λ m. values-Elem k.entries e ((sort_by-Elem l.key (values k.entries) e).0 m),
      λ (u, m). (sort_by-Elem l.key (values k.entries) e).1 (Elem-values k.entries u e m),
    );
    unreadable = λ g. (
      λ m. signals-Elem k.unreadable g ((sort_by-Elem _ (map signal_of k.unreadable) g).0 m),
      λ m. (sort_by-Elem _ (map signal_of k.unreadable) g).1 (Elem-signals k.unreadable g m),
    );
    loaded = refl;
  }

  -- One firing of each watcher, in their order, with a snapshot of the keeper.
  abbrev pub EachOnce :
      Keeper Entry Callback → Map ℕ Callback → List (Callback × Snapshot Entry) → Type 0
  EachOnce k [] [] = Unit
  EachOnce k [] (f ∷ fired) = ⊥
  EachOnce k (w ∷ ws) [] = ⊥
  EachOnce k (w ∷ ws) (f ∷ fired) = (f.0 ≡ w.1) × IsSnapshotOf k f.1 × EachOnce k ws fired

  notify-EachOnce :
      (k : Keeper Entry Callback) (ws : Map ℕ Callback)
      → EachOnce k ws (map (λ (w : ℕ × Callback). (w.1, snapshot k)) ws)
  notify-EachOnce k [] = tt
  notify-EachOnce k (w ∷ ws) = (refl, snapshot-IsSnapshotOf k, notify-EachOnce k ws)

  -- Silent where nothing changed, and one firing of each watcher where something did.
  abbrev pub FiresExactly :
      Keeper Entry Callback → Keeper Entry Callback × List (Callback × Snapshot Entry) → Type 0
  FiresExactly k (k', fired) =
      (Same k k' × (fired ≡ [])) ⊎ (Differ k k' × EachOnce k' k.watchers fired)

  -- An operation that an event asks of a list keeper either changes no entry and no signal and
  -- fires nothing, or changes one and fires every watcher that was installed once, in their order,
  -- with a snapshot that holds exactly the new entries and signals.
  pub apply-FiresExactly :
      (k : Keeper Entry Callback) (op : KeeperOp Entry) → FiresExactly k (apply k op)
  unfolding notify
  apply-FiresExactly k op = elim (apply-Notifies k op) [
    | inl q ↦ inl q
    | inr (d, q) ↦ inr (
      d,
      subst (λ (ws : Map ℕ Callback). EachOnce (apply k op).0 ws (apply k op).1)
          (watchers-apply k op) (rw q (notify-EachOnce (apply k op).0 (apply k op).0.watchers)),
    )
  ]
