-- ===== src/Keepers/Runs.antt =====
-- Runs of a list keeper over the operations that events ask for, and the abstract list that the
-- keepers of indexer/inbox_keeper/mod.rs and indexer/workspace_keeper/mod.rs project: what each key
-- holds.
use opake.Base.{
  ◌≡◌, refl, sym, ◌⊎◌, inl, inr, ◌||◌, not, Option, none, some, List, [], ◌∷◌, ◌++◌, Str, ◌==◌,
  str_eq, option_eq, str_beq_iff, option_beq_iff, contains, get, contains_key, insert, remove,
  get-insert, get-remove, arith, Bool-cases, if◌then◌else◌,
}
use opake.Records.{UnreadableReason, corrupt}
use opake.Keepers.{Listing, Keeper, Fired, reason_eq, upsert, delete, signal_unreadable, notify}
use opake.Keepers.Lookups.{
  entries-upsert, unreadable-upsert, entries-delete, unreadable-delete, entries-signal,
  unreadable-signal,
}
use opake.Keepers.Snapshots.{
  IsWellFormed, upsert-IsWellFormed, delete-IsWellFormed, signal_unreadable-IsWellFormed,
}
use opake.Base.Unique.{insert-IsUnique, remove-IsUnique, All-remove, Shows}

-- What one event asks of a keeper. `withdraw` takes an entry away and signals a URI as corrupt.
pub data KeeperOp (Entry : Type 0) : Type 0 where
  put : Entry → KeeperOp Entry
  drop : Str → KeeperOp Entry
  mark : Str → UnreadableReason → KeeperOp Entry
  withdraw : Str → Str → KeeperOp Entry
  ignore : KeeperOp Entry

-- What an operation does at one key.
pub data Effect (V : Type 0) : Type 0 where
  stays : Effect V
  becomes : Option V → Effect V

abbrev pub act : {V : Type 0} → Effect V → Option V → Option V
act stays o = o
act (becomes v) o = v

-- Several effects, one after the other.
abbrev pub acts : {A V : Type 0} → (A → Effect V) → List A → Option V → Option V
acts f [] o = o
acts f (a ∷ xs) o = acts f xs (act (f a) o)

module _ {Entry Callback : Type 0} ⦃l : Listing Entry⦄ where
  -- The branch of an unreadable wrap: one notification for both changes.
  unfoldable pub withdraw_entry : Keeper Entry Callback → Str → Str → Fired Entry Callback
  withdraw_entry k id uri =
      let removed = contains_key k.entries id in
      let changed = not (get k.unreadable uri == some corrupt) in
      let k' = record k {
        entries = remove k.entries id;
        unreadable = if changed then insert k.unreadable uri corrupt else k.unreadable;
      } in
      if removed || changed then (k', notify k') else (k', [])

  unfoldable pub apply : Keeper Entry Callback → KeeperOp Entry → Fired Entry Callback
  apply k (put e) = upsert k e
  apply k (drop u) = delete k u
  apply k (mark u r) = signal_unreadable k u r
  apply k (withdraw id u) = withdraw_entry k id u
  apply k ignore = (k, [])

  unfoldable pub run : Keeper Entry Callback → List (KeeperOp Entry) → Fired Entry Callback
  run k [] = (k, [])
  run k (op ∷ ops) =
      let (k', fired) = apply k op in let (k'', rest) = run k' ops in (k'', fired ++ rest)

module _ {Entry : Type 0} ⦃l : Listing Entry⦄ where
  abbrev pub entry_effect : Str → KeeperOp Entry → Effect Entry
  entry_effect u (put e) = if l.key e == u then becomes (some e) else stays
  entry_effect u (drop v) = if v == u then becomes none else stays
  entry_effect u (mark v r) = stays
  entry_effect u (withdraw id v) = if id == u then becomes none else stays
  entry_effect u ignore = stays

  abbrev pub signal_effect : Str → KeeperOp Entry → Effect UnreadableReason
  signal_effect u (put e) = if contains (l.signal_keys e) u then becomes none else stays
  signal_effect u (drop v) = stays
  signal_effect u (mark v r) = if v == u then becomes (some r) else stays
  signal_effect u (withdraw id v) = if v == u then becomes (some corrupt) else stays
  signal_effect u ignore = stays

module _ {Entry Callback : Type 0} ⦃l : Listing Entry⦄ where
  pub entries-withdraw :
      (k : Keeper Entry Callback) (id v u : Str)
      → get (withdraw_entry k id v).0.entries u ≡ (if id == u then none else get k.entries u)
  unfolding withdraw_entry
  entries-withdraw k id v u = ground (arith, get-remove k.entries id u)

  pub unreadable-withdraw :
      (k : Keeper Entry Callback) (id v u : Str)
      → get (withdraw_entry k id v).0.unreadable u
        ≡ (if v == u then some corrupt else get k.unreadable u)
  unfolding withdraw_entry
  unreadable-withdraw k id v u = ground (
    arith,
    get-insert k.unreadable v u corrupt,
    str_beq_iff v u,
    option_beq_iff (get k.unreadable v) (some corrupt),
  )

  entries-apply :
      (k : Keeper Entry Callback) (op : KeeperOp Entry) (u : Str)
      → get (apply k op).0.entries u ≡ act (entry_effect u op) (get k.entries u)
  unfolding apply
  entries-apply k (put e) u = ground (arith, entries-upsert k e u)
  entries-apply k (drop v) u = ground (arith, entries-delete k v u)
  entries-apply k (mark v r) u = entries-signal k v r u
  entries-apply k (withdraw id v) u = ground (arith, entries-withdraw k id v u)
  entries-apply k ignore u = refl

  unreadable-apply :
      (k : Keeper Entry Callback) (op : KeeperOp Entry) (u : Str)
      → get (apply k op).0.unreadable u ≡ act (signal_effect u op) (get k.unreadable u)
  unfolding apply
  unreadable-apply k (put e) u = ground (arith, unreadable-upsert k e u)
  unreadable-apply k (drop v) u = unreadable-delete k v u
  unreadable-apply k (mark v r) u = ground (arith, unreadable-signal k v r u)
  unreadable-apply k (withdraw id v) u = ground (arith, unreadable-withdraw k id v u)
  unreadable-apply k ignore u = refl

  withdraw_entry-IsWellFormed :
      (k : Keeper Entry Callback) (id u : Str)
      → IsWellFormed k
      → IsWellFormed (withdraw_entry k id u).0
  unfolding withdraw_entry
  withdraw_entry-IsWellFormed k id u w =
      let keyed = All-remove (Shows l.key (λ (p : Str × Entry). p.1)) k.entries id w.keyed in
      let once = remove-IsUnique k.entries id w.entries_unique in
      let marked = insert-IsUnique k.unreadable u corrupt w.unreadable_unique in
      elim (Bool-cases (contains_key k.entries id)) [
        | inl p ↦ elim (Bool-cases (get k.unreadable u == some corrupt)) [
          | inl q ↦
              rw (p, withdraw_entry, q)
                (record {
                  keyed = keyed;
                  entries_unique = once;
                  unreadable_unique = w.unreadable_unique;
                })
          | inr q ↦
              rw (p, withdraw_entry, q)
                (record { keyed = keyed; entries_unique = once; unreadable_unique = marked })
        ]
        | inr p ↦ elim (Bool-cases (get k.unreadable u == some corrupt)) [
          | inl q ↦
              rw (p, withdraw_entry, q)
                (record {
                  keyed = keyed;
                  entries_unique = once;
                  unreadable_unique = w.unreadable_unique;
                })
          | inr q ↦
              rw (p, withdraw_entry, q)
                (record { keyed = keyed; entries_unique = once; unreadable_unique = marked })
        ]
      ]

  pub apply-IsWellFormed :
      (k : Keeper Entry Callback) (op : KeeperOp Entry)
      → IsWellFormed k
      → IsWellFormed (apply k op).0
  unfolding apply
  apply-IsWellFormed k (put e) w = upsert-IsWellFormed k e w
  apply-IsWellFormed k (drop u) w = delete-IsWellFormed k u w
  apply-IsWellFormed k (mark u r) w = signal_unreadable-IsWellFormed k u r w
  apply-IsWellFormed k (withdraw id u) w = withdraw_entry-IsWellFormed k id u w
  apply-IsWellFormed k ignore w = w

  pub run-IsWellFormed :
      (k : Keeper Entry Callback) (ops : List (KeeperOp Entry))
      → IsWellFormed k
      → IsWellFormed (run k ops).0
  unfolding run
  run-IsWellFormed k [] w = w
  run-IsWellFormed k (op ∷ ops) w = run-IsWellFormed (apply k op).0 ops (apply-IsWellFormed k op w)

  -- What each key holds after a run is what the effects of the operations make of it.
  pub run_refines :
      (k : Keeper Entry Callback) (ops : List (KeeperOp Entry)) (u : Str)
      → (get (run k ops).0.entries u ≡ acts (entry_effect u) ops (get k.entries u))
        × (get (run k ops).0.unreadable u ≡ acts (signal_effect u) ops (get k.unreadable u))
  unfolding run
  run_refines k [] u = (refl, refl)
  run_refines k (op ∷ ops) u =
      let (p, q) = run_refines (apply k op).0 ops u in
      (rw (sym (entries-apply k op u)) p, rw (sym (unreadable-apply k op u)) q)

module _ {A V : Type 0} (f : A → Effect V) where
  abbrev IsConstantOrIdentity : List A → Type 0
  IsConstantOrIdentity ops =
      ((v : Option V) × ((o : Option V) → acts f ops o ≡ v)) ⊎ ((o : Option V) → acts f ops o ≡ o)

  first_then :
      (a : A) (rest : List A) (e : Effect V)
      → f a ≡ e
      → IsConstantOrIdentity rest
      → IsConstantOrIdentity (a ∷ rest)
  first_then a rest (becomes v) p c = inl (acts f rest v, λ o. rw p refl)
  first_then a rest stays p (inl (v, h)) = inl (v, λ o. rw p (h o))
  first_then a rest stays p (inr h) = inr (λ o. rw p (h o))

  acts_cases : (ops : List A) → IsConstantOrIdentity ops
  acts_cases [] = inr (λ o. refl)
  acts_cases (a ∷ rest) = first_then a rest (f a) refl (acts_cases rest)

  -- A run once more changes nothing.
  pub acts_twice : (ops : List A) (o : Option V) → acts f ops (acts f ops o) ≡ acts f ops o
  acts_twice ops o = elim (acts_cases ops) [
    | inl (v, h) ↦ ground (arith, h o, h (acts f ops o))
    | inr h ↦ h (acts f ops o)
  ]

  pub acts-append : (xs bs : List A) (o : Option V) → acts f (xs ++ bs) o ≡ acts f bs (acts f xs o)
  acts-append [] bs o = refl
  acts-append (a ∷ xs) bs o = acts-append xs bs (act (f a) o)
