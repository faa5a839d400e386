-- ===== src/Keepers/Lookups.antt =====
-- The operations of the list keepers, read by lookup.
use opake.Base.{
  ◌≡◌, refl, true, false, Option, none, some, List, [], ◌∷◌, Str, ◌==◌, str_eq, str_beq_iff,
  option_eq, option_beq_iff, contains, Map, get, remove, get-insert, get-remove, arith,
  if◌then◌else◌,
}
use opake.Records.{UnreadableReason}
use opake.Keepers.{Listing, Keeper, reason_eq, clear, is_same, upsert, delete, signal_unreadable}

pub get-clear :
    (us : List Str) (m : Map Str UnreadableReason) (u : Str)
    → get (clear us m).0 u ≡ (if contains us u then none else get m u)
unfolding clear
get-clear [] m u = refl
get-clear (v ∷ us) m u = ground (arith, get-clear us (remove m v) u, get-remove m v u)

pub clear-unchanged :
    (us : List Str) (m : Map Str UnreadableReason) (u : Str)
    → (clear us m).1 ≡ false
    → get (clear us m).0 u ≡ get m u
unfolding clear
clear-unchanged [] m u h = refl
clear-unchanged (v ∷ us) m u h =
    ground (arith, clear-unchanged us (remove m v) u, get-remove m v u, str_beq_iff v u)

module _ {Entry Callback : Type 0} ⦃l : Listing Entry⦄ (k : Keeper Entry Callback) where
  pub is_same-some : (e : Entry) (o : Option Entry) → is_same e o ≡ true → o ≡ some e
  is_same-some e none h = cc h
  is_same-some e (some old) h = ground (arith, (l.same.equal_iff old e).0 h)

  pub entries-upsert :
      (e : Entry) (u : Str)
      → get (upsert k e).0.entries u ≡ (if l.key e == u then some e else get k.entries u)
  unfolding upsert
  entries-upsert e u = ground (
    arith,
    get-insert k.entries (l.key e) u e,
    is_same-some e (get k.entries (l.key e)),
    str_beq_iff (l.key e) u,
  )

  pub unreadable-upsert :
      (e : Entry) (u : Str)
      → get (upsert k e).0.unreadable u
        ≡ (if contains (l.signal_keys e) u then none else get k.unreadable u)
  unfolding upsert
  unreadable-upsert e u = ground (arith, get-clear (l.signal_keys e) k.unreadable u)

  pub entries-delete :
      (v u : Str) → get (delete k v).0.entries u ≡ (if v == u then none else get k.entries u)
  unfolding delete
  entries-delete v u = ground (arith, get-remove k.entries v u, str_beq_iff v u)

  pub unreadable-delete : (v u : Str) → get (delete k v).0.unreadable u ≡ get k.unreadable u
  unfolding delete
  unreadable-delete v u = ground arith

  pub entries-signal :
      (v : Str) (r : UnreadableReason) (u : Str)
      → get (signal_unreadable k v r).0.entries u ≡ get k.entries u
  unfolding signal_unreadable
  entries-signal v r u = ground arith

  pub unreadable-signal :
      (v : Str) (r : UnreadableReason) (u : Str)
      → get (signal_unreadable k v r).0.unreadable u
        ≡ (if v == u then some r else get k.unreadable u)
  unfolding signal_unreadable
  unreadable-signal v r u = ground (
    arith,
    get-insert k.unreadable v u r,
    str_beq_iff v u,
    option_beq_iff (get k.unreadable v) (some r),
  )
