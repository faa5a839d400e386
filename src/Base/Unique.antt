-- ===== src/Base/Unique.antt =====
-- Maps with one entry for each key: lookups in the list of their entries.
use mathlib.Core.Path.{◌≡◌, refl}
use mathlib.Core.Logic.{inl, inr}
use mathlib.Core.Option.{Option, none, some}
use mathlib.Core.List.{List, [], ◌∷◌, map}
use native.Mathlib.Omega.{arith}
use opake.Base.Tests.{Bool-cases}
use opake.Base.Lists.{All}
use opake.Base.Equality.{Eq, ◌==◌, Str, str_eq, str_beq_iff}
use opake.Base.Maps.{Map, get, insert, remove, insert_all, get-insert, get-remove}
use opake.Base.Order.{lookup, IsDistinct}

module _ {K V : Type 0} ⦃e : Eq K⦄ where
  abbrev pub IsUnique : Map K V → Type 0
  IsUnique [] = Unit
  IsUnique ((k, v) ∷ m) = (get m k ≡ none) × IsUnique m

  pub insert-IsUnique : (m : Map K V) (k : K) (v : V) → IsUnique m → IsUnique (insert m k v)
  unfolding insert get
  insert-IsUnique [] k v h = (refl, tt)
  insert-IsUnique ((j, w) ∷ m) k v h = elim (Bool-cases (j == k)) [
    | inl q ↦ rw (q, insert) (ground (arith, h.0, (e.equal_iff j k).0 q), h.1)
    | inr q ↦
        rw (q, insert)
          (
            ground (arith, get-insert m k j v, e.equal_iff k j, e.equal_iff j k, q, h.0),
            insert-IsUnique m k v h.1,
          )
  ]

  pub remove-IsUnique : (m : Map K V) (k : K) → IsUnique m → IsUnique (remove m k)
  unfolding remove
  remove-IsUnique [] k h = tt
  remove-IsUnique ((j, w) ∷ m) k h = elim (Bool-cases (j == k)) [
    | inl q ↦ rw (q, remove) (remove-IsUnique m k h.1)
    | inr q ↦ rw (q, remove) (ground (arith, get-remove m k j, h.0), remove-IsUnique m k h.1)
  ]

  pub insert_all-IsUnique :
      (m : Map K V) (l : List (K × V)) → IsUnique m → IsUnique (insert_all m l)
  insert_all-IsUnique m [] h = h
  insert_all-IsUnique m ((k, v) ∷ l) h =
      insert_all-IsUnique (insert m k v) l (insert-IsUnique m k v h)

  module _ (Q : K × V → Type 0) where
    pub All-insert : (m : Map K V) (k : K) (v : V) → All Q m → Q (k, v) → All Q (insert m k v)
    unfolding insert
    All-insert [] k v h q = (q, tt)
    All-insert ((j, w) ∷ m) k v h q = elim (Bool-cases (j == k)) [
      | inl p ↦ rw (p, insert) (q, h.1)
      | inr p ↦ rw (p, insert) (h.0, All-insert m k v h.1 q)
    ]

    pub All-remove : (m : Map K V) (k : K) → All Q m → All Q (remove m k)
    unfolding remove
    All-remove [] k h = tt
    All-remove ((j, w) ∷ m) k h = elim (Bool-cases (j == k)) [
      | inl p ↦ rw (p, remove) (All-remove m k h.1)
      | inr p ↦ rw (p, remove) (h.0, All-remove m k h.1)
    ]

    pub All-insert_all :
        (m : Map K V) (l : List (K × V)) → All Q m → All Q l → All Q (insert_all m l)
    All-insert_all m [] h a = h
    All-insert_all m ((k, v) ∷ l) h a = All-insert_all (insert m k v) l (All-insert m k v h a.0) a.1

-- The elements of a map, each of which shows its key.
module _ {V A : Type 0} (key : A → Str) (f : Str × V → A) where
  abbrev pub Shows : Str × V → Type 0
  Shows p = key (f p) ≡ p.0

  abbrev pub found : Str → Option V → Option A
  found u none = none
  found u (some v) = some (f (u, v))

  pub lookup-map :
      (m : Map Str V) (u : Str) → All Shows m → lookup key (map f m) u ≡ found u (get m u)
  unfolding get
  lookup-map [] u h = refl
  lookup-map ((k, v) ∷ m) u h = elim (Bool-cases (k == u)) [
    | inl q ↦ let p : k ≡ u = (str_beq_iff k u).0 q in ground (arith, h.0, p, q)
    | inr q ↦ ground (arith, h.0, q, lookup-map m u h.1)
  ]

  pub map-IsDistinct : (m : Map Str V) → All Shows m → IsUnique m → IsDistinct key (map f m)
  map-IsDistinct [] h d = tt
  map-IsDistinct ((k, v) ∷ m) h d =
      (ground (arith, lookup-map m (key (f (k, v))) h.1, h.0, d.0), map-IsDistinct m h.1 d.1)
