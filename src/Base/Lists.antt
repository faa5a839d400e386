-- ===== src/Base/Lists.antt =====
-- Lists measured by native numbers, Boolean quantifiers and membership.
use Prim.Native.Nat.{ℕ, suc, ◌+◌}
use mathlib.Core.Path.{◌≡◌}
use mathlib.Core.Logic.{◌⊎◌, inl, inr}
use mathlib.Core.Bool.{Bool, true, false, ◌&&◌, ◌||◌}
use mathlib.Core.Option.{Option, none, some}
use mathlib.Core.List.{List, [], ◌∷◌, ◌++◌}
use native.Mathlib.Omega.{arith}
use opake.Base.Tests.{if◌then◌else◌, Bool-cases}
use opake.Base.Equality.{Eq, ◌==◌}

module _ {ℓ} {A : Type ℓ} where
  abbrev pub length : List A → ℕ
  length [] = 0
  length (x ∷ xs) = suc (length xs)

  pub length-append : (xs ys : List A) → length (xs ++ ys) ≡ length xs + length ys
  length-append [] ys = omega arith
  length-append (x ∷ xs) ys = omega (arith, length-append xs ys)

  abbrev pub any : (A → Bool) → List A → Bool
  any p [] = false
  any p (x ∷ xs) = p x || any p xs

  abbrev pub all : (A → Bool) → List A → Bool
  all p [] = true
  all p (x ∷ xs) = p x && all p xs

  -- Rust's `find`: the first element that passes the test.
  abbrev pub find : (A → Bool) → List A → Option A
  find p [] = none
  find p (x ∷ xs) = if p x then some x else find p xs

  -- Rust's `filter` by a Boolean test.
  abbrev pub keep : (A → Bool) → List A → List A
  keep p [] = []
  keep p (x ∷ xs) = let rest = keep p xs in if p x then x ∷ rest else rest

  abbrev pub is_empty : List A → Bool
  is_empty [] = true
  is_empty (x ∷ xs) = false

  abbrev pub last : List A → Option A
  last [] = none
  last (x ∷ []) = some x
  last (x ∷ y ∷ xs) = last (y ∷ xs)

  abbrev pub All {κ} : (A → Type κ) → List A → Type κ
  All P [] = Unit
  All P (x ∷ xs) = P x × All P xs

-- Membership as a type, so that induction can take it apart.
abbrev pub Elem : {A : Type 0} → A → List A → Type 0
Elem a [] = ⊥
Elem a (x ∷ xs) = (a ≡ x) ⊎ Elem a xs

module _ {ℓ} {A : Type ℓ} ⦃e : Eq A⦄ where
  abbrev pub contains : List A → A → Bool
  contains [] a = false
  contains (x ∷ xs) a = x == a || contains xs a

pub find-some :
    {A : Type 0} (p : A → Bool) (xs : List A) (a : A)
    → find p xs ≡ some a
    → Elem a xs × (p a ≡ true)
find-some p [] a h = cc h
find-some p (x ∷ xs) a h = elim (Bool-cases (p x)) [
  | inl e ↦ let q : x ≡ a = ground (arith, e) in (inl (cc q), rw q at e)
  | inr e ↦ let (m, k) = find-some p xs a (ground (arith, e)) in (inr m, k)
]

-- A search that fails fails at every element.
pub find-fails :
    {A : Type 0} (p : A → Bool) (xs : List A) (a : A) → find p xs ≡ none → Elem a xs → p a ≡ false
find-fails p [] a h m = absurd m
find-fails p (x ∷ xs) a h (inl q) = rw q (ground (arith, h))
find-fails p (x ∷ xs) a h (inr m) = elim (Bool-cases (p x)) [
  | inl e ↦ absurd (ground (arith, e, h))
  | inr e ↦ find-fails p xs a (ground (arith, e, h)) m
]

module _ {A : Type 0} ⦃e : Eq A⦄ where
  pub contains-Elem : (xs : List A) (a : A) → contains xs a ≡ true → Elem a xs
  contains-Elem [] a h = cc h
  contains-Elem (x ∷ xs) a h = elim (Bool-cases (x == a)) [
    | inl q ↦ inl (ground (arith, (e.equal_iff x a).0 q))
    | inr q ↦ inr (contains-Elem xs a (ground (arith, q, h)))
  ]

  pub Elem-contains : (xs : List A) (a : A) → Elem a xs → contains xs a ≡ true
  Elem-contains [] a m = absurd m
  Elem-contains (x ∷ xs) a (inl q) = ground (arith, (e.equal_iff x a).1, q)
  Elem-contains (x ∷ xs) a (inr m) = ground (arith, Elem-contains xs a m)
