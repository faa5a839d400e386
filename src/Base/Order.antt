-- ===== src/Base/Order.antt =====
-- The order of texts, byte by byte, and a stable insertion sort by a text key.
use mathlib.Core.Path.{◌≡◌, refl, sym, ◌∙◌}
use mathlib.Core.Logic.{inl, inr, ◌↔◌}
use mathlib.Core.Bool.{Bool, true, false, ◌&&◌, ◌||◌}
use mathlib.Core.Option.{Option, none, some}
use mathlib.Core.List.{List, [], ◌∷◌}
use native.Mathlib.Omega.{arith}
use opake.Base.Tests.{ltb, if◌then◌else◌, Bool-cases}
use opake.Base.Equality.{Str, ◌==◌, nat_eq, str_eq, str_beq, str_beq_iff}
use opake.Base.Lists.{find, All, Elem}

-- First difference first.
abbrev pub lex_less : Str → Str → Bool
lex_less [] [] = false
lex_less [] (b ∷ t) = true
lex_less (a ∷ s) [] = false
lex_less (a ∷ s) (b ∷ t) = ltb a b || (a == b && lex_less s t)

pub lex_less_irrefl : (s : Str) → lex_less s s ≡ false
lex_less_irrefl [] = refl
lex_less_irrefl (a ∷ s) = ground (arith, lex_less_irrefl s)

pub lex_less_trans : (s t u : Str) → lex_less s t ≡ true → lex_less t u ≡ true → lex_less s u ≡ true
lex_less_trans [] [] u h k = cc
lex_less_trans [] (b ∷ t) [] h k = k
lex_less_trans [] (b ∷ t) (c ∷ u) h k = refl
lex_less_trans (a ∷ s) [] u h k = cc h
lex_less_trans (a ∷ s) (b ∷ t) [] h k = cc k
lex_less_trans (a ∷ s) (b ∷ t) (c ∷ u) h k = ground (arith, lex_less_trans s t u)

pub lex_less_total : (s t : Str) → lex_less s t ≡ false → (s == t) ≡ false → lex_less t s ≡ true
unfolding str_beq
lex_less_total [] [] h n = cc n
lex_less_total [] (b ∷ t) h n = cc h
lex_less_total (a ∷ s) [] h n = refl
lex_less_total (a ∷ s) (b ∷ t) h n = ground (arith, lex_less_total s t)

module _ {A : Type 0} (key : A → Str) where
  unfoldable pub insert_sorted : A → List A → List A
  insert_sorted x [] = x ∷ []
  insert_sorted x (y ∷ ys) =
      let rest = insert_sorted x ys in if lex_less (key x) (key y) then x ∷ y ∷ ys else y ∷ rest

  unfoldable pub sort_by : List A → List A
  sort_by [] = []
  sort_by (x ∷ xs) = insert_sorted x (sort_by xs)

  abbrev pub lookup : List A → Str → Option A
  lookup xs u = find (λ x. key x == u) xs

  -- No two elements have one key.
  abbrev pub IsDistinct : List A → Type 0
  IsDistinct [] = Unit
  IsDistinct (x ∷ xs) = (lookup xs (key x) ≡ none) × IsDistinct xs

  abbrev pub IsSorted : List A → Type 0
  IsSorted [] = Unit
  IsSorted (x ∷ xs) = All (λ y. lex_less (key x) (key y) ≡ true) xs × IsSorted xs

  insert_sorted-Elem : (x : A) (xs : List A) (a : A) → Elem a (insert_sorted x xs) ↔ Elem a (x ∷ xs)
  unfolding insert_sorted
  insert_sorted-Elem x [] a = (λ m. m, λ m. m)
  insert_sorted-Elem x (y ∷ ys) a = elim (Bool-cases (lex_less (key x) (key y))) [
    | inl e ↦ rw (e, insert_sorted) (λ m. m, λ m. m)
    | inr e ↦
        rw (e, insert_sorted)
          (
            λ m. elim m [
              | inl q ↦ inr (inl q)
              | inr n ↦ elim ((insert_sorted-Elem x ys a).0 n) [
                | inl q ↦ inl q
                | inr k ↦ inr (inr k)
              ]
            ],
            λ m. elim m [
              | inl q ↦ inr ((insert_sorted-Elem x ys a).1 (inl q))
              | inr (inl q) ↦ inl q
              | inr (inr k) ↦ inr ((insert_sorted-Elem x ys a).1 (inr k))
            ],
          )
  ]

  -- Sorting keeps the elements.
  pub sort_by-Elem : (xs : List A) (a : A) → Elem a (sort_by xs) ↔ Elem a xs
  unfolding sort_by
  sort_by-Elem [] a = (λ m. m, λ m. m)
  sort_by-Elem (x ∷ xs) a = (
    λ m. elim ((insert_sorted-Elem x (sort_by xs) a).0 m) [
      | inl q ↦ inl q
      | inr n ↦ inr ((sort_by-Elem xs a).0 n)
    ],
    λ m.
        (insert_sorted-Elem x (sort_by xs) a).1
          (elim m [ inl q ↦ inl q | inr n ↦ inr ((sort_by-Elem xs a).1 n) ]),
  )

  lookup-insert_sorted :
      (x : A) (xs : List A) (u : Str)
      → lookup xs (key x) ≡ none
      → lookup (insert_sorted x xs) u ≡ (if key x == u then some x else lookup xs u)
  unfolding insert_sorted
  lookup-insert_sorted x [] u h = refl
  lookup-insert_sorted x (y ∷ ys) u h = ground (
    arith,
    lookup-insert_sorted x ys u,
    str_beq_iff (key x) u,
    str_beq_iff (key y) u,
    str_beq_iff (key y) (key x),
  )

  pub lookup-sort_by : (xs : List A) (u : Str) → IsDistinct xs → lookup (sort_by xs) u ≡ lookup xs u
  unfolding sort_by
  lookup-sort_by [] u d = refl
  lookup-sort_by (x ∷ xs) u d = ground (
    arith,
    lookup-insert_sorted x (sort_by xs) u,
    lookup-sort_by xs u d.1,
    lookup-sort_by xs (key x) d.1,
  )

  All-above :
      (s t : Str) (xs : List A)
      → lex_less s t ≡ true
      → All (λ y. lex_less t (key y) ≡ true) xs
      → All (λ y. lex_less s (key y) ≡ true) xs
  All-above s t [] h a = tt
  All-above s t (x ∷ xs) h a = (lex_less_trans s t (key x) h a.0, All-above s t xs h a.1)

  All-insert_sorted :
      (s : Str) (x : A) (xs : List A)
      → lex_less s (key x) ≡ true
      → All (λ y. lex_less s (key y) ≡ true) xs
      → All (λ y. lex_less s (key y) ≡ true) (insert_sorted x xs)
  unfolding insert_sorted
  All-insert_sorted s x [] h a = (h, tt)
  All-insert_sorted s x (y ∷ ys) h a = elim (Bool-cases (lex_less (key x) (key y))) [
    | inl e ↦ rw (e, insert_sorted) (h, a)
    | inr e ↦ rw (e, insert_sorted) (a.0, All-insert_sorted s x ys h a.1)
  ]

  insert_sorted-IsSorted :
      (x : A) (xs : List A) → lookup xs (key x) ≡ none → IsSorted xs → IsSorted (insert_sorted x xs)
  unfolding insert_sorted
  insert_sorted-IsSorted x [] h s = (tt, tt)
  insert_sorted-IsSorted x (y ∷ ys) h s = elim (Bool-cases (lex_less (key x) (key y))) [
    | inl e ↦ rw (e, insert_sorted) ((e, All-above (key x) (key y) ys e s.0), s)
    | inr e ↦ elim (Bool-cases (key y == key x)) [
      | inl q ↦ absurd (ground (arith, q, h))
      | inr q ↦
          let differ : (key x == key y) ≡ false =
            ground (arith, q, str_beq_iff (key x) (key y), str_beq_iff (key y) (key x)) in
          let rest : lookup ys (key x) ≡ none = ground (arith, q, h) in
          rw (e, insert_sorted)
            (
              All-insert_sorted (key y) x ys (lex_less_total (key x) (key y) e differ) s.0,
              insert_sorted-IsSorted x ys rest s.1,
            )
    ]
  ]

  pub sort_by-IsSorted : (xs : List A) → IsDistinct xs → IsSorted (sort_by xs)
  unfolding sort_by
  sort_by-IsSorted [] d = tt
  sort_by-IsSorted (x ∷ xs) d =
      insert_sorted-IsSorted x (sort_by xs) (rw (lookup-sort_by xs (key x) d.1) d.0)
        (sort_by-IsSorted xs d.1)

  lookup-above :
      (s : Str) (xs : List A) → All (λ y. lex_less s (key y) ≡ true) xs → lookup xs s ≡ none
  lookup-above s [] a = refl
  lookup-above s (x ∷ xs) a = elim (Bool-cases (key x == s)) [
    | inl q ↦ absurd (ground (arith, rw ((str_beq_iff (key x) s).0 q) at a.0, lex_less_irrefl s))
    | inr q ↦ rw q (lookup-above s xs a.1)
  ]

  found-above :
      (s u : Str) (xs : List A) (y : A)
      → All (λ z. lex_less s (key z) ≡ true) xs
      → lookup xs u ≡ some y
      → lex_less s u ≡ true
  found-above s u [] y a h = cc h
  found-above s u (x ∷ xs) y a h = elim (Bool-cases (key x == u)) [
    | inl q ↦ rw ((str_beq_iff (key x) u).0 q) at a.0
    | inr q ↦ found-above s u xs y a.1 (ground (arith, q))
  ]

  -- Sorted lists with the same lookups are equal.
  pub sorted_unique :
      (xs ys : List A)
      → IsSorted xs
      → IsSorted ys
      → ((u : Str) → lookup xs u ≡ lookup ys u)
      → xs ≡ ys
  sorted_unique [] [] s t e = refl
  sorted_unique [] (y ∷ ys) s t e = absurd (ground (arith, e (key y), str_beq_iff (key y) (key y)))
  sorted_unique (x ∷ xs) [] s t e = absurd (ground (arith, e (key x), str_beq_iff (key x) (key x)))
  sorted_unique (x ∷ xs) (y ∷ ys) s t e = elim (Bool-cases (key x == key y)) [
    | inl q ↦
        let k : key x ≡ key y = (str_beq_iff (key x) (key y)).0 q in
        let same : x ≡ y = ground (arith, e (key x), k, str_beq_iff (key y) (key y)) in
        let rest : (u : Str) → lookup xs u ≡ lookup ys u = λ u. elim (Bool-cases (key x == u)) [
          | inl p ↦ ground (
            arith,
            rw ((str_beq_iff (key x) u).0 p) at (lookup-above (key x) xs s.0),
            rw (sym k ∙ (str_beq_iff (key x) u).0 p) at (lookup-above (key y) ys t.0),
          )
          | inr p ↦ ground (arith, e u, k, p)
        ] in
        rw (same, sorted_unique xs ys s.1 t.1 rest) refl
    | inr q ↦
        let swapped : (key y == key x) ≡ false =
          ground (arith, q, str_beq_iff (key x) (key y), str_beq_iff (key y) (key x)) in
        let up : lex_less (key y) (key x) ≡ true =
          found-above (key y) (key x) ys x t.0
            (ground (arith, e (key x), swapped, str_beq_iff (key x) (key x))) in
        let down : lex_less (key x) (key y) ≡ true =
          found-above (key x) (key y) xs y s.0
            (ground (arith, e (key y), q, str_beq_iff (key y) (key y))) in
        absurd
          (ground (arith, lex_less_trans (key x) (key y) (key x) down up, lex_less_irrefl (key x)))
  ]
