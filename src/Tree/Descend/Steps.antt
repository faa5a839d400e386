-- ===== src/Tree/Descend/Steps.antt =====
-- What one listing adds to the stack and to the result of `collect_descendants` of
-- directories/tree.rs.
use opake.Base.{
  ◌≡◌, ◌⊎◌, inl, inr, refl, ap, Bool, true, false, none, some, List, [], ◌∷◌, ◌++◌, Str,
  contains_key, Elem, arith, Bool-cases, Option-cases, str_eq,
}
use opake.Tree.{DirectoryTree, EntryKind, entry_kind_from_uri}
use opake.Tree.Descend.{Descent, visit_entry, visit_entries}

pub Elem-left : {A : Type 0} (a : A) (xs ys : List A) → Elem a xs → Elem a (xs ++ ys)
Elem-left a [] ys m = absurd m
Elem-left a (x ∷ xs) ys (inl e) = inl e
Elem-left a (x ∷ xs) ys (inr m) = inr (Elem-left a xs ys m)

pub Elem-snoc : {A : Type 0} (a : A) (xs : List A) → Elem a (xs ++ a ∷ [])
Elem-snoc a [] = inl refl
Elem-snoc a (x ∷ xs) = inr (Elem-snoc a xs)

pub Elem-snoc-cases :
    {A : Type 0} (a b : A) (xs : List A) → Elem a (xs ++ b ∷ []) → Elem a xs ⊎ (a ≡ b)
Elem-snoc-cases a b [] (inl e) = inr e
Elem-snoc-cases a b [] (inr m) = absurd m
Elem-snoc-cases a b (x ∷ xs) (inl e) = inl (inl e)
Elem-snoc-cases a b (x ∷ xs) (inr m) = elim (Elem-snoc-cases a b xs m) [
  | inl k ↦ inl (inr k)
  | inr e ↦ inr e
]

module _ (t : DirectoryTree) where
  -- A listed directory.
  abbrev pub IsSubdirectory : Str → Type 0
  IsSubdirectory e = entry_kind_from_uri e ≡ some EntryKind.directory

  -- The four ways a listed URI is taken.
  pub data Visited (e : Str) (s : Descent) : Descent → Type 0 where
    skipped : entry_kind_from_uri e ≡ none → Visited e s s
    document :
        entry_kind_from_uri e ≡ some EntryKind.document
        → Visited e s (record s { result = s.result ++ (e, EntryKind.document) ∷ [] })
    pushed :
        IsSubdirectory e
        → contains_key t.directories e ≡ true
        → Visited e s (record s { stack = (e, false) ∷ s.stack })
    missing :
        IsSubdirectory e
        → contains_key t.directories e ≡ false
        → Visited e s (record s { result = s.result ++ (e, EntryKind.directory) ∷ [] })

  visit_entry-Visited : (e : Str) (s : Descent) → Visited e s (visit_entry t e s)
  unfolding visit_entry
  visit_entry-Visited e s = elim (Option-cases (entry_kind_from_uri e)) [
    | inl k ↦ rw (k, visit_entry) (skipped k)
    | inr (EntryKind.document, k) ↦ rw (k, visit_entry) (document k)
    | inr (EntryKind.directory, k) ↦ elim (Bool-cases (contains_key t.directories e)) [
      | inl c ↦ rw (k, c, visit_entry) (pushed k c)
      | inr c ↦ rw (k, c, visit_entry) (missing k c)
    ]
  ]

  -- Nothing is lost.
  Visited-stack :
      (e : Str) (s s' : Descent) (w : Str × Bool)
      → Visited e s s'
      → Elem w s.stack
      → Elem w s'.stack
  Visited-stack e s _ w (skipped k) m = m
  Visited-stack e s _ w (document k) m = m
  Visited-stack e s _ w (pushed k c) m = inr m
  Visited-stack e s _ w (missing k c) m = m

  Visited-result :
      (e : Str) (s s' : Descent) (w : Str × EntryKind)
      → Visited e s s'
      → Elem w s.result
      → Elem w s'.result
  Visited-result e s _ w (skipped k) m = m
  Visited-result e s _ w (document k) m = Elem-left w s.result _ m
  Visited-result e s _ w (pushed k c) m = m
  Visited-result e s _ w (missing k c) m = Elem-left w s.result _ m

  -- A subdirectory is pushed if it is readable, and emitted if it is not.
  Visited-pushed :
      (e : Str) (s s' : Descent)
      → Visited e s s'
      → IsSubdirectory e
      → contains_key t.directories e ≡ true
      → Elem (e, false) s'.stack
  Visited-pushed e s _ (skipped k) d h = absurd (ground (arith, k, d))
  Visited-pushed e s _ (document k) d h = absurd (ground (arith, k, d))
  Visited-pushed e s _ (pushed k c) d h = inl refl
  Visited-pushed e s _ (missing k c) d h = absurd (ground (arith, c, h))

  Visited-missing :
      (e : Str) (s s' : Descent)
      → Visited e s s'
      → IsSubdirectory e
      → contains_key t.directories e ≡ false
      → Elem (e, EntryKind.directory) s'.result
  Visited-missing e s _ (skipped k) d h = absurd (ground (arith, k, d))
  Visited-missing e s _ (document k) d h = absurd (ground (arith, k, d))
  Visited-missing e s _ (pushed k c) d h = absurd (ground (arith, c, h))
  Visited-missing e s _ (missing k c) d h = Elem-snoc (e, EntryKind.directory) s.result

  -- Nothing else is added.
  Visited-stack-cases :
      (e : Str) (s s' : Descent) (a : Str) (b : Bool)
      → Visited e s s'
      → Elem (a, b) s'.stack
      → Elem (a, b) s.stack ⊎ ((a ≡ e) × IsSubdirectory e)
  Visited-stack-cases e s _ a b (skipped k) m = inl m
  Visited-stack-cases e s _ a b (document k) m = inl m
  Visited-stack-cases e s _ a b (pushed k c) (inl q) = inr (ap (λ p. p.0) q, k)
  Visited-stack-cases e s _ a b (pushed k c) (inr m) = inl m
  Visited-stack-cases e s _ a b (missing k c) m = inl m

  Visited-result-cases :
      (e : Str) (s s' : Descent) (a : Str)
      → Visited e s s'
      → Elem (a, EntryKind.directory) s'.result
      → Elem (a, EntryKind.directory) s.result ⊎ ((a ≡ e) × IsSubdirectory e)
  Visited-result-cases e s _ a (skipped k) m = inl m
  Visited-result-cases e s _ a (document k) m = elim (Elem-snoc-cases _ _ s.result m) [
    | inl m' ↦ inl m'
    | inr q ↦ absurd (cc (ap (λ p. p.1) q))
  ]
  Visited-result-cases e s _ a (pushed k c) m = inl m
  Visited-result-cases e s _ a (missing k c) m = elim (Elem-snoc-cases _ _ s.result m) [
    | inl m' ↦ inl m'
    | inr q ↦ inr (ap (λ p. p.0) q, k)
  ]

  -- The same for a whole listing.
  pub visit_entries-stack :
      (es : List Str) (s : Descent) (w : Str × Bool)
      → Elem w s.stack
      → Elem w (visit_entries t es s).stack
  unfolding visit_entries
  visit_entries-stack [] s w m = m
  visit_entries-stack (e ∷ es) s w m =
      Visited-stack e _ _ w (visit_entry-Visited e (visit_entries t es s))
        (visit_entries-stack es s w m)

  pub visit_entries-result :
      (es : List Str) (s : Descent) (w : Str × EntryKind)
      → Elem w s.result
      → Elem w (visit_entries t es s).result
  unfolding visit_entries
  visit_entries-result [] s w m = m
  visit_entries-result (e ∷ es) s w m =
      Visited-result e _ _ w (visit_entry-Visited e (visit_entries t es s))
        (visit_entries-result es s w m)

  pub visit_entries-pushed :
      (es : List Str) (s : Descent) (e : Str)
      → Elem e es
      → IsSubdirectory e
      → contains_key t.directories e ≡ true
      → Elem (e, false) (visit_entries t es s).stack
  unfolding visit_entries
  visit_entries-pushed [] s e m k c = absurd m
  visit_entries-pushed (x ∷ es) s e (inl q) k c =
      rw q (
        Visited-pushed x _ _ (visit_entry-Visited x (visit_entries t es s)) (rw q at k) (rw q at c))
  visit_entries-pushed (x ∷ es) s e (inr m) k c =
      Visited-stack x _ _ _ (visit_entry-Visited x (visit_entries t es s))
        (visit_entries-pushed es s e m k c)

  pub visit_entries-missing :
      (es : List Str) (s : Descent) (e : Str)
      → Elem e es
      → IsSubdirectory e
      → contains_key t.directories e ≡ false
      → Elem (e, EntryKind.directory) (visit_entries t es s).result
  unfolding visit_entries
  visit_entries-missing [] s e m k c = absurd m
  visit_entries-missing (x ∷ es) s e (inl q) k c =
      rw q (
        Visited-missing x _ _ (visit_entry-Visited x (visit_entries t es s)) (rw q at k)
          (rw q at c))
  visit_entries-missing (x ∷ es) s e (inr m) k c =
      Visited-result x _ _ _ (visit_entry-Visited x (visit_entries t es s))
        (visit_entries-missing es s e m k c)

  pub visit_entries-stack-cases :
      (es : List Str) (s : Descent) (a : Str) (b : Bool)
      → Elem (a, b) (visit_entries t es s).stack
      → Elem (a, b) s.stack ⊎ (Elem a es × IsSubdirectory a)
  unfolding visit_entries
  visit_entries-stack-cases [] s a b m = inl m
  visit_entries-stack-cases (e ∷ es) s a b m =
      elim (Visited-stack-cases e _ _ a b (visit_entry-Visited e (visit_entries t es s)) m) [
        | inr (q, k) ↦ inr (inl q, rw q k)
        | inl m' ↦ elim (visit_entries-stack-cases es s a b m') [
          | inl old ↦ inl old
          | inr (x, k) ↦ inr (inr x, k)
        ]
      ]

  pub visit_entries-result-cases :
      (es : List Str) (s : Descent) (a : Str)
      → Elem (a, EntryKind.directory) (visit_entries t es s).result
      → Elem (a, EntryKind.directory) s.result ⊎ (Elem a es × IsSubdirectory a)
  unfolding visit_entries
  visit_entries-result-cases [] s a m = inl m
  visit_entries-result-cases (e ∷ es) s a m =
      elim (Visited-result-cases e _ _ a (visit_entry-Visited e (visit_entries t es s)) m) [
        | inr (q, k) ↦ inr (inl q, rw q k)
        | inl m' ↦ elim (visit_entries-result-cases es s a m') [
          | inl old ↦ inl old
          | inr (x, k) ↦ inr (inr x, k)
        ]
      ]
