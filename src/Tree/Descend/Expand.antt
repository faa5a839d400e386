-- ===== src/Tree/Descend/Expand.antt =====
-- The step of `collect_descendants` of directories/tree.rs that expands a directory.
use opake.Base.{
  ◌≡◌, ◌⊎◌, inl, inr, refl, sym, ap, Bool, true, false, ◌==◌, some, List, ◌∷◌, Str, str_eq,
  str_beq_iff, contains, get, Elem, arith, Bool-cases,
}
use opake.Tree.{DirectoryInfo, DirectoryTree, EntryKind}
use opake.Tree.Descend.{Descent, visit_entries}
use opake.Tree.Descend.Steps.{
  IsSubdirectory, visit_entries-stack, visit_entries-result, visit_entries-pushed,
  visit_entries-missing, visit_entries-stack-cases, visit_entries-result-cases,
}
use opake.Tree.Descend.Ends.{with_stack}
use opake.Tree.Descend.Below.{Lists, Below-or, Covers, Stays}

module _ (t : DirectoryTree) (uri : Str) where
  module _ (expanded : List Str) (current : Str) (stack : List (Str × Bool))
      (result : List (Str × EntryKind)) where
    module _ (dir : DirectoryInfo) (g : get t.directories current ≡ some dir) where
      abbrev expand : Descent
      expand = visit_entries t dir.entries (with_stack t ((current, true) ∷ stack) result)

      pub expand-Stays :
          Stays t uri ((current, false) ∷ stack) result → Stays t uri expand.stack expand.result
      expand-Stays s =
          let here = s.pending current false (inl refl) in
          record {
            pending = λ a b m. elim (visit_entries-stack-cases t dir.entries _ a b m) [
              | inl (inl e) ↦ rw (ap (λ p. p.0) e) here
              | inl (inr old) ↦ s.pending a b (inr old)
              | inr (x, k) ↦ inr (Below-or t uri current a here (dir, g, x, k))
            ];
            sound = λ a m. elim (visit_entries-result-cases t dir.entries _ a m) [
              | inl old ↦ s.sound a old
              | inr (x, k) ↦ Below-or t uri current a here (dir, g, x, k)
            ];
          }

      expanded-cases :
          (a : Str)
          → contains (current ∷ expanded) a ≡ true
          → (a ≡ current) ⊎ (contains expanded a ≡ true)
      expanded-cases a h = elim (Bool-cases (current == a)) [
        | inl q ↦ inl (sym ((str_beq_iff current a).0 q))
        | inr q ↦ inr (ground (arith, q))
      ]

      contains-rest :
          (a : Str) → contains expanded a ≡ true → contains (current ∷ expanded) a ≡ true
      contains-rest a h = ground (arith, h)

      contains_self : contains (current ∷ expanded) current ≡ true
      contains_self = ground (arith, str_beq_iff current current)

      Lists-entry :
          (a e : Str) → a ≡ current → Lists t a e → Elem e dir.entries × IsSubdirectory t e
      Lists-entry a e q (info, h, m, k) =
          let same : info ≡ dir = ground (arith, g, h, q) in (rw same at m, k)

      pub expand-Covers :
          Covers t uri expanded ((current, false) ∷ stack) result
          → Covers t uri (current ∷ expanded) expand.stack expand.result
      expand-Covers c =
          let keep_stack =
            visit_entries-stack t dir.entries (with_stack t ((current, true) ∷ stack) result) in
          let keep_result =
            visit_entries-result t dir.entries (with_stack t ((current, true) ∷ stack) result) in
          record {
            readable = λ a x. elim (expanded-cases a x) [
              | inl q ↦ ground (arith, g, q)
              | inr x' ↦ c.readable a x'
            ];
            closed = λ a e x l k. elim (expanded-cases a x) [
              | inl q ↦
                  let (m, d) = Lists-entry a e q l in
                  inr (visit_entries-pushed t dir.entries _ e m d k)
              | inr x' ↦ elim (c.closed a e x' l k) [
                | inl y ↦ inl (contains-rest e y)
                | inr (inl q) ↦ inl (rw (ap (λ p. p.0) q) contains_self)
                | inr (inr m) ↦ inr (keep_stack (e, false) (inr m))
              ]
            ];
            absent = λ a e x l k. elim (expanded-cases a x) [
              | inl q ↦
                  let (m, d) = Lists-entry a e q l in visit_entries-missing t dir.entries _ e m d k
              | inr x' ↦ keep_result _ (c.absent a e x' l k)
            ];
            emitted = λ a x n. elim (expanded-cases a x) [
              | inl q ↦ inr (rw q (keep_stack (current, true) (inl refl)))
              | inr x' ↦ elim (c.emitted a x' n) [
                | inl y ↦ inl (keep_result _ y)
                | inr (inl q) ↦ inr (rw (ap (λ p. p.0) q) (keep_stack (current, true) (inl refl)))
                | inr (inr m) ↦ inr (keep_stack (a, true) (inr m))
              ]
            ];
            begun = λ k. elim (c.begun k) [
              | inl y ↦ inl (contains-rest uri y)
              | inr (inl q) ↦ inl (rw (ap (λ p. p.0) q) contains_self)
              | inr (inr m) ↦ inr (keep_stack (uri, false) (inr m))
            ];
          }
