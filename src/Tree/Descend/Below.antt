-- ===== src/Tree/Descend/Below.antt =====
-- The loop of `collect_descendants` of directories/tree.rs: what it keeps from step to step.
use opake.Base.{
  ◌≡◌, ◌≢◌, ◌⊎◌, inl, inr, refl, ap, Bool, true, false, ◌==◌, none, some, List, ◌∷◌, Str, str_eq,
  str_beq_iff, contains, contains_key, get, Elem, arith, Bool-cases,
}
use opake.Tree.{DirectoryInfo, DirectoryTree, EntryKind}
use opake.Tree.Descend.{emit}
use opake.Tree.Descend.Steps.{IsSubdirectory, Elem-left, Elem-snoc, Elem-snoc-cases}
use opake.Tree.Descend.Ends.{with_stack}

module _ (t : DirectoryTree) where
  -- A readable directory lists a subdirectory.
  abbrev pub Lists : Str → Str → Type 0
  Lists a e =
      (info : DirectoryInfo) × (get t.directories a ≡ some info)
      × Elem e info.entries
      × IsSubdirectory t e

  -- One listing or more lead down from `a` to `d`.
  pub data Below (a : Str) : Str → Type 0 where
    child : (d : Str) → Lists a d → Below a d
    deeper : (b d : Str) → Below a b → Lists b d → Below a d

module _ (t : DirectoryTree) (uri : Str) where
  -- What the loop keeps, so that nothing below the start is missed.
  pub record Covers (expanded : List Str) (stack : List (Str × Bool))
      (result : List (Str × EntryKind)) : Type 0 where
    pub readable : (a : Str) → contains expanded a ≡ true → contains_key t.directories a ≡ true
    pub closed :
        (a e : Str)
        → contains expanded a ≡ true
        → Lists t a e
        → contains_key t.directories e ≡ true
        → (contains expanded e ≡ true) ⊎ Elem (e, false) stack
    pub absent :
        (a e : Str)
        → contains expanded a ≡ true
        → Lists t a e
        → contains_key t.directories e ≡ false
        → Elem (e, EntryKind.directory) result
    pub emitted :
        (a : Str)
        → contains expanded a ≡ true
        → a ≢ uri
        → Elem (a, EntryKind.directory) result ⊎ Elem (a, true) stack
    pub begun :
        contains_key t.directories uri ≡ true
        → (contains expanded uri ≡ true) ⊎ Elem (uri, false) stack

  -- All that is on the way or emitted is the start or below it.
  pub record Stays (stack : List (Str × Bool)) (result : List (Str × EntryKind)) : Type 0 where
    pub pending : (a : Str) (b : Bool) → Elem (a, b) stack → (a ≡ uri) ⊎ Below t uri a
    pub sound : (a : Str) → Elem (a, EntryKind.directory) result → Below t uri a

  pub Below-or : (b d : Str) → (b ≡ uri) ⊎ Below t uri b → Lists t b d → Below t uri d
  Below-or b d (inl q) l = child d (rw q at l)
  Below-or b d (inr p) l = deeper b d p l

  abbrev IsPop : Str × Bool → Str × Bool → Type 0
  IsPop p q = p ≡ q

  module _ (expanded : List Str) (current : Str) (stack : List (Str × Bool))
      (result : List (Str × EntryKind)) where
    pop-Covers :
        (v : Bool) (result' : List (Str × EntryKind))
        → ((w : Str × EntryKind) → Elem w result → Elem w result')
        → ((e : Str)
            → IsPop (e, false) (current, v)
            → contains_key t.directories e ≡ true
            → contains expanded e ≡ true)
        → ((a : Str)
            → IsPop (a, true) (current, v)
            → contains expanded a ≡ true
            → a ≢ uri
            → Elem (a, EntryKind.directory) result')
        → Covers expanded ((current, v) ∷ stack) result
        → Covers expanded stack result'
    pop-Covers v result' more done closing c = record {
      readable = c.readable;
      closed = λ a e x l k. elim (c.closed a e x l k) [
        | inl y ↦ inl y
        | inr (inr m) ↦ inr m
        | inr (inl q) ↦ inl (done e q k)
      ];
      absent = λ a e x l k. more _ (c.absent a e x l k);
      emitted = λ a x n. elim (c.emitted a x n) [
        | inl y ↦ inl (more _ y)
        | inr (inr m) ↦ inr m
        | inr (inl q) ↦ inl (closing a q x n)
      ];
      begun = λ k. elim (c.begun k) [
        | inl y ↦ inl y
        | inr (inr m) ↦ inr m
        | inr (inl q) ↦ inl (done uri q k)
      ];
    }

    pub unreadable-Covers :
        (v : Bool)
        → get t.directories current ≡ none
        → Covers expanded ((current, v) ∷ stack) result
        → Covers expanded stack result
    unreadable-Covers v g c =
        pop-Covers v result (λ w m. m) (λ e q k. absurd (ground (arith, g, k, ap (λ p. p.0) q)))
          (λ a q x n. absurd (ground (arith, g, c.readable a x, ap (λ p. p.0) q))) c

    pub again-Covers :
        contains expanded current ≡ true
        → Covers expanded ((current, false) ∷ stack) result
        → Covers expanded stack result
    again-Covers h c =
        pop-Covers false result (λ w m. m) (λ e q k. rw (ap (λ p. p.0) q) h)
          (λ a q x n. absurd (cc (ap (λ p. p.1) q))) c

    emit-result :
        (w : Str × EntryKind)
        → Elem w result
        → Elem w (emit t uri current (with_stack t stack result)).result
    unfolding emit
    emit-result w m = elim (Bool-cases (current == uri)) [
      | inl q ↦ rw (q, emit) m
      | inr q ↦ rw (q, emit) (Elem-left w result _ m)
    ]

    emit-current :
        current ≢ uri
        → Elem
            (current, EntryKind.directory)
            (emit t uri current (with_stack t stack result)).result
    unfolding emit
    emit-current n = elim (Bool-cases (current == uri)) [
      | inl q ↦ absurd (n ((str_beq_iff current uri).0 q))
      | inr q ↦ rw (q, emit) (Elem-snoc (current, EntryKind.directory) result)
    ]

    pub emit-Covers :
        Covers expanded ((current, true) ∷ stack) result
        → Covers expanded stack (emit t uri current (with_stack t stack result)).result
    emit-Covers c =
        pop-Covers true (emit t uri current (with_stack t stack result)).result emit-result
          (λ e q k. absurd (cc (ap (λ p. p.1) q)))
          (λ a q x n. let e : a ≡ current = ap (λ p. p.0) q in rw e (emit-current (rw e at n))) c

    pub pop-Stays : (v : Bool) → Stays ((current, v) ∷ stack) result → Stays stack result
    pop-Stays v s = record { pending = λ a b m. s.pending a b (inr m); sound = s.sound }

    pub emit-Stays :
        Stays ((current, true) ∷ stack) result
        → Stays stack (emit t uri current (with_stack t stack result)).result
    unfolding emit
    emit-Stays s = elim (Bool-cases (current == uri)) [
      | inl q ↦ rw (q, emit) (pop-Stays true s)
      | inr q ↦
          rw (q, emit)
            (record {
              pending = λ a b m. s.pending a b (inr m);
              sound = λ a m. elim (Elem-snoc-cases _ _ result m) [
                | inl old ↦ s.sound a old
                | inr e ↦ elim (s.pending current true (inl refl)) [
                  | inl p ↦ absurd (ground (arith, p, q, str_beq_iff current uri))
                  | inr b ↦ rw (ap (λ p. p.0) e) b
                ]
              ];
            })
    ]
