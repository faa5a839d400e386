-- ===== src/Tree/Descend/Cycle.antt =====
-- The result of `collect_descendants` of directories/tree.rs, and `check_cycle` of
-- directories/move_entry.rs.
use opake.Base.{
  ℕ, zero, suc, ◌≡◌, ◌≢◌, ◌↔◌, inl, inr, refl, sym, ap, Bool, true, false, ◌==◌, none, some, List,
  [], ◌∷◌, Str, str_eq, str_beq_iff, contains, contains_key, get, any, Elem, arith, Bool-cases,
  Option-cases,
}
use opake.Error.{ok}
use opake.Tree.{DirectoryTree, EntryKind}
use opake.Tree.Descend.{
  Descent, visit_entries, emit, descend, start, weight, collect_descendants, is_target, check_cycle,
}
use opake.Tree.Descend.Ends.{with_stack, emit-stack, collect_descendants_ends}
use opake.Tree.Descend.Below.{
  Lists, Below, child, deeper, Covers, Stays, unreadable-Covers, again-Covers, emit-Covers,
  pop-Stays, emit-Stays,
}
use opake.Tree.Descend.Within.{
  Within, Crosses, IsClear, Below-IsClear, IsClear-Below, apart-Crosses,
}
use opake.Tree.Descend.Expand.{expand-Stays, expand-Covers}

module _ (t : DirectoryTree) (uri : Str) where
  -- What holds when the stack is empty.
  record Finished (found : List (Str × EntryKind)) : Type 0 where
    expanded : List Str
    covers : Covers t uri expanded [] found
    stays : Stays t uri [] found

  descend-Finished :
      (fuel : ℕ) (expanded : List Str) (stack : List (Str × Bool))
      (result found : List (Str × EntryKind))
      → Covers t uri expanded stack result
      → Stays t uri stack result
      → descend t uri fuel expanded (with_stack t stack result) ≡ some found
      → Finished found
  unfolding descend
  descend-Finished zero expanded [] result found c s h =
      let q : result ≡ found = ground arith in
      record { expanded = expanded; covers = rw q at c; stays = rw q at s }
  descend-Finished (suc fuel) expanded [] result found c s h =
      let q : result ≡ found = ground arith in
      record { expanded = expanded; covers = rw q at c; stays = rw q at s }
  descend-Finished zero expanded (w ∷ stack) result found c s h = cc h
  descend-Finished (suc fuel) expanded ((current, visited) ∷ stack) result found c s h =
      elim (Option-cases (get t.directories current)) [
        | inl g ↦
            descend-Finished fuel expanded stack result found
              (unreadable-Covers t uri expanded current stack result visited g c)
              (pop-Stays t uri expanded current stack result visited s) (ground (arith, g))
        | inr (dir, g) ↦ elim (Bool-cases visited) [
          | inl v ↦
              let out : Descent = emit t uri current (with_stack t stack result) in
              let same : out.stack ≡ stack = emit-stack t uri current (with_stack t stack result) in
              descend-Finished fuel expanded out.stack out.result found
                (rw same (emit-Covers t uri expanded current stack result (rw v at c)))
                (rw same (emit-Stays t uri expanded current stack result (rw v at s)))
                (ground (arith, g, v))
          | inr v ↦ elim (Bool-cases (contains expanded current)) [
            | inl x ↦
                descend-Finished fuel expanded stack result found
                  (again-Covers t uri expanded current stack result x (rw v at c))
                  (pop-Stays t uri expanded current stack result visited s)
                  (ground (arith, g, v, x))
            | inr x ↦
                let out : Descent =
                  visit_entries t dir.entries (with_stack t ((current, true) ∷ stack) result) in
                descend-Finished fuel (current ∷ expanded) out.stack out.result found
                  (expand-Covers t uri expanded current stack result dir g (rw v at c))
                  (expand-Stays t uri expanded current stack result dir g (rw v at s))
                  (ground (arith, g, v, x))
          ]
        ]
      ]

  start-Covers : Covers t uri [] ((uri, false) ∷ []) []
  start-Covers = record {
    readable = λ a x. cc x;
    closed = λ a e x l k. cc x;
    absent = λ a e x l k. cc x;
    emitted = λ a x n. cc x;
    begun = λ k. inr (inl refl);
  }

  start-Stays : Stays t uri ((uri, false) ∷ []) []
  start-Stays = record {
    pending = λ a b m. elim m [ inl q ↦ inl (ap (λ p. p.0) q) | inr n ↦ absurd n ];
    sound = λ a m. absurd m;
  }

  collect_descendants-Finished :
      (found : List (Str × EntryKind)) → collect_descendants t uri ≡ some found → Finished found
  unfolding collect_descendants start
  collect_descendants-Finished found h =
      descend-Finished (suc (weight t t.directories [])) [] ((uri, false) ∷ []) [] found
        start-Covers start-Stays h

  -- Every readable directory below the start was expanded.
  Below-expanded :
      (found : List (Str × EntryKind)) (f : Finished found) (d : Str)
      → Below t uri d
      → contains_key t.directories d ≡ true
      → contains f.expanded d ≡ true
  Below-expanded found f d (child _ (info, g, m, k)) r = elim (f.covers.begun (ground (arith, g))) [
    | inr n ↦ absurd n
    | inl x ↦ elim (f.covers.closed uri d x (info, g, m, k) r) [ inl y ↦ y | inr n ↦ absurd n ]
  ]
  Below-expanded found f d (deeper b _ p (info, g, m, k)) r =
      let x = Below-expanded found f b p (ground (arith, g)) in
      elim (f.covers.closed b d x (info, g, m, k) r) [ inl y ↦ y | inr n ↦ absurd n ]

  lister :
      (found : List (Str × EntryKind)) (f : Finished found) (d : Str)
      → Below t uri d
      → (a : Str) × (contains f.expanded a ≡ true) × Lists t a d
  lister found f d (child _ (info, g, m, k)) = elim (f.covers.begun (ground (arith, g))) [
    | inl x ↦ (uri, x, (info, g, m, k))
    | inr n ↦ absurd n
  ]
  lister found f d (deeper b _ p (info, g, m, k)) =
      (b, Below-expanded found f b p (ground (arith, g)), (info, g, m, k))

  pub collect_descendants_exact :
      (found : List (Str × EntryKind)) (d : Str)
      → collect_descendants t uri ≡ some found
      → d ≢ uri
      → Elem (d, EntryKind.directory) found ↔ Below t uri d
  collect_descendants_exact found d h n =
      let f = collect_descendants-Finished found h in
      (
        f.stays.sound d,
        λ b. elim (Bool-cases (contains_key t.directories d)) [
          | inl r ↦ elim (f.covers.emitted d (Below-expanded found f d b r) n) [
            | inl m ↦ m
            | inr x ↦ absurd x
          ]
          | inr r ↦ let (a, x, l) = lister found f d b in f.covers.absent a d x l r
        ],
      )

  -- The walk down always ends within its fuel, whatever cycles the listings form, and of the
  -- directories other than the start it emits, unreadable ones included, exactly those to which a
  -- descending path leads that crosses no placeholder: what a placeholder lists is not walked.
  pub collect_descendants_total :
      (d : Str)
      → d ≢ uri
      → (found : List (Str × EntryKind)) × (collect_descendants t uri ≡ some found)
        × (Elem (d, EntryKind.directory) found ↔ IsClear t uri d)
  collect_descendants_total d n = elim (Option-cases (collect_descendants t uri)) [
    | inl e ↦ absurd (collect_descendants_ends t uri e)
    | inr (found, e) ↦ (
      found,
      e,
      (
        λ m. Below-IsClear t uri d ((collect_descendants_exact found d e n).0 m),
        λ c. (collect_descendants_exact found d e n).1 (IsClear-Below t uri d c),
      ),
    )
  ]

target-found :
    (target : Str) (found : List (Str × EntryKind))
    → Elem (target, EntryKind.directory) found
    → any (is_target target) found ≡ true
target-found target [] m = absurd m
target-found target (x ∷ xs) (inl q) = rw (sym q) (ground (arith, str_beq_iff target target))
target-found target (x ∷ xs) (inr m) = ground (arith, target-found target xs m)

found-target :
    (target : Str) (found : List (Str × EntryKind))
    → any (is_target target) found ≡ true
    → Elem (target, EntryKind.directory) found
found-target target [] h = cc h
found-target target ((u, EntryKind.document) ∷ xs) h = inr (found-target target xs h)
found-target target ((u, EntryKind.directory) ∷ xs) h = elim (Bool-cases (u == target)) [
  | inl e ↦ let q : u ≡ target = (str_beq_iff u target).0 e in inl (rw q refl)
  | inr e ↦ inr (found-target target xs (ground (arith, e)))
]

-- Through readable listings.
check_cycle-Below :
    (t : DirectoryTree) (source target : Str)
    → (check_cycle t source target ≢ none)
      × ((check_cycle t source target ≡ some (ok tt))
          ↔ ((source ≢ target) × (Below t source target → ⊥)))
unfolding check_cycle
check_cycle-Below t source target = elim (Option-cases (collect_descendants t source)) [
  | inl e ↦ absurd (collect_descendants_ends t source e)
  | inr (found, e) ↦
      let same = str_beq_iff source target in
      (
        ground (arith, e),
        (
          λ h.
              let differ : source ≢ target = ground (arith, e, h, same) in
              (
                differ,
                λ b.
                    let m =
                      (collect_descendants_exact t source found target e (λ q. differ (sym q))).1
                        b in
                    ground (arith, e, h, same, target-found target found m),
              ),
          λ (d, n). elim (Bool-cases (any (is_target target) found)) [
            | inl x ↦ absurd (
                n (
                  (collect_descendants_exact t source found target e (λ q. d (sym q))).0
                    (found-target target found x)))
            | inr x ↦ ground (arith, e, x, d, same)
          ],
        ),
      )
]

-- The cycle check always decides, and accepts a move exactly if the target is not the directory
-- itself and every descending path from the directory to the target, through the listings of
-- readable directories and of placeholders, crosses a placeholder; a target below the directory
-- that only a placeholder leads to is accepted.
pub check_cycle_exact :
    (t : DirectoryTree) (source target : Str)
    → (check_cycle t source target ≢ none)
      × ((check_cycle t source target ≡ some (ok tt))
          ↔ ((source ≢ target) × ((path : Within t source target) → Crosses t source target path)))
check_cycle_exact t source target =
    let (decides, accepts) = check_cycle-Below t source target in
    (
      decides,
      (
        λ h. let (differ, apart) = accepts.0 h in (differ, apart-Crosses t source target apart),
        λ (differ, hidden). accepts.1 (
          differ,
          λ b. let (path, clear) = Below-IsClear t source target b in clear (hidden path),
        ),
      ),
    )
