-- ===== src/Tree/Descend/Ends.antt =====
-- The fuel of `collect_descendants` and `count_descendants` of directories/tree.rs.
use opake.Base.{
  ℕ, zero, suc, ◌+◌, ◌≤◌, ◌≡◌, ◌≢◌, Bool, true, false, none, some, List, [], ◌∷◌, Str, ◌==◌, str_eq,
  str_beq_iff, contains, length, Map, get, arith, Bool-cases, Option-cases, inl, inr,
}
use opake.Tree.{DirectoryInfo, DirectoryTree, EntryKind}
use opake.Tree.Descend.{
  Descent, visit_entry, visit_entries, emit, descend, weight, start, collect_descendants, Count,
  count_entry, count_entries, count_loop, count_descendants,
}

module _ (t : DirectoryTree) where
  weight-le :
      (m : Map Str DirectoryInfo) (expanded : List Str) (u : Str)
      → weight t m (u ∷ expanded) ≤ weight t m expanded
  unfolding weight
  weight-le [] expanded u = omega arith
  weight-le ((uri, info) ∷ m) expanded u = ground (arith, weight-le m expanded u)

  weight-lt :
      (m : Map Str DirectoryInfo) (expanded : List Str) (u : Str) (info : DirectoryInfo)
      → get m u ≡ some info
      → contains expanded u ≡ false
      → suc (length info.entries) + weight t m (u ∷ expanded) ≤ weight t m expanded
  unfolding weight get
  weight-lt [] expanded u info g h = cc g
  weight-lt ((uri, i) ∷ m) expanded u info g h = elim (Bool-cases (uri == u)) [
    | inl e ↦
        let q : i ≡ info = ground (arith, e) in
        let p : uri ≡ u = (str_beq_iff uri u).0 e in
        ground (arith, weight-le m expanded u, q, p, h, str_beq_iff u u)
    | inr e ↦ ground (
      arith,
      e,
      weight-lt m expanded u info (ground (arith, e)) h,
      str_beq_iff u uri,
      str_beq_iff uri u,
    )
  ]

  visit_entry-length :
      (e : Str) (s : Descent) → length (visit_entry t e s).stack ≤ suc (length s.stack)
  unfolding visit_entry
  visit_entry-length e s = ground arith

  visit_entries-length :
      (entries : List Str) (s : Descent)
      → length (visit_entries t entries s).stack ≤ length entries + length s.stack
  unfolding visit_entries
  visit_entries-length [] s = omega arith
  visit_entries-length (e ∷ es) s =
      omega (arith, visit_entry-length e (visit_entries t es s), visit_entries-length es s)

  pub emit-stack : (uri current : Str) (s : Descent) → (emit t uri current s).stack ≡ s.stack
  unfolding emit
  emit-stack uri current s = ground arith

  abbrev pub with_stack : List (Str × Bool) → List (Str × EntryKind) → Descent
  with_stack stack result = record { stack = stack; result = result }

  descend-ends :
      (uri : Str) (fuel : ℕ) (expanded : List Str) (stack : List (Str × Bool))
      (result : List (Str × EntryKind))
      → length stack + weight t t.directories expanded ≤ fuel
      → descend t uri fuel expanded (with_stack stack result) ≢ none
  unfolding descend
  descend-ends uri zero expanded [] result h = ground arith
  descend-ends uri (suc fuel) expanded [] result h = ground arith
  descend-ends uri zero expanded (w ∷ stack) result h = absurd (omega arith)
  descend-ends uri (suc fuel) expanded ((current, visited) ∷ stack) result h =
      let popped : Descent = with_stack stack result in
      elim (Option-cases (get t.directories current)) [
        | inl g ↦ rw (g, descend) (descend-ends uri fuel expanded stack result (omega arith))
        | inr (dir, g) ↦ elim (Bool-cases visited) [
          | inl v ↦
              let out : Descent = emit t uri current popped in
              rw (g, v, descend)
                (descend-ends uri fuel expanded out.stack out.result
                  (rw (emit-stack uri current popped) (omega arith)))
          | inr v ↦ elim (Bool-cases (contains expanded current)) [
            | inl x ↦
                rw (g, v, x, descend) (descend-ends uri fuel expanded stack result (omega arith))
            | inr x ↦
                let pushed : Descent = with_stack ((current, true) ∷ stack) result in
                let out : Descent = visit_entries t dir.entries pushed in
                rw (g, v, x, descend)
                  (descend-ends uri fuel (current ∷ expanded) out.stack out.result (
                    omega (
                      arith,
                      weight-lt t.directories expanded current dir g x,
                      visit_entries-length dir.entries pushed,
                    )))
          ]
        ]
      ]

  -- The walk down never runs out of its fuel, even over a listing that forms a cycle.
  pub collect_descendants_ends : (uri : Str) → collect_descendants t uri ≢ none
  unfolding collect_descendants start
  collect_descendants_ends uri =
      descend-ends uri (suc (weight t t.directories [])) [] ((uri, false) ∷ []) [] (omega arith)

  count_entry-pending :
      (e : Str) (c : Count) → length (count_entry t e c).pending ≤ suc (length c.pending)
  unfolding count_entry
  count_entry-pending e c = ground arith

  count_entries-pending :
      (entries : List Str) (c : Count)
      → length (count_entries t entries c).pending ≤ length entries + length c.pending
  unfolding count_entries
  count_entries-pending [] c = omega arith
  count_entries-pending (e ∷ es) c =
      omega (arith, count_entry-pending e c, count_entries-pending es (count_entry t e c))

  count_loop-ends :
      (fuel : ℕ) (expanded : List Str) (docs dirs : ℕ) (pending : List Str)
      → length pending + weight t t.directories expanded ≤ fuel
      → count_loop t fuel expanded
          (record { documents = docs; directories = dirs; pending = pending })
        ≢ none
  unfolding count_loop
  count_loop-ends zero expanded docs dirs [] h = ground arith
  count_loop-ends (suc fuel) expanded docs dirs [] h = ground arith
  count_loop-ends zero expanded docs dirs (u ∷ pending) h = absurd (omega arith)
  count_loop-ends (suc fuel) expanded docs dirs (current ∷ pending) h =
      elim (Bool-cases (contains expanded current)) [
        | inl x ↦ rw (x, count_loop) (count_loop-ends fuel expanded docs dirs pending (omega arith))
        | inr x ↦ elim (Option-cases (get t.directories current)) [
          | inl g ↦
              rw (x, g, count_loop)
                (count_loop-ends fuel (current ∷ expanded) docs dirs pending
                  (omega (arith, weight-le t.directories expanded current)))
          | inr (dir, g) ↦
              let popped : Count = record {
                documents = docs;
                directories = dirs;
                pending = pending;
              } in
              let out : Count = count_entries t dir.entries popped in
              rw (x, g, count_loop)
                (count_loop-ends fuel (current ∷ expanded) out.documents out.directories out.pending
                  (omega (
                    arith,
                    weight-lt t.directories expanded current dir g x,
                    count_entries-pending dir.entries popped,
                  )))
        ]
      ]

  -- The count for the delete prompt never runs out of its fuel.
  pub count_descendants_ends : (uri : Str) → count_descendants t uri ≢ none
  unfolding count_descendants
  count_descendants_ends uri =
      count_loop-ends (suc (weight t t.directories [])) [] 0 0 (uri ∷ []) (omega arith)
