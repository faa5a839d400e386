-- ===== src/Cascade/Threads.antt =====
-- The writes of `execute_cascade` of directories/cascade.rs, level by level.
use mathlib.Core.List.{reverse, append_assoc, append-nil}
use opake.Base.{◌≡◌, refl, ap, ◌∙◌, List, [], ◌∷◌, ◌++◌, Str, arith, inl, inr, Elem, Bool}
use opake.Error.{ok, Result-cases}
use opake.Records.{ListingEntry, new_entry}
use opake.Cascade.{
  ChainHead, LevelMode, supersede, genesis, AncestorLevel, LeafLevel, CascadeStep, Write, Pds,
  Logged, level_write, step_of, send, patch_child_pointer, write_ancestor, climb, execute_cascade,
}
use opake.Cascade.Patch.{patch_child_pointer-Elem}

module _ (pds : Pds) (workspace_id modified_at : Str) where
  -- The writes `ws`, sent after `log`, are those of the levels, each patched with the head below.
  abbrev pub Climbs : List Write → ChainHead → List AncestorLevel → List Write → Type 0
  Climbs log link [] [] = Unit
  Climbs log link [] (w ∷ ws) = ⊥
  Climbs log link (a ∷ rest) [] = ⊥
  Climbs log link (a ∷ rest) (w ∷ ws) =
      ((entries : List ListingEntry) × (patch_child_pointer a.entries a.linkage link ≡ ok entries)
        × (w ≡ level_write workspace_id a.mode entries a.is_workspace_root modified_at))
      × ((head : ChainHead) × (pds log w ≡ ok head) × Climbs (log ++ w ∷ []) head rest ws)

  send-ok :
      (log : List Write) (w : Write) (step : CascadeStep) (log' : List Write)
      → send pds log w ≡ (ok step, log')
      → (pds log w ≡ ok step.new_head) × (log' ≡ log ++ w ∷ [])
  unfolding send step_of
  send-ok log w step log' h = elim (Result-cases (pds log w)) [
    | inl (x, e) ↦ absurd (ground arith)
    | inr (head, e) ↦ ground arith
  ]

  climb-Climbs :
      (log : List Write) (link : ChainHead) (levels : List AncestorLevel) (steps : List CascadeStep)
      (log' : List Write)
      → climb pds workspace_id modified_at log link levels ≡ (ok steps, log')
      → (ws : List Write) × (log' ≡ log ++ ws) × Climbs log link levels ws
  unfolding climb write_ancestor send step_of
  climb-Climbs log link [] steps log' h = ([], ground (arith, append-nil log), tt)
  climb-Climbs log link (a ∷ rest) steps log' h =
      elim (Result-cases (patch_child_pointer a.entries a.linkage link)) [
        | inl (x, e) ↦ absurd (ground arith)
        | inr (entries, e) ↦
            let w : Write =
              level_write workspace_id a.mode entries a.is_workspace_root modified_at in
            elim (Result-cases (pds log w)) [
              | inl (x, p) ↦ absurd (ground arith)
              | inr (head, p) ↦
                  let above : Logged (List CascadeStep) =
                    climb pds workspace_id modified_at (log ++ w ∷ []) head rest in
                  elim (Result-cases above.0) [
                    | inl (x, q) ↦ absurd (ground arith)
                    | inr (steps', q) ↦
                        let (ws, l, c) =
                          climb-Climbs (log ++ w ∷ []) head rest steps' above.1
                            (ground (arith, q)) in
                        (
                          w ∷ ws,
                          ground (arith, l, append_assoc log (w ∷ []) ws),
                          ((entries, e, refl), (head, p, c)),
                        )
                  ]
            ]
      ]

  -- A cascade that succeeds sent the leaf first and then one write for each ancestor up to the
  -- root, each ancestor's listing being its own patched with the URI and CID that the server
  -- answered for the level just below.
  pub execute_cascade-Climbs :
      (log : List Write) (ancestors : List AncestorLevel) (leaf : LeafLevel)
      (steps : List CascadeStep) (log' : List Write)
      → execute_cascade pds workspace_id modified_at log ancestors leaf ≡ (ok steps, log')
      → (w : Write) × (ws : List Write) × (head : ChainHead) × (w
          ≡ level_write workspace_id leaf.mode leaf.entries leaf.is_workspace_root modified_at)
        × (log' ≡ log ++ w ∷ ws)
        × (pds log w ≡ ok head)
        × Climbs (log ++ w ∷ []) head (reverse ancestors) ws
  unfolding execute_cascade send step_of
  execute_cascade-Climbs log ancestors leaf steps log' h =
      let w : Write =
        level_write workspace_id leaf.mode leaf.entries leaf.is_workspace_root modified_at in
      elim (Result-cases (pds log w)) [
        | inl (x, p) ↦ absurd (ground arith)
        | inr (head, p) ↦
            let above : Logged (List CascadeStep) =
              climb pds workspace_id modified_at (log ++ w ∷ []) head (reverse ancestors) in
            elim (Result-cases above.0) [
              | inl (x, q) ↦ absurd (ground arith)
              | inr (steps', q) ↦
                  let (ws, l, c) =
                    climb-Climbs (log ++ w ∷ []) head (reverse ancestors) steps' above.1
                      (ground (arith, q)) in
                  (w, ws, head, refl, ground (arith, l, append_assoc log (w ∷ []) ws), p, c)
            ]
      ]

  abbrev pub Listed : List Write → ChainHead → List Write → Type 0
  Listed log link [] = Unit
  Listed log link (w ∷ ws) =
      Elem (new_entry link.uri link.cid) w.body.entries
      × ((head : ChainHead) × (pds log w ≡ ok head) × Listed (log ++ w ∷ []) head ws)

  entries-level_write :
      (m : LevelMode) (entries : List ListingEntry) (root : Bool)
      → (level_write workspace_id m entries root modified_at).body.entries ≡ entries
  unfolding level_write
  entries-level_write (supersede u c k e l) entries root = refl
  entries-level_write (genesis k e r) entries root = refl

  -- In such a run of ancestor writes every write lists the head that the server answered for the
  -- write before it.
  pub Climbs-Listed :
      (log : List Write) (link : ChainHead) (levels : List AncestorLevel) (ws : List Write)
      → Climbs log link levels ws
      → Listed log link ws
  Climbs-Listed log link [] [] c = tt
  Climbs-Listed log link [] (w ∷ ws) c = absurd c
  Climbs-Listed log link (a ∷ rest) [] c = absurd c
  Climbs-Listed log link (a ∷ rest) (w ∷ ws) ((entries, e, q), (head, p, c)) =
      let below : w.body.entries ≡ entries =
        ap (λ v. v.body.entries) q ∙ entries-level_write a.mode entries a.is_workspace_root in
      (
        rw below (patch_child_pointer-Elem a.entries a.linkage link entries e),
        (head, p, Climbs-Listed (log ++ w ∷ []) head rest ws c),
      )
