-- ===== src/Tree/Descend/Within.antt =====
-- Descending paths through the listings of a tree, those that its placeholders keep included.
use opake.Base.{◌≡◌, ◌⊎◌, inl, inr, none, some, Str, str_eq, get, Elem}
use opake.Tree.{DirectoryTree, PlaceholderNode}
use opake.Tree.Descend.Steps.{IsSubdirectory}
use opake.Tree.Descend.Below.{Lists, Below, child, deeper}

module _ (t : DirectoryTree) where
  -- A placeholder lists a subdirectory.
  abbrev pub Keeps : Str → Str → Type 0
  Keeps a e =
      (node : PlaceholderNode) × (get t.directories a ≡ none)
      × (get t.placeholders a ≡ some node)
      × Elem e node.entries
      × IsSubdirectory t e

  -- A descending path from `a`: each directory on it is listed by the one before, a readable one or
  -- a placeholder.
  pub data Within (a : Str) : Str → Type 0 where
    listed : (d : Str) → Lists t a d → Within a d
    kept : (d : Str) → Keeps a d → Within a d
    then_listed : (b d : Str) → Within a b → Lists t b d → Within a d
    then_kept : (b d : Str) → Within a b → Keeps b d → Within a d

  -- Some listing on the path is a placeholder's.
  abbrev pub Crosses : (a d : Str) → Within a d → Type 0
  Crosses a _ (listed d l) = ⊥
  Crosses a _ (kept d k) = Unit
  Crosses a _ (then_listed b d w l) = Crosses a b w
  Crosses a _ (then_kept b d w k) = Unit

  Within-cases : (a d : Str) (w : Within a d) → Below t a d ⊎ Crosses a d w
  Within-cases a _ (listed d l) = inl (child d l)
  Within-cases a _ (kept d k) = inr tt
  Within-cases a _ (then_listed b d w l) = elim (Within-cases a b w) [
    | inl p ↦ inl (deeper b d p l)
    | inr c ↦ inr c
  ]
  Within-cases a _ (then_kept b d w k) = inr tt

  -- A path that crosses no placeholder.
  abbrev pub IsClear : Str → Str → Type 0
  IsClear a d = (w : Within a d) × (Crosses a d w → ⊥)

  pub IsClear-Below : (a d : Str) → IsClear a d → Below t a d
  IsClear-Below a d (w, n) = elim (Within-cases a d w) [ inl p ↦ p | inr c ↦ absurd (n c) ]

  pub Below-IsClear : (a d : Str) → Below t a d → IsClear a d
  Below-IsClear a _ (child d l) = (listed d l, λ c. c)
  Below-IsClear a _ (deeper b d p l) = let (w, n) = Below-IsClear a b p in (then_listed b d w l, n)

  -- Without a readable way down every path crosses a placeholder.
  pub apart-Crosses : (a d : Str) → (Below t a d → ⊥) → (w : Within a d) → Crosses a d w
  apart-Crosses a d n w = elim (Within-cases a d w) [ inl p ↦ absurd (n p) | inr c ↦ c ]
