-- ===== src/Atproto/Split.antt =====
-- Cutting a text at the first occurrence of a byte.
use opake.Base.{
  ℕ, ◌≡◌, false, Option, none, some, [], ◌∷◌, ◌++◌, Str, ◌==◌, contains, arith, if◌then◌else◌,
  nat_eq, nat_beq_iff,
}

abbrev cons_first : ℕ → Option (Str × Str) → Option (Str × Str)
cons_first c none = none
cons_first c (some (a, b)) = some (c ∷ a, b)

unfoldable pub split_once : ℕ → Str → Option (Str × Str)
split_once sep [] = none
split_once sep (c ∷ s) =
    let rest = split_once sep s in if c == sep then some ([], s) else cons_first c rest

pub split_once-join :
    (sep : ℕ) (a b : Str) → contains a sep ≡ false → split_once sep (a ++ sep ∷ b) ≡ some (a, b)
unfolding split_once
split_once-join sep [] b h = ground arith
split_once-join sep (c ∷ a) b h = ground (arith, split_once-join sep a b)

pub split_once-some :
    (sep : ℕ) (s a b : Str)
    → split_once sep s ≡ some (a, b)
    → (s ≡ a ++ sep ∷ b) × (contains a sep ≡ false)
unfolding split_once
split_once-some sep [] a b h = cc
split_once-some sep (c ∷ s) [] b h = ground (arith, nat_beq_iff c sep)
split_once-some sep (c ∷ s) (x ∷ a) b h =
    ground (arith, nat_beq_iff c sep, split_once-some sep s a b)
