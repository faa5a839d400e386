-- ===== src/Tree/Roots/Forward.antt =====
-- `set_root` of directories/tree.rs: the walk forward from the given root.
use opake.Base.{
  ℕ, zero, suc, ◌≡◌, ◌⊎◌, inl, inr, refl, none, some, Str, str_eq, str_beq_iff, option_eq,
  option_beq_iff, length, find, find-some, find-fails, Elem, get, unwrap_or, Map, arith,
  Option-cases, ap,
}
use opake.Tree.{DirectoryInfo, DirectoryTree, anchor}
use opake.Tree.Roots.{current_anchor, is_successor, successor, advance, set_root}

-- A directory of the map supersedes the current one, in the same lineage.
pub record IsNext (directories : Map Str DirectoryInfo) (current next : Str) : Type 0 where
  pub info : DirectoryInfo
  pub listed : Elem (next, info) directories
  pub supersedes : info.supersedes_uri ≡ some current
  pub lineage :
      (known : DirectoryInfo)
      → get directories current ≡ some known
      → unwrap_or info.lineage next ≡ unwrap_or known.lineage current
  pub unknown : get directories current ≡ none → unwrap_or info.lineage next ≡ current

-- `k` such steps forward.
pub data Forward (directories : Map Str DirectoryInfo) (to : Str) : ℕ → Str → Type 0 where
  arrived : Forward directories to 0 to
  onward :
      (k : ℕ) (current next : Str)
      → IsNext directories current next
      → Forward directories to k next
      → Forward directories to (suc k) current

successor-IsNext :
    (directories : Map Str DirectoryInfo) (current next : Str)
    → successor directories current ≡ some next
    → IsNext directories current next
unfolding successor is_successor current_anchor
successor-IsNext directories current next h =
    elim (Option-cases (find (is_successor directories current) directories)) [
      | inl e ↦ absurd (ground (arith, e))
      | inr ((uri, info), e) ↦
          let (m, k) = find-some (is_successor directories current) directories (uri, info) e in
          let q : uri ≡ next = ground (arith, e) in
          let a : anchor uri info ≡ current_anchor directories current =
            ground (arith, k, str_beq_iff (anchor uri info) (current_anchor directories current)) in
          record {
            info = info;
            listed = rw q at m;
            supersedes = ground (arith, k, option_beq_iff info.supersedes_uri (some current));
            lineage = λ known g. ground (arith, a, g, q);
            unknown = λ g. ground (arith, a, g, q);
          }
    ]

-- Where no successor is found there is none.
successor-none :
    (directories : Map Str DirectoryInfo) (current next : Str)
    → successor directories current ≡ none
    → IsNext directories current next
    → ⊥
unfolding successor is_successor current_anchor
successor-none directories current next h n =
    let silent : find (is_successor directories current) directories ≡ none =
      elim (Option-cases (find (is_successor directories current) directories)) [
        | inl e ↦ e
        | inr (p, e) ↦ absurd (ground (arith, e, h))
      ] in
    let same : anchor next n.info ≡ current_anchor directories current =
      elim (Option-cases (get directories current)) [
        | inl g ↦ ground (arith, g, n.unknown g)
        | inr (known, g) ↦ ground (arith, g, n.lineage known g)
      ] in
    ground (
      arith,
      find-fails (is_successor directories current) directories (next, n.info) silent n.listed,
      n.supersedes,
      same,
      option_beq_iff n.info.supersedes_uri (some current),
      str_beq_iff (anchor next n.info) (current_anchor directories current),
    )

advance-Forward :
    (directories : Map Str DirectoryInfo) (n : ℕ) (current : Str)
    → (k : ℕ) × Forward directories (advance n directories current) k current
      × (((next : Str) → IsNext directories (advance n directories current) next → ⊥) ⊎ (k ≡ n))
unfolding advance
advance-Forward directories zero current = (0, arrived, inr refl)
advance-Forward directories (suc n) current = elim (Option-cases (successor directories current)) [
  | inl e ↦ rw (e, advance) (0, arrived, inl (λ next. successor-none directories current next e))
  | inr (next, e) ↦
      let (k, f, d) = advance-Forward directories n next in
      rw (e, advance)
        (
          suc k,
          onward k current next (successor-IsNext directories current next e) f,
          elim d [ inl x ↦ inl x | inr q ↦ inr (ap (λ v. suc v) q) ],
        )
]

-- Setting the root walks forward from the given URI: every step goes to a directory of the tree
-- that supersedes the one before it in the same lineage, and the walk ends where no directory
-- does, or after one step more than the tree has directories.
pub set_root-Forward :
    (t : DirectoryTree) (uri : Str)
    → (head : Str) × (k : ℕ) × ((set_root t uri).root_uri ≡ some head)
      × Forward t.directories head k uri
      × (((next : Str) → IsNext t.directories head next → ⊥) ⊎ (k ≡ suc (length t.directories)))
unfolding set_root
set_root-Forward t uri =
    let (k, f, d) = advance-Forward t.directories (suc (length t.directories)) uri in
    (advance (suc (length t.directories)) t.directories uri, k, refl, f, d)
