-- ===== src/Tree/Parents/Reachable.antt =====
-- `find_parent` and `is_reachable_from_root` of directories/tree.rs, against parent links.
use opake.Base.{
  find-some, find-fails, contains-Elem, Elem-contains, ℕ, zero, suc, ◌≤◌, ◌<◌, ◌≡◌, ◌↔◌, refl, true,
  false, Option, none, some, Str, ◌==◌, str_eq, str_beq_iff, contains, length, find, Elem,
  Bool-cases, Option-cases, inl, inr, arith,
}
use opake.Tree.{DirectoryInfo, DirectoryTree}
use opake.Tree.Roots.{superseded_uris}
use opake.Tree.Roots.Superseded.{
  IsSuperseded, superseded_uris-IsSuperseded, IsSuperseded-superseded_uris,
}
use opake.Tree.Parents.{lists_child, find_parent, climbs_to_root, is_reachable_from_root}

-- A directory of the tree lists the child, and nothing supersedes it.
pub record IsParent (t : DirectoryTree) (child parent : Str) : Type 0 where
  pub info : DirectoryInfo
  pub held : Elem (parent, info) t.directories
  pub lists : Elem child info.entries
  pub head : IsSuperseded t parent → ⊥

-- What a lookup of the parent found: a parent, or that no URI is one.
abbrev pub FoundParent : DirectoryTree → Str → Option Str → Type 0
FoundParent t child (some parent) = IsParent t child parent
FoundParent t child none = (parent : Str) → IsParent t child parent → ⊥

-- The parent that is found is a directory of the tree that lists the child and that no directory
-- of the tree supersedes in its lineage; none is found only if there is no such directory.
pub find_parent-FoundParent :
    (t : DirectoryTree) (child : Str) → FoundParent t child (find_parent t child)
unfolding find_parent lists_child
find_parent-FoundParent t child =
    elim (Option-cases (find (lists_child (superseded_uris t) child) t.directories)) [
      | inl e ↦
          rw (e, find_parent, FoundParent)
            (λ parent (p : IsParent t child parent).
              elim (Bool-cases (contains (superseded_uris t) parent)) [
                | inl s ↦ absurd (p.head (superseded_uris-IsSuperseded t parent s))
                | inr s ↦ ground (
                  arith,
                  find-fails (lists_child (superseded_uris t) child) t.directories (parent, p.info)
                      e p.held,
                  s,
                  Elem-contains p.info.entries child p.lists,
                )
              ])
      | inr ((parent, info), e) ↦
          let (m, k) =
            find-some (lists_child (superseded_uris t) child) t.directories (parent, info) e in
          rw (e, find_parent, FoundParent)
            (record {
              info = info;
              held = m;
              lists = contains-Elem info.entries child (ground (arith, k));
              head = λ s. ground (arith, k, IsSuperseded-superseded_uris t parent s);
            })
    ]

-- Parent links from `uri` up to `root`, and how many there are.
pub data Ancestry (t : DirectoryTree) (root : Str) : ℕ → Str → Type 0 where
  here : Ancestry t root 0 root
  up :
      (n : ℕ) (uri parent : Str)
      → find_parent t uri ≡ some parent
      → Ancestry t root n parent
      → Ancestry t root (suc n) uri

climbs_to_root_sound :
    (t : DirectoryTree) (n : ℕ) (root uri : Str)
    → climbs_to_root t n root uri ≡ true
    → (k : ℕ) × (k ≤ n) × Ancestry t root k uri
unfolding climbs_to_root
climbs_to_root_sound t zero root uri h = cc h
climbs_to_root_sound t (suc n) root uri h = elim (Option-cases (find_parent t uri)) [
  | inl e ↦ absurd (ground (arith, e))
  | inr (parent, e) ↦ elim (Bool-cases (parent == root)) [
    | inl q ↦
        let s : root ≡ parent = ground (arith, str_beq_iff parent root) in
        (1, omega arith, up 0 uri parent e (rw s here))
    | inr q ↦
        let (k, b, a) = climbs_to_root_sound t n root parent (ground (arith, e, q)) in
        (suc k, omega arith, up k uri parent e a)
  ]
]

Ancestry-zero : (t : DirectoryTree) (root uri : Str) → Ancestry t root 0 uri → uri ≡ root
Ancestry-zero t root uri here = refl

climbs_to_root_complete :
    (t : DirectoryTree) (n k : ℕ) (root uri : Str)
    → Ancestry t root (suc k) uri
    → k < n
    → climbs_to_root t n root uri ≡ true
unfolding climbs_to_root
climbs_to_root_complete t zero k root uri a h = absurd (omega arith)
climbs_to_root_complete t (suc n) zero root _ (up _ uri parent e a) h =
    ground (arith, e, Ancestry-zero t root parent a, str_beq_iff parent root)
climbs_to_root_complete t (suc n) (suc k) root _ (up _ uri parent e a) h =
    ground (arith, e, climbs_to_root_complete t n k root parent a (omega arith))

climbs :
    (t : DirectoryTree) (root uri : Str) (k : ℕ)
    → Ancestry t root k uri
    → (uri == root) ≡ false
    → k ≤ suc (length t.directories)
    → climbs_to_root t (suc (length t.directories)) root uri ≡ true
climbs t root uri zero a q b =
    absurd (ground (arith, Ancestry-zero t root uri a, str_beq_iff uri root))
climbs t root uri (suc k) a q b =
    climbs_to_root_complete t (suc (length t.directories)) k root uri a (omega arith)

-- A URI is reachable exactly if a root is set and parent links lead from the URI up to it, over at
-- most one link more than the tree has directories.
pub is_reachable_from_root_iff :
    (t : DirectoryTree) (uri : Str)
    → (is_reachable_from_root t uri ≡ true) ↔ (
        (root : Str) × (k : ℕ) × (t.root_uri ≡ some root)
        × (k ≤ suc (length t.directories))
        × Ancestry t root k uri)
unfolding is_reachable_from_root
is_reachable_from_root_iff t uri = (
  λ h. elim (Option-cases t.root_uri) [
    | inl e ↦ absurd (ground (arith, e))
    | inr (root, e) ↦ elim (Bool-cases (uri == root)) [
      | inl q ↦
          let s : root ≡ uri = ground (arith, str_beq_iff uri root) in
          (root, 0, e, omega arith, rw s here)
      | inr q ↦
          let (k, b, a) =
            climbs_to_root_sound t (suc (length t.directories)) root uri (ground (arith, e, q)) in
          (root, k, e, b, a)
    ]
  ],
  λ (root, k, e, b, a). elim (Bool-cases (uri == root)) [
    | inl q ↦ ground (arith, e, q)
    | inr q ↦ ground (arith, e, q, climbs t root uri k a q b)
  ],
)
