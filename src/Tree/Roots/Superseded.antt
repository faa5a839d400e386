-- ===== src/Tree/Roots/Superseded.antt =====
-- `superseded_uris` of directories/tree.rs: what it means that a directory is superseded.
use opake.Base.{
  ◌≡◌, inl, inr, refl, ap, true, some, [], ◌∷◌, Str, str_eq, str_beq_iff, ◌==◌, contains, Elem, Map,
  get, unwrap_or, arith, Bool-cases, Option-cases,
}
use opake.Tree.{DirectoryInfo, DirectoryTree, anchor}
use opake.Tree.Roots.{superseded_uris, superseded_from, edge_counts}

-- A directory of the tree supersedes the prior one: it names it, and a prior that is known declares
-- the same lineage.
pub record IsSuperseded (t : DirectoryTree) (prior : Str) : Type 0 where
  pub uri : Str
  pub info : DirectoryInfo
  pub listed : Elem (uri, info) t.directories
  pub supersedes : info.supersedes_uri ≡ some prior
  pub lineage :
      (known : DirectoryInfo)
      → get t.directories prior ≡ some known
      → unwrap_or info.lineage uri ≡ unwrap_or known.lineage prior

edge_counts-lineage :
    (m : Map Str DirectoryInfo) (uri prior : Str) (info known : DirectoryInfo)
    → edge_counts m uri info prior ≡ true
    → get m prior ≡ some known
    → unwrap_or info.lineage uri ≡ unwrap_or known.lineage prior
unfolding edge_counts
edge_counts-lineage m uri prior info known h g =
    ground (arith, h, g, str_beq_iff (anchor uri info) (anchor prior known))

lineage-edge_counts :
    (m : Map Str DirectoryInfo) (uri prior : Str) (info : DirectoryInfo)
    → ((known : DirectoryInfo)
        → get m prior ≡ some known
        → unwrap_or info.lineage uri ≡ unwrap_or known.lineage prior)
    → edge_counts m uri info prior ≡ true
unfolding edge_counts
lineage-edge_counts m uri prior info h = elim (Option-cases (get m prior)) [
  | inl g ↦ ground (arith, g)
  | inr (known, g) ↦
      ground (arith, g, h known g, str_beq_iff (anchor uri info) (anchor prior known))
]

module _ (m : Map Str DirectoryInfo) (prior : Str) where
  -- One edge of a part of the map.
  abbrev Edge : Map Str DirectoryInfo → Type 0
  Edge part =
      (uri : Str) × (info : DirectoryInfo) × Elem (uri, info) part
      × (info.supersedes_uri ≡ some prior)
      × (edge_counts m uri info prior ≡ true)

  superseded_from-Edge :
      (part : Map Str DirectoryInfo) → contains (superseded_from m part) prior ≡ true → Edge part
  unfolding superseded_from
  superseded_from-Edge [] h = cc h
  superseded_from-Edge ((uri, info) ∷ rest) h =
      let later : contains (superseded_from m rest) prior ≡ true → Edge ((uri, info) ∷ rest) =
        λ r. (let (u, i, e, s, l) = superseded_from-Edge rest r in (u, i, inr e, s, l)) in
      elim (Option-cases info.supersedes_uri) [
        | inl s ↦ later (ground (arith, s, h))
        | inr (p, s) ↦ elim (Bool-cases (edge_counts m uri info p)) [
          | inr c ↦ later (ground (arith, s, c, h))
          | inl c ↦ elim (Bool-cases (p == prior)) [
            | inr n ↦ later (ground (arith, s, c, n, h))
            | inl q ↦
                let same : p ≡ prior = (str_beq_iff p prior).0 q in
                (uri, info, inl refl, rw same at s, rw same at c)
          ]
        ]
      ]

  Edge-superseded_from :
      (part : Map Str DirectoryInfo) → Edge part → contains (superseded_from m part) prior ≡ true
  unfolding superseded_from
  Edge-superseded_from [] (uri, info, e, s, l) = absurd e
  Edge-superseded_from ((v, i) ∷ rest) (uri, info, inl q, s, l) =
      let there : i.supersedes_uri ≡ some prior =
        rw (ap (λ (p : Str × DirectoryInfo). p.1.supersedes_uri) q) at s in
      let counts : edge_counts m v i prior ≡ true =
        rw (ap (λ (p : Str × DirectoryInfo). edge_counts m p.0 p.1 prior) q) at l in
      ground (arith, there, counts, str_beq_iff prior prior)
  Edge-superseded_from ((v, i) ∷ rest) (uri, info, inr e, s, l) =
      let later = Edge-superseded_from rest (uri, info, e, s, l) in
      elim (Option-cases i.supersedes_uri) [
        | inl n ↦ ground (arith, n, later)
        | inr (p, n) ↦ ground (arith, n, later)
      ]

pub superseded_uris-IsSuperseded :
    (t : DirectoryTree) (prior : Str)
    → contains (superseded_uris t) prior ≡ true
    → IsSuperseded t prior
unfolding superseded_uris
superseded_uris-IsSuperseded t prior h =
    let (uri, info, e, s, l) = superseded_from-Edge t.directories prior t.directories h in
    record {
      uri = uri;
      info = info;
      listed = e;
      supersedes = s;
      lineage = λ known g. edge_counts-lineage t.directories uri prior info known l g;
    }

pub IsSuperseded-superseded_uris :
    (t : DirectoryTree) (prior : Str)
    → IsSuperseded t prior
    → contains (superseded_uris t) prior ≡ true
unfolding superseded_uris
IsSuperseded-superseded_uris t prior s = Edge-superseded_from t.directories prior t.directories (
  s.uri,
  s.info,
  s.listed,
  s.supersedes,
  lineage-edge_counts t.directories s.uri prior s.info s.lineage,
)
