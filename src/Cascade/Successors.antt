-- ===== src/Cascade/Successors.antt =====
-- The records that a deep cascade of directories/cascade.rs writes, and the links of
-- directories/chain.rs.
use mathlib.Core.List.{reverse, reverse-cons}
use opake.Base.{
  ◌≡◌, refl, ap, ◌∙◌, true, none, some, List, [], ◌∷◌, ◌++◌, Str, str_eq, str_beq_iff, arith,
  unwrap_or,
}
use opake.Error.{ok}
use opake.Records.{ListingEntry, Directory}
use opake.Chain.{ChainNode, anchor_of, directory_superseding, link_holds}
use opake.Cascade.{
  ChainHead, AncestorLevel, CascadeStep, Write, Pds, level_write, execute_cascade, supersede_node,
  ancestor_of, leaf_of, build_levels,
}
use opake.Cascade.Threads.{Climbs, execute_cascade-Climbs}

-- Two lists of one length, related element by element.
abbrev pub Zip : {A B : Type 0} → (A → B → Type 0) → List A → List B → Type 0
Zip P [] [] = Unit
Zip P [] (b ∷ bs) = ⊥
Zip P (a ∷ xs) [] = ⊥
Zip P (a ∷ xs) (b ∷ bs) = P a b × Zip P xs bs

Zip-snoc :
    {A B : Type 0} (P : A → B → Type 0) (xs : List A) (ys : List B) (a : A) (b : B)
    → Zip P xs ys
    → P a b
    → Zip P (xs ++ a ∷ []) (ys ++ b ∷ [])
Zip-snoc P [] [] a b h p = (p, tt)
Zip-snoc P [] (y ∷ ys) a b h p = absurd h
Zip-snoc P (x ∷ xs) [] a b h p = absurd h
Zip-snoc P (x ∷ xs) (y ∷ ys) a b h p = (h.0, Zip-snoc P xs ys a b h.1 p)

abbrev IsAncestorOf : ChainNode Directory → AncestorLevel → Type 0
IsAncestorOf n a = (child : Str) × (a ≡ ancestor_of n child)

-- The write supersedes the node in its chain and pins its CID; whatever URI and CID the server gives
-- it, the chain walk accepts the step from it to the node; what is not the listing is carried over.
pub record Succeeds (n : ChainNode Directory) (w : Write) : Type 0 where
  pub created : w.rkey ≡ none
  pub supersedes : w.body.supersedes ≡ some n.uri
  pub pinned : w.body.supersedes_cid ≡ some n.cid
  pub anchored : w.body.lineage ≡ some (unwrap_or n.node.lineage n.uri)
  pub linked :
      (head : ChainHead)
      → link_holds (some (record { uri = head.uri; cid = head.cid; node = w.body })) n ≡ true
  pub root : w.body.is_workspace_root ≡ n.node.is_workspace_root
  pub wrapping : w.body.key_wrapping ≡ n.node.key_wrapping
  pub metadata : w.body.encrypted_metadata ≡ n.node.encrypted_metadata

level_write-Succeeds :
    (n : ChainNode Directory) (workspace_id modified_at : Str) (entries : List ListingEntry)
    → Succeeds n
        (level_write workspace_id (supersede_node n) entries n.node.is_workspace_root modified_at)
unfolding level_write link_holds
level_write-Succeeds n workspace_id modified_at entries = record {
  created = refl;
  supersedes = refl;
  pinned = refl;
  anchored = refl;
  linked = λ head. ground (arith, str_beq_iff (anchor_of n) (anchor_of n), str_beq_iff n.cid n.cid);
  root = refl;
  wrapping = refl;
  metadata = refl;
}

-- Leaf first: the leaf's node, and the nodes above it beside their levels.
build_levels_reversed :
    (n : ChainNode Directory) (rest : List (ChainNode Directory)) (entries : List ListingEntry)
    → (m : ChainNode Directory) × (above : List (ChainNode Directory)) × (reverse (n ∷ rest)
        ≡ m ∷ above)
      × ((build_levels n rest entries).1 ≡ leaf_of m entries)
      × Zip IsAncestorOf above (reverse (build_levels n rest entries).0)
unfolding build_levels
build_levels_reversed n [] entries = (n, [], refl, refl, tt)
build_levels_reversed n (k ∷ rest) entries =
    let (m, above, r, l, z) = build_levels_reversed k rest entries in
    (
      m,
      above ++ n ∷ [],
      reverse-cons n (k ∷ rest) ∙ ap (λ t. t ++ n ∷ []) r,
      l,
      rw reverse-cons (
          Zip-snoc IsAncestorOf above (reverse (build_levels k rest entries).0) n
            (ancestor_of n k.uri) z (k.uri, refl)),
    )

module _ (pds : Pds) (workspace_id modified_at : Str) where
  Climbs-Succeeds :
      (log : List Write) (link : ChainHead) (nodes : List (ChainNode Directory))
      (levels : List AncestorLevel) (ws : List Write)
      → Zip IsAncestorOf nodes levels
      → Climbs pds workspace_id modified_at log link levels ws
      → Zip Succeeds nodes ws
  Climbs-Succeeds log link [] [] [] z c = tt
  Climbs-Succeeds log link [] [] (w ∷ ws) z c = absurd c
  Climbs-Succeeds log link [] (a ∷ levels) ws z c = absurd z
  Climbs-Succeeds log link (n ∷ nodes) [] ws z c = absurd z
  Climbs-Succeeds log link (n ∷ nodes) (a ∷ levels) [] z c = absurd c
  Climbs-Succeeds log link (n ∷ nodes) (a ∷ levels) (w ∷ ws) ((child, q), z)
        ((es, e, p), (head, h, c)) =
      let written : w
          ≡ level_write workspace_id (supersede_node n) es n.node.is_workspace_root modified_at =
        unfold ancestor_of in rw q at p in
      (
        rw written (level_write-Succeeds n workspace_id modified_at es),
        Climbs-Succeeds (log ++ w ∷ []) head nodes levels ws z c,
      )

  -- A deep cascade over fetched nodes that succeeds wrote exactly one new record for each node,
  -- leaf first, which supersedes it, pins its CID and declares its lineage, so that the chain walk
  -- accepts the link, and which keeps its root flag, key wrapping and metadata.
  pub cascade-Succeeds :
      (n : ChainNode Directory) (rest : List (ChainNode Directory)) (entries : List ListingEntry)
      (log : List Write) (steps : List CascadeStep) (log' : List Write)
      → execute_cascade pds workspace_id modified_at log
          (build_levels n rest entries).0
          (build_levels n rest entries).1
        ≡ (ok steps, log')
      → (ws : List Write) × (log' ≡ log ++ ws) × Zip Succeeds (reverse (n ∷ rest)) ws
  cascade-Succeeds n rest entries log steps log' h =
      let (m, above, r, l, z) = build_levels_reversed n rest entries in
      let (w, ws, head, e, q, p, c) =
        execute_cascade-Climbs pds workspace_id modified_at log (build_levels n rest entries).0
          (build_levels n rest entries).1 steps log' h in
      let written : w
          ≡ level_write workspace_id (supersede_node m) entries m.node.is_workspace_root
              modified_at =
        unfold leaf_of in rw l at e in
      (
        w ∷ ws,
        q,
        rw r (
          rw written (level_write-Succeeds m workspace_id modified_at entries),
          Climbs-Succeeds (log ++ w ∷ []) head above _ ws z c,
        ),
      )
