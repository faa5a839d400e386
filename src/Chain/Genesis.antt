-- ===== src/Chain/Genesis.antt =====
-- `verify_and_walk_chain` of directories/chain.rs and its genesis check.
use opake.Base.{
  ℕ, suc, ◌≡◌, refl, sym, true, none, some, List, [], ◌∷◌, Str, str_eq, str_beq_iff, last, subst,
  Option-cases, inl, inr, arith, Map, All,
}
use opake.Error.{ok, Result-cases}
use opake.Chain.{
  Superseding, ChainNode, anchor_of, Network, fetch_with_cache, link_holds, walk,
  walk_back_to_genesis, check_genesis, verify_and_walk_chain,
}
use opake.Chain.Walk.{Chained, walk_back_to_genesis-Chained}

module _ {R : Type 0} ⦃s : Superseding R⦄ where
  -- Equal anchors, and the pinned CID if there is one.
  link_holds-anchor :
      (child n : ChainNode R) → link_holds (some child) n ≡ true → anchor_of child ≡ anchor_of n
  unfolding link_holds
  link_holds-anchor child n h = ground (arith, str_beq_iff (anchor_of child) (anchor_of n))

module _ {Value R : Type 0} ⦃s : Superseding R⦄ (net : Network Value R) where
  -- Down a chain, every node has the anchor of the node above it.
  Chained-anchor :
      (start : Str) (child : ChainNode R) (ns : List (ChainNode R))
      → Chained net start (some child) ns
      → All (λ n. anchor_of n ≡ anchor_of child) ns
  Chained-anchor start child [] h = tt
  Chained-anchor start child (n ∷ ns) (l, f, h) =
      let e : anchor_of n ≡ anchor_of child = sym (link_holds-anchor child n l) in
      (e, rw e at (Chained-anchor start n ns h))

  last-All :
      (P : ChainNode R → Type 0) (xs : List (ChainNode R)) (g : ChainNode R)
      → last xs ≡ some g
      → All P xs
      → P g
  last-All P (x ∷ []) g e h = subst P (cc e) h.0
  last-All P [] g e h = cc e
  last-All P (x ∷ y ∷ xs) g e h = last-All P (y ∷ xs) g e h.1

  same_anchors :
      (start : Str) (chain : List (ChainNode R)) (g : ChainNode R)
      → Chained net start none chain
      → last chain ≡ some g
      → All (λ n. anchor_of n ≡ anchor_of g) chain
  same_anchors start [] g c e = tt
  same_anchors start (n ∷ ns) g (l, f, c) e =
      let below : All (λ m. anchor_of m ≡ anchor_of n) ns = Chained-anchor start n ns c in
      let top : anchor_of g ≡ anchor_of n =
        last-All (λ m. anchor_of m ≡ anchor_of n) (n ∷ ns) g e (refl, below) in
      subst (λ a. All (λ m. anchor_of m ≡ a) (n ∷ ns)) (sym top) (refl, below)

  check_genesis-ok :
      (walked chain : List (ChainNode R)) (expected : Str)
      → check_genesis net walked expected ≡ ok chain
      → (g : ChainNode R) × (walked ≡ chain) × (last chain ≡ some g) × (g.uri ≡ expected)
  unfolding check_genesis
  check_genesis-ok walked chain expected h = elim (Option-cases (last walked)) [
    | inl e ↦ absurd (ground arith)
    | inr (g, e) ↦
        let p : walked ≡ chain = ground arith in
        let q : g.uri ≡ expected = ground (arith, str_beq_iff g.uri expected) in
        (g, p, rw p at e, q)
  ]

  -- An accepted chain is a chain from the head, its last node claims the expected genesis URI, and
  -- every node has one and the same lineage anchor.
  pub verify_and_walk_chain_sound :
      (fuel : ℕ) (head expected : Str) (chain : List (ChainNode R))
      → verify_and_walk_chain net fuel head expected ≡ some (ok chain)
      → Chained net head none chain
        × ((g : ChainNode R) × (last chain ≡ some g)
            × (g.uri ≡ expected)
            × All (λ n. anchor_of n ≡ anchor_of g) chain)
  unfolding verify_and_walk_chain
  verify_and_walk_chain_sound fuel head expected chain h =
      elim (Option-cases (walk_back_to_genesis net fuel head)) [
        | inl e ↦ absurd (ground arith)
        | inr (w, e) ↦ elim (Result-cases w) [
          | inl (x, p) ↦ absurd (ground arith)
          | inr (walked, p) ↦
              let k : check_genesis net walked expected ≡ ok chain = ground arith in
              let (g, q, l, u) = check_genesis-ok walked chain expected k in
              let c : Chained net head none chain =
                walk_back_to_genesis-Chained net fuel head chain (ground arith) in
              (c, (g, l, u, same_anchors head chain g c l))
        ]
      ]

  -- One answer to the head's request that claims the expected genesis URI and supersedes nothing
  -- makes the chain of that one record accepted, whatever the head URI was.
  pub forged_genesis :
      (fuel : ℕ) (head expected : Str) (n : ChainNode R) (cache : Map Str Str)
      → fetch_with_cache net [] head ≡ ok (n, cache)
      → n.uri ≡ expected
      → s.supersedes_uri n.node ≡ none
      → verify_and_walk_chain net (suc fuel) head expected ≡ some (ok (n ∷ []))
  unfolding verify_and_walk_chain walk_back_to_genesis walk link_holds check_genesis
  forged_genesis fuel head expected n cache f u g =
      ground (arith, f, u, g, str_beq_iff n.uri expected)
