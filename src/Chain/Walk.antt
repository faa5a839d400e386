-- ===== src/Chain/Walk.antt =====
-- The nodes that `walk_back_to_genesis` of directories/chain.rs returns.
use opake.Base.{
  ℕ, zero, suc, ◌≡◌, refl, true, false, Option, none, some, List, [], ◌∷◌, Str, str_eq, contains,
  arith, Bool-cases, Option-cases, inl, inr, ◌⊎◌, Map,
}
use opake.Error.{ok, err, Result-cases}
use opake.Chain.{
  Superseding, ChainNode, Network, fetch_with_cache, link_holds, walk, push_node, Walked,
  walk_back_to_genesis,
}

module _ {Value R : Type 0} ⦃s : Superseding R⦄ (net : Network Value R) where
  -- The network answered a request for `uri` with `n`.
  abbrev pub Served : Str → ChainNode R → Type 0
  Served uri n =
      (cache : Map Str Str) × (cache' : Map Str Str) × (fetch_with_cache net cache uri
        ≡ ok (n, cache'))

  -- The walk went from `child` to `n`: it asked for the URI that `child` supersedes.
  abbrev pub Follows : Str → Option (ChainNode R) → ChainNode R → Type 0
  Follows start none n = Served start n
  Follows start (some child) n =
      (prior : Str) × (s.supersedes_uri child.node ≡ some prior) × Served prior n

  -- The walk ended at `child`: it supersedes nothing, or what was served for the URI that it
  -- supersedes breaks the link.
  abbrev pub Ends : Str → Option (ChainNode R) → Type 0
  Ends start none = ⊥
  Ends start (some child) =
      (s.supersedes_uri child.node ≡ none)
      ⊎ ((n : ChainNode R) × Follows start (some child) n × (link_holds (some child) n ≡ false))

  abbrev pub Chained : Str → Option (ChainNode R) → List (ChainNode R) → Type 0
  Chained start child [] = Ends start child
  Chained start child (n ∷ ns) =
      (link_holds child n ≡ true) × Follows start child n × Chained start (some n) ns

  push_node-ok :
      (n : ChainNode R) (w : Walked net) (nodes : List (ChainNode R))
      → push_node net n w ≡ some (ok nodes)
      → (ns : List (ChainNode R)) × (w ≡ some (ok ns)) × (nodes ≡ n ∷ ns)
  push_node-ok n none nodes h = cc
  push_node-ok n (some (err e)) nodes h = cc
  push_node-ok n (some (ok ns)) nodes h = (ns, refl, cc)

  broken_child :
      (start : Str) (child : Option (ChainNode R)) (n : ChainNode R)
      → Follows start child n
      → link_holds child n ≡ false
      → Ends start child
  unfolding link_holds
  broken_child start none n f h = cc h
  broken_child start (some child) n f h = inr (n, f, h)

  walk-Chained :
      (start : Str) (fuel : ℕ) (child : Option (ChainNode R)) (visited : List Str)
      (cache : Map Str Str) (uri : Str) (nodes : List (ChainNode R))
      → ((n : ChainNode R) → Served uri n → Follows start child n)
      → walk net fuel child visited cache uri ≡ some (ok nodes)
      → Chained start child nodes
  unfolding walk
  walk-Chained start zero child visited cache uri nodes f h = cc h
  walk-Chained start (suc fuel) child visited cache uri nodes f h =
      elim (Bool-cases (contains visited uri)) [
        | inl e ↦ absurd (ground arith)
        | inr e ↦ elim (Result-cases (fetch_with_cache net cache uri)) [
          | inl (x, p) ↦ absurd (ground arith)
          | inr ((n, cache'), p) ↦
              let served : Follows start child n = f n (cache, cache', p) in
              elim (Bool-cases (link_holds child n)) [
                | inr l ↦
                    let q : nodes ≡ [] = ground arith in rw q (broken_child start child n served l)
                | inl l ↦ elim (Option-cases (s.supersedes_uri n.node)) [
                  | inl g ↦ let q : nodes ≡ n ∷ [] = ground arith in rw q (l, served, inl g)
                  | inr (prior, g) ↦
                      let q : push_node net n (walk net fuel (some n) (uri ∷ visited) cache' prior)
                          ≡ some (ok nodes) =
                        ground arith in
                      let (ns, w, eq) = push_node-ok n _ nodes q in
                      rw eq (
                        l,
                        served,
                        walk-Chained start fuel (some n) (uri ∷ visited) cache' prior ns
                            (λ m v. (prior, g, v)) w,
                      )
                ]
              ]
        ]
      ]

  -- What the walk returns starts at the start URI, each further node was served for the URI that
  -- the node before it supersedes and passes the anchor and content-pin checks against it, and the
  -- chain stops where nothing is superseded or where the served predecessor fails those checks.
  pub walk_back_to_genesis-Chained :
      (fuel : ℕ) (start : Str) (nodes : List (ChainNode R))
      → walk_back_to_genesis net fuel start ≡ some (ok nodes)
      → Chained start none nodes
  unfolding walk_back_to_genesis
  walk_back_to_genesis-Chained fuel start nodes h =
      walk-Chained start fuel none [] [] start nodes (λ n v. v) h
