-- ===== src/Chain/Fuel.antt =====
-- The fuel of `walk_back_to_genesis` of directories/chain.rs.
use opake.Base.{
  ℕ, zero, suc, ◌≤◌, ◌<◌, ◌≡◌, ◌≢◌, true, false, Option, none, some, List, [], ◌∷◌, Str, str_eq,
  str_beq_iff, contains, arith, Bool-cases, Option-cases, inl, inr, Map, if◌then◌else◌, length,
}
use opake.Error.{ok, err, Result-cases}
use opake.Chain.{
  Superseding, ChainNode, Network, fetch_with_cache, link_holds, walk, push_node, Walked,
  walk_back_to_genesis,
}

-- How many URIs of the universe the walk has not visited.
unvisited : List Str → List Str → ℕ
unvisited [] visited = 0
unvisited (u ∷ us) visited =
    if contains visited u then unvisited us visited else suc (unvisited us visited)

unvisited-le : (us visited : List Str) (u : Str) → unvisited us (u ∷ visited) ≤ unvisited us visited
unfolding unvisited
unvisited-le [] visited u = omega arith
unvisited-le (x ∷ us) visited u = ground (arith, unvisited-le us visited u)

unvisited-lt :
    (us visited : List Str) (u : Str)
    → contains us u ≡ true
    → contains visited u ≡ false
    → unvisited us (u ∷ visited) < unvisited us visited
unfolding unvisited
unvisited-lt [] visited u m h = cc m
unvisited-lt (x ∷ us) visited u m h =
    ground (
      arith,
      unvisited-le us visited u,
      unvisited-lt us visited u,
      str_beq_iff x u,
      str_beq_iff u x,
    )

unvisited-le-length : (us visited : List Str) → unvisited us visited ≤ length us
unfolding unvisited
unvisited-le-length [] visited = omega arith
unvisited-le-length (x ∷ us) visited = ground (arith, unvisited-le-length us visited)

module _ {Value R : Type 0} ⦃s : Superseding R⦄ (net : Network Value R) where
  push_node-ne-none : (n : ChainNode R) (w : Walked net) → w ≢ none → push_node net n w ≢ none
  push_node-ne-none n none h = h
  push_node-ne-none n (some (ok ns)) h = λ e. cc e
  push_node-ne-none n (some (err x)) h = λ e. cc e

  -- Every back-edge of a record that can be fetched names a URI of the list.
  pub record IsUniverse (universe : List Str) : Type 0 where
    pub closed :
        (cache : Map Str Str) (uri : Str) (n : ChainNode R) (cache' : Map Str Str) (prior : Str)
        → fetch_with_cache net cache uri ≡ ok (n, cache')
        → s.supersedes_uri n.node ≡ some prior
        → contains universe prior ≡ true

  walk-ne-none :
      (universe : List Str)
      → IsUniverse universe
      → (fuel : ℕ) (child : Option (ChainNode R)) (visited : List Str) (cache : Map Str Str)
        (uri : Str)
      → contains universe uri ≡ true
      → unvisited universe visited < fuel
      → walk net fuel child visited cache uri ≢ none
  unfolding walk
  walk-ne-none us c zero child visited cache uri m lt = absurd (omega arith)
  walk-ne-none us c (suc fuel) child visited cache uri m lt =
      elim (Bool-cases (contains visited uri)) [
        | inl e ↦ ground arith
        | inr e ↦ elim (Result-cases (fetch_with_cache net cache uri)) [
          | inl (x, p) ↦ ground arith
          | inr ((n, cache'), p) ↦ elim (Bool-cases (link_holds child n)) [
            | inr l ↦ ground arith
            | inl l ↦ elim (Option-cases (s.supersedes_uri n.node)) [
              | inl g ↦ ground arith
              | inr (prior, g) ↦
                  let rest =
                    walk-ne-none us c fuel (some n) (uri ∷ visited) cache' prior
                      (c.closed cache uri n cache' prior p g)
                      (omega (arith, unvisited-lt us visited uri m e)) in
                  ground (
                    arith,
                    push_node-ne-none n (walk net fuel (some n) (uri ∷ visited) cache' prior) rest,
                  )
            ]
          ]
        ]
      ]

  -- If the records that can be served name only URIs of a finite list that holds the start, fuel
  -- beyond its length never runs out, cycles included.
  pub walk_back_to_genesis_ends :
      (universe : List Str) (fuel : ℕ) (start : Str)
      → IsUniverse universe
      → contains universe start ≡ true
      → length universe < fuel
      → walk_back_to_genesis net fuel start ≢ none
  unfolding walk_back_to_genesis
  walk_back_to_genesis_ends us fuel start c m lt =
      walk-ne-none us c fuel none [] [] start m (omega (arith, unvisited-le-length us []))
