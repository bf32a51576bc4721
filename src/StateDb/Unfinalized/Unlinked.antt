-- ===== src/StateDb/Unfinalized/Unlinked.antt =====
-- substrate/state-db/src/unfinalized.rs: the parents, after some hashes are removed from them.
use polkadot.Prelude.{
  ◌+◌, Bool, false, not, ◌&&◌, ◌||◌, some, List, ◌∷◌, Eq, ◌==◌, nat_eq, ◌≡◌, refl, arith, ◌≤◌, ◌<◌,
  true, ==_iff, ==_refl,
}
use polkadot.Prelude.Map
use polkadot.Prelude.Map.{Map}
use polkadot.StateDb.Unfinalized.{BlockOverlay}
use polkadot.StateDb.Unfinalized.Tree.{
  Same, count_level, count_levels, has_hash, has-count, Children, Tree, Children-Same, Tree-Same,
}
use polkadot.StateDb.Unfinalized.Descend.{keep}

-- A hash that passes a test, and is not a given one.
abbrev pub less : {H : Type 0} ⦃eH : Eq H⦄ → H → (H → Bool) → H → Bool
less hash roots h = roots h && not (hash == h)

module _ {H K : Type 0} ⦃eH : Eq H⦄ where
  pub Tree-unlink :
      (o : BlockOverlay H K) (os : List (BlockOverlay H K)) (kept : H → Bool)
      (levels : List (List (BlockOverlay H K))) (parents : Map H H)
      → Tree parents (λ h. kept h || has_hash h (o ∷ os)) levels
      → ((h : H) → count_level h (o ∷ os) + count_levels h levels ≤ 1)
      → Tree (Map.remove parents o.hash) (λ h. kept h || has_hash h (o ∷ os)) levels
  unfolding count_level
  Tree-unlink o os kept levels parents t once =
      Tree-Same parents (Map.remove parents o.hash) _ _ levels t (λ h q. q)
        (λ h pos. ground (arith, once h, pos, Map.get-remove parents o.hash h))

  pub Children-unlink :
      (o : BlockOverlay H K) (os : List (BlockOverlay H K)) (roots kept : H → Bool)
      (levels levels' : List (List (BlockOverlay H K))) (parents parents' : Map H H)
      → Children parents roots os
      → ((h : H) → count_level h (o ∷ os) + count_levels h levels ≤ 1)
      → ((h : H)
          → count_levels h levels ≡ 0
          → Map.get parents' h ≡ Map.get (Map.remove parents o.hash) h)
      → Children parents' roots os
  unfolding count_level
  Children-unlink o os roots kept levels levels' parents parents' c once others =
      Children-Same parents parents' roots roots os c (λ h q. q)
        (λ h pos. ground (arith, once h, pos, others h, Map.get-remove parents o.hash h))

  pub only_here :
      (o : BlockOverlay H K) (os : List (BlockOverlay H K))
      (levels : List (List (BlockOverlay H K)))
      → ((h : H) → count_level h (o ∷ os) + count_levels h levels ≤ 1)
      → count_level o.hash os + count_levels o.hash levels ≡ 0
  unfolding count_level
  only_here o os levels once = ground (arith, once o.hash, ==_refl o.hash)

  pub dropped_others :
      (o : BlockOverlay H K) (os : List (BlockOverlay H K))
      (levels levels' : List (List (BlockOverlay H K))) (parents parents' parents'' : Map H H)
      (h : H)
      → ((j : H) → count_levels j levels' ≤ count_levels j levels)
      → ((j : H)
          → count_levels j levels ≡ 0
          → Map.get parents' j ≡ Map.get (Map.remove parents o.hash) j)
      → ((j : H)
          → count_level j os + count_levels j levels' ≡ 0
          → Map.get parents'' j ≡ Map.get parents' j)
      → count_level h (o ∷ os) + count_levels h levels ≡ 0
      → Map.get parents'' h ≡ Map.get parents h
  unfolding count_level
  dropped_others o os levels levels' parents parents' parents'' h fewer first then_those z =
      ground (arith, z, fewer h, first h, then_those h, Map.get-remove parents o.hash h)

  -- A hash that is on the levels after the call below keeps its parent.
  pub dropped_left :
      (o : BlockOverlay H K) (os : List (BlockOverlay H K))
      (levels levels' : List (List (BlockOverlay H K))) (parents parents' : Map H H)
      → ((h : H) → count_level h (o ∷ os) + count_levels h levels ≤ 1)
      → ((h : H) → count_levels h levels' ≤ count_levels h levels)
      → Same (λ h. count_levels h levels') (Map.remove parents o.hash) parents'
      → Same (λ h. count_levels h levels') parents parents'
  unfolding count_level
  dropped_left o os levels levels' parents parents' once fewer left h pos =
      ground (arith, once h, fewer h, left h, pos, Map.get-remove parents o.hash h)

  pub unlinked-other :
      (o : BlockOverlay H K) (os : List (BlockOverlay H K))
      (levels : List (List (BlockOverlay H K))) (parents : Map H H)
      → ((h : H) → count_level h (o ∷ os) + count_levels h levels ≤ 1)
      → Same (λ h. count_levels h levels) parents (Map.remove parents o.hash)
  unfolding count_level
  unlinked-other o os levels parents once h pos =
      ground (arith, once h, pos, Map.get-remove parents o.hash h)

  pub kept-left :
      (o : BlockOverlay H K) (os os' : List (BlockOverlay H K))
      (levels : List (List (BlockOverlay H K))) (parents parents' : Map H H) (h : H)
      → ((j : H) → count_level j (o ∷ os) + count_levels j levels ≤ 1)
      → ((j : H)
          → count_level j os + count_levels j levels ≡ 0
          → Map.get parents' j ≡ Map.get parents j)
      → Same (λ j. count_level j os') parents parents'
      → 0 < count_level h (o ∷ os')
      → Map.get parents' h ≡ Map.get parents h
  unfolding count_level
  kept-left o os os' levels parents parents' h once others left pos =
      ground (arith, once h, others h, left h, pos, ==_iff o.hash h)

  pub dropped_left_here :
      (o : BlockOverlay H K) (os : List (BlockOverlay H K))
      (levels : List (List (BlockOverlay H K))) (parents parents' : Map H H)
      → ((h : H) → count_level h (o ∷ os) + count_levels h levels ≤ 1)
      → ((h : H)
          → count_levels h levels ≡ 0
          → Map.get parents' h ≡ Map.get (Map.remove parents o.hash) h)
      → Same (λ h. count_level h os) parents parents'
  unfolding count_level
  dropped_left_here o os levels parents parents' once others h pos =
      ground (arith, once h, others h, pos, Map.get-remove parents o.hash h)

  -- What is left of a level, and what was kept before, is without the discarded block.
  pub left-less :
      (o : BlockOverlay H K) (os os' : List (BlockOverlay H K)) (kept : H → Bool) (h : H)
      → count_level h (o ∷ os) ≤ 1
      → (kept h ≡ true → count_level h (o ∷ os) ≡ 0)
      → (has_hash h os' ≡ true → has_hash h os ≡ true)
      → (kept h || has_hash h os') ≡ true
      → less o.hash (λ j. kept j || has_hash j (o ∷ os)) h ≡ true
  unfolding count_level has_hash
  left-less o os os' kept h once apart sub q = ground (arith, once, apart, sub, q, has-count h os)

  pub keep-child :
      (o : BlockOverlay H K) (os : List (BlockOverlay H K)) (roots : H → Bool) (hash p : H)
      (parents : Map H H)
      → Map.get parents o.hash ≡ some p
      → p == hash ≡ true
      → keep parents (less hash roots) (o ∷ os) ≡ keep parents (less hash roots) os
  unfolding keep
  keep-child o os roots hash p parents at e =
      let out : less hash roots p ≡ false = ground (arith, e, ==_iff p hash, ==_iff hash p) in
      rw (at, out) refl

  pub keep-other :
      (o : BlockOverlay H K) (os : List (BlockOverlay H K)) (roots : H → Bool) (hash p : H)
      (parents : Map H H)
      → Map.get parents o.hash ≡ some p
      → roots p ≡ true
      → p == hash ≡ false
      → keep parents (less hash roots) (o ∷ os) ≡ o ∷ keep parents (less hash roots) os
  unfolding keep
  keep-other o os roots hash p parents at in_roots e =
      let stays : less hash roots p ≡ true =
        ground (arith, e, in_roots, ==_iff p hash, ==_iff hash p) in
      rw (at, stays) refl
