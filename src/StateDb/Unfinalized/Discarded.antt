-- ===== src/StateDb/Unfinalized/Discarded.antt =====
-- substrate/state-db/src/unfinalized.rs: `discard` on a tree of blocks.
use polkadot.Prelude.{
  ℕ, zero, suc, ◌+◌, Bool, false, ◌||◌, Option, List, [], ◌∷◌, ◌++◌, length, Eq, ◌==◌, nat_eq, ◌≡◌,
  refl, arith, inl, inr, Bool-cases, ◌≤◌, true, ltb, sym, ==_iff,
}
use polkadot.Prelude.Map
use polkadot.Prelude.Map.{Map}
use polkadot.StateDb.Panics.{Returns, Returns_map, Returns-and_then}
use polkadot.StateDb.Types.{Bytes}
use polkadot.StateDb.Unfinalized.{BlockOverlay}
use polkadot.StateDb.Unfinalized.Finalizing.{Discarding, retain_level, discard}
use polkadot.StateDb.Unfinalized.Tree.{
  count_level, count_levels, has_hash, Children, Tree, Tree-Same,
}
use polkadot.StateDb.Unfinalized.Descend.{keep, descend, descend-Tree, descend-level, Discards}
use polkadot.StateDb.Unfinalized.Unlinked.{less, Tree-unlink, Children-unlink}
use polkadot.StateDb.Unfinalized.Retained.{Retains, Retains-child, Retains-other}

module _ {H K : Type 0} ⦃eH : Eq H⦄ where
  -- What a call below a level does, for a hash of that level.
  abbrev pub IsDiscarding : ℕ → (H → Discarding H K → Option (Discarding H K)) → Type 0
  IsDiscarding depth below =
      (hash : H) (roots : H → Bool) (levels : List (List (BlockOverlay H K))) (parents : Map H H)
      (journals : List Bytes)
      → Tree parents roots levels
      → ((h : H) → count_levels h levels ≤ 1)
      → length levels ≡ depth
      → Returns
          (λ (levels', parents', _).
            Discards depth (less hash roots) levels parents levels' parents')
          (below hash (levels, parents, journals))

  retain_level-Retains :
      (depth : ℕ) (below : H → Discarding H K → Option (Discarding H K)) (hash : H)
      (roots kept : H → Bool) (os : List (BlockOverlay H K))
      (levels : List (List (BlockOverlay H K))) (parents : Map H H) (journals : List Bytes)
      → IsDiscarding depth below
      → Children parents roots os
      → Tree parents (λ h. kept h || has_hash h os) levels
      → ((h : H) → count_level h os + count_levels h levels ≤ 1)
      → ((h : H) → kept h ≡ true → count_level h os ≡ 0)
      → length levels ≡ depth
      → Returns
          (λ (os', (levels', parents', _)).
            Retains depth hash roots kept os levels parents os' levels' parents')
          (retain_level below hash os (levels, parents, journals))
  unfolding retain_level count_level has_hash keep
  retain_level-Retains depth below hash roots kept [] levels parents journals is c t once apart
        deep =
      record {
        children = tt;
        tree = t;
        fewer_here = λ h. omega arith;
        fewer = λ h. omega arith;
        others = λ h z. refl;
        left_here = λ h pos. refl;
        left = λ h pos. refl;
        keeps = refl;
        descends = sym (descend-Tree parents _ levels t);
        as_deep = deep;
      }
  retain_level-Retains depth below hash roots kept (o ∷ os) levels parents journals is
        ((p, at, in_roots), c) t once apart deep =
      elim (Bool-cases (p == hash)) [
        | inl e ↦
            rw (at, e)
              (Returns-and_then
                (λ (levels', parents', _).
                  Discards depth (less o.hash (λ h. kept h || has_hash h (o ∷ os))) levels
                    (Map.remove parents o.hash) levels' parents')
                _ (below o.hash (levels, Map.remove parents o.hash, journals ++ o.journal_key ∷ []))
                _
                (is o.hash _ levels (Map.remove parents o.hash) _
                  (Tree-unlink o os kept levels parents t once) (λ h. omega (arith, once h)) deep)
                (λ (levels', parents', journals') d.
                  Returns_map
                    (λ (os', (levels'', parents'', _)).
                      Retains depth hash roots kept os levels' parents' os' levels'' parents'')
                    _ (retain_level below hash os (levels', parents', journals'))
                    (retain_level-Retains depth below hash roots kept os levels' parents' journals'
                      is
                      (Children-unlink o os roots kept levels levels' parents parents' c once
                        d.others)
                      (Tree-Same parents' parents' _ _ levels' d.tree (λ h q. ground (arith, q))
                        (λ h q. refl))
                      (λ h. ground (arith, once h, d.fewer h)) (λ h q. ground (arith, apart h q))
                      d.as_deep)
                    (λ (os', (levels'', parents'', _)) r.
                      Retains-child depth hash roots kept o os levels parents levels' parents' os'
                        levels'' parents'' p at e once apart d r)))
        | inr e ↦
            rw (at, e)
              (Returns-and_then
                (λ (os', (levels', parents', _)).
                  Retains depth hash roots (λ h. kept h || o.hash == h) os levels parents os'
                    levels' parents')
                _ (retain_level below hash os (levels, parents, journals)) _
                (retain_level-Retains depth below hash roots (λ h. kept h || o.hash == h) os levels
                  parents journals is c
                  (Tree-Same parents parents _ _ levels t (λ h q. ground (arith, q)) (λ h q. refl))
                  (λ h. ground (arith, once h))
                  (λ h q. ground (arith, q, apart h, once h, ==_iff o.hash h)) deep)
                (λ (os', (levels', parents', _)) r.
                  Retains-other depth hash roots kept o os levels parents os' levels' parents' p at
                    in_roots e once r))
      ]

  -- For a tree of blocks in which no hash is twice, `discard` does not panic, however deep the
  -- tree is: the children of the block go with all below them, exactly the descendants of the other
  -- roots are left, as a tree, and what is left keeps its parents.
  pub discard-Discards : (depth : ℕ) → IsDiscarding depth (discard depth)
  unfolding discard count_levels descend
  discard-Discards depth hash roots [] parents journals t once deep = record {
    tree = tt;
    fewer = λ h. omega arith;
    others = λ h z. refl;
    left = λ h pos. refl;
    descends = refl;
    as_deep = deep;
  }
  discard-Discards zero hash roots (level ∷ levels) parents journals t once deep =
      absurd (omega (arith, deep))
  discard-Discards (suc depth) hash roots (level ∷ levels) parents journals (c, t) once deep =
      Returns-and_then
        (λ (os', (levels', parents', _)).
          Retains depth hash roots (λ h. false) level levels parents os' levels' parents')
        _ (retain_level (discard depth) hash level (levels, parents, journals)) _
        (retain_level-Retains depth (discard depth) hash roots (λ h. false) level levels parents
          journals (discard-Discards depth) c
          (Tree-Same parents parents _ _ levels t (λ h q. q) (λ h q. refl)) once
          (λ h q. absurd (ground (arith, q))) (omega (arith, deep)))
        (λ (os', (levels', parents', _)) r. record {
          tree =
              (r.children, Tree-Same parents' parents' _ _ levels' r.tree (λ h q. q) (λ h q. refl));
          fewer = λ h. omega (arith, r.fewer_here h, r.fewer h);
          others = λ h z. r.others h z;
          left = λ h pos. elim (Bool-cases (ltb 0 (count_level h os'))) [
            | inl here ↦ r.left_here h (ground (arith, here))
            | inr there ↦ r.left h (ground (arith, pos, there))
          ];
          descends = descend-level parents _ level os' levels levels' r.keeps r.descends;
          as_deep = omega (arith, r.as_deep);
        })
