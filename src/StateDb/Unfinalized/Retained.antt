-- ===== src/StateDb/Unfinalized/Retained.antt =====
-- substrate/state-db/src/unfinalized.rs: a step of `retain` in `discard`.
use polkadot.Prelude.{
  ℕ, ◌+◌, Bool, false, ◌||◌, some, List, ◌∷◌, length, Eq, ◌==◌, nat_eq, ◌≡◌, refl, arith, ◌∙◌, ◌≤◌,
  true, sym, ap, ==_iff,
}
use mathlib.Core.Path.{subst}
use polkadot.Prelude.Map
use polkadot.Prelude.Map.{Map}
use polkadot.StateDb.Unfinalized.{BlockOverlay}
use polkadot.StateDb.Unfinalized.Tree.{
  Same, count_level, count_levels, has_hash, Children, Tree, Tree-Same,
}
use polkadot.StateDb.Unfinalized.Descend.{
  keep, has-keep, descend, keep-Same, descend-Same, Discards, descend-twice,
}
use polkadot.StateDb.Unfinalized.Unlinked.{
  less, only_here, dropped_others, dropped_left, unlinked-other, kept-left, dropped_left_here,
  left-less, keep-child, keep-other,
}

module _ {H K : Type 0} ⦃eH : Eq H⦄ where
  -- What `retain` does to a level and those below, besides the hashes kept so far.
  pub record Retains (depth : ℕ) (hash : H) (roots kept : H → Bool) (os : List (BlockOverlay H K))
      (levels : List (List (BlockOverlay H K))) (parents : Map H H) (os' : List (BlockOverlay H K))
      (levels' : List (List (BlockOverlay H K))) (parents' : Map H H) : Type 0 where
    pub children : Children parents' (less hash roots) os'
    pub tree : Tree parents' (λ h. kept h || has_hash h os') levels'
    pub fewer_here : (h : H) → count_level h os' ≤ count_level h os
    pub fewer : (h : H) → count_levels h levels' ≤ count_levels h levels
    pub others :
        (h : H)
        → count_level h os + count_levels h levels ≡ 0
        → Map.get parents' h ≡ Map.get parents h
    pub left_here : Same (λ h. count_level h os') parents parents'
    pub left : Same (λ h. count_levels h levels') parents parents'
    pub keeps : os' ≡ keep parents (less hash roots) os
    pub descends : levels' ≡ descend parents (λ h. kept h || has_hash h os') levels
    pub as_deep : length levels' ≡ depth

  -- A block goes, with the call below, and then the rest of the level is retained.
  pub Retains-child :
      (depth : ℕ) (hash : H) (roots kept : H → Bool) (o : BlockOverlay H K)
      (os : List (BlockOverlay H K)) (levels : List (List (BlockOverlay H K))) (parents : Map H H)
      (levels' : List (List (BlockOverlay H K))) (parents' : Map H H)
      (os' : List (BlockOverlay H K)) (levels'' : List (List (BlockOverlay H K)))
      (parents'' : Map H H) (p : H)
      → Map.get parents o.hash ≡ some p
      → p == hash ≡ true
      → ((h : H) → count_level h (o ∷ os) + count_levels h levels ≤ 1)
      → ((h : H) → kept h ≡ true → count_level h (o ∷ os) ≡ 0)
      → Discards depth
          (less o.hash (λ h. kept h || has_hash h (o ∷ os)))
          levels
          (Map.remove parents o.hash)
          levels'
          parents'
      → Retains depth hash roots kept os levels' parents' os' levels'' parents''
      → Retains depth hash roots kept (o ∷ os) levels parents os' levels'' parents''
  unfolding count_level has_hash
  Retains-child depth hash roots kept o os levels parents levels' parents' os' levels'' parents'' p
        at e once apart d r =
      record {
        children = r.children;
        tree = r.tree;
        fewer_here = λ h. ground (arith, r.fewer_here h);
        fewer = λ h. omega (arith, r.fewer h, d.fewer h);
        others = λ h z.
            dropped_others o os levels levels' parents parents' parents'' h d.fewer d.others
              r.others z;
        left_here = λ h pos.
            r.left_here h pos
            ∙ dropped_left_here o os levels parents parents' once d.others h
                (omega (arith, r.fewer_here h, pos));
        left = λ h pos.
            r.left h pos
            ∙ dropped_left o os levels levels' parents parents' once d.fewer d.left h
                (omega (arith, r.fewer h, pos));
        keeps =
            r.keeps
            ∙ keep-Same parents parents' _ _ os
                (dropped_left_here o os levels parents parents' once d.others) (λ h. refl)
            ∙ sym (keep-child o os roots hash p parents at e);
        descends =
            r.descends
            ∙ descend-twice parents (Map.remove parents o.hash) parents' _ _ levels levels'
                d.descends (λ h pos. unlinked-other o os levels parents once h pos)
                (dropped_left o os levels levels' parents parents' once d.fewer d.left)
                (λ h q.
                  left-less o os os' kept h (omega (arith, once h)) (apart h)
                    (λ k. has-keep parents' _ os h (subst (λ l. has_hash h l ≡ true) r.keeps k)) q);
        as_deep = r.as_deep;
      }

  -- A block stays, and the rest of the level is retained.
  pub Retains-other :
      (depth : ℕ) (hash : H) (roots kept : H → Bool) (o : BlockOverlay H K)
      (os : List (BlockOverlay H K)) (levels : List (List (BlockOverlay H K))) (parents : Map H H)
      (os' : List (BlockOverlay H K)) (levels' : List (List (BlockOverlay H K)))
      (parents' : Map H H) (p : H)
      → Map.get parents o.hash ≡ some p
      → roots p ≡ true
      → p == hash ≡ false
      → ((h : H) → count_level h (o ∷ os) + count_levels h levels ≤ 1)
      → Retains depth hash roots (λ h. kept h || o.hash == h) os levels parents os' levels' parents'
      → Retains depth hash roots kept (o ∷ os) levels parents (o ∷ os') levels' parents'
  unfolding count_level has_hash
  Retains-other depth hash roots kept o os levels parents os' levels' parents' p at in_roots e once
        r =
      record {
        children = (
          (
            p,
            r.others o.hash (only_here o os levels once) ∙ at,
            ground (arith, e, in_roots, ==_iff p hash, ==_iff hash p),
          ),
          r.children,
        );
        tree =
            Tree-Same parents' parents' _ _ levels' r.tree (λ h q. ground (arith, q)) (λ h q. refl);
        fewer_here = λ h. ground (arith, r.fewer_here h);
        fewer = r.fewer;
        others = λ h z. r.others h (ground (arith, z));
        left_here =
            λ h pos. kept-left o os os' levels parents parents' h once r.others r.left_here pos;
        left = r.left;
        keeps = ap (λ l. o ∷ l) r.keeps ∙ sym (keep-other o os roots hash p parents at in_roots e);
        descends =
            r.descends
            ∙ descend-Same parents parents _ _ levels (λ h pos. refl) (λ h. ground arith);
        as_deep = r.as_deep;
      }
