-- ===== src/StateDb/Unfinalized/Descend.antt =====
-- The descendants in a tree of blocks: the description to which `finalize` and `discard` of
-- substrate/state-db/src/unfinalized.rs are compared.
use polkadot.Prelude.{
  ℕ, Bool, true, false, Option, none, some, List, [], ◌∷◌, Eq, nat_eq, ◌≡◌, refl, ap, arith, inl,
  inr, Bool-cases, ◌∙◌, ◌≤◌, length, ==_refl, if◌then◌else◌,
}
use polkadot.Prelude.Map
use polkadot.Prelude.Map.{Map}
use polkadot.StateDb.Unfinalized.{BlockOverlay}
use polkadot.StateDb.Unfinalized.Tree.{count_level, count_levels, has_hash, Same, Children, Tree}

abbrev passes : {H : Type 0} → (H → Bool) → Option H → Bool
passes roots none = false
passes roots (some p) = roots p

module _ {H K : Type 0} ⦃eH : Eq H⦄ where
  -- The blocks whose parent passes a test.
  unfoldable pub keep : Map H H → (H → Bool) → List (BlockOverlay H K) → List (BlockOverlay H K)
  keep parents roots [] = []
  keep parents roots (o ∷ os) =
      if passes roots (Map.get parents o.hash)
      then o ∷ keep parents roots os
      else keep parents roots os

  -- On each level the blocks whose parent passes a test, on the first, or is left on the level
  -- before.
  unfoldable pub descend :
      Map H H → (H → Bool) → List (List (BlockOverlay H K)) → List (List (BlockOverlay H K))
  descend parents roots [] = []
  descend parents roots (level ∷ levels) =
      keep parents roots level ∷ descend parents (λ h. has_hash h (keep parents roots level)) levels

  pub keep-Children :
      (parents : Map H H) (roots : H → Bool) (os : List (BlockOverlay H K))
      → Children parents roots os
      → keep parents roots os ≡ os
  unfolding keep
  keep-Children parents roots [] c = refl
  keep-Children parents roots (o ∷ os) ((p, at, in_roots), c) =
      rw (at, in_roots) (ap (λ l. o ∷ l) (keep-Children parents roots os c))

  pub has-keep :
      (parents : Map H H) (roots : H → Bool) (os : List (BlockOverlay H K)) (h : H)
      → has_hash h (keep parents roots os) ≡ true
      → has_hash h os ≡ true
  unfolding keep has_hash
  has-keep parents roots [] h q = q
  has-keep parents roots (o ∷ os) h q = elim (Bool-cases (passes roots (Map.get parents o.hash))) [
    | inl e ↦ ground (arith, rw e at q, has-keep parents roots os h)
    | inr e ↦ let rest = has-keep parents roots os h (rw e at q) in ground (arith, rest)
  ]

  pub descend-level :
      (parents : Map H H) (roots : H → Bool) (level level' : List (BlockOverlay H K))
      (levels levels' : List (List (BlockOverlay H K)))
      → level' ≡ keep parents roots level
      → levels' ≡ descend parents (λ h. has_hash h level') levels
      → level' ∷ levels' ≡ descend parents roots (level ∷ levels)
  unfolding descend
  descend-level parents roots level level' levels levels' first then_those =
      ap (λ l. level' ∷ l) then_those
      ∙ ap (λ k. k ∷ descend parents (λ h. has_hash h k) levels) first

  pub keep-Same :
      (parents parents' : Map H H) (roots roots' : H → Bool) (os : List (BlockOverlay H K))
      → Same (λ h. count_level h os) parents parents'
      → ((h : H) → roots' h ≡ roots h)
      → keep parents' roots' os ≡ keep parents roots os
  unfolding keep count_level
  keep-Same parents parents' roots roots' [] same e = refl
  keep-Same parents parents' roots roots' (o ∷ os) same e =
      let rest =
        keep-Same parents parents' roots roots' os (λ h pos. ground (arith, same h, pos)) e in
      let here : Map.get parents' o.hash ≡ Map.get parents o.hash =
        ground (arith, same o.hash, ==_refl o.hash) in
      let test : passes roots' (Map.get parents' o.hash) ≡ passes roots (Map.get parents o.hash) =
        rw here (passes-Same roots roots' (Map.get parents o.hash) e) in
      rw (test, rest) refl
    where
      passes-Same :
          (roots roots' : H → Bool) (o : Option H)
          → ((h : H) → roots' h ≡ roots h)
          → passes roots' o ≡ passes roots o
      passes-Same roots roots' none e = refl
      passes-Same roots roots' (some p) e = e p

  pub descend-Same :
      (parents parents' : Map H H) (roots roots' : H → Bool)
      (levels : List (List (BlockOverlay H K)))
      → Same (λ h. count_levels h levels) parents parents'
      → ((h : H) → roots' h ≡ roots h)
      → descend parents' roots' levels ≡ descend parents roots levels
  unfolding descend count_levels
  descend-Same parents parents' roots roots' [] same e = refl
  descend-Same parents parents' roots roots' (level ∷ levels) same e =
      let here =
        keep-Same parents parents' roots roots' level (λ h pos. same h (omega (arith, pos))) e in
      rw here (
        ap (λ l. keep parents roots level ∷ l)
          (descend-Same parents parents' (λ h. has_hash h (keep parents roots level))
            (λ h. has_hash h (keep parents roots level)) levels
            (λ h pos. same h (omega (arith, pos))) (λ h. refl)))

  pub descend-Tree :
      (parents : Map H H) (roots : H → Bool) (levels : List (List (BlockOverlay H K)))
      → Tree parents roots levels
      → descend parents roots levels ≡ levels
  unfolding descend
  descend-Tree parents roots [] t = refl
  descend-Tree parents roots (level ∷ levels) (c, t) =
      rw (keep-Children parents roots level c)
        (ap (λ l. level ∷ l) (descend-Tree parents (λ h. has_hash h level) levels t))

  pub keep-keep :
      (parents : Map H H) (roots fewer : H → Bool) (os : List (BlockOverlay H K))
      → ((h : H) → fewer h ≡ true → roots h ≡ true)
      → keep parents fewer (keep parents roots os) ≡ keep parents fewer os
  unfolding keep
  keep-keep parents roots fewer [] sub = refl
  keep-keep parents roots fewer (o ∷ os) sub =
      let rest = keep-keep parents roots fewer os sub in
      elim (Bool-cases (passes roots (Map.get parents o.hash))) [
        | inl e ↦ rw (e, rest) refl
        | inr e ↦ rw (e, rest, passes-sub (Map.get parents o.hash) e) refl
      ]
    where
      passes-sub : (o : Option H) → passes roots o ≡ false → passes fewer o ≡ false
      passes-sub none e = refl
      passes-sub (some p) e = ground (arith, e, sub p)

  pub keep-sub :
      (parents : Map H H) (roots fewer : H → Bool) (os : List (BlockOverlay H K)) (h : H)
      → ((j : H) → fewer j ≡ true → roots j ≡ true)
      → has_hash h (keep parents fewer os) ≡ true
      → has_hash h (keep parents roots os) ≡ true
  unfolding keep has_hash
  keep-sub parents roots fewer [] h sub q = q
  keep-sub parents roots fewer (o ∷ os) h sub q =
      elim (Bool-cases (has_hash h (keep parents fewer os))) [
        | inl e ↦ ground (arith, keep-sub parents roots fewer os h sub e)
        | inr e ↦ elim (Bool-cases (passes fewer (Map.get parents o.hash))) [
          | inl p ↦ rw (passes-sup (Map.get parents o.hash) p) (ground (arith, q, p, e))
          | inr p ↦ absurd (ground (arith, q, p, e))
        ]
      ]
    where
      passes-sup : (o : Option H) → passes fewer o ≡ true → passes roots o ≡ true
      passes-sup none e = absurd (ground (arith, e))
      passes-sup (some p) e = sub p e

  -- Taking the descendants of more roots first changes nothing.
  pub descend-descend :
      (parents : Map H H) (roots fewer : H → Bool) (levels : List (List (BlockOverlay H K)))
      → ((h : H) → fewer h ≡ true → roots h ≡ true)
      → descend parents fewer (descend parents roots levels) ≡ descend parents fewer levels
  unfolding descend
  descend-descend parents roots fewer [] sub = refl
  descend-descend parents roots fewer (level ∷ levels) sub =
      rw (keep-keep parents roots fewer level sub) (
        ap (λ l. keep parents fewer level ∷ l)
          (descend-descend parents (λ h. has_hash h (keep parents roots level))
            (λ h. has_hash h (keep parents fewer level)) levels
            (λ h q. keep-sub parents roots fewer level h sub q)))

  -- What a call does to the levels below a level, and to the parents: the descendants of the roots
  -- are left, with their parents.
  pub record Discards (depth : ℕ) (roots : H → Bool) (levels : List (List (BlockOverlay H K)))
      (parents : Map H H) (levels' : List (List (BlockOverlay H K))) (parents' : Map H H)
      : Type 0 where
    pub tree : Tree parents' roots levels'
    pub fewer : (h : H) → count_levels h levels' ≤ count_levels h levels
    pub others : (h : H) → count_levels h levels ≡ 0 → Map.get parents' h ≡ Map.get parents h
    pub left : Same (λ h. count_levels h levels') parents parents'
    pub descends : levels' ≡ descend parents roots levels
    pub as_deep : length levels' ≡ depth

  -- Two calls, one after the other.
  pub descend-twice :
      (parents parents₁ parents₂ : Map H H) (roots fewer : H → Bool)
      (levels levels₁ : List (List (BlockOverlay H K)))
      → levels₁ ≡ descend parents₁ roots levels
      → Same (λ h. count_levels h levels) parents parents₁
      → Same (λ h. count_levels h levels₁) parents parents₂
      → ((h : H) → fewer h ≡ true → roots h ≡ true)
      → descend parents₂ fewer levels₁ ≡ descend parents fewer levels
  descend-twice parents parents₁ parents₂ roots fewer levels levels₁ first same₁ same₂ sub =
      descend-Same parents parents₂ fewer fewer levels₁ same₂ (λ h. refl)
      ∙ ap (descend parents fewer)
          (first ∙ descend-Same parents parents₁ roots roots levels same₁ (λ h. refl))
      ∙ descend-descend parents roots fewer levels sub
