-- ===== src/StateDb/Unfinalized/Tree.antt =====
-- substrate/state-db/src/unfinalized.rs: the blocks as a tree, by levels.
use polkadot.Prelude.{
  ℕ, ◌+◌, Bool, true, false, ◌||◌, some, List, [], ◌∷◌, Eq, ◌==◌, nat_eq, ◌≡◌, arith, ◌<◌, ==_refl,
  if◌then◌else◌,
}
use polkadot.Prelude.Map
use polkadot.Prelude.Map.{Map}
use polkadot.StateDb.Unfinalized.{BlockOverlay}

-- The entries of some hashes are as before.
abbrev pub Same : {H : Type 0} ⦃eH : Eq H⦄ → (H → ℕ) → Map H H → Map H H → Type 0
Same {H} count parents parents' = (h : H) → 0 < count h → Map.get parents' h ≡ Map.get parents h

module _ {H K : Type 0} ⦃eH : Eq H⦄ where
  -- How many blocks have a hash.
  unfoldable pub count_level : H → List (BlockOverlay H K) → ℕ
  count_level h [] = 0
  count_level h (o ∷ os) = if o.hash == h then count_level h os + 1 else count_level h os

  unfoldable pub count_levels : H → List (List (BlockOverlay H K)) → ℕ
  count_levels h [] = 0
  count_levels h (level ∷ levels) = count_level h level + count_levels h levels

  unfoldable pub has_hash : H → List (BlockOverlay H K) → Bool
  has_hash h [] = false
  has_hash h (o ∷ os) = o.hash == h || has_hash h os

  pub has-count :
      (h : H) (os : List (BlockOverlay H K)) → has_hash h os ≡ true → 0 < count_level h os
  unfolding has_hash count_level
  has-count h [] q = absurd (ground (arith, q))
  has-count h (o ∷ os) q = ground (arith, q, has-count h os)

  -- Each block of a level has a parent, which passes a test.
  abbrev pub Children : Map H H → (H → Bool) → List (BlockOverlay H K) → Type 0
  Children parents roots [] = Unit
  Children parents roots (o ∷ os) =
      ((p : H) × (Map.get parents o.hash ≡ some p) × (roots p ≡ true)) × Children parents roots os

  -- The parents of the blocks of the first level pass a test, those of a later level are in the
  -- level before.
  abbrev pub Tree : Map H H → (H → Bool) → List (List (BlockOverlay H K)) → Type 0
  Tree parents roots [] = Unit
  Tree parents roots (level ∷ levels) =
      Children parents roots level × Tree parents (λ h. has_hash h level) levels

  pub Children-Same :
      (parents parents' : Map H H) (roots roots' : H → Bool) (os : List (BlockOverlay H K))
      → Children parents roots os
      → ((h : H) → roots h ≡ true → roots' h ≡ true)
      → Same (λ h. count_level h os) parents parents'
      → Children parents' roots' os
  unfolding count_level
  Children-Same parents parents' roots roots' [] c more same = tt
  Children-Same parents parents' roots roots' (o ∷ os) ((p, at, in_roots), c) more same = (
    (p, ground (arith, same o.hash, at, ==_refl o.hash), more p in_roots),
    Children-Same parents parents' roots roots' os c more (λ h pos. ground (arith, same h, pos)),
  )

  pub Tree-Same :
      (parents parents' : Map H H) (roots roots' : H → Bool)
      (levels : List (List (BlockOverlay H K)))
      → Tree parents roots levels
      → ((h : H) → roots h ≡ true → roots' h ≡ true)
      → Same (λ h. count_levels h levels) parents parents'
      → Tree parents' roots' levels
  unfolding count_levels
  Tree-Same parents parents' roots roots' [] t more same = tt
  Tree-Same parents parents' roots roots' (level ∷ levels) (c, t) more same = (
    Children-Same parents parents' roots roots' level c more (λ h pos. same h (omega (arith, pos))),
    Tree-Same parents parents' (λ h. has_hash h level) (λ h. has_hash h level) levels t (λ h k. k)
        (λ h pos. same h (omega (arith, pos))),
  )
