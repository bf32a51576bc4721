-- ===== src/StateDb/Unfinalized/Inserted.antt =====
-- substrate/state-db/src/unfinalized.rs: `insert` on a tree of blocks.
use mathlib.Core.Path.{subst}
use polkadot.Prelude.{
  ℕ, zero, suc, ◌+◌, ◌-◌, ◌≤◌, ◌<◌, ◌≡◌, refl, inl, inr, Bool, true, ◌||◌, some, List, [], ◌∷◌,
  ◌++◌, length, arith, Eq, ◌==◌, ==_iff, nat_eq, if◌then◌else◌, Bool-cases, length-append,
}
use polkadot.Prelude.Map
use polkadot.Prelude.Map.{Map}
use polkadot.StateDb.Types.{ChangeSet, Encoders}
use polkadot.StateDb.Panics.{Returns, Returns-and_then}
use polkadot.StateDb.Unfinalized.{
  BlockOverlay, UnfinalizedOverlay, is_nil, front_block_number, push_overlay, fits, open_level,
  new_overlay, insert,
}
use polkadot.StateDb.Unfinalized.Values.{fits_range, begin_insert_lem}
use polkadot.StateDb.Unfinalized.Tree.{
  count_level, count_levels, has_hash, Children, Tree, Tree-Same,
}
use polkadot.StateDb.Unfinalized.Finalized.{IsTree}

module _ {H K : Type 0} ⦃eH : Eq H⦄ where
  -- A block is in the level before that with an index, or passes a test for the first level.
  abbrev pub IsUnder : H → (H → Bool) → ℕ → List (List (BlockOverlay H K)) → Type 0
  IsUnder parent roots zero levels = roots parent ≡ true
  IsUnder parent roots (suc index) [] = ⊥
  IsUnder parent roots (suc index) (level ∷ levels) =
      IsUnder parent (λ h. has_hash h level) index levels

  Children-append :
      (parents : Map H H) (roots : H → Bool) (os : List (BlockOverlay H K)) (o : BlockOverlay H K)
      (p : H)
      → Children parents roots os
      → Map.get parents o.hash ≡ some p
      → roots p ≡ true
      → Children parents roots (os ++ o ∷ [])
  Children-append parents roots [] o p c at in_roots = ((p, at, in_roots), tt)
  Children-append parents roots (o' ∷ os) o p (c, cs) at in_roots =
      (c, Children-append parents roots os o p cs at in_roots)

  has_hash-append :
      (h : H) (os : List (BlockOverlay H K)) (o : BlockOverlay H K)
      → has_hash h (os ++ o ∷ []) ≡ (has_hash h os || o.hash == h)
  unfolding has_hash
  has_hash-append h [] o = ground arith
  has_hash-append h (o' ∷ os) o = ground (arith, has_hash-append h os o)

  count_level-append :
      (h : H) (os : List (BlockOverlay H K)) (o : BlockOverlay H K)
      → count_level h (os ++ o ∷ []) ≡ count_level h os + (if o.hash == h then 1 else 0)
  unfolding count_level
  count_level-append h [] o = ground arith
  count_level-append h (o' ∷ os) o = ground (arith, count_level-append h os o)

  -- A level with one more block: a tree, with each hash as often as before but for the new one.
  abbrev IsPushed :
      Map H H
      → (H → Bool)
      → H
      → List (List (BlockOverlay H K))
      → List (List (BlockOverlay H K))
      → Type 0
  IsPushed parents roots hash levels levels' =
      Tree parents roots levels'
      × ((h : H) → count_levels h levels' ≡ count_levels h levels + (if hash == h then 1 else 0))

  push_overlay-IsPushed :
      (make : ℕ → BlockOverlay H K) (index : ℕ) (levels : List (List (BlockOverlay H K)))
      (parents : Map H H) (hash p : H) (roots : H → Bool)
      → ((i : ℕ) → (make i).hash ≡ hash)
      → Map.get parents hash ≡ some p
      → IsUnder p roots index levels
      → Tree parents roots levels
      → index < length levels
      → Returns
          (λ (levels', _). IsPushed parents roots hash levels levels')
          (push_overlay make index levels)
  unfolding push_overlay count_levels
  push_overlay-IsPushed make index [] parents hash p roots made at under t low =
      absurd (omega (arith, low))
  push_overlay-IsPushed make zero (level ∷ levels) parents hash p roots made at under (c, t) low =
      let n = length level in
      let at_new : Map.get parents (make n).hash ≡ some p = rw (made n) at in
      (
        (
          Children-append parents roots level (make n) p c at_new under,
          Tree-Same parents parents _ _ levels t
              (λ h q. ground (arith, q, has_hash-append h level (make n))) (λ h q. refl),
        ),
        λ h. ground (arith, count_level-append h level (make n), made n),
      )
  push_overlay-IsPushed make (suc index) (level ∷ levels) parents hash p roots made at under (c, t)
        low =
      Returns-and_then
        (λ (levels', _). IsPushed parents (λ h. has_hash h level) hash levels levels') _
        (push_overlay make index levels) _
        (push_overlay-IsPushed make index levels parents hash p (λ h. has_hash h level) made at
          under t (omega (arith, low)))
        (λ (levels', _) (t', counts). ((c, t'), λ h. omega (arith, counts h)))

  Tree-append :
      (parents : Map H H) (roots : H → Bool) (levels : List (List (BlockOverlay H K)))
      → Tree parents roots levels
      → Tree parents roots (levels ++ [] ∷ [])
  Tree-append parents roots [] t = (tt, tt)
  Tree-append parents roots (level ∷ levels) (c, t) =
      (c, Tree-append parents (λ h. has_hash h level) levels t)

  IsUnder-append :
      (p : H) (roots : H → Bool) (index : ℕ) (levels : List (List (BlockOverlay H K)))
      → IsUnder p roots index levels
      → IsUnder p roots index (levels ++ [] ∷ [])
  IsUnder-append p roots zero levels u = u
  IsUnder-append p roots (suc index) [] u = absurd u
  IsUnder-append p roots (suc index) (level ∷ levels) u =
      IsUnder-append p (λ h. has_hash h level) index levels u

  count_levels-append :
      (h : H) (levels : List (List (BlockOverlay H K)))
      → count_levels h (levels ++ [] ∷ []) ≡ count_levels h levels
  unfolding count_levels count_level
  count_levels-append h [] = refl
  count_levels-append h (level ∷ levels) = omega (arith, count_levels-append h levels)

  -- The levels as they are opened for a block.
  abbrev IsOpened :
      H
      → Map H H
      → (H → Bool)
      → ℕ
      → List (List (BlockOverlay H K))
      → List (List (BlockOverlay H K)) × ℕ
      → Type 0
  IsOpened p parents roots index levels (levels', index') =
      Tree parents roots levels'
      × IsUnder p roots index' levels'
      × (index' < length levels')
      × ((h : H) → count_levels h levels' ≡ count_levels h levels)

  open_level-IsOpened :
      (p : H) (parents : Map H H) (roots : H → Bool) (number front : ℕ)
      (levels : List (List (BlockOverlay H K)))
      → front ≤ number
      → number < front + length levels + 1
      → Tree parents roots levels
      → IsUnder p roots (number - front) levels
      → IsOpened p parents roots (number - front) levels (open_level number front levels)
  unfolding open_level is_nil
  open_level-IsOpened p parents roots number front [] low high t under =
      let first : number - front ≡ 0 = omega (arith, low, high) in
      (
        (tt, tt),
        subst (λ i. IsUnder p roots i []) first under,
        omega arith,
        λ h. count_levels-append h [],
      )
  open_level-IsOpened p parents roots number front (level ∷ levels) low high t under =
      elim (Bool-cases (number == front + length (level ∷ levels))) [
        | inl e ↦
            let last : number - front ≡ length (level ∷ levels) = ground (arith, e) in
            rw e (
              Tree-append parents roots (level ∷ levels) t,
              subst (λ i. IsUnder p roots i ((level ∷ levels) ++ [] ∷ [])) last
                  (IsUnder-append p roots (number - front) (level ∷ levels) under),
              omega (arith, length-append (level ∷ levels) ([] ∷ [])),
              λ h. count_levels-append h (level ∷ levels),
            )
        | inr e ↦ rw e (t, under, ground (arith, e, low, high), λ h. refl)
      ]

module _ {H K : Type 0} ⦃eH : Eq H⦄ ⦃eK : Eq K⦄ where
  -- After the last block finalized, a new block that fits and whose parent is that block or one on
  -- the level before is inserted without a panic, and the blocks are a tree again.
  pub insert-IsTree :
      (codec : Encoders H K) (hash : H) (number : ℕ) (parent_hash : H) (changes : ChangeSet K)
      (o : UnfinalizedOverlay H K) (last : H × ℕ)
      → o.last_finalized ≡ some last
      → fits last number parent_hash o ≡ true
      → IsUnder parent_hash (λ h. last.0 == h) (number - (last.1 + 1)) o.levels
      → count_levels hash o.levels ≡ 0
      → IsTree o.parents (λ h. last.0 == h) o.levels
      → Returns
          (λ (o', _). IsTree o'.parents (λ h. last.0 == h) o'.levels)
          (insert codec hash number parent_hash changes o)
  unfolding insert new_overlay front_block_number
  insert-IsTree codec hash number parent_hash changes o last at ok under fresh t =
      let (low, high) = fits_range last number parent_hash o ok in
      let parents = Map.insert o.parents hash parent_hash in
      let roots : H → Bool = λ h. last.0 == h in
      let tree : Tree parents roots o.levels =
        Tree-Same o.parents parents roots roots o.levels t.tree (λ h q. q)
          (λ h pos.
            ground
              (arith, pos, fresh, ==_iff hash h, Map.get-insert o.parents hash h parent_hash)) in
      let (tree', under', below, counts) =
        open_level-IsOpened parent_hash parents roots number (last.1 + 1) o.levels low high tree
          under in
      rw (begin_insert_lem codec number parent_hash o last at ok) (
        Returns-and_then
          (λ (levels', _).
            IsPushed parents roots hash (open_level number (last.1 + 1) o.levels).0 levels')
          _ (push_overlay (new_overlay codec hash number changes) _ _) _
          (push_overlay-IsPushed (new_overlay codec hash number changes) _ _ parents hash
            parent_hash roots (λ i. refl) (Map.get-insert_self o.parents hash parent_hash) under'
            tree' below)
          (λ (levels', n) (pushed, counts'). record {
            tree = pushed;
            once = λ h. ground (arith, counts h, counts' h, t.once h, fresh, ==_iff hash h);
          }))
