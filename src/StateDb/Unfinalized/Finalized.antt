-- ===== src/StateDb/Unfinalized/Finalized.antt =====
-- substrate/state-db/src/unfinalized.rs: `finalize` on a tree of blocks.
use polkadot.Prelude.{
  sym, ℕ, ◌+◌, Bool, true, ◌||◌, some, List, [], ◌∷◌, ◌++◌, length, Eq, ◌==◌, nat_eq, ◌≡◌, refl,
  arith, inl, inr, Bool-cases, ◌∙◌, ◌≤◌, ==_iff, ==_refl,
}
use polkadot.Prelude.Map
use polkadot.Prelude.Map.{Map}
use polkadot.StateDb.Panics.{Returns, Returns_map, Returns-and_then}
use polkadot.StateDb.Types.{Bytes, ChangeSet, no_changes, Encoders}
use polkadot.StateDb.Unfinalized.{BlockOverlay, UnfinalizedOverlay, front_block_number}
use polkadot.StateDb.Unfinalized.Finalizing.{
  Discarding, discard, position, finalize_level, finalize_front, finalize,
}
use polkadot.StateDb.Unfinalized.Tree.{count_level, count_levels, has_hash, Tree, Tree-Same}
use polkadot.StateDb.Unfinalized.Descend.{
  descend, descend-Tree, descend-Same, descend-twice, Discards,
}
use polkadot.StateDb.Unfinalized.Discarded.{discard-Discards}
use polkadot.StateDb.Unfinalized.Unlinked.{less, dropped_left, unlinked-other}
use polkadot.StateDb.Unfinalized.Located.{
  position_has, changes_of, IsLocated, IsLocated-here, IsLocated-next,
}

module _ {H K : Type 0} ⦃eH : Eq H⦄ where
  -- The blocks are a tree, and no hash is there twice.
  pub record IsTree (parents : Map H H) (roots : H → Bool) (levels : List (List (BlockOverlay H K)))
      : Type 0 where
    pub tree : Tree parents roots levels
    pub once : (h : H) → count_levels h levels ≤ 1

  -- The changes, and the tree of the descendants of a block.
  abbrev pub Leaves :
      H
      → ℕ
      → ChangeSet K
      → List (List (BlockOverlay H K))
      → Map H H
      → ChangeSet K × Discarding H K
      → Type 0
  Leaves target depth want before parents_before (changes, (levels, parents, _)) =
      (changes ≡ want)
      × IsTree parents (λ h. target == h) levels
      × (length levels ≡ depth)
      × (levels ≡ descend parents_before (λ h. target == h) before)

  unlinked :
      (target : H) (o : BlockOverlay H K) (os : List (BlockOverlay H K))
      (levels : List (List (BlockOverlay H K))) (parents : Map H H)
      → IsTree parents (λ h. target == h || has_hash h (o ∷ os)) levels
      → count_levels o.hash levels ≡ 0
      → IsTree (Map.remove parents o.hash) (λ h. target == h || has_hash h (o ∷ os)) levels
  unlinked target o os levels parents t z = record {
    tree =
        Tree-Same parents (Map.remove parents o.hash) _ _ levels t.tree (λ h q. q)
          (λ h pos. ground (arith, z, pos, ==_iff o.hash h, Map.get-remove parents o.hash h));
    once = t.once;
  }

  -- What the discarding of a sibling leaves.
  abbrev IsLeft :
      H
      → BlockOverlay H K
      → List (BlockOverlay H K)
      → List (List (BlockOverlay H K))
      → Map H H
      → ChangeSet K
      → ChangeSet K × Discarding H K
      → Type 0
  IsLeft target o os levels parents changes (changes', (levels', parents', _)) =
      (changes' ≡ changes)
      × Discards (length levels) (less o.hash (λ h. target == h || has_hash h (o ∷ os))) levels
          parents levels' parents'

  finalize_level-Leaves :
      (depth i index : ℕ) (target : H) (want : ChangeSet K) (os : List (BlockOverlay H K))
      (changes : ChangeSet K) (levels : List (List (BlockOverlay H K))) (parents : Map H H)
      (journals : List Bytes)
      → IsTree parents (λ h. target == h || has_hash h os) levels
      → ((h : H) → count_level h os + count_levels h levels ≤ 1)
      → length levels ≡ depth
      → IsLocated i index target want changes os
      → Returns
          (Leaves target depth want levels parents)
          (finalize_level i index os (changes, (levels, parents, journals)))
  unfolding finalize_level has_hash count_level
  finalize_level-Leaves depth i index target want [] changes levels parents journals t apart deep
        (inl (_, same, _)) =
      (
        same,
        record {
          tree =
              Tree-Same parents parents _ _ levels t.tree (λ h q. ground (arith, q)) (λ h q. refl);
          once = t.once;
        },
        deep,
        sym (
            descend-Tree parents _ levels (
              Tree-Same parents parents _ _ levels t.tree (λ h q. ground (arith, q))
                (λ h q. refl))),
      )
  finalize_level-Leaves depth i index target want [] changes levels parents journals t apart deep
        (inr (d, at, _, _)) =
      absurd (unfold position in ground (arith, at))
  finalize_level-Leaves depth i index target want (o ∷ os) changes levels parents journals t apart
        deep located =
      let parents₁ = Map.remove parents o.hash in
      let journals₁ = journals ++ o.journal_key ∷ [] in
      let u =
        unlinked target o os levels parents t (ground (arith, apart o.hash, ==_refl o.hash)) in
      elim (Bool-cases (i == index)) [
        | inl e ↦
            let (here, next) =
              IsLocated-here i index target want changes o os located e
                (omega (arith, apart target)) in
            rw e (
              Returns_map (Leaves target depth want levels parents₁) _ _
                (finalize_level-Leaves depth (i + 1) index target want os _ levels parents₁
                  journals₁
                  (record {
                    tree =
                        Tree-Same parents₁ parents₁ _ _ levels u.tree
                          (λ h q. ground (arith, q, here, ==_iff o.hash target)) (λ h q. refl);
                    once = u.once;
                  })
                  (λ h. ground (arith, apart h)) deep next)
                (λ _ (same, tree, deep', left). (
                  same,
                  tree,
                  deep',
                  left
                      ∙ descend-Same parents parents₁ _ _ levels
                          (unlinked-other o os levels parents apart) (λ h. refl),
                )))
        | inr e ↦ rw e (
            Returns-and_then (IsLeft target o os levels parents₁ changes) _ _ _
              (Returns-and_then
                (λ (levels', parents', _).
                  Discards (length levels) (less o.hash (λ h. target == h || has_hash h (o ∷ os)))
                    levels parents₁ levels' parents')
                (IsLeft target o os levels parents₁ changes)
                (discard (length levels) o.hash (levels, parents₁, journals)) _
                (discard-Discards (length levels) o.hash _ levels parents₁ journals u.tree u.once
                  refl)
                (λ (levels', parents', _) d. (refl, d)))
              (λ (changes', (levels', parents', journals')) (same, d).
                let (other, next) = IsLocated-next i index target want changes o os located e in
                Returns_map (Leaves target depth want levels' parents') _ _
                  (finalize_level-Leaves depth (i + 1) index target want os changes' levels'
                    parents' _
                    (record {
                      tree =
                          Tree-Same parents' parents' _ _ levels' d.tree (λ h q. ground (arith, q))
                            (λ h q. refl);
                      once = λ h. omega (arith, d.fewer h, u.once h);
                    })
                    (λ h. ground (arith, d.fewer h, apart h)) (d.as_deep ∙ deep) (rw same next))
                  (λ _ (same', tree, deep', left). (
                    same',
                    tree,
                    deep',
                    left
                        ∙ descend-twice parents parents₁ parents' _ _ levels levels' d.descends
                            (unlinked-other o os levels parents apart)
                            (dropped_left o os levels levels' parents parents' apart d.fewer d.left)
                            (λ h q. ground (
                              arith,
                              q,
                              other,
                              ==_iff target h,
                              ==_iff o.hash h,
                              ==_iff h target,
                              ==_iff o.hash target,
                            )),
                  ))))
      ]

  -- A block of the first level of a tree, in which no hash is twice, is finalized without a panic:
  -- its changes are those of the commit; the blocks that are left are exactly its descendants, on the
  -- levels behind the first, and again a tree; and it is the last block finalized.
  pub finalize-IsTree :
      (codec : Encoders H K) (hash : H) (o : UnfinalizedOverlay H K) (roots : H → Bool)
      (level : List (BlockOverlay H K)) (rest : List (List (BlockOverlay H K)))
      → o.levels ≡ level ∷ rest
      → IsTree o.parents roots (level ∷ rest)
      → has_hash hash level ≡ true
      → Returns
          (λ (o', commit).
            (commit.data_changes ≡ changes_of hash level)
            × IsTree o'.parents (λ h. hash == h) o'.levels
            × (length o'.levels ≡ length rest)
            × (o'.levels ≡ descend o.parents (λ h. hash == h) rest)
            × (o'.last_finalized ≡ some (hash, front_block_number o.last_finalized)))
          (finalize codec hash o)
  unfolding finalize finalize_front count_levels
  finalize-IsTree codec hash o roots level rest at t known =
      let (d, found) = position_has hash level known in
      rw (at, found)
        (Returns-and_then (Leaves hash (length rest) (changes_of hash level) rest o.parents) _
          (finalize_level 0 d level (no_changes, (rest, o.parents, []))) _
          (finalize_level-Leaves (length rest) 0 d hash (changes_of hash level) level no_changes
            rest o.parents []
            (record {
              tree =
                  Tree-Same o.parents o.parents _ _ rest t.tree.1 (λ h q. ground (arith, q))
                    (λ h q. refl);
              once = λ h. omega (arith, t.once h);
            })
            t.once refl (inr (d, found, omega arith, refl)))
          (λ (changes, (levels, parents, journals)) (same, tree, deep, left).
            (same, tree, deep, left, refl)))
