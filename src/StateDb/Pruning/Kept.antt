-- ===== src/StateDb/Pruning/Kept.antt =====
-- substrate/state-db/src/pruning.rs: the states of the blocks in a window.
use polkadot.Prelude.{
  ◌≡◌, inl, inr, Bool, true, false, not, ◌&&◌, ◌||◌, List, [], ◌∷◌, ◌++◌, arith, Eq, nat_eq,
  contains, Bool-cases,
}
use polkadot.StateDb.Panics.{Returns, Returns_map}
use polkadot.StateDb.Types.{CommitSet, Encoders}
use polkadot.StateDb.Pruning.{RefWindow, prune_one}
use polkadot.StateDb.Pruning.Window.{Change, reinserted}
use polkadot.StateDb.Pruning.Refined.{IsWindow, Prunes, prune_one-IsWindow}

module _ {K : Type 0} ⦃eK : Eq K⦄ where
  -- If the state has a key, after blocks; a block deletes after it inserts.
  unfoldable pub has_after : Bool → K → List (Change K) → Bool
  has_after has k [] = has
  has_after has k ((ins, del) ∷ bs) =
      has_after ((has || contains ins k) && not (contains del k)) k bs

  reinserted_of :
      (k : K) (bs : List (Change K)) → has_after false k bs ≡ true → reinserted k bs ≡ true
  unfolding has_after reinserted
  reinserted_of k [] h = absurd (ground (arith, h))
  reinserted_of k ((ins, del) ∷ bs) h = elim (Bool-cases (contains ins k && not (contains del k))) [
    | inl e ↦ ground (arith, e)
    | inr e ↦ ground (arith, h, e, reinserted_of k bs)
  ]

  reinserted_more :
      (k : K) (xs ys : List (Change K)) → reinserted k xs ≡ true → reinserted k (xs ++ ys) ≡ true
  unfolding reinserted
  reinserted_more k [] ys h = absurd (ground (arith, h))
  reinserted_more k ((ins, del) ∷ xs) ys h = ground (arith, h, reinserted_more k xs ys)

module _ {H K : Type 0} ⦃eK : Eq K⦄ where
  -- `prune_one` deletes no key that a state of a block in the window has, unless the commit did:
  -- not that of the block that leaves the window, and not that of a later one.
  pub prune_one_keeps :
      (codec : Encoders H K) (commit : CommitSet K) (w : RefWindow H K) (b : Change K)
      (xs ys : List (Change K)) (k : K) (has : Bool)
      → IsWindow w (b ∷ xs ++ ys)
      → has_after has k (b ∷ xs) ≡ true
      → contains commit.data_changes.deleted k ≡ false
      → Returns
          (λ (_, commit'). contains commit'.data_changes.deleted k ≡ false)
          (prune_one codec commit w)
  unfolding has_after
  prune_one_keeps codec commit w b xs ys k has window kept before =
      Returns_map (Prunes b (xs ++ ys) w commit) _ (prune_one codec commit w)
        (prune_one-IsWindow codec commit w b (xs ++ ys) window)
        (λ (w', commit') (_, _, _, deleted). elim (Bool-cases (contains b.1 k)) [
          | inr e ↦ ground (arith, deleted k, before, e)
          | inl e ↦
              let dead : has_after false k xs ≡ true = ground (arith, kept, e) in
              ground
                (arith, deleted k, before, e, reinserted_more k xs ys (reinserted_of k xs dead))
        ])
