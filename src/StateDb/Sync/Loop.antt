-- ===== src/StateDb/Sync/Loop.antt =====
-- substrate/state-db/src/lib.rs: the end of the loop of `StateDbSync::prune`.
use polkadot.Prelude.{
  ◌∙◌, ◌&&◌, ◌||◌, not, contains, min, ◌⊎◌, leb, ℕ, zero, suc, ◌≤◌, ◌≡◌, refl, inl, inr, Bool, true,
  false, Option, none, some, List, [], ◌∷◌, ◌++◌, length, arith, Eq, nat_eq, Bool-cases,
}
use polkadot.StateDb.Panics.{Returns, Returns_map, Returns-and_then}
use polkadot.StateDb.Types.{CommitSet, Encoders}
use polkadot.StateDb.Pruning.{DeathRow, RefWindow, prune_one, window_size}
use polkadot.StateDb.Pruning.Window.{Change, Views, reinserted}
use polkadot.StateDb.Types.{Constraints}
use polkadot.StateDb.Pruning.{next_hash, mem_used}
use polkadot.StateDb.Pruning.Refined.{IsWindow, Prunes, prune_one-IsWindow}
use polkadot.StateDb.Sync.{exceeds_mem, is_pinned, blocks_kept, prune_loop, prune}

never_exceeds : (m : Option ℕ) → exceeds_mem m 0 ≡ false
unfolding exceeds_mem
never_exceeds none = refl
never_exceeds (some m) = ground arith

length-Views :
    {H K : Type 0} ⦃eK : Eq K⦄ (bs : List (Change K)) (rows : List (DeathRow H K))
    → Views bs rows
    → length rows ≡ length bs
length-Views [] [] v = refl
length-Views [] (_ ∷ _) v = absurd v
length-Views (_ ∷ _) [] v = absurd v
length-Views (_ ∷ bs) (_ ∷ rows) (_, v) = omega (arith, length-Views bs rows v)

-- A block that is gone has deleted the key, and no later one has inserted it.
abbrev pub dies : {K : Type 0} ⦃eK : Eq K⦄ → K → List (Change K) → List (Change K) → Bool
dies k [] left = false
dies k (b ∷ gone) left = contains b.1 k && not (reinserted k (gone ++ left)) || dies k gone left

-- The loop has reason to stop.
abbrev pub Settled : {H K : Type 0} → Constraints → (H → Bool) → RefWindow H K → Type 0
Settled constraints pinned w =
    (window_size w ≤ blocks_kept constraints.max_blocks) ⊎ (is_pinned pinned (next_hash w) ≡ true)

module _ {H K : Type 0} ⦃eK : Eq K⦄ (codec : Encoders H K) (constraints : Constraints)
    (pinned : H → Bool) where
  abbrev pub IsPruned :
      RefWindow H K → CommitSet K → List (Change K) → RefWindow H K × CommitSet K → Type 0
  IsPruned w commit bs (w', commit') =
      (gone : List (Change K)) × (left : List (Change K)) × (bs ≡ gone ++ left)
      × IsWindow w' left
      × (min (blocks_kept constraints.max_blocks) (window_size w) ≤ window_size w')
      × Settled constraints pinned w'
      × (commit'.data_changes.inserted ≡ commit.data_changes.inserted)
      × ((k : K)
          → contains commit'.data_changes.deleted k
            ≡ (contains commit.data_changes.deleted k || dies k gone left))

  prune_loop-IsPruned :
      (n : ℕ) (w : RefWindow H K) (commit : CommitSet K) (bs : List (Change K))
      → IsWindow w bs
      → window_size w ≡ n
      → Returns (IsPruned w commit bs) (prune_loop codec constraints pinned n w commit)
  unfolding prune_loop mem_used
  prune_loop-IsPruned zero w commit bs k size =
      ([], bs, refl, k, omega arith, inl (omega (arith, size)), refl, λ j. ground arith)
  prune_loop-IsPruned (suc n) w commit [] k size =
      absurd (unfold window_size in omega (arith, size, length-Views [] w.death_rows k.views))
  prune_loop-IsPruned (suc n) w commit (b ∷ bs) k size =
      elim (Bool-cases (leb (window_size w) (blocks_kept constraints.max_blocks))) [
        | inl small ↦
            rw small (
              [],
              b ∷ bs,
              refl,
              k,
              omega arith,
              inl (ground (arith, small)),
              refl,
              λ j. ground arith,
            )
        | inr large ↦ elim (Bool-cases (is_pinned pinned (next_hash w))) [
          | inl pin ↦
              rw (large, never_exceeds constraints.max_mem, pin)
                ([], b ∷ bs, refl, k, omega arith, inr pin, refl, λ j. ground arith)
          | inr free ↦
              rw (large, never_exceeds constraints.max_mem, free)
                (Returns-and_then (Prunes b bs w commit) (IsPruned w commit (b ∷ bs))
                  (prune_one codec commit w) _ (prune_one-IsWindow codec commit w b bs k)
                  (λ (w', commit') (k', shorter, same, gone_now).
                    Returns_map (IsPruned w' commit' bs) _
                      (prune_loop codec constraints pinned n w' commit')
                      (prune_loop-IsPruned n w' commit' bs k' (omega (arith, size, shorter)))
                      (λ _ (gone, left, split, window, enough, settled, same', deleted). (
                        b ∷ gone,
                        left,
                        rw split refl,
                        window,
                        ground (arith, large, shorter, enough),
                        settled,
                        same' ∙ same,
                        λ j. ground (arith, deleted j, gone_now j, split),
                      ))))
        ]
      ]

  -- For a window of blocks, the loop does not panic: it drops some of the first blocks of the window, and
  -- then the window has no more blocks than are kept, or the first one left is pinned. It does not
  -- drop more blocks than that number asks for. Besides what the commit did, it deletes exactly what a
  -- dropped block has deleted and no later one has inserted.
  pub prune-IsPruned :
      (w : RefWindow H K) (commit : CommitSet K) (bs : List (Change K))
      → IsWindow w bs
      → Returns (IsPruned w commit bs) (prune codec constraints pinned w commit)
  unfolding prune
  prune-IsPruned w commit bs k = prune_loop-IsPruned (window_size w) w commit bs k refl
