-- ===== src/StateDb/Sync/Blocks.antt =====
-- substrate/state-db/src/lib.rs: `StateDbSync::finalize_block` with a pruning window.
use mathlib.Core.Path.{subst}
use polkadot.Prelude.{
  ◌∙◌, ap, ℕ, ◌+◌, ◌≤◌, min, arith, ◌≡◌, sym, refl, Bool, true, some, List, [], ◌∷◌, ◌++◌, Eq, ◌==◌,
  contains,
}
use polkadot.StateDb.Panics.{Returns, Returns-and_then}
use polkadot.StateDb.Types.{ChangeSet, CommitSet, Constraints, Encoders, PruningMode, constrained}
use polkadot.StateDb.Pruning.{RefWindow, note_finalized, window_size}
use polkadot.StateDb.Pruning.Window.{Change, IsFresh}
use polkadot.StateDb.Pruning.Refined.{IsWindow, keys_of, note_finalized-IsWindow}
use polkadot.StateDb.Unfinalized.{BlockOverlay}
use polkadot.StateDb.Unfinalized.Finalizing.{finalize}
use polkadot.StateDb.Unfinalized.Tree.{has_hash}
use polkadot.StateDb.Unfinalized.Descend.{descend}
use polkadot.StateDb.Unfinalized.Located.{changes_of}
use polkadot.StateDb.Unfinalized.Finalized.{IsTree, finalize-IsTree}
use polkadot.StateDb.Sync.{
  StateDbSync, prune, finalize_by_mode, blocks_kept, note_in_window, prune_window, finalize_block,
}
use polkadot.StateDb.Sync.Loop.{Settled, dies, prune-IsPruned}

module _ {H K : Type 0} ⦃eH : Eq H⦄ ⦃eK : Eq K⦄ where
  -- The state between the calls of `finalize_block`.
  abbrev IsBetween :
      H
      → Constraints
      → List H
      → List (List (BlockOverlay H K))
      → ℕ
      → List (Change K)
      → StateDbSync H K
      → Type 0
  IsBetween hash constraints pinned descendants size bs s =
      (s.mode ≡ constrained constraints)
      × (s.pinned ≡ pinned)
      × IsTree s.unfinalized.parents (λ h. hash == h) s.unfinalized.levels
      × (s.unfinalized.levels ≡ descendants)
      × ((w : RefWindow H K) × (s.pruning ≡ some w) × IsWindow w bs × (window_size w ≡ size))

  finalized :
      (codec : Encoders H K) (hash : H) (s : StateDbSync H K) (constraints : Constraints)
      (mode : PruningMode) (w : RefWindow H K) (bs : List (Change K)) (roots : H → Bool)
      (level : List (BlockOverlay H K)) (rest : List (List (BlockOverlay H K)))
      → mode ≡ constrained constraints
      → s.mode ≡ constrained constraints
      → s.pruning ≡ some w
      → IsWindow w bs
      → s.unfinalized.levels ≡ level ∷ rest
      → IsTree s.unfinalized.parents roots (level ∷ rest)
      → has_hash hash level ≡ true
      → Returns
          (λ (s', commit).
            IsBetween hash constraints s.pinned
              (descend s.unfinalized.parents (λ h. hash == h) rest)
              (window_size w)
              bs
              s'
            × (commit.data_changes ≡ changes_of hash level))
          (finalize_by_mode codec hash mode s)
  unfolding finalize_by_mode
  finalized codec hash s constraints mode w bs roots level rest is mode_is pruning_is window
        levels_are tree known =
      rw is (
        Returns-and_then _ _ (finalize codec hash s.unfinalized) _
          (finalize-IsTree codec hash s.unfinalized roots level rest levels_are tree known)
          (λ (u, commit) (same, tree', _, left, _).
            ((mode_is, refl, tree', left, (w, pruning_is, window, refl)), same)))

  noted :
      (codec : Encoders H K) (hash : H) (r : StateDbSync H K × CommitSet K)
      (constraints : Constraints) (pinned : List H) (descendants : List (List (BlockOverlay H K)))
      (size : ℕ) (bs : List (Change K)) (changes : ChangeSet K)
      → IsBetween hash constraints pinned descendants size bs r.0
      → r.1.data_changes ≡ changes
      → IsFresh bs (keys_of changes)
      → Returns
          (λ (s', commit').
            IsBetween hash constraints pinned descendants (size + 1) (bs ++ keys_of changes ∷ []) s'
            × (commit'.data_changes.inserted ≡ changes.inserted)
            × (commit'.data_changes.deleted ≡ []))
          (note_in_window codec hash r.0.pruning r)
  unfolding note_in_window
  noted codec hash (s, commit) constraints pinned descendants size bs changes
        (mode_is, pinned_is, tree, left, (w, pruning_is, window, size_is)) same fresh =
      rw pruning_is (
        Returns-and_then _ _ (note_finalized codec hash commit w) _
          (note_finalized-IsWindow codec hash commit w bs window
            (subst (λ c. IsFresh bs (keys_of c)) (sym same) fresh))
          (λ (w', commit') (window', longer, inserted, deleted). (
            (
              mode_is,
              pinned_is,
              tree,
              left,
              (
                w',
                refl,
                subst (λ c. IsWindow w' (bs ++ keys_of c ∷ [])) same window',
                omega (arith, longer, size_is),
              ),
            ),
            inserted ∙ ap (λ c. c.inserted) same,
            deleted,
          )))

  -- The state after `finalize_block` and its commit: the descendants of the block, what the
  -- constraints keep of a window of a size, and the changes of the block and of those dropped.
  abbrev pub IsFinalized :
      H
      → Constraints
      → List H
      → List (List (BlockOverlay H K))
      → ℕ
      → List (Change K)
      → ChangeSet K
      → StateDbSync H K × CommitSet K
      → Type 0
  IsFinalized hash constraints pinned descendants size bs changes (s, commit) =
      IsTree s.unfinalized.parents (λ h. hash == h) s.unfinalized.levels
      × (s.unfinalized.levels ≡ descendants)
      × ((w : RefWindow H K) × (gone : List (Change K)) × (left : List (Change K)) × (s.pruning
            ≡ some w)
          × (bs ≡ gone ++ left)
          × IsWindow w left
          × (min (blocks_kept constraints.max_blocks) size ≤ window_size w)
          × Settled constraints (contains pinned) w
          × ((k : K) → contains commit.data_changes.deleted k ≡ dies k gone left))
      × (commit.data_changes.inserted ≡ changes.inserted)

  pruned :
      (codec : Encoders H K) (hash : H) (r : StateDbSync H K × CommitSet K)
      (constraints : Constraints) (pinned : List H) (descendants : List (List (BlockOverlay H K)))
      (size : ℕ) (bs : List (Change K)) (changes : ChangeSet K)
      → IsBetween hash constraints pinned descendants size bs r.0
      → r.1.data_changes.inserted ≡ changes.inserted
      → r.1.data_changes.deleted ≡ []
      → Returns
          (IsFinalized hash constraints pinned descendants size bs changes)
          (prune_window codec r.0.mode r.0.pruning r)
  unfolding prune_window contains
  pruned codec hash (s, commit) constraints pinned descendants size bs changes
        (mode_is, pinned_is, tree, descends, (w, pruning_is, window, size_is)) inserted none_yet =
      rw (mode_is, pruning_is, pinned_is)
        (Returns-and_then _ _ (prune codec constraints (contains pinned) w commit) _
          (prune-IsPruned codec constraints (contains pinned) w commit bs window)
          (λ (w', commit') (gone, left, split, window', enough, settled, same, deleted). (
            tree,
            descends,
            (
              w',
              gone,
              left,
              refl,
              split,
              window',
              omega (arith, enough, size_is),
              settled,
              λ k. rw none_yet at (deleted k),
            ),
            same ∙ inserted,
          )))

  -- With a pruning window of blocks, a block of the first level of a tree, in which no hash is
  -- twice, and whose changes delete only what they insert or what is not deleted yet,
  -- `finalize_block` does not panic. Then the blocks that are left are exactly the descendants of
  -- the block, and a tree. Of the blocks of the window and this one behind them, the first ones are
  -- dropped, and the window is that of the others: no fewer than are kept, or all if they are
  -- fewer, and no more than are kept, unless the first one left is pinned. The commit inserts what
  -- the block has inserted, and deletes exactly what a dropped block has deleted and no later one
  -- has inserted.
  pub finalize_block-IsFinalized :
      (codec : Encoders H K) (hash : H) (s : StateDbSync H K) (constraints : Constraints)
      (w : RefWindow H K) (bs : List (Change K)) (roots : H → Bool)
      (level : List (BlockOverlay H K)) (rest : List (List (BlockOverlay H K)))
      → s.mode ≡ constrained constraints
      → s.pruning ≡ some w
      → IsWindow w bs
      → s.unfinalized.levels ≡ level ∷ rest
      → IsTree s.unfinalized.parents roots (level ∷ rest)
      → has_hash hash level ≡ true
      → IsFresh bs (keys_of (changes_of hash level))
      → Returns
          (IsFinalized hash constraints s.pinned
            (descend s.unfinalized.parents (λ h. hash == h) rest)
            (window_size w + 1)
            (bs ++ keys_of (changes_of hash level) ∷ [])
            (changes_of hash level))
          (finalize_block codec hash s)
  unfolding finalize_block
  finalize_block-IsFinalized codec hash s constraints w bs roots level rest mode_is pruning_is
        window levels_are tree known fresh =
      Returns-and_then _ _ (finalize_by_mode codec hash s.mode s) _
        (finalized codec hash s constraints s.mode w bs roots level rest mode_is mode_is pruning_is
          window levels_are tree known)
        (λ r (between, same).
          Returns-and_then _ _ (note_in_window codec hash r.0.pruning r) _
            (noted codec hash r constraints s.pinned _ _ bs (changes_of hash level) between same
              fresh)
            (λ r' (between', inserted, deleted).
              pruned codec hash r' constraints s.pinned _ _ _ (changes_of hash level) between'
                inserted deleted))
