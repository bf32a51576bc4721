-- ===== src/StateDb/Unfinalized/Finalizing.antt =====
-- substrate/state-db/src/unfinalized.rs: `discard` and `finalize`.
use polkadot.Prelude.{
  ℕ, zero, suc, ◌+◌, Option, none, some, List, [], ◌∷◌, ◌++◌, length, Eq, ◌==◌, nat_eq,
  if◌then◌else◌,
}
use polkadot.Prelude.Map
use polkadot.Prelude.Map.{Map}
use polkadot.StateDb.Types.{Bytes, ChangeSet, CommitSet, no_changes, and_then, Encoders}
use polkadot.StateDb.Unfinalized.{
  BlockOverlay, UnfinalizedOverlay, front_block_number, last_finalized_entry,
}

-- The levels below, the parents, and the journal entries discarded so far.
abbrev pub Discarding : Type 0 → Type 0 → Type 0
Discarding H K = List (List (BlockOverlay H K)) × Map H H × List Bytes

module _ {H K : Type 0} ⦃eH : Eq H⦄ where
  -- `retain` on a level: a child of the block goes, and the subtree below it
  unfoldable pub retain_level :
      (H → Discarding H K → Option (Discarding H K))
      → H
      → List (BlockOverlay H K)
      → Discarding H K
      → Option (List (BlockOverlay H K) × Discarding H K)
  retain_level below hash [] state = some ([], state)
  retain_level below hash (o ∷ os) (levels, parents, journals) =
      and_then (Map.get parents o.hash) (λ parent.
        if parent == hash
        then and_then
            (below o.hash (levels, Map.remove parents o.hash, journals ++ o.journal_key ∷ []))
            (λ state. retain_level below hash os state)
        else and_then (retain_level below hash os (levels, parents, journals))
            (λ (kept, state). some (o ∷ kept, state)))

  -- the depth is that of the levels
  unfoldable pub discard : ℕ → H → Discarding H K → Option (Discarding H K)
  discard depth hash ([], parents, journals) = some ([], parents, journals)
  discard zero hash (level ∷ levels, parents, journals) = none
  discard (suc depth) hash (level ∷ levels, parents, journals) =
      and_then (retain_level (discard depth) hash level (levels, parents, journals))
        (λ (kept, (levels', parents', journals')). some (kept ∷ levels', parents', journals'))

  unfoldable pub position : H → List (BlockOverlay H K) → Option ℕ
  position hash [] = none
  position hash (o ∷ os) =
      if o.hash == hash then some 0 else and_then (position hash os) (λ i. some (i + 1))

  -- the loop over the first level: the block at the index is finalized, the others go
  unfoldable pub finalize_level :
      ℕ
      → ℕ
      → List (BlockOverlay H K)
      → ChangeSet K × Discarding H K
      → Option (ChangeSet K × Discarding H K)
  finalize_level i index [] state = some state
  finalize_level i index (o ∷ os) (changes, (levels, parents, journals)) =
      let without_parent = Map.remove parents o.hash in
      let taken : Option (ChangeSet K × Discarding H K) =
        if i == index
        then some (
          record { inserted = o.values; deleted = o.deleted },
          (levels, without_parent, journals),
        )
        else and_then (discard (length levels) o.hash (levels, without_parent, journals))
            (λ state. some (changes, state)) in
      and_then taken (λ (changes', (levels', parents', journals')).
        finalize_level (i + 1) index os
          (changes', (levels', parents', journals' ++ o.journal_key ∷ [])))

  unfoldable pub finalize_front :
      Encoders H K
      → H
      → UnfinalizedOverlay H K
      → List (List (BlockOverlay H K))
      → Option (UnfinalizedOverlay H K × CommitSet K)
  finalize_front codec hash o [] = none
  finalize_front codec hash o (level ∷ rest) = and_then (position hash level) (λ index.
      and_then (finalize_level 0 index level (no_changes, (rest, o.parents, [])))
        (λ (changes, (levels, parents, journals)).
          let last : H × ℕ = (hash, front_block_number o.last_finalized) in
          some (
            record { last_finalized = some last; levels = levels; parents = parents },
            record {
              data_changes = changes;
              meta = record { inserted = last_finalized_entry codec last ∷ []; deleted = journals };
            },
          )))

  unfoldable pub finalize :
      Encoders H K → H → UnfinalizedOverlay H K → Option (UnfinalizedOverlay H K × CommitSet K)
  finalize codec hash o = finalize_front codec hash o o.levels
