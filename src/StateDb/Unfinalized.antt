-- ===== src/StateDb/Unfinalized.antt =====
-- substrate/state-db/src/unfinalized.rs: the changes of blocks that are not final yet, as a tree of
-- blocks by level. A panic is `none`.
pub mod Values
pub mod Finalizing
pub mod Tree
pub mod Descend
pub mod Unlinked
pub mod Retained
pub mod Discarded
pub mod Located
pub mod Finalized
pub mod Inserted
mod Tests
use polkadot.Prelude.{
  ℕ, zero, suc, ◌+◌, ◌-◌, Bool, true, false, ◌&&◌, ◌||◌, Option, none, some, List, [], ◌∷◌, ◌++◌,
  length, Eq, ◌==◌, nat_eq, leb, ltb, if◌then◌else◌,
}
use polkadot.Prelude.Map
use polkadot.Prelude.Map.{Map}
use polkadot.StateDb.Types.{
  Bytes, ChangeSet, CommitSet, no_changes, and_then, Encoders, to_meta_key,
}

pub record BlockOverlay (H K : Type 0) : Type 0 where
  pub hash : H
  pub journal_key : Bytes
  pub values : Map K Bytes
  pub deleted : List K

pub record UnfinalizedOverlay (H K : Type 0) : Type 0 where
  pub last_finalized : Option (H × ℕ)
  pub levels : List (List (BlockOverlay H K))
  pub parents : Map H H

-- b"unfinalized_journal" and b"last_finalized"
abbrev pub unfinalized_journal : Bytes
unfinalized_journal =
    117 ∷ 110 ∷ 102 ∷ 105 ∷ 110 ∷ 97 ∷ 108 ∷ 105 ∷ 122 ∷ 101 ∷ 100 ∷ 95 ∷ 106 ∷ 111 ∷ 117 ∷ 114
    ∷ 110 ∷ 97 ∷ 108 ∷ []

abbrev pub last_finalized_key : Bytes
last_finalized_key =
    108 ∷ 97 ∷ 115 ∷ 116 ∷ 95 ∷ 102 ∷ 105 ∷ 110 ∷ 97 ∷ 108 ∷ 105 ∷ 122 ∷ 101 ∷ 100 ∷ []

unfoldable pub front_block_number : {H : Type 0} → Option (H × ℕ) → ℕ
front_block_number none = 0
front_block_number (some (_, n)) = n + 1

unfoldable pub is_nil : {T : Type 0} → List T → Bool
is_nil [] = true
is_nil (_ ∷ _) = false

module _ {H K : Type 0} where
  pub journal_key_of : Encoders H K → ℕ → ℕ → Bytes
  journal_key_of codec block index =
      to_meta_key unfinalized_journal (codec.encode_number block ++ codec.encode_number index)

  -- the journal record of a block, encoded
  pub encode_journal : Encoders H K → H → H → ChangeSet K → Bytes
  encode_journal codec hash parent_hash changes =
      codec.encode_hash hash
      ++ codec.encode_hash parent_hash
      ++ codec.encode_values changes.inserted
      ++ codec.encode_keys changes.deleted

  pub last_finalized_entry : Encoders H K → H × ℕ → Bytes × Bytes
  last_finalized_entry codec (hash, number) =
      (to_meta_key last_finalized_key [], codec.encode_hash hash ++ codec.encode_number number)

  -- a new level is opened behind the others
  pub open_level : ℕ → ℕ → List (List (BlockOverlay H K)) → List (List (BlockOverlay H K)) × ℕ
  open_level number front levels =
      if is_nil levels || number == front + length levels
      then (levels ++ [] ∷ [], length levels)
      else (levels, number - front)

  -- the level with a number, with one more overlay, and how many were in it
  pub push_overlay :
      (ℕ → BlockOverlay H K)
      → ℕ
      → List (List (BlockOverlay H K))
      → Option (List (List (BlockOverlay H K)) × ℕ)
  push_overlay make index [] = none
  push_overlay make zero (level ∷ levels) =
      some ((level ++ make (length level) ∷ []) ∷ levels, length level)
  push_overlay make (suc index) (level ∷ levels) =
      and_then (push_overlay make index levels) (λ (levels', n). some (level ∷ levels', n))

module _ {H K : Type 0} ⦃eH : Eq H⦄ where
  -- the assertions on a block, after the last block finalized
  unfoldable pub fits : H × ℕ → ℕ → H → UnfinalizedOverlay H K → Bool
  fits (h, n) number parent_hash o =
      leb (n + 1) number
      && ltb number (n + 1 + length o.levels + 1)
      && (if number == n + 1
          then h == parent_hash && n == number - 1
          else Map.contains_key o.parents parent_hash)

  -- the last block finalized, and its entry if it is new
  pub begin_insert :
      Encoders H K
      → ℕ
      → H
      → UnfinalizedOverlay H K
      → Option (H × ℕ)
      → Option (Option (H × ℕ) × List (Bytes × Bytes))
  begin_insert codec number parent_hash o none =
      if is_nil o.levels
      then some (
        some (parent_hash, number - 1),
        last_finalized_entry codec (parent_hash, number - 1) ∷ [],
      )
      else some (none, [])
  begin_insert codec number parent_hash o (some last) =
      if fits last number parent_hash o then some (some last, []) else none

module _ {K : Type 0} ⦃eK : Eq K⦄ where
  -- `into_iter().collect()`: a later value replaces an earlier one
  pub collect_values : List (K × Bytes) → Map K Bytes → Map K Bytes
  collect_values [] m = m
  collect_values ((k, v) ∷ rest) m = collect_values rest (Map.insert m k v)

module _ {H K : Type 0} ⦃eH : Eq H⦄ ⦃eK : Eq K⦄ where
  pub new_overlay : Encoders H K → H → ℕ → ChangeSet K → ℕ → BlockOverlay H K
  new_overlay codec hash number changes index = record {
    hash = hash;
    journal_key = journal_key_of codec number index;
    values = collect_values changes.inserted [];
    deleted = changes.deleted;
  }

  pub insert :
      Encoders H K
      → H
      → ℕ
      → H
      → ChangeSet K
      → UnfinalizedOverlay H K
      → Option (UnfinalizedOverlay H K × CommitSet K)
  insert codec hash number parent_hash changes o =
      and_then (begin_insert codec number parent_hash o o.last_finalized) (λ (last, entries).
        let (levels, index) = open_level number (front_block_number last) o.levels in
        and_then (push_overlay (new_overlay codec hash number changes) index levels)
          (λ (levels', n). some (
            record {
              last_finalized = last;
              levels = levels';
              parents = Map.insert o.parents hash parent_hash;
            },
            record {
              data_changes = no_changes;
              meta = record {
                inserted =
                    entries
                    ++ (
                      journal_key_of codec number n,
                      encode_journal codec hash parent_hash changes,
                    )
                      ∷ [];
                deleted = [];
              };
            },
          )))

module _ {H K : Type 0} ⦃eK : Eq K⦄ where
  -- a value of the first overlay that has one
  unfoldable pub first_value : List (BlockOverlay H K) → K → Option Bytes
  first_value [] key = none
  first_value (o ∷ os) key = elim (Map.get o.values key) [
    | some v ↦ some v
    | none ↦ first_value os key
  ]

  unfoldable pub get_levels : List (List (BlockOverlay H K)) → K → Option Bytes
  get_levels [] key = none
  get_levels (level ∷ levels) key = elim (first_value level key) [
    | some v ↦ some v
    | none ↦ get_levels levels key
  ]

  unfoldable pub get : UnfinalizedOverlay H K → K → Option Bytes
  get o key = get_levels o.levels key
