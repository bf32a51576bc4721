-- ===== src/StateDb/Pruning.antt =====
-- substrate/state-db/src/pruning.rs: the pruning window. A panic is `none`.
pub mod Window
pub mod Index
pub mod Entries
pub mod Refined
pub mod Kept
pub mod Restore
use polkadot.Prelude.{
  ℕ, zero, suc, ◌+◌, ◌-◌, Option, none, some, List, [], ◌∷◌, ◌++◌, length, Eq, contains, insert,
  without,
}
use mathlib.Core.List.{map}
use polkadot.Prelude.Map
use polkadot.Prelude.Map.{Map}
use polkadot.StateDb.Types.{Bytes, CommitSet, Encoders, to_meta_key}

pub record DeathRow (H K : Type 0) : Type 0 where
  pub hash : H
  pub journal_key : Bytes
  -- a set
  pub deleted : List K

pub record JournalRecord (H K : Type 0) : Type 0 where
  pub hash : H
  pub inserted : List K
  pub deleted : List K

pub record RefWindow (H K : Type 0) : Type 0 where
  pub death_rows : List (DeathRow H K)
  pub death_index : Map K ℕ
  pub pending_number : ℕ

-- b"last_pruned" and b"pruning_journal"
abbrev pub last_pruned : Bytes
last_pruned = 108 ∷ 97 ∷ 115 ∷ 116 ∷ 95 ∷ 112 ∷ 114 ∷ 117 ∷ 110 ∷ 101 ∷ 100 ∷ []

abbrev pub pruning_journal : Bytes
pruning_journal =
    112 ∷ 114 ∷ 117 ∷ 110 ∷ 105 ∷ 110 ∷ 103 ∷ 95 ∷ 106 ∷ 111 ∷ 117 ∷ 114 ∷ 110 ∷ 97 ∷ 108 ∷ []

module _ {H K : Type 0} where
  pub encode_record : Encoders H K → JournalRecord H K → Bytes
  encode_record codec r =
      codec.encode_hash r.hash ++ codec.encode_keys r.inserted ++ codec.encode_keys r.deleted

  unfoldable pub to_journal_key : Encoders H K → ℕ → Bytes
  to_journal_key codec block = to_meta_key pruning_journal (codec.encode_number block)

  unfoldable pub window_size : RefWindow H K → ℕ
  window_size w = length w.death_rows

  unfoldable pub mem_used : RefWindow H K → ℕ
  mem_used w = 0

  unfoldable pub next_hash : RefWindow H K → Option H
  next_hash w = elim w.death_rows [ [] ↦ none | r ∷ _ ↦ some r.hash ]

module _ {K : Type 0} ⦃eK : Eq K⦄ where
  -- each key is dead as of a block
  pub index_all : List K → ℕ → Map K ℕ → Map K ℕ
  index_all [] block m = m
  index_all (k ∷ ks) block m = index_all ks block (Map.insert m k block)

  pub collect_deleted : List K → List K
  collect_deleted [] = []
  collect_deleted (k ∷ ks) = insert (collect_deleted ks) k

  pub unindex_all : List K → Map K ℕ → Map K ℕ
  unindex_all [] m = m
  unindex_all (k ∷ ks) m = unindex_all ks (Map.remove m k)

module _ {H K : Type 0} ⦃eK : Eq K⦄ where
  -- `self.death_rows[index].deleted.remove(&k)`
  pub remove_from_row : ℕ → K → List (DeathRow H K) → Option (List (DeathRow H K))
  remove_from_row index k [] = none
  remove_from_row zero k (r ∷ rows) = some (record r { deleted = without r.deleted k } ∷ rows)
  remove_from_row (suc index) k (r ∷ rows) = elim (remove_from_row index k rows) [
    | none ↦ none
    | some rows' ↦ some (r ∷ rows')
  ]

  -- one turn of the loop over the keys inserted
  pub revive : K → RefWindow H K → Option (RefWindow H K)
  revive k w = elim (Map.get w.death_index k) [
    | none ↦ some w
    | some block ↦ elim (remove_from_row (block - w.pending_number) k w.death_rows) [
      | none ↦ none
      | some rows ↦ some (record w { death_rows = rows; death_index = Map.remove w.death_index k })
    ]
  ]

  pub revive_all : List K → RefWindow H K → Option (RefWindow H K)
  revive_all [] w = some w
  revive_all (k ∷ ks) w = elim (revive k w) [ none ↦ none | some w' ↦ revive_all ks w' ]

  pub add_row : H → Bytes → List K → RefWindow H K → RefWindow H K
  add_row hash journal_key deleted w =
      let row : DeathRow H K = record {
        hash = hash;
        journal_key = journal_key;
        deleted = collect_deleted deleted;
      } in
      record w {
        death_index = index_all deleted (w.pending_number + length w.death_rows) w.death_index;
        death_rows = w.death_rows ++ row ∷ [];
      }

  pub import : H → Bytes → List K → List K → RefWindow H K → Option (RefWindow H K)
  import hash journal_key inserted deleted w = elim (revive_all inserted w) [
    | none ↦ none
    | some w' ↦ some (add_row hash journal_key deleted w')
  ]

  pub prune_row :
      Encoders H K
      → DeathRow H K
      → List (DeathRow H K)
      → RefWindow H K
      → CommitSet K
      → RefWindow H K × CommitSet K
  prune_row codec pruned rows w commit = (
    record {
      death_rows = rows;
      death_index = unindex_all pruned.deleted w.death_index;
      pending_number = w.pending_number + 1;
    },
    record {
      data_changes = record commit.data_changes {
        deleted = commit.data_changes.deleted ++ pruned.deleted;
      };
      meta = record {
        inserted =
            commit.meta.inserted
            ++ (to_meta_key last_pruned [], codec.encode_number w.pending_number) ∷ [];
        deleted = commit.meta.deleted ++ pruned.journal_key ∷ [];
      };
    },
  )

  pub prune_one : Encoders H K → CommitSet K → RefWindow H K → Option (RefWindow H K × CommitSet K)
  prune_one codec commit w = elim w.death_rows [
    | [] ↦ none
    | pruned ∷ rows ↦ some (prune_row codec pruned rows w commit)
  ]

  -- the commit with the journal record, and without the deletions
  pub noted : Encoders H K → H → CommitSet K → RefWindow H K → CommitSet K
  noted codec hash commit w =
      let journal_key = to_journal_key codec (w.pending_number + window_size w) in
      let journal_record : JournalRecord H K = record {
        hash = hash;
        inserted = map (λ (k, _). k) commit.data_changes.inserted;
        deleted = commit.data_changes.deleted;
      } in
      record {
        data_changes = record commit.data_changes { deleted = [] };
        meta = record commit.meta {
          inserted = commit.meta.inserted ++ (journal_key, encode_record codec journal_record) ∷ [];
        };
      }

  pub note_finalized :
      Encoders H K → H → CommitSet K → RefWindow H K → Option (RefWindow H K × CommitSet K)
  note_finalized codec hash commit w =
      let inserted = map (λ (k, _). k) commit.data_changes.inserted in
      let journal_key = to_journal_key codec (w.pending_number + window_size w) in
      elim (import hash journal_key inserted commit.data_changes.deleted w) [
        | none ↦ none
        | some w' ↦ some (w', noted codec hash commit w)
      ]
