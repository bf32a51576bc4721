-- ===== src/StateDb/Sync.antt =====
-- substrate/state-db/src/lib.rs: `StateDbSync`. A panic is `none`.
pub mod Loop
pub mod Blocks
use polkadot.Prelude.{
  ◌==◌, nat_eq, List, [], Result, ok, err, contains, insert, without, ℕ, zero, suc, Option, none,
  some, Eq, Bool, true, false, ltb, leb, if◌then◌else◌,
}
use polkadot.StateDb.Types.{
  Error, Bytes, ChangeSet, no_changes, no_commits, PruningMode, constrained, archive_all,
  archive_canonical, and_then, CommitSet, Constraints, Encoders,
}
use polkadot.StateDb.Pruning.{
  RefWindow, window_size, mem_used, next_hash, prune_one, note_finalized,
}
use polkadot.StateDb.Unfinalized
use polkadot.StateDb.Unfinalized.{UnfinalizedOverlay}
use polkadot.StateDb.Unfinalized.Finalizing.{finalize}

pub record StateDbSync (H K : Type 0) : Type 0 where
  pub mode : PruningMode
  pub unfinalized : UnfinalizedOverlay H K
  pub pruning : Option (RefWindow H K)
  -- a set
  pub pinned : List H

-- `max_mem.map_or(false, |m| mem_used > m)`
unfoldable pub exceeds_mem : Option ℕ → ℕ → Bool
exceeds_mem none used = false
exceeds_mem (some m) used = ltb m used

-- `next_hash().map_or(false, |h| pinned.contains(&h))`
unfoldable pub is_pinned : {H : Type 0} → (H → Bool) → Option H → Bool
is_pinned pinned none = false
is_pinned pinned (some h) = pinned h

-- `max_blocks.unwrap_or(0)`
unfoldable pub blocks_kept : Option ℕ → ℕ
blocks_kept none = 0
blocks_kept (some n) = n

module _ {H K : Type 0} ⦃eK : Eq K⦄ where
  -- `loop` of `StateDbSync::prune`, for a window in the mode `Constrained`
  pub prune_loop :
      Encoders H K
      → Constraints
      → (H → Bool)
      → ℕ
      → RefWindow H K
      → CommitSet K
      → Option (RefWindow H K × CommitSet K)
  prune_loop codec constraints pinned zero w commit = some (w, commit)
  prune_loop codec constraints pinned (suc n) w commit =
      if leb (window_size w) (blocks_kept constraints.max_blocks)
      then some (w, commit)
      else if exceeds_mem constraints.max_mem (mem_used w)
      then some (w, commit)
      else if is_pinned pinned (next_hash w)
      then some (w, commit)
      else and_then (prune_one codec commit w)
          (λ (w', commit'). prune_loop codec constraints pinned n w' commit')

  -- each turn shortens the window
  pub prune :
      Encoders H K
      → Constraints
      → (H → Bool)
      → RefWindow H K
      → CommitSet K
      → Option (RefWindow H K × CommitSet K)
  prune codec constraints pinned w commit =
      prune_loop codec constraints pinned (window_size w) w commit

pub read_db : {E : Type 0} → Result (Option Bytes) E → Result (Option Bytes) (Error E)
read_db (ok v) = ok v
read_db (err e) = err (Error.db e)

-- the value of the overlay, or else that of the database
pub read_value :
    {E : Type 0} → Option Bytes → Result (Option Bytes) E → Result (Option Bytes) (Error E)
read_value (some v) stored = ok (some v)
read_value none stored = read_db stored

module _ {H K : Type 0} ⦃eH : Eq H⦄ where
  pub pin : H → StateDbSync H K → StateDbSync H K
  pin hash s = record s { pinned = insert s.pinned hash }

  pub unpin : H → StateDbSync H K → StateDbSync H K
  unpin hash s = record s { pinned = without s.pinned hash }

module _ {H K : Type 0} ⦃eK : Eq K⦄ where
  pub get :
      {E : Type 0}
      → K
      → (K → Result (Option Bytes) E)
      → StateDbSync H K
      → Result (Option Bytes) (Error E)
  get key backing s = read_value (Unfinalized.get s.unfinalized key) (backing key)

module _ {H K : Type 0} ⦃eH : Eq H⦄ ⦃eK : Eq K⦄ where
  pub insert_by_mode :
      Encoders H K
      → H
      → ℕ
      → H
      → ChangeSet K
      → PruningMode
      → StateDbSync H K
      → Option (StateDbSync H K × CommitSet K)
  insert_by_mode codec hash number parent_hash changes archive_all s =
      some (s, record { data_changes = record changes { deleted = [] }; meta = no_changes })
  insert_by_mode codec hash number parent_hash changes _ s =
      and_then (Unfinalized.insert codec hash number parent_hash changes s.unfinalized)
        (λ (u, commit). some (record s { unfinalized = u }, commit))

  -- the changes of block 0 are written at once
  pub insert_block :
      Encoders H K
      → H
      → ℕ
      → H
      → ChangeSet K
      → StateDbSync H K
      → Option (StateDbSync H K × CommitSet K)
  insert_block codec hash number parent_hash changes s =
      if number == 0
      then some (s, record { data_changes = changes; meta = no_changes })
      else insert_by_mode codec hash number parent_hash changes s.mode s

  pub finalize_by_mode :
      Encoders H K → H → PruningMode → StateDbSync H K → Option (StateDbSync H K × CommitSet K)
  finalize_by_mode codec hash archive_all s = some (s, no_commits)
  finalize_by_mode codec hash archive_canonical s =
      and_then (finalize codec hash s.unfinalized) (λ (u, commit). some (
        record s { unfinalized = u },
        record commit { data_changes = record commit.data_changes { deleted = [] } },
      ))
  finalize_by_mode codec hash (constrained _) s =
      and_then (finalize codec hash s.unfinalized)
        (λ (u, commit). some (record s { unfinalized = u }, commit))

  pub note_in_window :
      Encoders H K
      → H
      → Option (RefWindow H K)
      → StateDbSync H K × CommitSet K
      → Option (StateDbSync H K × CommitSet K)
  note_in_window codec hash none r = some r
  note_in_window codec hash (some w) (s, commit) =
      and_then (note_finalized codec hash commit w)
        (λ (w', commit'). some (record s { pruning = some w' }, commit'))

  pub prune_window :
      Encoders H K
      → PruningMode
      → Option (RefWindow H K)
      → StateDbSync H K × CommitSet K
      → Option (StateDbSync H K × CommitSet K)
  prune_window codec (constrained constraints) (some w) (s, commit) =
      and_then (prune codec constraints (contains s.pinned) w commit)
        (λ (w', commit'). some (record s { pruning = some w' }, commit'))
  prune_window codec _ _ r = some r

  pub finalize_block : Encoders H K → H → StateDbSync H K → Option (StateDbSync H K × CommitSet K)
  finalize_block codec hash s = and_then (finalize_by_mode codec hash s.mode s) (λ r.
      and_then (note_in_window codec hash r.0.pruning r)
        (λ r'. prune_window codec r'.0.mode r'.0.pruning r'))
