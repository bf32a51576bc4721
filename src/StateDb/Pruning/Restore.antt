-- ===== src/StateDb/Pruning/Restore.antt =====
-- substrate/state-db/src/pruning.rs: `RefWindow::new`, which reads the journal back.
pub mod Journal
use polkadot.Prelude.{ℕ, zero, suc, ◌+◌, Option, none, some, List, [], Result, ok, err, Eq}
use polkadot.StateDb.Types.{Bytes, Error, Encoders, Decoders, to_meta_key}
use polkadot.StateDb.Pruning.{RefWindow, JournalRecord, last_pruned, to_journal_key, import}

-- The end of a call: its result, an error, a panic, or no turns left for its loop.
pub data Restored (T E : Type 0) : Type 0 where
  done : T → Restored T E
  failed : Error E → Restored T E
  panicked unfinished : Restored T E

-- `get_meta` of the database
abbrev pub MetaDb : Type 0 → Type 0
MetaDb E = Bytes → Result (Option Bytes) E

module _ {H K : Type 0} where
  unfoldable pub decode_deleted : Decoders H K → H → List K → Bytes → Option (JournalRecord H K)
  decode_deleted codec hash inserted input = elim (codec.decode_keys input) [
    | none ↦ none
    | some (deleted, _) ↦ some (record { hash = hash; inserted = inserted; deleted = deleted })
  ]

  unfoldable pub decode_inserted : Decoders H K → H → Bytes → Option (JournalRecord H K)
  decode_inserted codec hash input = elim (codec.decode_keys input) [
    | none ↦ none
    | some (inserted, rest) ↦ decode_deleted codec hash inserted rest
  ]

  unfoldable pub decode_record : Decoders H K → Bytes → Option (JournalRecord H K)
  decode_record codec input = elim (codec.decode_hash input) [
    | none ↦ none
    | some (hash, rest) ↦ decode_inserted codec hash rest
  ]

module _ {H K E : Type 0} ⦃eK : Eq K⦄ (codec : Encoders H K) (decoders : Decoders H K)
    (db : MetaDb E) where
  pub continue_with :
      (RefWindow H K → Restored (RefWindow H K) E)
      → Option (RefWindow H K)
      → Restored (RefWindow H K) E
  continue_with continue none = panicked
  continue_with continue (some w) = continue w

  pub import_decoded :
      (RefWindow H K → Restored (RefWindow H K) E)
      → ℕ
      → Option (JournalRecord H K)
      → RefWindow H K
      → Restored (RefWindow H K) E
  import_decoded continue block none w = failed Error.decoding
  import_decoded continue block (some r) w =
      continue_with continue (import r.hash (to_journal_key codec block) r.inserted r.deleted w)

  -- one turn of the loop, with what the database has for a block
  pub read_step :
      (RefWindow H K → Restored (RefWindow H K) E)
      → ℕ
      → Result (Option Bytes) E
      → RefWindow H K
      → Restored (RefWindow H K) E
  read_step continue block (err e) w = failed (Error.db e)
  read_step continue block (ok none) w = done w
  read_step continue block (ok (some record_bytes)) w =
      import_decoded continue block (decode_record decoders record_bytes) w

  -- at most so many turns of the loop
  pub read_journal : ℕ → ℕ → RefWindow H K → Restored (RefWindow H K) E
  read_journal zero block w = unfinished
  read_journal (suc turns) block w =
      read_step (read_journal turns (block + 1)) block (db (to_journal_key codec block)) w

  abbrev pub window_from : ℕ → RefWindow H K
  window_from n = record { death_rows = []; death_index = []; pending_number = n }

  pub read_from : ℕ → Option (ℕ × Bytes) → Restored (RefWindow H K) E
  read_from turns none = failed Error.decoding
  read_from turns (some (pruned, _)) = read_journal turns (pruned + 1) (window_from (pruned + 1))

  pub read_last_pruned : ℕ → Result (Option Bytes) E → Restored (RefWindow H K) E
  read_last_pruned turns (err e) = failed (Error.db e)
  read_last_pruned turns (ok none) = read_journal turns 1 (window_from 1)
  read_last_pruned turns (ok (some buffer)) = read_from turns (decoders.decode_number buffer)

  pub restore : ℕ → Restored (RefWindow H K) E
  restore turns = read_last_pruned turns (db (to_meta_key last_pruned []))
