-- ===== src/StateDb/Tests.antt =====
-- Blocks 1 and 2 after block 0, block 11 after 1, block 12 after 2. A window holds a block that has
-- deleted the key 91.
use polkadot.Prelude.{
  List, if◌then◌else◌, ◌==◌, nat_eq, zero, suc, inr, ok, ℕ, ◌+◌, ◌≡◌, refl, true, false, none, some,
  [], ◌∷◌, length, arith, contains, Option,
}
use polkadot.Prelude.Map
use polkadot.Prelude.Map.{Map}
use polkadot.StateDb.Panics.{Returns}
use polkadot.StateDb.Types.{
  and_then, to_meta_key, Decoders, ChangeSet, CommitSet, no_commits, Constraints, Encoders,
  constrained,
}
use polkadot.StateDb.Pruning.{
  JournalRecord, to_journal_key, RefWindow, DeathRow, window_size, note_finalized, prune_one,
}
use polkadot.StateDb.Pruning.Window.{Change, IsFresh, reinserted, doomed}
use polkadot.StateDb.Pruning.Refined.{IsWindow, keys_of, change_of, note_finalized-IsWindow}
use polkadot.StateDb.Pruning.Restore.{
  MetaDb, decode_record, decode_inserted, decode_deleted, restore,
}
use polkadot.StateDb.Pruning.Restore.Journal.{Reads, IsRead, AreFresh, restore-IsWindow}
use polkadot.StateDb.Pruning.Kept.{has_after, prune_one_keeps}
use polkadot.StateDb.Unfinalized
use polkadot.StateDb.Unfinalized.{BlockOverlay, UnfinalizedOverlay, front_block_number, fits}
use polkadot.StateDb.Unfinalized.Finalizing.{finalize}
use polkadot.StateDb.Unfinalized.Values.{last_value, get-insert}
use polkadot.StateDb.Unfinalized.Inserted.{insert-IsTree}
use polkadot.StateDb.Unfinalized.Tree.{Tree-Same, has_hash, count_levels, count_level}
use polkadot.StateDb.Unfinalized.Descend.{descend}
use polkadot.StateDb.Unfinalized.Located.{changes_of}
use polkadot.StateDb.Unfinalized.Finalized.{IsTree, finalize-IsTree}
use polkadot.StateDb.Sync.{StateDbSync, prune, finalize_block}
use polkadot.StateDb.Sync.Loop.{IsPruned, prune-IsPruned}
use polkadot.StateDb.Sync.Blocks.{IsFinalized, finalize_block-IsFinalized}

abbrev codec_a : Encoders ℕ ℕ
codec_a = record {
  encode_hash = λ h. h ∷ [];
  encode_keys = λ ks. ks;
  encode_values = λ _. [];
  encode_number = λ n. n ∷ [];
}

abbrev row_a : DeathRow ℕ ℕ
row_a = record { hash = 0; journal_key = []; deleted = 91 ∷ [] }

abbrev window_a : RefWindow ℕ ℕ
window_a = record { death_rows = row_a ∷ []; death_index = (91, 1) ∷ []; pending_number = 1 }

abbrev deletes_a : Change ℕ
deletes_a = ([], 91 ∷ [])

window_a-IsWindow : IsWindow window_a (deletes_a ∷ [])
unfolding contains Map.get reinserted
window_a-IsWindow = record {
  views = (λ k. ground arith, tt);
  exact = record {
    indexed = (λ k. ground arith, λ k b q. ground (arith, q));
    pending = λ k b q. ground (arith, q);
  };
}

abbrev commit_a : CommitSet ℕ
commit_a = record no_commits {
  data_changes = record { inserted = (91, 5 ∷ []) ∷ []; deleted = 92 ∷ [] };
}

commit_a-IsFresh : IsFresh (deletes_a ∷ []) (change_of commit_a)
unfolding contains doomed
commit_a-IsFresh k h = ground (arith, h)

note_finalized-IsWindow_example :
    Returns
      (λ (w', commit').
        IsWindow w' (deletes_a ∷ change_of commit_a ∷ [])
        × (window_size w' ≡ window_size window_a + 1)
        × (commit'.data_changes.inserted ≡ (91, 5 ∷ []) ∷ [])
        × (commit'.data_changes.deleted ≡ []))
      (note_finalized codec_a 7 commit_a window_a)
note_finalized-IsWindow_example =
    note_finalized-IsWindow codec_a 7 commit_a window_a (deletes_a ∷ []) window_a-IsWindow
      commit_a-IsFresh

prune_one_keeps_example :
    Returns
      (λ (_, commit'). contains commit'.data_changes.deleted 92 ≡ false)
      (prune_one codec_a no_commits window_a)
unfolding has_after contains
prune_one_keeps_example =
    prune_one_keeps codec_a no_commits window_a deletes_a [] [] 92 true window_a-IsWindow refl refl

abbrev constraints_a : Constraints
constraints_a = record { max_blocks = some 0; max_mem = none }

prune-IsPruned_example :
    Returns
      (IsPruned codec_a constraints_a (contains []) window_a no_commits (deletes_a ∷ []))
      (prune codec_a constraints_a (contains []) window_a no_commits)
prune-IsPruned_example =
    prune-IsPruned codec_a constraints_a (contains []) window_a no_commits (deletes_a ∷ [])
      window_a-IsWindow

abbrev block : ℕ → ℕ → BlockOverlay ℕ ℕ
block hash key = record {
  hash = hash;
  journal_key = hash ∷ [];
  values = (key, 5 ∷ []) ∷ [];
  deleted = 92 ∷ [];
}

abbrev overlay_a : UnfinalizedOverlay ℕ ℕ
overlay_a = record {
  last_finalized = some (0, 0);
  levels = (block 1 31 ∷ block 2 32 ∷ []) ∷ (block 11 41 ∷ block 12 42 ∷ []) ∷ [];
  parents = (1, 0) ∷ (2, 0) ∷ (11, 1) ∷ (12, 2) ∷ [];
}

overlay_a-IsTree : IsTree overlay_a.parents (λ h. h == 0) overlay_a.levels
unfolding Map.get has_hash count_levels count_level
overlay_a-IsTree = record {
  tree =
      (((0, refl, refl), ((0, refl, refl), tt)), ((((1, refl, refl), ((2, refl, refl), tt)), tt)));
  once = λ h. ground arith;
}

finalize-IsTree_example :
    Returns
      (λ (o', commit).
        (commit.data_changes ≡ changes_of 1 (block 1 31 ∷ block 2 32 ∷ []))
        × IsTree o'.parents (λ h. 1 == h) o'.levels
        × (length o'.levels ≡ 1)
        × (o'.levels
            ≡ descend overlay_a.parents (λ h. 1 == h) ((block 11 41 ∷ block 12 42 ∷ []) ∷ []))
        × (o'.last_finalized ≡ some (1, 1)))
      (finalize codec_a 1 overlay_a)
unfolding front_block_number has_hash
finalize-IsTree_example =
    finalize-IsTree codec_a 1 overlay_a (λ h. h == 0) (block 1 31 ∷ block 2 32 ∷ [])
      ((block 11 41 ∷ block 12 42 ∷ []) ∷ []) refl overlay_a-IsTree refl

abbrev changes_a : ChangeSet ℕ
changes_a = record { inserted = (51, 6 ∷ []) ∷ (51, 7 ∷ []) ∷ []; deleted = [] }

get-insert_example :
    Returns
      (λ (o', _). Unfinalized.get o' 51 ≡ last_value changes_a.inserted none 51)
      (Unfinalized.insert codec_a 21 3 12 changes_a overlay_a)
unfolding fits Map.contains_key Map.get Unfinalized.get Unfinalized.get_levels
    Unfinalized.first_value
get-insert_example = get-insert codec_a 21 3 12 changes_a overlay_a (0, 0) 51 refl refl refl

-- one block is kept
abbrev constraints_b : Constraints
constraints_b = record { max_blocks = some 1; max_mem = none }

abbrev state_a : StateDbSync ℕ ℕ
state_a = record {
  mode = constrained constraints_b;
  unfinalized = overlay_a;
  pruning = some window_a;
  pinned = [];
}

block_1-IsFresh : IsFresh (deletes_a ∷ []) (keys_of (changes_of 1 (block 1 31 ∷ block 2 32 ∷ [])))
unfolding contains doomed reinserted changes_of
block_1-IsFresh k h = ground (arith, h)

finalize_block-IsFinalized_example :
    Returns
      (IsFinalized 1 constraints_b []
        (descend overlay_a.parents (λ h. 1 == h) ((block 11 41 ∷ block 12 42 ∷ []) ∷ []))
        2
        (deletes_a ∷ keys_of (changes_of 1 (block 1 31 ∷ block 2 32 ∷ [])) ∷ [])
        (changes_of 1 (block 1 31 ∷ block 2 32 ∷ [])))
      (finalize_block codec_a 1 state_a)
unfolding has_hash window_size
finalize_block-IsFinalized_example =
    finalize_block-IsFinalized codec_a 1 state_a constraints_b window_a (deletes_a ∷ [])
      (λ h. h == 0) (block 1 31 ∷ block 2 32 ∷ []) ((block 11 41 ∷ block 12 42 ∷ []) ∷ []) refl refl
      window_a-IsWindow refl overlay_a-IsTree refl block_1-IsFresh

overlay_0-IsTree : IsTree overlay_a.parents (λ h. 0 == h) overlay_a.levels
overlay_0-IsTree = record {
  tree =
      Tree-Same overlay_a.parents overlay_a.parents (λ h. h == 0) (λ h. 0 == h) overlay_a.levels
        overlay_a-IsTree.tree (λ h q. ground (arith, q)) (λ h q. refl);
  once = overlay_a-IsTree.once;
}

insert-IsTree_example :
    Returns
      (λ (o', _). IsTree o'.parents (λ h. 0 == h) o'.levels)
      (Unfinalized.insert codec_a 21 3 12 changes_a overlay_a)
unfolding fits Map.contains_key Map.get has_hash count_levels count_level
insert-IsTree_example =
    insert-IsTree codec_a 21 3 12 changes_a overlay_a (0, 0) refl refl refl refl overlay_0-IsTree

-- Bytes of a hash, a number of keys, the keys, and so on.
abbrev take_keys : ℕ → List ℕ → Option (List ℕ × List ℕ)
take_keys zero rest = some ([], rest)
take_keys (suc n) [] = none
take_keys (suc n) (b ∷ bs) = and_then (take_keys n bs) (λ (ks, rest). some (b ∷ ks, rest))

abbrev take_counted : List ℕ → Option (List ℕ × List ℕ)
take_counted [] = none
take_counted (n ∷ bs) = take_keys n bs

abbrev take_one : List ℕ → Option (ℕ × List ℕ)
take_one [] = none
take_one (b ∷ bs) = some (b, bs)

abbrev decoders_a : Decoders ℕ ℕ
decoders_a = record { decode_hash = take_one; decode_keys = take_counted; decode_number = take_one }

-- Block 3 was the last one pruned, and block 4, which has deleted 91, is in the journal.
abbrev db_a : MetaDb ℕ
db_a [] = ok none
db_a (b ∷ _) =
    if b == 4
    then ok (some (7 ∷ 0 ∷ 1 ∷ 91 ∷ []))
    else if b == 108
    then ok (some (3 ∷ []))
    else ok none

abbrev journal_a : List (JournalRecord ℕ ℕ)
journal_a = record { hash = 7; inserted = []; deleted = 91 ∷ [] } ∷ []

journal_a-AreFresh : AreFresh codec_a decoders_a db_a [] journal_a
unfolding doomed
journal_a-AreFresh = (λ k h. ground (arith, h), tt)

restore-IsWindow_example :
    Reads
      (IsRead codec_a decoders_a db_a (deletes_a ∷ []) 4 ((7, to_journal_key codec_a 4) ∷ []))
      (restore codec_a decoders_a db_a 2)
unfolding to_meta_key to_journal_key decode_record decode_inserted decode_deleted
restore-IsWindow_example =
    restore-IsWindow codec_a decoders_a db_a 2 3 journal_a (inr (3 ∷ [], [], refl, refl))
      ((7 ∷ 0 ∷ 1 ∷ 91 ∷ [], refl, refl), refl) journal_a-AreFresh (omega arith)
