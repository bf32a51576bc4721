-- ===== src/StateDb/Unfinalized/Tests.antt =====
-- Blocks 1 and 2 after block 0, block 11 after 1, block 12 after 2, with the journal keys that
-- `insert` gives them.
use polkadot.Prelude.{ℕ, ◌≡◌, refl, Option, some, List, [], ◌∷◌, nat_eq}
use mathlib.Core.List.{map}
use polkadot.Prelude.Map
use polkadot.StateDb.Types.{Bytes, no_changes, and_then, Encoders, to_meta_key}
use polkadot.StateDb.Unfinalized.{
  BlockOverlay, UnfinalizedOverlay, unfinalized_journal, journal_key_of, front_block_number, is_nil,
  push_overlay, fits, begin_insert, open_level, collect_values, new_overlay, insert,
}
use polkadot.StateDb.Unfinalized.Finalizing.{
  retain_level, discard, position, finalize_level, finalize_front, finalize,
}

abbrev codec : Encoders ℕ ℕ
codec = record {
  encode_hash = λ h. h ∷ [];
  encode_keys = λ ks. ks;
  encode_values = λ _. [];
  encode_number = λ n. n ∷ [];
}

abbrev overlay : ℕ → ℕ → ℕ → BlockOverlay ℕ ℕ
overlay hash number index = record {
  hash = hash;
  journal_key = number ∷ index ∷ unfinalized_journal;
  values = [];
  deleted = [];
}

abbrev forked : UnfinalizedOverlay ℕ ℕ
forked = record {
  last_finalized = some (0, 0);
  levels = (overlay 1 1 0 ∷ overlay 2 1 1 ∷ []) ∷ (overlay 11 2 0 ∷ overlay 12 2 1 ∷ []) ∷ [];
  parents = (1, 0) ∷ (2, 0) ∷ (11, 1) ∷ (12, 2) ∷ [];
}

abbrev journal_keys : UnfinalizedOverlay ℕ ℕ → List (List Bytes)
journal_keys o = map (λ level. map (λ b. b.journal_key) level) o.levels

abbrev reused : Option (List (List Bytes))
reused =
    and_then (finalize codec 2 forked)
      (λ (o, _). and_then (insert codec 13 2 2 no_changes o) (λ (o', _). some (journal_keys o')))

-- When 2 is final, 11 is discarded, and block 13 after 2 gets the journal key of block 12, which is
-- still there.
reused_key :
    reused ≡ some (((2 ∷ 1 ∷ unfinalized_journal) ∷ (2 ∷ 1 ∷ unfinalized_journal) ∷ []) ∷ [])
unfolding finalize finalize_front position finalize_level discard retain_level insert begin_insert
    fits open_level is_nil push_overlay new_overlay collect_values journal_key_of to_meta_key
    front_block_number Map.get Map.insert Map.remove Map.contains_key
reused_key = refl
