-- ===== src/StateDb/Types.antt =====
-- substrate/state-db/src/lib.rs: sets of changes, constraints, and the keys of metadata.
use polkadot.Prelude.{ℕ, Option, none, some, List, [], ◌++◌}

abbrev pub Bytes : Type 0
Bytes = List ℕ

pub record ChangeSet (K : Type 0) : Type 0 where
  pub inserted : List (K × Bytes)
  pub deleted : List K

pub record CommitSet (K : Type 0) : Type 0 where
  pub data_changes : ChangeSet K
  pub meta : ChangeSet Bytes

-- `Default`
abbrev pub no_changes : {K : Type 0} → ChangeSet K
no_changes = record { inserted = []; deleted = [] }

abbrev pub no_commits : {K : Type 0} → CommitSet K
no_commits = record { data_changes = no_changes; meta = no_changes }

pub record Constraints : Type 0 where
  pub max_blocks : Option ℕ
  pub max_mem : Option ℕ

pub data PruningMode : Type 0 where
  constrained : Constraints → PruningMode
  archive_all archive_canonical : PruningMode

-- `?` on a panic, which is `none`
abbrev pub and_then : {T U : Type 0} → Option T → (T → Option U) → Option U
and_then none f = none
and_then (some t) f = f t

-- The codecs of hashes, keys, values and `u64`: `encode` of the trait `Slicable`.
pub record Encoders (H K : Type 0) : Type 0 where
  pub encode_hash : H → Bytes
  pub encode_keys : List K → Bytes
  pub encode_values : List (K × Bytes) → Bytes
  pub encode_number : ℕ → Bytes

-- the suffix comes after the data
unfoldable pub to_meta_key : Bytes → Bytes → Bytes
to_meta_key suffix encoded = encoded ++ suffix

pub data Error (E : Type 0) : Type 0 where
  db : E → Error E
  decoding : Error E

-- `decode` of the same types: the value and the bytes that follow.
pub record Decoders (H K : Type 0) : Type 0 where
  pub decode_hash : Bytes → Option (H × Bytes)
  pub decode_keys : Bytes → Option (List K × Bytes)
  pub decode_number : Bytes → Option (ℕ × Bytes)
