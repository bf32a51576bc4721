-- ===== src/Bft/Threshold.antt =====
-- substrate/bft/src/generic/mod.rs and substrate/bft/src/lib.rs: the number of votes of a quorum.
use polkadot.Prelude.{ℕ, ◌+◌, ◌-◌, ◌*◌, ◌/◌, ◌≤◌, ◌<◌, arith}

-- `nodes - max_faulty`; the source needs `max_faulty ≤ nodes`, or the subtraction overflows
unfoldable pub bft_threshold : ℕ → ℕ → ℕ
bft_threshold nodes max_faulty = nodes - max_faulty

-- `n.saturating_sub(1) / 3`
unfoldable pub max_faulty_of : ℕ → ℕ
max_faulty_of n = (n - 1) / 3

-- the `bft_threshold` of substrate/bft/src/lib.rs
unfoldable pub required_signatures : ℕ → ℕ
unfolding max_faulty_of
required_signatures n = n - max_faulty_of n

-- For at least one authority, the required signatures are more than two thirds and at most all,
-- any two quorums of that size share more than `max_faulty_of` authorities, the authorities are
-- more than three times `max_faulty_of`, and when that many are faulty the others make a quorum.
pub required_signatures_bounds :
    (n : ℕ)
    → 0 < n
    → (2 * n < 3 * required_signatures n)
      × (required_signatures n ≤ n)
      × (n + max_faulty_of n < 2 * required_signatures n)
      × (3 * max_faulty_of n < n)
      × (required_signatures n + max_faulty_of n ≤ n)
unfolding required_signatures
required_signatures_bounds n h = omega arith
