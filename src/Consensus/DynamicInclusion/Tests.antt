-- ===== src/Consensus/DynamicInclusion/Tests.antt =====
-- Ten candidates are wanted at first, and an empty block is allowed after nine seconds.
use polkadot.Prelude.{ℕ, ◌+◌, ◌-◌, ◌/◌, ◌≤◌, ◌<◌, ◌≡◌, ◌≢◌, ◌↔◌, refl, none, some, arith, nat_eq}
use polkadot.Consensus.DynamicInclusion.{
  wrap64, duration_to_micros, DynamicInclusion, new, acceptable_in,
}
use polkadot.Consensus.DynamicInclusion.Waiting.{
  acceptable_in_monotone, acceptable_in_wait, acceptable_in-new,
}

abbrev ten : DynamicInclusion
ten = record { start = 7; y = 9000000; m = 900000 }

ten-new : new 10 7 9000000000 ≡ ten
unfolding new duration_to_micros wrap64
ten-new = refl

empty_at_nine : acceptable_in ten 9000000007 0 ≡ some none
unfolding acceptable_in duration_to_micros wrap64
empty_at_nine = refl

half_at_start : acceptable_in ten 7 5 ≡ some (some 4500000000)
unfolding acceptable_in duration_to_micros wrap64
half_at_start = refl

acceptable_in_monotone_example : acceptable_in ten 9500000000 1 ≡ some none
acceptable_in_monotone_example =
    acceptable_in_monotone ten 9000000007 9500000000 0 1 (omega arith) (omega arith) (omega arith)
      (omega arith) empty_at_nine

acceptable_in_wait_example :
    (acceptable_in ten 4501000007 5 ≡ some none)
    × ((t : ℕ) → t + 2000 ≤ 4500000000 → acceptable_in ten (7 + t) 5 ≢ some none)
acceptable_in_wait_example = acceptable_in_wait ten 7 5 4500000000 (omega arith) half_at_start

acceptable_in-new_example :
    (◌≡◌ {A = ℕ} 10 0 → acceptable_in (new 10 7 9000000000) 8000000000 0 ≡ some none)
    × (0 < 10
        → (acceptable_in (new 10 7 9000000000) 8000000000 0 ≡ some none)
          ↔ (9000000000 / 1000 ≤ (8000000000 - 7) / 1000))
    × (0 < 10
        → 10 ≤ (8000000000 - 7) / 1000
        → acceptable_in (new 10 7 9000000000) 8000000000 10 ≡ some none)
acceptable_in-new_example =
    acceptable_in-new 10 7 9000000000 8000000000 (omega arith) (omega arith) (omega arith)
