-- ===== src/Consensus/DynamicInclusion.antt =====
-- polkadot/consensus/src/dynamic_inclusion.rs: how many candidates are needed, falling over time.
-- Instants and durations are numbers of nanoseconds; numbers of microseconds are 64 bits wide.
pub mod Waiting
mod Tests
use polkadot.Prelude.{
  ℕ, ◌+◌, ◌-◌, ◌*◌, ◌/◌, ◌%◌, Option, none, some, leb, ltb, if◌then◌else◌, nat_eq, ◌==◌,
}

-- arithmetic of `u64`
unfoldable pub wrap64 : ℕ → ℕ
wrap64 n = n % 18446744073709551616

-- `as_secs() * 1_000_000 + subsec_nanos() / 1000`
pub duration_to_micros : ℕ → ℕ
unfolding wrap64
duration_to_micros duration =
    wrap64 (wrap64 (duration / 1000000000 * 1000000) + duration % 1000000000 / 1000)

pub record DynamicInclusion : Type 0 where
  pub start : ℕ
  pub y : ℕ
  pub m : ℕ

pub new : ℕ → ℕ → ℕ → DynamicInclusion
new initial start allow_empty =
    if initial == 0 then record { start = start; y = 0; m = 0 } else record {
      start = start;
      y = duration_to_micros allow_empty;
      m = duration_to_micros allow_empty / initial;
    }

-- `none` if `now` is before the start, where `duration_since` panics
pub acceptable_in : DynamicInclusion → ℕ → ℕ → Option (Option ℕ)
acceptable_in d now included =
    if ltb now d.start
    then none
    else let elapsed = duration_to_micros (now - d.start) in
      let valid_after = d.y - wrap64 (d.m * included) in
      if leb valid_after elapsed
      then some none
      else some (some ((valid_after - elapsed) / 1000 * 1000000))
