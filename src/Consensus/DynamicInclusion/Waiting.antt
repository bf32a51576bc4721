-- ===== src/Consensus/DynamicInclusion/Waiting.antt =====
-- polkadot/consensus/src/dynamic_inclusion.rs: the wait of `acceptable_in`.
use native.Mathlib.Nat.{div-add-mod, mod-lt}
use polkadot.Prelude.{◌↔◌, ℕ, ◌+◌, ◌-◌, ◌*◌, ◌/◌, ◌≤◌, ◌<◌, ◌≡◌, ◌≢◌, none, some, arith, nat_eq}
use polkadot.Consensus.DynamicInclusion.{
  wrap64, duration_to_micros, DynamicInclusion, new, acceptable_in,
}

-- Below 2 ^ 64 seconds over a million, durations are exact.
duration_to_micros_lem : (d : ℕ) → d < 18446744073709551616 → duration_to_micros d ≡ d / 1000
unfolding duration_to_micros wrap64
duration_to_micros_lem d h = omega arith

-- A block that is acceptable with some candidates at some time stays acceptable at a later time
-- with at least as many candidates, if the time since the start in nanoseconds, and the slope
-- times the number of candidates, are below 2 ^ 64.
pub acceptable_in_monotone :
    (d : DynamicInclusion) (now now' included included' : ℕ)
    → now ≤ now'
    → included ≤ included'
    → now' - d.start < 18446744073709551616
    → d.m * included' < 18446744073709551616
    → acceptable_in d now included ≡ some none
    → acceptable_in d now' included' ≡ some none
unfolding acceptable_in wrap64
acceptable_in_monotone d now now' i i' later more small fits h =
    let e = duration_to_micros_lem (now' - d.start) small in
    let e₀ = duration_to_micros_lem (now - d.start) (omega (arith, later, small)) in
    let le : d.m * i ≤ d.m * i' = grind arith in ground (arith, later, e, e₀, le, fits)

-- If a block is acceptable only after a wait, then it is acceptable one millisecond after it, and
-- not yet at any time that is two microseconds or more before its end, if the times
-- since the start are below 2 ^ 64 nanoseconds.
pub acceptable_in_wait :
    (d : DynamicInclusion) (now included wait : ℕ)
    → now + wait + 1000000 - d.start < 18446744073709551616
    → acceptable_in d now included ≡ some (some wait)
    → (acceptable_in d (now + wait + 1000000) included ≡ some none)
      × ((t : ℕ) → t + 2000 ≤ wait → acceptable_in d (now + t) included ≢ some none)
unfolding acceptable_in wrap64
acceptable_in_wait d now i wait small h = (
  ground (
    arith,
    h,
    duration_to_micros_lem (now - d.start) (omega (arith, small)),
    duration_to_micros_lem (now + wait + 1000000 - d.start) small,
  ),
  λ t le h'. ground (
    arith,
    h,
    h',
    duration_to_micros_lem (now - d.start) (omega (arith, small)),
    duration_to_micros_lem (now + t - d.start) (omega (arith, small, le)),
  ),
)

quotient_bounds : (y n : ℕ) → 0 < n → (y / n * n ≤ y) × (y < y / n * n + n)
quotient_bounds y n h = (grind (arith, div-add-mod y n), grind (arith, div-add-mod y n, mod-lt))

-- For times below 2 ^ 64 nanoseconds, at or after the start: if no candidates are wanted at first,
-- an empty block is acceptable at once; else an empty block is acceptable exactly from
-- `allow_empty` on, counted in whole microseconds, and a block with the number of candidates that
-- is wanted at first is acceptable after at most as many microseconds as there are candidates.
pub acceptable_in-new :
    (initial start allow_empty now : ℕ)
    → allow_empty < 18446744073709551616
    → start ≤ now
    → now - start < 18446744073709551616
    → (initial ≡ 0 → acceptable_in (new initial start allow_empty) now 0 ≡ some none)
      × (0 < initial
          → (acceptable_in (new initial start allow_empty) now 0 ≡ some none)
            ↔ (allow_empty / 1000 ≤ (now - start) / 1000))
      × (0 < initial
          → initial ≤ (now - start) / 1000
          → acceptable_in (new initial start allow_empty) now initial ≡ some none)
unfolding acceptable_in new wrap64
acceptable_in-new initial start allow now small order near =
    let elapsed = duration_to_micros_lem (now - start) near in
    let y = duration_to_micros_lem allow small in
    (
      λ zero. ground (arith, order, zero),
      λ pos. (λ h. ground (arith, order, h, elapsed, y), λ h. ground (arith, order, h, elapsed, y)),
      λ pos enough. ground (
        arith,
        order,
        enough,
        elapsed,
        y,
        quotient_bounds (duration_to_micros allow) initial pos,
        small,
      ),
    )
