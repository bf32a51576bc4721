-- ===== src/Democracy/VoteThreshold.antt =====
-- substrate/runtime/democracy/src/vote_threshold.rs. `integer_sqrt`, of an external crate, is a
-- parameter. Balances are unbounded numbers; the source adds them at the width of `Balance`.
pub mod Compare
pub mod Approval
mod Tests
use polkadot.Prelude.{
  ℕ, zero, suc, ◌+◌, ◌*◌, ◌/◌, ◌%◌, Bool, true, false, Option, none, some, List, [], ◌∷◌, ltb,
  if◌then◌else◌, nat_eq, ◌==◌,
}

pub data VoteThreshold : Type 0 where
  super_majority_approve super_majority_against simple_majority : VoteThreshold

-- `Slicable::decode` on a list of bytes: the value and the bytes that are left
pub decode : List ℕ → Option (VoteThreshold × List ℕ)
decode [] = none
decode (v ∷ rest) =
    if v == 0
    then some (super_majority_approve, rest)
    else if v == 1
    then some (super_majority_against, rest)
    else if v == 2
    then some (simple_majority, rest)
    else none

pub encode : VoteThreshold → List ℕ
encode super_majority_approve = 0 ∷ []
encode super_majority_against = 1 ∷ []
encode simple_majority = 2 ∷ []

-- The loop of `compare_rationals` with fuel; `none` means that the fuel ran out.
compare_loop : ℕ → ℕ → ℕ → ℕ → ℕ → Option Bool
compare_loop zero n₁ d₁ n₂ d₂ = none
compare_loop (suc fuel) n₁ d₁ n₂ d₂ =
    let q₁ = n₁ / d₁ in
    let q₂ = n₂ / d₂ in
    let r₁ = n₁ % d₁ in
    let r₂ = n₂ % d₂ in
    let again = compare_loop fuel d₂ r₂ d₁ r₁ in
    if ltb q₁ q₂
    then some true
    else if ltb q₂ q₁
    then some false
    else if r₂ == 0
    then some false
    else if r₁ == 0
    then some true
    else again

-- `d₁ + d₂` falls in each round.
pub compare_rationals : ℕ → ℕ → ℕ → ℕ → Option Bool
compare_rationals n₁ d₁ n₂ d₂ = compare_loop (suc (d₁ + d₂)) n₁ d₁ n₂ d₂

module _ (integer_sqrt : ℕ → ℕ) where
  -- `none` if `compare_rationals` does not return
  pub approved : VoteThreshold → ℕ → ℕ → ℕ → Option Bool
  approved threshold approve against electorate =
      let voters = approve + against in
      let sqrt_voters = integer_sqrt voters in
      let sqrt_electorate = integer_sqrt electorate in
      if sqrt_voters == 0 then some false else elim threshold [
        | super_majority_approve ↦ compare_rationals against sqrt_voters approve sqrt_electorate
        | super_majority_against ↦ compare_rationals against sqrt_electorate approve sqrt_voters
        | simple_majority ↦ some (ltb against approve)
      ]
