-- ===== src/Democracy/VoteThreshold/Tests.antt =====
-- The cases of the source's own test, and the theorems at concrete inputs.
use polkadot.Prelude.{
  ℕ, suc, ◌+◌, ◌*◌, ◌≤◌, ◌<◌, ◌≡◌, refl, ◌⊎◌, inl, inr, Bool-cases, true, false, some, arith, ltb,
  leb, [], ◌∷◌, ◌++◌, if◌then◌else◌, nat_eq, ◌==◌,
}
use polkadot.Democracy.VoteThreshold.{
  compare_loop, compare_rationals, approved, decode, encode, super_majority_approve,
  simple_majority,
}
use polkadot.Democracy.VoteThreshold.Compare.{compare_rationals_exact}
use polkadot.Democracy.VoteThreshold.Approval.{IsSqrt, outcome, decode-encode, approved_exact}

-- a square root by search upwards
root_from : ℕ → ℕ → ℕ
root_from n ℕ.zero = 0
root_from n (suc r) =
    let below = root_from n r in if leb ((below + 1) * (below + 1)) n then below + 1 else below

abbrev root : ℕ → ℕ
root n = root_from n n

root_from_bounds :
    (n k : ℕ)
    → (root_from n k * root_from n k ≤ n)
      × ((root_from n k ≡ k) ⊎ (n < (root_from n k + 1) * (root_from n k + 1)))
unfolding root_from
root_from_bounds n ℕ.zero = (omega arith, inl refl)
root_from_bounds n (suc k) =
    let (low, high) = root_from_bounds n k in
    let r = root_from n k in
    elim (Bool-cases (leb ((r + 1) * (r + 1)) n)) [
      | inl up ↦
          rw up
            (ground arith, elim high [ inl e ↦ inl (omega arith) | inr h ↦ absurd (ground arith) ])
      | inr stay ↦ rw stay (low, inr (ground arith))
    ]

root-IsSqrt : IsSqrt root
root-IsSqrt n =
    let (low, high) = root_from_bounds n n in
    (low, elim high [ inl e ↦ rw e (grind arith) | inr h ↦ h ])

source_test :
    (approved root super_majority_approve 60 50 210 ≡ some false)
    × (approved root super_majority_approve 100 50 210 ≡ some true)
unfolding approved compare_rationals compare_loop root_from
source_test = (refl, refl)

compare_rationals_exact_example : compare_rationals 50 12 100 14 ≡ some (ltb (50 * 14) (100 * 12))
compare_rationals_exact_example = compare_rationals_exact 50 12 100 14 (omega arith) (omega arith)

approved_exact_example :
    approved root super_majority_approve 100 50 210
    ≡ some (
        if 100 + 50 == 0
        then false
        else outcome super_majority_approve 100 50 (root (100 + 50)) (root 210))
approved_exact_example =
    approved_exact root super_majority_approve 100 50 210 root-IsSqrt (omega arith)

decode-encode_example : decode (encode simple_majority ++ 9 ∷ []) ≡ some (simple_majority, 9 ∷ [])
decode-encode_example = decode-encode simple_majority (9 ∷ [])
