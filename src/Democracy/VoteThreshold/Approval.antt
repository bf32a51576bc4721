-- ===== src/Democracy/VoteThreshold/Approval.antt =====
-- What each threshold means, in whole numbers, and the round trip of its code.
use polkadot.Prelude.{
  ℕ, ◌+◌, ◌*◌, ◌≤◌, ◌<◌, ◌≡◌, refl, Bool, false, some, arith, ltb, if◌then◌else◌, nat_eq, ◌==◌,
  List, ◌++◌,
}
use polkadot.Democracy.VoteThreshold.{
  VoteThreshold, approved, decode, encode, super_majority_approve, super_majority_against,
  simple_majority,
}
use polkadot.Democracy.VoteThreshold.Compare.{compare_rationals_exact}

-- Decoding the code of a threshold, with any bytes behind it, gives the threshold and those bytes.
pub decode-encode : (t : VoteThreshold) (rest : List ℕ) → decode (encode t ++ rest) ≡ some (t, rest)
unfolding decode encode
decode-encode super_majority_approve rest = refl
decode-encode super_majority_against rest = refl
decode-encode simple_majority rest = refl

-- The rounded-down square root, as the documentation of the `integer_sqrt` crate has it.
abbrev pub IsSqrt : (ℕ → ℕ) → Type 0
IsSqrt root = (n : ℕ) → (root n * root n ≤ n) × (n < (root n + 1) * (root n + 1))

-- The test that a threshold stands for, with the roots of the voters and of the electorate.
abbrev pub outcome : VoteThreshold → ℕ → ℕ → ℕ → ℕ → Bool
outcome super_majority_approve approve against voters electorate =
    ltb (against * electorate) (approve * voters)
outcome super_majority_against approve against voters electorate =
    ltb (against * voters) (approve * electorate)
outcome simple_majority approve against voters electorate = ltb against approve

sqrt_pos : (root : ℕ → ℕ) → IsSqrt root → (n : ℕ) → 0 < n → 0 < root n
sqrt_pos root h n pos = grind (arith, h n)

sqrt_zero : (root : ℕ → ℕ) → IsSqrt root → root 0 ≡ 0
sqrt_zero root h = grind (arith, h 0)

-- If the electorate is not empty, `approved` returns: true exactly when there are votes and, for
-- a super majority of approvals, against / √voters < approve / √electorate; for one of rejections,
-- against / √electorate < approve / √voters; for a simple majority, against < approve; the roots
-- rounded down.
pub approved_exact :
    (root : ℕ → ℕ) (t : VoteThreshold) (approve against electorate : ℕ)
    → IsSqrt root
    → 0 < electorate
    → approved root t approve against electorate
      ≡ some (
          if approve + against == 0
          then false
          else outcome t approve against (root (approve + against)) (root electorate))
unfolding approved
approved_exact root super_majority_approve approve against electorate h pos = ground (
  arith,
  sqrt_zero root h,
  sqrt_pos root h (approve + against),
  sqrt_pos root h electorate,
  compare_rationals_exact against (root (approve + against)) approve (root electorate),
)
approved_exact root super_majority_against approve against electorate h pos = ground (
  arith,
  sqrt_zero root h,
  sqrt_pos root h (approve + against),
  sqrt_pos root h electorate,
  compare_rationals_exact against (root electorate) approve (root (approve + against)),
)
approved_exact root simple_majority approve against electorate h pos =
    ground (arith, sqrt_zero root h, sqrt_pos root h (approve + against))
