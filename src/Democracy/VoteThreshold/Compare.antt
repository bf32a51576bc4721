-- ===== src/Democracy/VoteThreshold/Compare.antt =====
-- substrate/runtime/democracy/src/vote_threshold.rs: `compare_rationals` and the order of
-- fractions.
use native.Mathlib.Nat.{div-add-mod, mod-lt}
use polkadot.Prelude.{
  ℕ, zero, suc, ◌+◌, ◌*◌, ◌/◌, ◌%◌, ◌≤◌, ◌<◌, ◌≡◌, Bool, true, false, Option, some, arith, ltb,
  Bool-cases, inl, inr, if◌then◌else◌, nat_eq, ◌==◌,
}
use polkadot.Democracy.VoteThreshold.{compare_loop, compare_rationals}

-- `a` divided by `d` is `q`, with the remainder `r`.
record IsDivision (a d q r : ℕ) : Type 0 where
  whole : a ≡ q * d + r
  small : r < d

division : (a d : ℕ) → 0 < d → IsDivision a d (a / d) (a % d)
division a d h = record { whole = grind (arith, div-add-mod a d); small = grind (arith, mod-lt) }

mul_lt : (a b c : ℕ) → a < b → 0 < c → a * c < b * c
mul_lt a b c h k = grind arith

mul_le : (a b c : ℕ) → a ≤ b → a * c ≤ b * c
mul_le a b c h = grind arith

lt_of_quotients :
    (n₁ d₁ n₂ d₂ q₁ q₂ r₁ r₂ : ℕ)
    → IsDivision n₁ d₁ q₁ r₁
    → IsDivision n₂ d₂ q₂ r₂
    → q₁ < q₂
    → n₁ * d₂ < n₂ * d₁
lt_of_quotients n₁ d₁ n₂ d₂ q₁ q₂ r₁ r₂ a b h =
    rw (a.whole, b.whole)
      (omega (
        arith,
        mul_lt r₁ d₁ d₂ a.small (omega (arith, b.small)),
        mul_le (q₁ + 1) q₂ (d₁ * d₂) (omega arith),
      ))

cross :
    (n₁ d₁ n₂ d₂ q r₁ r₂ : ℕ)
    → IsDivision n₁ d₁ q r₁
    → IsDivision n₂ d₂ q r₂
    → ltb (n₁ * d₂) (n₂ * d₁) ≡ ltb (d₂ * r₁) (d₁ * r₂)
cross n₁ d₁ n₂ d₂ q r₁ r₂ a b = rw (a.whole, b.whole) (grind arith)

some-true : (a b : ℕ) → a < b → some true ≡ some (ltb a b)
some-true a b h = ground arith

some-false : (a b : ℕ) → b ≤ a → some false ≡ some (ltb a b)
some-false a b h = ground arith

-- The order of the fractions once the quotients are equal, by the remainders.
by_remainders :
    (n₁ d₁ n₂ d₂ r₁ r₂ : ℕ) (again : Option Bool)
    → 0 < d₁
    → ltb (n₁ * d₂) (n₂ * d₁) ≡ ltb (d₂ * r₁) (d₁ * r₂)
    → (0 < r₁ → 0 < r₂ → again ≡ some (ltb (d₂ * r₁) (d₁ * r₂)))
    → (if r₂ == 0 then some false else if r₁ == 0 then some true else again)
      ≡ some (ltb (n₁ * d₂) (n₂ * d₁))
by_remainders n₁ d₁ n₂ d₂ zero zero again pos e h = rw e (some-false _ _ (omega arith))
by_remainders n₁ d₁ n₂ d₂ (suc r₁) zero again pos e h = rw e (some-false _ _ (omega arith))
by_remainders n₁ d₁ n₂ d₂ zero (suc r₂) again pos e h =
    rw e (ground (arith, some-true (d₂ * 0) (d₁ * suc r₂) (grind arith)))
by_remainders n₁ d₁ n₂ d₂ (suc r₁) (suc r₂) again pos e h =
    rw e (ground (arith, h (omega arith) (omega arith)))

compare_loop_lem :
    (fuel n₁ d₁ n₂ d₂ : ℕ)
    → 0 < d₁
    → 0 < d₂
    → d₁ + d₂ < fuel
    → compare_loop fuel n₁ d₁ n₂ d₂ ≡ some (ltb (n₁ * d₂) (n₂ * d₁))
unfolding compare_loop
compare_loop_lem zero n₁ d₁ n₂ d₂ pos₁ pos₂ h = absurd (omega arith)
compare_loop_lem (suc fuel) n₁ d₁ n₂ d₂ pos₁ pos₂ h =
    let a = division n₁ d₁ pos₁ in
    let b = division n₂ d₂ pos₂ in
    elim (Bool-cases (ltb (n₁ / d₁) (n₂ / d₂))) [
      | inl below ↦
          rw below
            (some-true (n₁ * d₂) (n₂ * d₁) (lt_of_quotients _ _ _ _ _ _ _ _ a b (ground arith)))
      | inr not_below ↦ elim (Bool-cases (ltb (n₂ / d₂) (n₁ / d₁))) [
        | inl above ↦
            rw (not_below, above)
              (some-false (n₁ * d₂) (n₂ * d₁)
                (omega (arith, lt_of_quotients _ _ _ _ _ _ _ _ b a (ground arith))))
        | inr not_above ↦
            let same : n₂ / d₂ ≡ n₁ / d₁ = ground arith in
            rw (not_below, not_above)
              (by_remainders n₁ d₁ n₂ d₂ (n₁ % d₁) (n₂ % d₂) _ pos₁
                (cross n₁ d₁ n₂ d₂ (n₁ / d₁) (n₁ % d₁) (n₂ % d₂) a (rw same at b))
                (λ p₁ p₂.
                  compare_loop_lem fuel d₂ (n₂ % d₂) d₁ (n₁ % d₁) p₂ p₁
                    (omega (arith, a.small, b.small))))
      ]
    ]

-- For denominators that are not zero, `compare_rationals` returns, and says whether
-- `n₁ / d₁ < n₂ / d₂` as fractions: whether `n₁ * d₂ < n₂ * d₁`.
pub compare_rationals_exact :
    (n₁ d₁ n₂ d₂ : ℕ)
    → 0 < d₁
    → 0 < d₂
    → compare_rationals n₁ d₁ n₂ d₂ ≡ some (ltb (n₁ * d₂) (n₂ * d₁))
unfolding compare_rationals
compare_rationals_exact n₁ d₁ n₂ d₂ pos₁ pos₂ =
    compare_loop_lem (suc (d₁ + d₂)) n₁ d₁ n₂ d₂ pos₁ pos₂ (omega arith)
