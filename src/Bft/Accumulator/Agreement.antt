-- ===== src/Bft/Accumulator/Agreement.antt =====
-- substrate/bft/src/generic/accumulator.rs: the commit votes of two accumulators of one round, side by side.
use mathlib.Core.Bool.{false≢true}
use polkadot.Prelude.{
  ℕ, ◌≤◌, ◌<◌, ◌≡◌, ◌≢◌, sym, ◌∙◌, true, some, List, [], ◌∷◌, arith, length, IsSubset, common,
  length-common, common-Distinct, common-All, All_contained, All-map, ◌*◌, Eq, nat_eq, ◌==◌, ==_iff,
  contains, Distinct, Bool-cases, inl, inr, All,
}
use polkadot.Prelude.Map
use polkadot.Prelude.Map.{Map}
use polkadot.Bft.Justification.{Justification}
use polkadot.Bft.Accumulator.{committed, Accumulator}
use polkadot.Bft.Threshold.{bft_threshold}
use polkadot.Bft.Accumulator.Votes.{Recorded, IsJustified}
use polkadot.Bft.Accumulator.Invariant.{IsConsistent}

module _ {D A S : Type 0} ⦃eA : Eq A⦄ where
  abbrev pub VotedFor : Map A (D × S) → D → A → Type 0
  VotedFor votes d a = (s : S) × (Map.get votes a ≡ some (d, s))

  Recorded-VotedFor :
      (m : Map A (D × S)) (d : D) (voters : List A) (ss : List S)
      → Recorded m d voters ss
      → All (VotedFor m d) voters
  Recorded-VotedFor m d [] ss r = tt
  Recorded-VotedFor m d (v ∷ voters) [] r = elim r [ ]
  Recorded-VotedFor m d (v ∷ voters) (s ∷ ss) r = ((s, r.0), Recorded-VotedFor m d voters ss r.1)

  VotedFor-IsSubset :
      (m : Map A (D × S)) (d : D) (voters us : List A)
      → All (VotedFor m d) voters
      → ((a : A) → Map.contains_key m a ≡ true → contains us a ≡ true)
      → IsSubset voters us
  unfolding Map.contains_key
  VotedFor-IsSubset m d voters us h known a c =
      let (s, g) = All_contained (VotedFor m d) voters a h c in known a (ground arith)

-- `a` voted for two different digests.
abbrev pub Equivocates : {D A S : Type 0} ⦃eA : Eq A⦄ → Map A (D × S) → Map A (D × S) → A → Type 0
Equivocates {D} m₁ m₂ a = (d₁ : D) × (d₂ : D) × VotedFor m₁ d₁ a × VotedFor m₂ d₂ a × (d₁ ≢ d₂)

module _ {C D A S : Type 0} ⦃eD : Eq D⦄ ⦃eA : Eq A⦄ where
  -- `nodes` authorities, of whom less than a third may be faulty, and two accumulators of one
  -- round with the threshold of `bft_threshold`, whose commit votes come from authorities.
  module _ (authorities : List A) (max_faulty : ℕ) (acc₁ acc₂ : Accumulator C D A S)
      (few : 3 * max_faulty < length authorities)
      (threshold₁ : acc₁.threshold ≡ bft_threshold (length authorities) max_faulty)
      (threshold₂ : acc₂.threshold ≡ bft_threshold (length authorities) max_faulty)
      (known₁ : (a : A) → Map.contains_key acc₁.commits a ≡ true → contains authorities a ≡ true)
      (known₂ : (a : A)
        → Map.contains_key acc₂.commits a ≡ true
        → contains authorities a ≡ true) where
    -- More than `max_faulty` voters of the two committed digests are the same.
    committed_overlap :
        (j₁ j₂ : Justification D S)
        → IsConsistent acc₁
        → IsConsistent acc₂
        → acc₁.state ≡ committed j₁
        → acc₂.state ≡ committed j₂
        → (both : List A) × Distinct both
          × (max_faulty < length both)
          × All
              (λ a.
                VotedFor acc₁.commits j₁.unchecked.digest a
                × VotedFor acc₂.commits j₂.unchecked.digest a)
              both
    unfolding bft_threshold
    committed_overlap j₁ j₂ inv₁ inv₂ e₁ e₂ = (
      common b₁.voters b₂.voters,
      common-Distinct b₁.voters b₂.voters b₁.distinct,
      omega (
        arith,
        b₁.enough,
        b₂.enough,
        length-common b₁.voters b₂.voters authorities b₁.distinct b₂.distinct
            (VotedFor-IsSubset acc₁.commits j₁.unchecked.digest b₁.voters authorities v₁ known₁)
            (VotedFor-IsSubset acc₂.commits j₂.unchecked.digest b₂.voters authorities v₂ known₂),
      ),
      common-All (VotedFor acc₁.commits j₁.unchecked.digest)
          (VotedFor acc₂.commits j₂.unchecked.digest) b₁.voters b₂.voters v₁ v₂,
    )
      where
        b₁ : IsJustified acc₁.threshold acc₁.round_number acc₁.commits j₁
        b₁ = rw e₁ at inv₁.backed

        b₂ : IsJustified acc₂.threshold acc₂.round_number acc₂.commits j₂
        b₂ = rw e₂ at inv₂.backed

        v₁ : All (VotedFor acc₁.commits j₁.unchecked.digest) b₁.voters
        v₁ = Recorded-VotedFor acc₁.commits _ b₁.voters _ b₁.recorded

        v₂ : All (VotedFor acc₂.commits j₂.unchecked.digest) b₂.voters
        v₂ = Recorded-VotedFor acc₂.commits _ b₂.voters _ b₂.recorded

    -- Two consistent accumulators that have both committed have committed the same digest, if at
    -- most `max_faulty` different authorities committed to one digest in the first and to another
    -- in the second, fewer than a third of the authorities may be faulty, both thresholds are
    -- `bft_threshold`, and all commit votes come from authorities.
    pub committed_digests_agree :
        (j₁ j₂ : Justification D S)
        → IsConsistent acc₁
        → IsConsistent acc₂
        → ((both : List A)
            → Distinct both
            → All (Equivocates acc₁.commits acc₂.commits) both
            → length both ≤ max_faulty)
        → acc₁.state ≡ committed j₁
        → acc₂.state ≡ committed j₂
        → j₁.unchecked.digest ≡ j₂.unchecked.digest
    committed_digests_agree j₁ j₂ inv₁ inv₂ honest e₁ e₂ =
        elim (Bool-cases (j₁.unchecked.digest == j₂.unchecked.digest)) [
          | inl same ↦ (==_iff _ _).0 same
          | inr other ↦
              let (both, d, more, all) = committed_overlap j₁ j₂ inv₁ inv₂ e₁ e₂ in
              absurd (
                omega (
                  arith,
                  more,
                  honest both d (
                      All-map both
                        (λ a v. (_, _, v.0, v.1, λ e. false≢true (sym other ∙ (==_iff _ _).1 e)))
                        all),
                ))
        ]
