-- ===== src/Bft/Accumulator/Safety.antt =====
-- Agreement of two nodes, for whatever messages each of them has received.
use polkadot.Prelude.{
  ℕ, ◌*◌, ◌≤◌, ◌<◌, ◌≡◌, ◌∙◌, refl, List, All, arith, length, Eq, nat_eq, Distinct,
}
use polkadot.Prelude.Map
use polkadot.Bft.Messages.{LocalizedMessage}
use polkadot.Bft.Justification.{Justification}
use polkadot.Bft.Threshold.{bft_threshold}
use polkadot.Bft.Accumulator.{committed, Accumulator, new}
use polkadot.Bft.Accumulator.Invariant.{IsConsistent, new-IsConsistent}
use polkadot.Bft.Accumulator.Runs.{import_all, import_all-IsConsistent, import_all-SameRound}
use polkadot.Bft.Accumulator.Senders.{HasKnownVoters, IsKnownSender, import_all-HasKnownVoters}
use polkadot.Bft.Accumulator.Agreement.{Equivocates, committed_digests_agree}

module _ (C D S : Type 0) {A : Type 0} ⦃eD : Eq D⦄ ⦃eA : Eq A⦄ where
  new-HasKnownVoters :
      (authorities : List A) (round threshold : ℕ) (proposer : A)
      → HasKnownVoters {C = C} {D = D} {S = S} authorities (new round threshold proposer)
  unfolding new Map.contains_key Map.get
  new-HasKnownVoters authorities round threshold proposer a h = absurd (ground arith)

  new-threshold :
      (round threshold : ℕ) (proposer : A)
      → (new {C = C} {D = D} {A = A} {S = S} round threshold proposer).threshold ≡ threshold
  unfolding new
  new-threshold round threshold proposer = refl

module _ {C D A S : Type 0} ⦃eD : Eq D⦄ ⦃eA : Eq A⦄ where
  -- The accumulator of a node after the messages it has received.
  abbrev pub node : List A → ℕ → ℕ → A → List (LocalizedMessage C D A S) → Accumulator C D A S
  node authorities max_faulty round proposer ms =
      import_all ms (new round (bft_threshold (length authorities) max_faulty) proposer)

  module _ (authorities : List A) (max_faulty round : ℕ) (proposer₁ proposer₂ : A)
      (ms₁ ms₂ : List (LocalizedMessage C D A S)) where
    -- Two nodes start a round with the threshold of `bft_threshold`, and each imports messages of
    -- the authorities, whichever it received and in whatever order. If fewer than a third of the
    -- authorities may be faulty, and no more than that number of different authorities have a
    -- commit for one digest on record at the first node and for another one at the second, then
    -- nodes that have both committed have committed the same digest.
    pub agreement :
        (j₁ j₂ : Justification D S)
        → 3 * max_faulty < length authorities
        → All (IsKnownSender authorities) ms₁
        → All (IsKnownSender authorities) ms₂
        → ((both : List A)
            → Distinct both
            → All
                (Equivocates
                  (node authorities max_faulty round proposer₁ ms₁).commits
                  (node authorities max_faulty round proposer₂ ms₂).commits)
                both
            → length both ≤ max_faulty)
        → (node authorities max_faulty round proposer₁ ms₁).state ≡ committed j₁
        → (node authorities max_faulty round proposer₂ ms₂).state ≡ committed j₂
        → j₁.unchecked.digest ≡ j₂.unchecked.digest
    unfolding bft_threshold
    agreement j₁ j₂ few known₁ known₂ honest e₁ e₂ =
        committed_digests_agree authorities max_faulty _ _ few (threshold_of proposer₁ ms₁)
          (threshold_of proposer₂ ms₂) (known_of proposer₁ ms₁ known₁)
          (known_of proposer₂ ms₂ known₂) j₁ j₂ (consistent proposer₁ ms₁)
          (consistent proposer₂ ms₂) honest e₁ e₂
      where
        threshold : ℕ
        threshold = bft_threshold (length authorities) max_faulty

        positive : 0 < threshold
        positive = omega (arith, few)

        threshold_of :
            (p : A) (ms : List (LocalizedMessage C D A S))
            → (node authorities max_faulty round p ms).threshold ≡ threshold
        threshold_of p ms =
            (import_all-SameRound ms (new round threshold p)).1
            ∙ new-threshold C D S round threshold p

        known_of :
            (p : A) (ms : List (LocalizedMessage C D A S))
            → All (IsKnownSender authorities) ms
            → HasKnownVoters authorities (node authorities max_faulty round p ms)
        known_of p ms h =
            import_all-HasKnownVoters authorities ms _ h
              (new-HasKnownVoters C D S authorities round threshold p)

        consistent :
            (p : A) (ms : List (LocalizedMessage C D A S))
            → IsConsistent (node authorities max_faulty round p ms)
        consistent p ms = import_all-IsConsistent ms _ (new-IsConsistent round threshold p positive)
