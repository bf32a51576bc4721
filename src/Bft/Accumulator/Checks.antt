-- ===== src/Bft/Accumulator/Checks.antt =====
-- substrate/bft/src/generic/accumulator.rs: the justifications that an accumulator makes,
-- against `check`.
use mathlib.Core.Path.{subst}
use polkadot.Prelude.{
  ℕ, ◌<◌, ◌≡◌, refl, ◌∙◌, Option, none, some, List, [], ◌∷◌, ok, Eq, nat_eq, All,
}
use polkadot.Prelude.Map
use polkadot.Prelude.Map.{Map}
use polkadot.Bft.Messages.{LocalizedMessage}
use polkadot.Bft.Justification.{Justification, check}
use polkadot.Bft.Accumulator.{
  State, begin, proposed, prepared, committed, advanced, Accumulator, import_message, new,
}
use polkadot.Bft.Justification.Voters.{check_exact}
use polkadot.Bft.Accumulator.Votes.{IsJustified}
use polkadot.Bft.Accumulator.Invariant.{Backed, IsConsistent, new-IsConsistent}
use polkadot.Bft.Accumulator.Runs.{
  import_all, import_all-IsConsistent, SameRound, import_all-SameRound,
}
use polkadot.Bft.Accumulator.Signers.{
  IsSigned, MapSigned, Signed-of_Recorded, VotesSigned, import_message-VotesSigned,
}

module _ {D A S : Type 0} ⦃eD : Eq D⦄ ⦃eA : Eq A⦄ where
  IsJustified-check :
      (signer : ℕ → D → S → Option A) (threshold round : ℕ) (votes : Map A (D × S))
      (j : Justification D S)
      → MapSigned (signer round) votes
      → IsJustified threshold round votes j
      → check j.unchecked threshold signer ≡ ok j
  IsJustified-check signer threshold round votes j inv h =
      (check_exact signer threshold j.unchecked).1 (
        h.voters,
        rw h.same_round (
            Signed-of_Recorded (signer round) votes j.unchecked.digest h.voters
              j.unchecked.signatures inv h.recorded),
        h.distinct,
        h.enough,
      )

module _ {C D A S : Type 0} ⦃eD : Eq D⦄ ⦃eA : Eq A⦄ where
  module _ (prepare_signer commit_signer : ℕ → D → S → Option A) where
    new-VotesSigned :
        (round threshold : ℕ) (proposer : A)
        → VotesSigned prepare_signer commit_signer
            (new {C = C} {D = D} {A = A} {S = S} round threshold proposer)
    unfolding new Map.get
    new-VotesSigned round threshold proposer = record {
      prepares_signed = λ a d s h. absurd (cc h);
      commits_signed = λ a d s h. absurd (cc h);
    }

    import_all-VotesSigned :
        (ms : List (LocalizedMessage C D A S)) (acc : Accumulator C D A S)
        → All (IsSigned prepare_signer commit_signer) ms
        → VotesSigned prepare_signer commit_signer acc
        → VotesSigned prepare_signer commit_signer (import_all ms acc)
    unfolding import_all
    import_all-VotesSigned [] acc h inv = inv
    import_all-VotesSigned (m ∷ ms) acc h inv =
        import_all-VotesSigned ms (import_message m acc).0 h.1
          (import_message-VotesSigned prepare_signer commit_signer acc m h.0 inv)

    -- Whatever justification the state holds, `check` accepts it.
    abbrev pub StateChecks : ℕ → State C D S → Type 0
    StateChecks threshold (prepared j) = check j.unchecked threshold prepare_signer ≡ ok j
    StateChecks threshold (advanced (some j)) = check j.unchecked threshold prepare_signer ≡ ok j
    StateChecks threshold (committed j) = check j.unchecked threshold commit_signer ≡ ok j
    StateChecks threshold _ = Unit

    Backed-StateChecks :
        (threshold round : ℕ) (prepares commits : Map A (D × S)) (state : State C D S)
        → MapSigned (prepare_signer round) prepares
        → MapSigned (commit_signer round) commits
        → Backed threshold round prepares commits state
        → StateChecks threshold state
    Backed-StateChecks t r p m begin hp hm b = tt
    Backed-StateChecks t r p m (proposed c) hp hm b = tt
    Backed-StateChecks t r p m (prepared j) hp hm b = IsJustified-check prepare_signer t r p j hp b
    Backed-StateChecks t r p m (advanced none) hp hm b = tt
    Backed-StateChecks t r p m (advanced (some j)) hp hm b =
        IsJustified-check prepare_signer t r p j hp b
    Backed-StateChecks t r p m (committed j) hp hm b = IsJustified-check commit_signer t r m j hm b

    -- From a new accumulator with a positive threshold, after any messages whose prepare and
    -- commit votes carry their senders' signatures: the justification that the state holds is
    -- accepted by `check` with that threshold.
    pub import_all-StateChecks :
        (round threshold : ℕ) (proposer : A) (ms : List (LocalizedMessage C D A S))
        → 0 < threshold
        → All (IsSigned prepare_signer commit_signer) ms
        → StateChecks threshold (import_all ms (new round threshold proposer)).state
    import_all-StateChecks round threshold proposer ms pos h =
        subst (λ t. StateChecks t acc.state) (same.1 ∙ unfold new in refl)
          (Backed-StateChecks acc.threshold acc.round_number acc.prepares acc.commits acc.state
            signed.prepares_signed signed.commits_signed inv.backed)
      where
        acc : Accumulator C D A S
        acc = import_all ms (new round threshold proposer)

        same : SameRound acc (new round threshold proposer)
        same = import_all-SameRound ms (new round threshold proposer)

        inv : IsConsistent acc
        inv = import_all-IsConsistent ms _ (new-IsConsistent round threshold proposer pos)

        signed : VotesSigned prepare_signer commit_signer acc
        signed =
            import_all-VotesSigned ms (new round threshold proposer) h
              (new-VotesSigned round threshold proposer)
