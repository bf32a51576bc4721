-- ===== src/Bft/Accumulator/Invariant.antt =====
-- substrate/bft/src/generic/accumulator.rs: the invariant of an accumulator.
use polkadot.Prelude.{ℕ, ◌+◌, ◌≤◌, ◌<◌, ◌≡◌, refl, none, some, arith, length, Eq, ==_iff, Distinct}
use polkadot.Prelude.Map
use polkadot.Prelude.Map.{Map}
use polkadot.Bft.Accumulator.{
  State, begin, proposed, prepared, committed, advanced, Accumulator, counts_of, signatures_for,
  new,
}
use polkadot.Bft.Accumulator.Votes.{signatures_for-insert, IsJustified}

module _ {D A S : Type 0} ⦃eD : Eq D⦄ where
  abbrev pub NoQuorum : ℕ → Map A (D × S) → Type 0
  NoQuorum threshold votes = (d : D) → length (signatures_for d votes) < threshold

module _ {D A S : Type 0} ⦃eD : Eq D⦄ ⦃eA : Eq A⦄ where
  -- One more vote that leaves its digest below the threshold makes no quorum.
  pub NoQuorum-insert :
      (t : ℕ) (m : Map A (D × S)) (d : D) (a : A) (s : S)
      → Map.get m a ≡ none
      → length (signatures_for d m) + 1 < t
      → NoQuorum t m
      → NoQuorum t (Map.insert m a (d, s))
  NoQuorum-insert t m d a s h below q d' =
      ground (arith, signatures_for-insert d' m a d s, q d', ==_iff d d')

module _ {C D A S : Type 0} ⦃eD : Eq D⦄ ⦃eA : Eq A⦄ where
  -- The justification of a state is made of recorded votes.
  abbrev pub Backed : ℕ → ℕ → Map A (D × S) → Map A (D × S) → State C D S → Type 0
  Backed threshold round prepares commits (prepared j) = IsJustified threshold round prepares j
  Backed threshold round prepares commits (committed j) = IsJustified threshold round commits j
  Backed threshold round prepares commits (advanced (some j)) =
      IsJustified threshold round prepares j
  Backed threshold round prepares commits _ = Unit

  -- What has not been reached yet in a state.
  abbrev pub Pending : ℕ → ℕ → Map A (D × S) → Map A (D × S) → State C D S → Type 0
  Pending threshold votes prepares commits begin =
      NoQuorum threshold prepares × (votes < threshold) × NoQuorum threshold commits
  Pending threshold votes prepares commits (proposed _) =
      NoQuorum threshold prepares × (votes < threshold) × NoQuorum threshold commits
  Pending threshold votes prepares commits (prepared _) =
      (votes < threshold) × NoQuorum threshold commits
  Pending threshold votes prepares commits (advanced _) =
      (threshold ≤ votes) × NoQuorum threshold commits
  Pending threshold votes prepares commits (committed _) = Unit

  pub record IsConsistent (acc : Accumulator C D A S) : Type 0 where
    pub prepares_distinct : Distinct (Map.keys acc.prepares)
    pub commits_distinct : Distinct (Map.keys acc.commits)
    pub advance_distinct : Distinct acc.advance_round
    pub prepared_counted :
        (d : D) → (counts_of acc.vote_counts d).prepared ≡ length (signatures_for d acc.prepares)
    pub committed_counted :
        (d : D) → (counts_of acc.vote_counts d).committed ≡ length (signatures_for d acc.commits)
    pub backed : Backed acc.threshold acc.round_number acc.prepares acc.commits acc.state
    pub pending :
        Pending acc.threshold (length acc.advance_round) acc.prepares acc.commits acc.state

  -- A new accumulator with a positive threshold is consistent.
  pub new-IsConsistent :
      (round threshold : ℕ) (proposer : A)
      → 0 < threshold
      → IsConsistent (new round threshold proposer)
  unfolding new counts_of signatures_for Map.keys Map.get
  new-IsConsistent round threshold proposer h = record {
    prepares_distinct = tt;
    commits_distinct = tt;
    advance_distinct = tt;
    prepared_counted = λ d. refl;
    committed_counted = λ d. refl;
    backed = tt;
    pending = (λ d. h, h, λ d. h);
  }
