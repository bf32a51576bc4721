-- ===== src/Bft/Accumulator/Quorum.antt =====
-- substrate/bft/src/generic/accumulator.rs: the state and the quorums of the recorded votes.
use polkadot.Prelude.{
  ℕ, ◌≤◌, ◌<◌, ◌≡◌, ◌⊎◌, ◌↔◌, refl, true, none, some, List, [], ◌∷◌, arith, length, IsSubset,
  length_le_of_subset, Eq, nat_eq, ==_iff, contains, inl, inr,
}
use polkadot.Prelude.Map
use polkadot.Prelude.Map.{Map}
use polkadot.Bft.Messages.{LocalizedMessage}
use mathlib.Core.Path.{subst}
use polkadot.Bft.Justification.{Justification}
use polkadot.Bft.Accumulator.{
  State, begin, proposed, prepared, committed, advanced, Accumulator, new, signatures_for,
}
use polkadot.Bft.Accumulator.Votes.{voters_for, length-voters_for, Recorded, IsJustified}
use polkadot.Bft.Accumulator.Invariant.{NoQuorum, Pending, Backed, IsConsistent, new-IsConsistent}
use polkadot.Bft.Accumulator.Runs.{import_all, import_all-IsConsistent, import_all-SameRound}

module _ {D A S : Type 0} ⦃eD : Eq D⦄ ⦃eA : Eq A⦄ where
  contains-voters :
      (m : Map A (D × S)) (d : D) (a : A) (s : S)
      → Map.get m a ≡ some (d, s)
      → contains (voters_for d m) a ≡ true
  unfolding contains Map.get voters_for
  contains-voters [] d a s h = absurd (cc h)
  contains-voters ((b, (d', t)) ∷ m) d a s h =
      ground (arith, ==_iff b a, ==_iff d' d, contains-voters m d a s)

  Recorded-IsSubset :
      (m : Map A (D × S)) (d : D) (voters : List A) (ss : List S)
      → Recorded m d voters ss
      → IsSubset voters (voters_for d m)
  unfolding contains
  Recorded-IsSubset m d [] ss r a h = absurd (ground arith)
  Recorded-IsSubset m d (v ∷ voters) [] r a h = elim r [ ]
  Recorded-IsSubset m d (v ∷ voters) (s ∷ ss) r a h =
      ground (arith, ==_iff v a, contains-voters m d v s, Recorded-IsSubset m d voters ss r.1 a)

  -- A justification shows a quorum for its digest.
  IsJustified-quorum :
      (t r : ℕ) (m : Map A (D × S)) (j : Justification D S)
      → IsJustified t r m j
      → t ≤ length (signatures_for j.unchecked.digest m)
  IsJustified-quorum t r m j h = omega (
    arith,
    h.enough,
    length_le_of_subset h.voters (voters_for j.unchecked.digest m) h.distinct
        (Recorded-IsSubset m j.unchecked.digest h.voters j.unchecked.signatures h.recorded),
    length-voters_for j.unchecked.digest m,
  )

  abbrev pub HasQuorum : ℕ → Map A (D × S) → Type 0
  HasQuorum threshold votes = (d : D) × (threshold ≤ length (signatures_for d votes))

abbrev pub IsCommitted : {C D S : Type 0} → State C D S → Type 0
IsCommitted {D} {S} state = (j : Justification D S) × (state ≡ committed j)

module _ {C D A S : Type 0} ⦃eD : Eq D⦄ ⦃eA : Eq A⦄ where
  -- What each state says of the votes.
  abbrev pub Reports : ℕ → Accumulator C D A S → State C D S → Type 0
  Reports t acc begin =
      NoQuorum t acc.prepares × (length acc.advance_round < t) × NoQuorum t acc.commits
  Reports t acc (proposed _) =
      NoQuorum t acc.prepares × (length acc.advance_round < t) × NoQuorum t acc.commits
  Reports t acc (prepared j) =
      (t ≤ length (signatures_for j.unchecked.digest acc.prepares))
      × (length acc.advance_round < t)
      × NoQuorum t acc.commits
  Reports t acc (advanced none) = (t ≤ length acc.advance_round) × NoQuorum t acc.commits
  Reports t acc (advanced (some j)) =
      (t ≤ length (signatures_for j.unchecked.digest acc.prepares))
      × (t ≤ length acc.advance_round)
      × NoQuorum t acc.commits
  Reports t acc (committed j) = t ≤ length (signatures_for j.unchecked.digest acc.commits)

  state-Reports :
      (acc : Accumulator C D A S) (state : State C D S)
      → Backed acc.threshold acc.round_number acc.prepares acc.commits state
      → Pending acc.threshold (length acc.advance_round) acc.prepares acc.commits state
      → Reports acc.threshold acc state
  state-Reports acc begin b p = p
  state-Reports acc (proposed c) b p = p
  state-Reports acc (prepared j) b p =
      (IsJustified-quorum acc.threshold acc.round_number acc.prepares j b, p.0, p.1)
  state-Reports acc (advanced none) b p = p
  state-Reports acc (advanced (some j)) b p =
      (IsJustified-quorum acc.threshold acc.round_number acc.prepares j b, p.0, p.1)
  state-Reports acc (committed j) b p =
      IsJustified-quorum acc.threshold acc.round_number acc.commits j b

  -- A new accumulator with a positive threshold, and any messages imported: while the state is begun
  -- or proposed, no digest has a quorum of prepares or commits and the advance votes are below the
  -- threshold; a prepared state has a quorum of prepares for its digest, no quorum of commits and
  -- too few advance votes; an advanced one has a threshold of advance votes, no quorum of commits,
  -- and a quorum of prepares if it holds a justification; a committed one has a quorum of commits
  -- for its digest.
  pub import_all-Reports :
      (round threshold : ℕ) (proposer : A) (ms : List (LocalizedMessage C D A S))
      → 0 < threshold
      → Reports threshold
          (import_all ms (new round threshold proposer))
          (import_all ms (new round threshold proposer)).state
  unfolding new
  import_all-Reports round threshold proposer ms pos =
      let acc = import_all ms (new round threshold proposer) in
      let inv : IsConsistent acc =
        import_all-IsConsistent ms _ (new-IsConsistent round threshold proposer pos) in
      subst (λ t. Reports t acc acc.state) (import_all-SameRound ms _).1
        (state-Reports acc acc.state inv.backed inv.pending)

  not-IsCommitted :
      (acc : Accumulator C D A S) (state : State C D S)
      → Pending acc.threshold (length acc.advance_round) acc.prepares acc.commits state
      → IsCommitted state ⊎ NoQuorum acc.threshold acc.commits
  not-IsCommitted acc begin p = inr p.2
  not-IsCommitted acc (proposed c) p = inr p.2
  not-IsCommitted acc (prepared c) p = inr p.1
  not-IsCommitted acc (advanced c) p = inr p.1
  not-IsCommitted acc (committed j) p = inl (j, refl)

  -- After any messages, an accumulator that began with a positive threshold is in the committed
  -- state exactly when some digest has recorded commit votes of at least that many authorities.
  pub import_all-IsCommitted :
      (round threshold : ℕ) (proposer : A) (ms : List (LocalizedMessage C D A S))
      → 0 < threshold
      → IsCommitted (import_all ms (new round threshold proposer)).state
        ↔ HasQuorum threshold (import_all ms (new round threshold proposer)).commits
  unfolding new
  import_all-IsCommitted round threshold proposer ms pos =
      let acc = import_all ms (new round threshold proposer) in
      let inv : IsConsistent acc =
        import_all-IsConsistent ms _ (new-IsConsistent round threshold proposer pos) in
      (
        λ (j, e).
            (j.unchecked.digest, rw e at (import_all-Reports round threshold proposer ms pos)),
        λ (d, h). elim (not-IsCommitted acc acc.state inv.pending) [
          | inl done ↦ done
          | inr none_yet ↦ absurd (
              omega
                (arith, none_yet d, h, (import_all-SameRound ms (new round threshold proposer)).1))
        ],
      )
