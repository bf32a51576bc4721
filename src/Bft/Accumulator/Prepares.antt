-- ===== src/Bft/Accumulator/Prepares.antt =====
-- substrate/bft/src/generic/accumulator.rs: the invariant in `import_prepare`.
use polkadot.Prelude.{
  ℕ, ◌+◌, ◌≡◌, refl, Bool, true, false, none, some, arith, if◌then◌else◌, length, Eq, ==_iff,
  ==_refl,
}
use polkadot.Prelude.Map
use polkadot.Prelude.Map.{Map}
use polkadot.Bft.Justification.{Justification}
use polkadot.Bft.Accumulator.{
  State, begin, proposed, prepared, committed, advanced, Accumulator, VoteCounts, counts_of,
  justify, record_prepare, observe_prepared,
}
use polkadot.Bft.Accumulator.Votes.{
  counts_of-insert, signatures_for-insert, IsJustified, justify-IsJustified, IsJustified-insert,
}
use polkadot.Bft.Accumulator.Invariant.{NoQuorum, NoQuorum-insert, Backed, Pending, IsConsistent}

module _ {C D A S : Type 0} ⦃eD : Eq D⦄ ⦃eA : Eq A⦄ where
  Backed-more_prepares :
      (t r : ℕ) (m commits : Map A (D × S)) (a : A) (v : D × S) (state : State C D S)
      → Map.get m a ≡ none
      → Backed t r m commits state
      → Backed t r (Map.insert m a v) commits state
  Backed-more_prepares t r m commits a v (prepared j) h b = IsJustified-insert t r m j a v h b
  Backed-more_prepares t r m commits a v (advanced (some j)) h b =
      IsJustified-insert t r m j a v h b
  Backed-more_prepares t r m commits a v (committed j) h b = b
  Backed-more_prepares t r m commits a v (advanced none) h b = tt
  Backed-more_prepares t r m commits a v begin h b = tt
  Backed-more_prepares t r m commits a v (proposed c) h b = tt

  observe_prepared-Backed :
      (t r : ℕ) (prepares commits : Map A (D × S)) (b : Bool) (j : Justification D S)
      (state : State C D S)
      → (b ≡ true → IsJustified t r prepares j)
      → Backed t r prepares commits state
      → Backed t r prepares commits (if b then observe_prepared j state else state)
  unfolding observe_prepared
  observe_prepared-Backed t r prepares commits false j state h k = k
  observe_prepared-Backed t r prepares commits true j begin h k = h refl
  observe_prepared-Backed t r prepares commits true j (proposed c) h k = h refl
  observe_prepared-Backed t r prepares commits true j (prepared c) h k = k
  observe_prepared-Backed t r prepares commits true j (committed c) h k = k
  observe_prepared-Backed t r prepares commits true j (advanced c) h k = k

  observe_prepared-Pending :
      (t n : ℕ) (prepares prepares' commits : Map A (D × S)) (b : Bool) (j : Justification D S)
      (state : State C D S)
      → (b ≡ false → NoQuorum t prepares → NoQuorum t prepares')
      → Pending t n prepares commits state
      → Pending t n prepares' commits (if b then observe_prepared j state else state)
  unfolding observe_prepared
  observe_prepared-Pending t n p p' commits false j begin h k = (h refl k.0, k.1, k.2)
  observe_prepared-Pending t n p p' commits false j (proposed c) h k = (h refl k.0, k.1, k.2)
  observe_prepared-Pending t n p p' commits false j (prepared c) h k = k
  observe_prepared-Pending t n p p' commits false j (committed c) h k = k
  observe_prepared-Pending t n p p' commits false j (advanced c) h k = k
  observe_prepared-Pending t n p p' commits true j begin h k = (k.1, k.2)
  observe_prepared-Pending t n p p' commits true j (proposed c) h k = (k.1, k.2)
  observe_prepared-Pending t n p p' commits true j (prepared c) h k = k
  observe_prepared-Pending t n p p' commits true j (committed c) h k = k
  observe_prepared-Pending t n p p' commits true j (advanced c) h k = k

  pub record_prepare-IsConsistent :
      (acc : Accumulator C D A S) (d : D) (a : A) (s : S)
      → Map.get acc.prepares a ≡ none
      → IsConsistent acc
      → IsConsistent (record_prepare d a s acc)
  unfolding record_prepare
  record_prepare-IsConsistent acc d a s h inv = record {
    prepares_distinct = Map.insert-Distinct acc.prepares a (d, s) inv.prepares_distinct;
    commits_distinct = inv.commits_distinct;
    advance_distinct = inv.advance_distinct;
    prepared_counted = λ d'. ground (
      arith,
      counts_of-insert acc.vote_counts d d' count,
      signatures_for-insert d' acc.prepares a d s,
      inv.prepared_counted d',
      inv.prepared_counted d,
      ==_iff d d',
    );
    committed_counted = λ d'. ground (
      arith,
      counts_of-insert acc.vote_counts d d' count,
      inv.committed_counted d',
      inv.committed_counted d,
      ==_iff d d',
    );
    backed =
        observe_prepared-Backed acc.threshold acc.round_number prepares' acc.commits _
          (justify acc.round_number d prepares') acc.state
          (λ reached.
            justify-IsJustified acc.threshold acc.round_number d prepares'
              (Map.insert-Distinct acc.prepares a (d, s) inv.prepares_distinct)
              (ground (
                arith,
                signatures_for-insert d acc.prepares a d s,
                inv.prepared_counted d,
                ==_refl d,
              )))
          (Backed-more_prepares acc.threshold acc.round_number acc.prepares acc.commits a (d, s)
            acc.state h inv.backed);
    pending =
        observe_prepared-Pending acc.threshold (length acc.advance_round) acc.prepares prepares'
          acc.commits _ (justify acc.round_number d prepares') acc.state
          (λ missed.
            NoQuorum-insert acc.threshold acc.prepares d a s h
              (ground (arith, inv.prepared_counted d)))
          inv.pending;
  }
    where
      count : VoteCounts
      count = record {
        prepared = (counts_of acc.vote_counts d).prepared + 1;
        committed = (counts_of acc.vote_counts d).committed;
      }

      prepares' : Map A (D × S)
      prepares' = Map.insert acc.prepares a (d, s)
