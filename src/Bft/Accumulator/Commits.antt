-- ===== src/Bft/Accumulator/Commits.antt =====
-- substrate/bft/src/generic/accumulator.rs: the invariant in `import_commit`.
use polkadot.Prelude.{
  ℕ, ◌+◌, ◌≡◌, refl, Bool, true, false, none, some, arith, if◌then◌else◌, length, Eq, ==_iff,
  ==_refl,
}
use polkadot.Prelude.Map
use polkadot.Prelude.Map.{Map}
use polkadot.Bft.Justification.{Justification}
use polkadot.Bft.Accumulator.{
  State, begin, proposed, prepared, committed, advanced, Accumulator, VoteCounts, counts_of,
  justify, record_commit,
}
use polkadot.Bft.Accumulator.Votes.{
  counts_of-insert, signatures_for-insert, IsJustified, justify-IsJustified, IsJustified-insert,
}
use polkadot.Bft.Accumulator.Invariant.{NoQuorum, NoQuorum-insert, Backed, Pending, IsConsistent}

module _ {C D A S : Type 0} ⦃eD : Eq D⦄ ⦃eA : Eq A⦄ where
  Backed-more_commits :
      (t r : ℕ) (prepares m : Map A (D × S)) (a : A) (v : D × S) (state : State C D S)
      → Map.get m a ≡ none
      → Backed t r prepares m state
      → Backed t r prepares (Map.insert m a v) state
  Backed-more_commits t r prepares m a v (committed j) h b = IsJustified-insert t r m j a v h b
  Backed-more_commits t r prepares m a v (prepared j) h b = b
  Backed-more_commits t r prepares m a v (advanced (some j)) h b = b
  Backed-more_commits t r prepares m a v (advanced none) h b = tt
  Backed-more_commits t r prepares m a v begin h b = tt
  Backed-more_commits t r prepares m a v (proposed c) h b = tt

  commit-Backed :
      (t r : ℕ) (prepares commits : Map A (D × S)) (b : Bool) (j : Justification D S)
      (state : State C D S)
      → (b ≡ true → IsJustified t r commits j)
      → Backed t r prepares commits state
      → Backed t r prepares commits (if b then committed j else state)
  commit-Backed t r prepares commits true j state h k = h refl
  commit-Backed t r prepares commits false j state h k = k

  commit-Pending :
      (t n : ℕ) (prepares commits commits' : Map A (D × S)) (b : Bool) (j : Justification D S)
      (state : State C D S)
      → (b ≡ false → NoQuorum t commits → NoQuorum t commits')
      → Pending t n prepares commits state
      → Pending t n prepares commits' (if b then committed j else state)
  commit-Pending t n p m m' true j state h k = tt
  commit-Pending t n p m m' false j begin h k = (k.0, k.1, h refl k.2)
  commit-Pending t n p m m' false j (proposed c) h k = (k.0, k.1, h refl k.2)
  commit-Pending t n p m m' false j (prepared c) h k = (k.0, h refl k.1)
  commit-Pending t n p m m' false j (advanced c) h k = (k.0, h refl k.1)
  commit-Pending t n p m m' false j (committed c) h k = tt

  pub record_commit-IsConsistent :
      (acc : Accumulator C D A S) (d : D) (a : A) (s : S)
      → Map.get acc.commits a ≡ none
      → IsConsistent acc
      → IsConsistent (record_commit d a s acc)
  unfolding record_commit
  record_commit-IsConsistent acc d a s h inv = record {
    prepares_distinct = inv.prepares_distinct;
    commits_distinct = Map.insert-Distinct acc.commits a (d, s) inv.commits_distinct;
    advance_distinct = inv.advance_distinct;
    prepared_counted = λ d'. ground (
      arith,
      counts_of-insert acc.vote_counts d d' count,
      inv.prepared_counted d',
      inv.prepared_counted d,
      ==_iff d d',
    );
    committed_counted = λ d'. ground (
      arith,
      counts_of-insert acc.vote_counts d d' count,
      signatures_for-insert d' acc.commits a d s,
      inv.committed_counted d',
      inv.committed_counted d,
      ==_iff d d',
    );
    backed =
        commit-Backed acc.threshold acc.round_number acc.prepares commits' _
          (justify acc.round_number d commits') acc.state
          (λ reached.
            justify-IsJustified acc.threshold acc.round_number d commits'
              (Map.insert-Distinct acc.commits a (d, s) inv.commits_distinct)
              (ground (
                arith,
                signatures_for-insert d acc.commits a d s,
                inv.committed_counted d,
                ==_refl d,
              )))
          (Backed-more_commits acc.threshold acc.round_number acc.prepares acc.commits a (d, s)
            acc.state h inv.backed);
    pending =
        commit-Pending acc.threshold (length acc.advance_round) acc.prepares acc.commits commits' _
          (justify acc.round_number d commits') acc.state
          (λ missed.
            NoQuorum-insert acc.threshold acc.commits d a s h
              (ground (arith, inv.committed_counted d)))
          inv.pending;
  }
    where
      count : VoteCounts
      count = record {
        prepared = (counts_of acc.vote_counts d).prepared;
        committed = (counts_of acc.vote_counts d).committed + 1;
      }

      commits' : Map A (D × S)
      commits' = Map.insert acc.commits a (d, s)
