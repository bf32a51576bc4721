-- ===== src/Bft/Strategy/Sound.antt =====
-- substrate/bft/src/generic/mod.rs: the invariant of `Strategy`, in the imports and between rounds.
use polkadot.Prelude.{
  ℕ, ◌≤◌, ◌<◌, ◌≡◌, ◌∙◌, sym, refl, inl, inr, Option, none, some, arith, ltb, Result, ok, err, Eq,
  ◌==◌, ==_iff, nat_eq, Option-cases, Bool-cases,
}
use polkadot.Prelude.Map
use polkadot.Prelude.Map.{Map}
use polkadot.Bft.Messages.{LocalizedMessage, message_sender, message_round}
use polkadot.Bft.Threshold.{bft_threshold}
use polkadot.Bft.Accumulator
use polkadot.Bft.Accumulator.{Misbehavior, Accumulator, current_proposal}
use polkadot.Bft.Accumulator.Invariant.{IsConsistent, new-IsConsistent}
use polkadot.Bft.Accumulator.Imports.{import_message-IsConsistent}
use polkadot.Bft.Accumulator.Runs.{import_message-SameRound}
use polkadot.Bft.Strategy.{
  Context, Locked, Strategy, current_round, new_accumulator, note_misbehavior, import_current,
  import_future, import_message,
}

module _ {C D A S : Type 0} ⦃eD : Eq D⦄ ⦃eA : Eq A⦄ where
  -- An accumulator of a round, with the threshold of the strategy.
  pub record IsRound (threshold round : ℕ) (acc : Accumulator C D A S) : Type 0 where
    pub of_round : acc.round_number ≡ round
    pub of_threshold : acc.threshold ≡ threshold
    pub consistent : IsConsistent acc

  pub record Sound (ctx : Context C D A S) (threshold : ℕ) (current : Accumulator C D A S)
      (future : Map ℕ (Accumulator C D A S)) (locked : Option (Locked D S)) (notable : Map D C)
      : Type 0 where
    pub positive : 0 < threshold
    pub present : IsRound threshold current.round_number current
    pub keyed :
        (r : ℕ) (acc : Accumulator C D A S) → Map.get future r ≡ some acc → IsRound threshold r acc
    pub ahead :
        (r : ℕ) (acc : Accumulator C D A S) → Map.get future r ≡ some acc → current.round_number < r
    pub lock_round :
        (l : Locked D S)
        → locked ≡ some l
        → l.justification.unchecked.round_number ≤ current.round_number
    pub candidates : (d : D) (c : C) → Map.get notable d ≡ some c → ctx.candidate_digest c ≡ d

  -- Every accumulator is consistent, of its round and with the threshold of `bft_threshold`;
  -- the accumulators kept for the future are of later rounds, the
  -- lock is not of a later round, and the candidates are stored under their digests.
  abbrev pub IsSound : Context C D A S → Strategy C D A S → Type 0
  IsSound ctx s =
      Sound ctx (bft_threshold s.nodes s.max_faulty) s.current_accumulator s.future_accumulators
        s.locked s.notable_candidates

  import_message-IsRound :
      (t r : ℕ) (acc : Accumulator C D A S) (m : LocalizedMessage C D A S)
      → IsRound t r acc
      → IsRound t r (Accumulator.import_message m acc).0
  import_message-IsRound t r acc m k =
      let (same_round, same_threshold) = import_message-SameRound acc m in
      record {
        of_round = same_round ∙ k.of_round;
        of_threshold = same_threshold ∙ k.of_threshold;
        consistent = import_message-IsConsistent acc m k.consistent;
      }

  pub new-IsRound : (t r : ℕ) (p : A) → 0 < t → IsRound t r (Accumulator.new r t p)
  unfolding Accumulator.new
  new-IsRound t r p h = record {
    of_round = refl;
    of_threshold = refl;
    consistent = new-IsConsistent r t p h;
  }

  note_misbehavior-IsSound :
      (ctx : Context C D A S) (sender : A) (r : Result (Unit {0}) (Misbehavior D S))
      (s : Strategy C D A S)
      → IsSound ctx s
      → IsSound ctx (note_misbehavior sender r s)
  unfolding note_misbehavior
  note_misbehavior-IsSound ctx sender (ok _) s k = k
  note_misbehavior-IsSound ctx sender (err m) s k = k

  import_current-IsSound :
      (ctx : Context C D A S) (m : LocalizedMessage C D A S) (s : Strategy C D A S)
      → IsSound ctx s
      → IsSound ctx (import_current m s)
  unfolding import_current
  import_current-IsSound ctx m s k =
      let (acc, result) = Accumulator.import_message m s.current_accumulator in
      let (same_round, _) = import_message-SameRound s.current_accumulator m in
      note_misbehavior-IsSound ctx (message_sender m) result
        (record s { current_accumulator = acc })
        (record {
          positive = k.positive;
          present = rw same_round (import_message-IsRound _ _ s.current_accumulator m k.present);
          keyed = k.keyed;
          ahead = λ r later h. rw same_round (k.ahead r later h);
          lock_round = λ l h. rw same_round (k.lock_round l h);
          candidates = k.candidates;
        })

  future-IsRound :
      (ctx : Context C D A S) (r : ℕ) (s : Strategy C D A S)
      → IsSound ctx s
      → IsRound
          (bft_threshold s.nodes s.max_faulty)
          r
          (elim (Map.get s.future_accumulators r) as (λ _. Accumulator C D A S) [
            | none ↦ new_accumulator ctx s r
            | some acc ↦ acc
          ])
  unfolding new_accumulator
  future-IsRound ctx r s k = elim (Option-cases (Map.get s.future_accumulators r)) [
    | inl q ↦ rw q (new-IsRound _ r _ k.positive)
    | inr (acc, q) ↦ rw q (k.keyed r acc q)
  ]

  keyed-insert :
      (t r : ℕ) (new : Accumulator C D A S) (future : Map ℕ (Accumulator C D A S))
      → IsRound t r new
      → ((r' : ℕ) (acc : Accumulator C D A S) → Map.get future r' ≡ some acc → IsRound t r' acc)
      → (r' : ℕ) (acc : Accumulator C D A S) → Map.get (Map.insert future r new) r' ≡ some acc
      → IsRound t r' acc
  keyed-insert t r new future here keyed r' acc h = elim (Bool-cases (r == r')) [
    | inl e ↦
        let same : r ≡ r' = (==_iff r r').0 e in
        let what : new ≡ acc = ground (arith, Map.get-insert future r r' new) in
        rw (sym same, sym what) here
    | inr e ↦ keyed r' acc (ground (arith, Map.get-insert future r r' new))
  ]

  ahead-insert :
      (now r : ℕ) (new : Accumulator C D A S) (future : Map ℕ (Accumulator C D A S))
      → now < r
      → ((r' : ℕ) (acc : Accumulator C D A S) → Map.get future r' ≡ some acc → now < r')
      → (r' : ℕ) (acc : Accumulator C D A S) → Map.get (Map.insert future r new) r' ≡ some acc
      → now < r'
  ahead-insert now r new future after ahead r' acc h =
      ground (arith, Map.get-insert future r r' new, ==_iff r r', ahead r' acc)

  import_future-IsSound :
      (ctx : Context C D A S) (m : LocalizedMessage C D A S) (s : Strategy C D A S)
      → IsSound ctx s
      → current_round s < message_round m
      → IsSound ctx (import_future ctx m s)
  unfolding import_future
  import_future-IsSound ctx m s k after = note_misbehavior-IsSound ctx _ _ _ (record {
    positive = k.positive;
    present = k.present;
    keyed =
        keyed-insert _ (message_round m) _ s.future_accumulators
          (import_message-IsRound _ _ _ m (future-IsRound ctx (message_round m) s k)) k.keyed;
    ahead = ahead-insert (current_round s) (message_round m) _ s.future_accumulators after k.ahead;
    lock_round = k.lock_round;
    candidates = k.candidates;
  })

  pub import_message-IsSound :
      (ctx : Context C D A S) (m : LocalizedMessage C D A S) (s : Strategy C D A S)
      → IsSound ctx s
      → IsSound ctx (import_message ctx m s)
  unfolding import_message
  import_message-IsSound ctx m s k = elim (Bool-cases (message_round m == current_round s)) [
    | inl now ↦ rw now (import_current-IsSound ctx m s k)
    | inr other ↦ elim (Bool-cases (ltb (current_round s) (message_round m))) [
      | inl later ↦ rw (other, later) (import_future-IsSound ctx m s k (ground arith))
      | inr earlier ↦ rw (other, earlier) k
    ]
  ]
