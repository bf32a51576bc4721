-- ===== src/Bft/Strategy/Turns/Loop.antt =====
-- substrate/bft/src/generic/mod.rs: the loop of `Strategy::poll`.
use polkadot.Prelude.{
  length, ℕ, ◌+◌, ◌*◌, ◌≤◌, ◌<◌, ◌≡◌, refl, false, inl, inr, Option, none, some, List, [], ◌∷◌,
  arith, Eq, nat_eq, ltb, Bool-cases,
}
use polkadot.Bft.Strategy.{
  Context, Environment, Outcome, done, failed, panicked, Node, current_round,
}
use polkadot.Bft.Strategy.Sound.{IsSound}
use polkadot.Bft.Strategy.Rounds.{Ends, Ends->>=}
use polkadot.Bft.Strategy.Turns.Drive.{
  Polled, waiting, running, concluded, settle, same_watermark, poll,
}
use polkadot.Bft.Strategy.Turns.Sent.{Ascending-le, Signs, place}
use polkadot.Bft.Strategy.Turns.Steps.{Turned, Turned-trans, quiet_Stands}
use polkadot.Bft.Strategy.Turns.Ranks.{rank_le, local_state_eq-rank}
use polkadot.Bft.Strategy.{Committed}
use polkadot.Bft.Strategy.Turns.{poll_once}
use polkadot.Bft.Strategy.Turns.Conclude.{IsCommitted, Concluded, poll_once-Concluded}

module _ {C D A S : Type 0} ⦃eD : Eq D⦄ ⦃eA : Eq A⦄ (ctx : Context C D A S) where
  -- How far the loop has got: it has stopped, or gained a number of places.
  abbrev Gains : ℕ → Node C D A S → Polled C D A S → Type 0
  Gains count n (waiting n') = Turned ctx n n'
  Gains count n (concluded n' c) = Turned ctx n n' × IsCommitted ctx n'.0 c
  Gains count n (running n') = Turned ctx n n' × (place n.0 + count ≤ place n'.0)

  Gains-more :
      {E : Type 0} (count : ℕ) (l m : Node C D A S) (o : Outcome (Polled C D A S) E)
      → Turned ctx l m
      → place l.0 < place m.0
      → Ends (Gains count m) o
      → Ends (Gains (count + 1) l) o
  Gains-more count l m (done (waiting n)) h up k = Turned-trans ctx l m n h k
  Gains-more count l m (done (concluded n c)) h up (k, k') = (Turned-trans ctx l m n h k, k')
  Gains-more count l m (done (running n)) h up (k, k') =
      (Turned-trans ctx l m n h k, omega (arith, up, k'))
  Gains-more count l m (failed e) h up k = tt
  Gains-more count l m panicked h up k = k

  -- A turn that changes the watermark gains a place.
  place-watermark :
      (n n' : Node C D A S)
      → place n.0 ≤ place n'.0
      → same_watermark n.0 n'.0 ≡ false
      → place n.0 < place n'.0
  unfolding same_watermark
  place-watermark n n' h other =
      let a = rank_le n.0.local_state in
      let b = rank_le n'.0.local_state in
      elim (Bool-cases (ltb (place n.0) (place n'.0))) [
        | inl less ↦ ground arith
        | inr stays ↦
            let same : place n.0 ≡ place n'.0 = ground arith in
            let round : current_round n.0 ≡ current_round n'.0 = omega (arith, same, a, b) in
            let state =
              local_state_eq-rank n.0.local_state n'.0.local_state (omega (arith, same, round)) in
            absurd (ground (arith, round, state, other))
      ]

  settle-Gains :
      {E : Type 0} (count : ℕ) (n n' : Node C D A S) (result : Option (Committed C D S))
      (rest : Outcome (Polled C D A S) E)
      → Concluded ctx n (n', result)
      → Ends (Gains count n') rest
      → Ends (Gains (count + 1) n) (settle ctx n.0 n' result rest)
  unfolding settle
  settle-Gains count n n' (some c) rest (h, committed_as) k = (h, committed_as c refl)
  settle-Gains count n n' none rest (h, _) k = elim (Bool-cases (same_watermark n.0 n'.0)) [
    | inl stays ↦ rw stays h
    | inr moves ↦ rw moves (
        Gains-more count n n' rest h
          (place-watermark n n' (Ascending-le _ _ h.sent h.ascending) moves) k)
  ]

  poll-Gains :
      {E : Type 0} (envs : List (Environment C E)) (n : Node C D A S)
      → Signs ctx
      → IsSound ctx n.0
      → Ends (Gains (length envs) n) (poll ctx envs n)
  unfolding poll
  poll-Gains [] n signs k = (quiet_Stands ctx n.0 n.0 n.1 k (refl, refl, refl), omega arith)
  poll-Gains (env ∷ envs) n signs k =
      let more : length (env ∷ envs) ≡ length envs + 1 = omega arith in
      rw more (
        Ends->>= (Concluded ctx n) (Gains (length envs + 1) n) (poll_once ctx env n) _
          (poll_once-Concluded ctx env n signs k)
          (λ (n', result) h.
            settle-Gains (length envs) n n' result _ h (poll-Gains envs n' signs h.0.sound)))

  abbrev pub Stops : ℕ → Node C D A S → Polled C D A S → Type 0
  Stops rounds n (waiting n') = Turned ctx n n'
  Stops rounds n (concluded n' c) = IsCommitted ctx n'.0 c
  Stops rounds n (running n') = current_round n.0 + rounds ≤ current_round n'.0

  Gains-rounds :
      {E : Type 0} (rounds count : ℕ) (n : Node C D A S) (o : Outcome (Polled C D A S) E)
      → 6 * rounds ≤ count
      → Ends (Gains count n) o
      → Ends (Stops rounds n) o
  Gains-rounds rounds count n (done (waiting n')) h k = k
  Gains-rounds rounds count n (done (concluded n' c)) h (_, k) = k
  Gains-rounds rounds count n (done (running n')) h (_, k) =
      let last = rank_le n'.0.local_state in omega (arith, h, k, last)
  Gains-rounds rounds count n (failed e) h k = tt
  Gains-rounds rounds count n panicked h k = k

  -- From the invariant of a node, and for a signer that returns what it signs, the loop of `poll`
  -- does not panic, and 6 turns for each of a number of rounds are enough: unless a future fails,
  -- the loop waits for a future, has committed by a justification of the round and with the
  -- candidate of its digest, or has advanced by that number of rounds.
  pub poll-Stops :
      {E : Type 0} (rounds : ℕ) (envs : List (Environment C E)) (n : Node C D A S)
      → Signs ctx
      → IsSound ctx n.0
      → 6 * rounds ≤ length envs
      → Ends (Stops rounds n) (poll ctx envs n)
  poll-Stops rounds envs n signs k h =
      Gains-rounds rounds (length envs) n (poll ctx envs n) h (poll-Gains envs n signs k)
