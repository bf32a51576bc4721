-- ===== src/Bft/Strategy/Turns/Propose.antt =====
-- substrate/bft/src/generic/mod.rs: `Strategy::propose`.
use polkadot.Prelude.{
  ◌≡◌, refl, true, false, ◌&&◌, inl, inr, Option, none, some, arith, Eq, ◌==◌, nat_eq, Bool-cases,
}
use polkadot.Bft.Messages.{Message}
use polkadot.Bft.Strategy.{
  Context, Poll, Environment, ready, not_ready, Communication, Sending, Locked, LocalState,
  Strategy, failed, current_round,
}
use polkadot.Bft.Strategy.Sound.{IsSound}
use polkadot.Bft.Strategy.Rounds.{Ends, Ends->>=}
use polkadot.Bft.Strategy.Turns.{
  is_start, is_begin, fetch_proposal, obtain_proposal, send_proposal, propose,
}
use polkadot.Bft.Strategy.Turns.Sent.{Signs}
use polkadot.Bft.Strategy.Turns.Steps.{
  Stands, Turned, Turned-trans, IsLaterLock-refl, quiet_Stands, send_and_set-Turned,
  send_lock-Turned,
}
use polkadot.Bft.Strategy.Turns.Ranks.{rank_start}

module _ {C D A S : Type 0} ⦃eD : Eq D⦄ ⦃eA : Eq A⦄ (ctx : Context C D A S) where
  fetch_proposal-Stands :
      {E : Type 0} (poll : Poll C E) (s : Strategy C D A S)
      → IsSound ctx s
      → Ends (λ (s', _). IsSound ctx s' × Stands s s') (fetch_proposal ctx poll s)
  unfolding fetch_proposal
  fetch_proposal-Stands (ready p) s k = (k, (refl, refl, refl))
  fetch_proposal-Stands not_ready s k = (k, (refl, refl, refl))
  fetch_proposal-Stands (failed e) s k = tt

  obtain_proposal-Stands :
      {E : Type 0} (env : Environment C E) (l : Option (Locked D S)) (s : Strategy C D A S)
      → IsSound ctx s
      → Ends (λ (s', _). IsSound ctx s' × Stands s s') (obtain_proposal ctx env l s)
  unfolding obtain_proposal
  obtain_proposal-Stands env (some l) s k = (k, (refl, refl, refl))
  obtain_proposal-Stands env none s k = fetch_proposal-Stands env.proposal s k

  send_proposal-Turned :
      (p : Option C) (s : Strategy C D A S) (sending : Sending (Communication C D A S))
      → Signs ctx
      → IsSound ctx s
      → is_start s.local_state ≡ true
      → Turned ctx (s, sending) (send_proposal ctx p (s, sending))
  unfolding send_proposal
  send_proposal-Turned none s sending signs k start =
      quiet_Stands ctx s s sending k (refl, refl, refl)
  send_proposal-Turned (some p) s sending signs k start =
      let rank_zero = rank_start s.local_state start in
      send_lock-Turned ctx _ _ _ _ (
        send_and_set-Turned ctx (Message.propose (current_round s) p) s
          (record s { fetching_proposal = false }) LocalState.proposed sending signs k refl
          (IsLaterLock-refl s.locked) (omega (arith, rank_zero)) (omega arith))

  pub propose-Turned :
      {E : Type 0} (env : Environment C E) (s : Strategy C D A S)
      (sending : Sending (Communication C D A S))
      → Signs ctx
      → IsSound ctx s
      → Ends (Turned ctx (s, sending)) (propose ctx env (s, sending))
  unfolding propose
  propose-Turned env s sending signs k = elim (Bool-cases (is_start s.local_state)) [
    | inr later ↦ rw later (quiet_Stands ctx s s sending k (refl, refl, refl))
    | inl start ↦
        elim (Bool-cases (
          is_begin s.current_accumulator.state
          && s.local_id == ctx.round_proposer (current_round s))) [
            | inr other ↦ rw (start, other) (quiet_Stands ctx s s sending k (refl, refl, refl))
            | inl primary ↦
                rw (start, primary)
                  (Ends->>= (λ (s', _). IsSound ctx s' × Stands s s') (Turned ctx (s, sending))
                    (obtain_proposal ctx env s.locked s) _ (obtain_proposal-Stands env s.locked s k)
                    (λ (s', p) (sound, same).
                      Turned-trans ctx _ _ _ (quiet_Stands ctx s s' sending sound same)
                        (send_proposal-Turned p s' sending signs sound (rw same.1 start))))
          ]
  ]
