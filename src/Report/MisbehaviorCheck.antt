-- ===== src/Report/MisbehaviorCheck.antt =====
-- substrate/misbehavior-check/src/lib.rs: the evaluation of a reported misbehavior.
-- `ed25519_verify`, of the host, is a parameter.
pub mod Verdict
mod Tests
use polkadot.Prelude.{ℕ, Bool, not, ◌&&◌, List, Eq, ◌==◌}
use polkadot.Report.{
  Slicable, prepare, commit, Message, MisbehaviorKind, bft_double_prepare, bft_double_commit,
  encode_message,
}

module _ {R H : Type 0} (B : Type 0) where
  pub prepare_message : H → R → H → Message R B H
  prepare_message parent r hash = record { parent = parent; action = prepare r hash }

  pub commit_message : H → R → H → Message R B H
  commit_message parent r hash = record { parent = parent; action = commit r hash }

module _ {R H A S : Type 0} ⦃sR : Slicable R⦄ ⦃sH : Slicable H⦄ (B : Type 0) ⦃sB : Slicable B⦄
    (ed25519_verify : S → List ℕ → A → Bool) where
  pub check_message_sig : Message R B H → S → A → Bool
  check_message_sig m signature from = ed25519_verify signature (encode_message m) from

module _ {R H A S : Type 0} ⦃sR : Slicable R⦄ ⦃sH : Slicable H⦄ ⦃eS : Eq S⦄ (B : Type 0)
    ⦃sB : Slicable B⦄ (ed25519_verify : S → List ℕ → A → Bool) where
  pub evaluate_misbehavior : A → H → MisbehaviorKind R H S → Bool
  evaluate_misbehavior misbehaved parent (bft_double_prepare r (h_1, s_1) (h_2, s_2)) =
      not (s_1 == s_2)
      && check_message_sig B ed25519_verify (prepare_message B parent r h_1) s_1 misbehaved
      && check_message_sig B ed25519_verify (prepare_message B parent r h_2) s_2 misbehaved
  evaluate_misbehavior misbehaved parent (bft_double_commit r (h_1, s_1) (h_2, s_2)) =
      not (s_1 == s_2)
      && check_message_sig B ed25519_verify (commit_message B parent r h_1) s_1 misbehaved
      && check_message_sig B ed25519_verify (commit_message B parent r h_2) s_2 misbehaved
