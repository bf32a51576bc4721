-- ===== src/Report/RoundTrip.antt =====
-- Decoding what was encoded.
use mathlib.Core.List.{append_assoc}
use polkadot.Prelude.{ℕ, ◌≡◌, ◌∙◌, ap, refl, some, List, ◌++◌}
use polkadot.Report.{
  Slicable, encode, decode, and_then, Action, propose, propose_header, prepare, commit,
  advance_round, Message, encode_action, decode_action, encode_message, decode_message,
  MisbehaviorKind, bft_double_prepare, bft_double_commit, MisbehaviorReport, encode_kind,
  decode_pairs, decode_kind, encode_report, decode_report,
}

decode-encode :
    {A : Type 0} ⦃s : Slicable A⦄ (a : A) (rest : List ℕ)
    → decode (encode a ++ rest) ≡ some (a, rest)
unfolding decode encode
decode-encode ⦃s⦄ a rest = s.decoded-encoded a rest

decode_first :
    {A : Type 0} ⦃s : Slicable A⦄ (a : A) (more rest : List ℕ)
    → decode ((encode a ++ more) ++ rest) ≡ some (a, more ++ rest)
decode_first a more rest =
    ap decode (append_assoc (encode a) more rest) ∙ decode-encode a (more ++ rest)

module _ {R B H : Type 0} ⦃sR : Slicable R⦄ ⦃sB : Slicable B⦄ ⦃sH : Slicable H⦄ where
  decode_action-encode_action :
      (a : Action R B H) (rest : List ℕ) → decode_action (encode_action a ++ rest) ≡ some (a, rest)
  unfolding decode_action encode_action and_then
  decode_action-encode_action (propose r b) rest =
      rw (decode_first r (encode b) rest, decode-encode b rest) refl
  decode_action-encode_action (propose_header r h) rest =
      rw (decode_first r (encode h) rest, decode-encode h rest) refl
  decode_action-encode_action (prepare r h) rest =
      rw (decode_first r (encode h) rest, decode-encode h rest) refl
  decode_action-encode_action (commit r h) rest =
      rw (decode_first r (encode h) rest, decode-encode h rest) refl
  decode_action-encode_action (advance_round r) rest = rw (decode-encode r rest) refl

  -- Decoding an encoded message, whatever bytes follow, returns the message and those bytes, if
  -- the codecs of its parts do so.
  pub decode_message-encode_message :
      (m : Message R B H) (rest : List ℕ)
      → decode_message (encode_message m ++ rest) ≡ some (m, rest)
  unfolding decode_message encode_message and_then
  decode_message-encode_message m rest =
      rw
        (
          decode_first m.parent (encode_action m.action) rest,
          decode_action-encode_action m.action rest,
        )
        refl

module _ {R H S : Type 0} ⦃sR : Slicable R⦄ ⦃sH : Slicable H⦄ ⦃sS : Slicable S⦄ where
  decode_pairs_lem :
      (kind : R → H × S → H × S → MisbehaviorKind R H S) (r : R) (h_a h_b : H) (s_a s_b : S)
      (rest : List ℕ)
      → decode_pairs kind
          ((encode r ++ (encode h_a ++ (encode s_a ++ (encode h_b ++ encode s_b)))) ++ rest)
        ≡ some (kind r (h_a, s_a) (h_b, s_b), rest)
  unfolding decode_pairs and_then
  decode_pairs_lem kind r h_a h_b s_a s_b rest =
      rw
        (
          decode_first r (encode h_a ++ (encode s_a ++ (encode h_b ++ encode s_b))) rest,
          decode_first h_a (encode s_a ++ (encode h_b ++ encode s_b)) rest,
          decode_first s_a (encode h_b ++ encode s_b) rest,
          decode_first h_b (encode s_b) rest,
          decode-encode s_b rest,
        )
        refl

  decode_kind-encode_kind :
      (k : MisbehaviorKind R H S) (rest : List ℕ)
      → decode_kind (encode_kind k ++ rest) ≡ some (k, rest)
  unfolding decode_kind encode_kind
  decode_kind-encode_kind (bft_double_prepare r (h_a, s_a) (h_b, s_b)) rest =
      decode_pairs_lem bft_double_prepare r h_a h_b s_a s_b rest
  decode_kind-encode_kind (bft_double_commit r (h_a, s_a) (h_b, s_b)) rest =
      decode_pairs_lem bft_double_commit r h_a h_b s_a s_b rest

module _ {R H N A S : Type 0} ⦃sR : Slicable R⦄ ⦃sH : Slicable H⦄ ⦃sN : Slicable N⦄
    ⦃sA : Slicable A⦄ ⦃sS : Slicable S⦄ where
  -- Decoding an encoded report of misbehavior, whatever bytes follow, returns the report and those
  -- bytes, if the codecs of its parts do so.
  pub decode_report-encode_report :
      (m : MisbehaviorReport R H N A S) (rest : List ℕ)
      → decode_report (encode_report m ++ rest) ≡ some (m, rest)
  unfolding decode_report encode_report and_then
  decode_report-encode_report m rest =
      rw
        (
          decode_first m.parent_hash
              (encode m.parent_number ++ (encode m.target ++ encode_kind m.misbehavior)) rest,
          decode_first m.parent_number (encode m.target ++ encode_kind m.misbehavior) rest,
          decode_first m.target (encode_kind m.misbehavior) rest,
          decode_kind-encode_kind m.misbehavior rest,
        )
        refl
