-- ===== src/Report/MisbehaviorCheck/Verdict.antt =====
-- substrate/misbehavior-check/src/lib.rs: verdicts and double votes.
use polkadot.Prelude.{
  ℕ, ◌≡◌, ◌≢◌, ◌↔◌, ◌⊎◌, inl, inr, ap, Bool, Bool-cases, true, List, [], ◌++◌, arith, Eq, ◌==◌,
  ==_iff,
}
use polkadot.Report.{
  Slicable, prepare, commit, Action, Message, MisbehaviorKind, bft_double_prepare,
  bft_double_commit, encode_message, decode_message,
}
use polkadot.Report.RoundTrip.{decode_message-encode_message}
use polkadot.Report.MisbehaviorCheck.{
  prepare_message, commit_message, check_message_sig, evaluate_misbehavior,
}

module _ {R B H : Type 0} ⦃sR : Slicable R⦄ ⦃sB : Slicable B⦄ ⦃sH : Slicable H⦄ where
  encode_message-injective : (m m' : Message R B H) → encode_message m ≡ encode_message m' → m ≡ m'
  encode_message-injective m m' h = ground (
    arith,
    ap (λ bytes. decode_message {R = R} {B = B} {H = H} (bytes ++ [])) h,
    decode_message-encode_message m [],
    decode_message-encode_message m' [],
  )

module _ {A S : Type 0} (ed25519_verify : S → List ℕ → A → Bool) where
  -- A signature of an authority is valid for one text only.
  abbrev pub IsBinding : Type 0
  IsBinding =
      (s : S) (x y : List ℕ) (a : A)
      → ed25519_verify s x a ≡ true
      → ed25519_verify s y a ≡ true
      → x ≡ y

abbrev hash_in : {R B H : Type 0} → H → Action R B H → H
hash_in h (prepare _ x) = x
hash_in h (commit _ x) = x
hash_in h _ = h

module _ {R H A S : Type 0} ⦃sR : Slicable R⦄ ⦃sH : Slicable H⦄ (B : Type 0) ⦃sB : Slicable B⦄
    (ed25519_verify : S → List ℕ → A → Bool) where
  -- The authority signed a vote for each hash, and the hashes are different, or the hash is the same
  -- and it has two signatures.
  abbrev pub IsTwice : A → (H → Message R B H) → H × S → H × S → Type 0
  IsTwice a message (h_1, s_1) (h_2, s_2) =
      (check_message_sig B ed25519_verify (message h_1) s_1 a ≡ true)
      × (check_message_sig B ed25519_verify (message h_2) s_2 a ≡ true)
      × ((h_1 ≢ h_2) ⊎ ((h_1 ≡ h_2) × (s_1 ≢ s_2)))

  abbrev pub IsReported : A → H → MisbehaviorKind R H S → Type 0
  IsReported a parent (bft_double_prepare r v_1 v_2) =
      IsTwice a (λ h. record { parent = parent; action = prepare r h }) v_1 v_2
  IsReported a parent (bft_double_commit r v_1 v_2) =
      IsTwice a (λ h. record { parent = parent; action = commit r h }) v_1 v_2

module _ {H S : Type 0} ⦃eH : Eq H⦄ where
  differ_how : (h_1 h_2 : H) (s_1 s_2 : S) → s_1 ≢ s_2 → (h_1 ≢ h_2) ⊎ ((h_1 ≡ h_2) × (s_1 ≢ s_2))
  differ_how h_1 h_2 s_1 s_2 d = elim (Bool-cases (h_1 == h_2)) [
    | inl e ↦ inr ((==_iff h_1 h_2).0 e, d)
    | inr e ↦ inl (λ same. ground (arith, e, (==_iff h_1 h_2).1 same))
  ]

module _ {R H A S : Type 0} ⦃sR : Slicable R⦄ ⦃sH : Slicable H⦄ ⦃eH : Eq H⦄ ⦃eS : Eq S⦄ (B : Type 0)
    ⦃sB : Slicable B⦄ (ed25519_verify : S → List ℕ → A → Bool)
    (binding : IsBinding ed25519_verify) where
  -- Signatures that are valid for different hashes differ.
  twice-differ :
      (a : A) (message : H → Message R B H) (h_1 h_2 : H) (s_1 s_2 : S)
      → (message h_1 ≡ message h_2 → h_1 ≡ h_2)
      → IsTwice B ed25519_verify a message (h_1, s_1) (h_2, s_2)
      → s_1 ≢ s_2
  unfolding check_message_sig
  twice-differ a message h_1 h_2 s_1 s_2 inj (c_1, c_2, inl other) same =
      other (inj (encode_message-injective _ _ (binding s_2 _ _ a (rw same at c_1) c_2)))
  twice-differ a message h_1 h_2 s_1 s_2 inj (c_1, c_2, inr (_, differ)) same = differ same

  -- If a signature of an authority is valid for one text only, then a report is evaluated as
  -- misbehavior exactly if both votes in it, which are of one kind and round on one parent, are
  -- signed by the authority, and they are for different hashes, or they are for one hash and the two
  -- signatures differ.
  pub evaluate_misbehavior_exact :
      (a : A) (parent : H) (kind : MisbehaviorKind R H S)
      → (evaluate_misbehavior B ed25519_verify a parent kind ≡ true)
        ↔ IsReported B ed25519_verify a parent kind
  unfolding evaluate_misbehavior prepare_message commit_message
  evaluate_misbehavior_exact a parent (bft_double_prepare r (h_1, s_1) (h_2, s_2)) = (
    λ h. (
      ground (arith, h),
      ground (arith, h),
      differ_how h_1 h_2 s_1 s_2 (λ e. ground (arith, h, (==_iff s_1 s_2).1 e)),
    ),
    λ t.
        let d =
          twice-differ a (prepare_message B parent r) h_1 h_2 s_1 s_2
            (λ e. ap (λ m. hash_in h_1 m.action) e) t in
        ground (arith, t.0, t.1, d, ==_iff s_1 s_2),
  )
  evaluate_misbehavior_exact a parent (bft_double_commit r (h_1, s_1) (h_2, s_2)) = (
    λ h. (
      ground (arith, h),
      ground (arith, h),
      differ_how h_1 h_2 s_1 s_2 (λ e. ground (arith, h, (==_iff s_1 s_2).1 e)),
    ),
    λ t.
        let d =
          twice-differ a (commit_message B parent r) h_1 h_2 s_1 s_2
            (λ e. ap (λ m. hash_in h_1 m.action) e) t in
        ground (arith, t.0, t.1, d, ==_iff s_1 s_2),
  )
