-- ===== src/Report.antt =====
-- substrate/runtime/primitives/src/bft.rs: BFT messages and reports of misbehavior as bytes.
-- `u32`, blocks, hashes, numbers, authorities and signatures are parameters with a codec.
pub mod RoundTrip
pub mod MisbehaviorCheck
mod Tests
use polkadot.Prelude.{
  ℕ, ◌≡◌, Option, none, some, List, [], ◌∷◌, ◌++◌, Eq, nat_eq, ◌==◌, if◌then◌else◌,
}

-- The trait `Slicable` of substrate/codec/src/slicable.rs on lists of bytes: the value, and the
-- bytes that are left. What is encoded is decoded again, whatever bytes follow.
pub record Slicable (A : Type 0) : Type 0 where
  encoded : A → List ℕ
  decoded : List ℕ → Option (A × List ℕ)
  decoded-encoded : (a : A) (rest : List ℕ) → decoded (encoded a ++ rest) ≡ some (a, rest)

pub encode : {A : Type 0} ⦃s : Slicable A⦄ → A → List ℕ
encode ⦃s⦄ a = s.encoded a

pub decode : {A : Type 0} ⦃s : Slicable A⦄ → List ℕ → Option (A × List ℕ)
decode ⦃s⦄ bytes = s.decoded bytes

-- `?`
pub and_then : {A B : Type 0} → Option (A × List ℕ) → (A → List ℕ → Option B) → Option B
and_then none f = none
and_then (some (a, rest)) f = f a rest

pub data Action (R B H : Type 0) : Type 0 where
  propose : R → B → Action R B H
  propose_header : R → H → Action R B H
  prepare : R → H → Action R B H
  commit : R → H → Action R B H
  advance_round : R → Action R B H

pub record Message (R B H : Type 0) : Type 0 where
  pub parent : H
  pub action : Action R B H

pub data MisbehaviorKind (R H S : Type 0) : Type 0 where
  bft_double_prepare : R → H × S → H × S → MisbehaviorKind R H S
  bft_double_commit : R → H × S → H × S → MisbehaviorKind R H S

pub record MisbehaviorReport (R H N A S : Type 0) : Type 0 where
  pub parent_hash : H
  pub parent_number : N
  pub target : A
  pub misbehavior : MisbehaviorKind R H S

module _ {R B H : Type 0} ⦃sR : Slicable R⦄ ⦃sB : Slicable B⦄ ⦃sH : Slicable H⦄ where
  pub encode_action : Action R B H → List ℕ
  encode_action (propose r b) = 1 ∷ (encode r ++ encode b)
  encode_action (propose_header r h) = 2 ∷ (encode r ++ encode h)
  encode_action (prepare r h) = 3 ∷ (encode r ++ encode h)
  encode_action (commit r h) = 4 ∷ (encode r ++ encode h)
  encode_action (advance_round r) = 5 ∷ encode r

  pub decode_action : List ℕ → Option (Action R B H × List ℕ)
  decode_action [] = none
  decode_action (x ∷ bytes) =
      if x == 1
      then and_then (decode bytes)
          (λ r rest. and_then (decode rest) (λ b rest'. some (propose r b, rest')))
      else if x == 2
      then and_then (decode bytes)
          (λ r rest. and_then (decode rest) (λ h rest'. some (propose_header r h, rest')))
      else if x == 3
      then and_then (decode bytes)
          (λ r rest. and_then (decode rest) (λ h rest'. some (prepare r h, rest')))
      else if x == 4
      then and_then (decode bytes)
          (λ r rest. and_then (decode rest) (λ h rest'. some (commit r h, rest')))
      else if x == 5
      then and_then (decode bytes) (λ r rest. some (advance_round r, rest))
      else none

  pub encode_message : Message R B H → List ℕ
  encode_message m = encode m.parent ++ encode_action m.action

  pub decode_message : List ℕ → Option (Message R B H × List ℕ)
  decode_message bytes = and_then (decode bytes) (λ p rest.
      and_then (decode_action rest) (λ a rest'. some (record { parent = p; action = a }, rest')))

-- The codes of `MisbehaviorCode` are 0x11 and 0x12.
module _ {R H S : Type 0} ⦃sR : Slicable R⦄ ⦃sH : Slicable H⦄ ⦃sS : Slicable S⦄ where
  pub encode_kind : MisbehaviorKind R H S → List ℕ
  encode_kind (bft_double_prepare r (h_a, s_a) (h_b, s_b)) =
      17 ∷ (encode r ++ (encode h_a ++ (encode s_a ++ (encode h_b ++ encode s_b))))
  encode_kind (bft_double_commit r (h_a, s_a) (h_b, s_b)) =
      18 ∷ (encode r ++ (encode h_a ++ (encode s_a ++ (encode h_b ++ encode s_b))))

  -- the arguments of both kinds, in the order of their bytes
  pub decode_pairs :
      (R → H × S → H × S → MisbehaviorKind R H S) → List ℕ → Option (MisbehaviorKind R H S × List ℕ)
  decode_pairs kind bytes = and_then (decode bytes) (λ r b₁. and_then (decode b₁) (λ h_a b₂.
      and_then (decode b₂) (λ s_a b₃.
        and_then (decode b₃)
          (λ h_b b₄. and_then (decode b₄) (λ s_b b₅. some (kind r (h_a, s_a) (h_b, s_b), b₅))))))

  pub decode_kind : List ℕ → Option (MisbehaviorKind R H S × List ℕ)
  decode_kind [] = none
  decode_kind (x ∷ bytes) =
      if x == 17
      then decode_pairs bft_double_prepare bytes
      else if x == 18
      then decode_pairs bft_double_commit bytes
      else none

module _ {R H N A S : Type 0} ⦃sR : Slicable R⦄ ⦃sH : Slicable H⦄ ⦃sN : Slicable N⦄
    ⦃sA : Slicable A⦄ ⦃sS : Slicable S⦄ where
  pub encode_report : MisbehaviorReport R H N A S → List ℕ
  encode_report m =
      encode m.parent_hash
      ++ (encode m.parent_number ++ (encode m.target ++ encode_kind m.misbehavior))

  pub decode_report : List ℕ → Option (MisbehaviorReport R H N A S × List ℕ)
  decode_report bytes = and_then (decode bytes) (λ hash b₁. and_then (decode b₁) (λ number b₂.
      and_then (decode b₂) (λ target b₃. and_then (decode_kind b₃) (λ kind b₄. some (
        record { parent_hash = hash; parent_number = number; target = target; misbehavior = kind },
        b₄,
      )))))
