-- ===== src/StatementTable/Types.antt =====
-- polkadot/statement-table/src/generic.rs: statements, votes, misbehavior and the table's data.
use polkadot.Prelude.{
  ℕ, ◌-◌, ◌≡◌, ◌↔◌, Bool, true, false, not, ◌&&◌, Option, List, [], ◌∷◌, arith, leb, length, Eq,
  ◌==◌, ==_iff,
}
use polkadot.Prelude.Map.{Map}

-- The trait `Context`: the digest and the group of a candidate, and the duties of authorities.
pub record Context (V D G C : Type 0) : Type 0 where
  pub candidate_digest : C → D
  pub candidate_group : C → G
  pub is_member_of : V → G → Bool
  pub is_availability_guarantor_of : V → G → Bool
  pub requisite_votes : G → ℕ × ℕ

pub data Statement (C D : Type 0) : Type 0 where
  candidate : C → Statement C D
  valid : D → Statement C D
  available : D → Statement C D
  invalid : D → Statement C D

pub record SignedStatement (C D V S : Type 0) : Type 0 where
  pub statement : Statement C D
  pub signature : S
  pub sender : V

pub data StatementTrace (V D : Type 0) : Type 0 where
  candidate : V → StatementTrace V D
  valid : V → D → StatementTrace V D
  invalid : V → D → StatementTrace V D
  available : V → D → StatementTrace V D

pub data ValidityDoubleVote (C D S : Type 0) : Type 0 where
  issued_and_validity : C × S → D × S → ValidityDoubleVote C D S
  issued_and_invalidity : C × S → D × S → ValidityDoubleVote C D S
  validity_and_invalidity : D → S → S → ValidityDoubleVote C D S

pub record MultipleCandidates (C S : Type 0) : Type 0 where
  pub first : C × S
  pub second : C × S

pub record UnauthorizedStatement (C D V S : Type 0) : Type 0 where
  pub statement : SignedStatement C D V S

pub data Misbehavior (C D V S : Type 0) : Type 0 where
  validity_double_vote : ValidityDoubleVote C D S → Misbehavior C D V S
  multiple_candidates : MultipleCandidates C S → Misbehavior C D V S
  unauthorized_statement : UnauthorizedStatement C D V S → Misbehavior C D V S

pub data ValidityVote (S : Type 0) : Type 0 where
  issued : S → ValidityVote S
  valid : S → ValidityVote S
  invalid : S → ValidityVote S

pub record Summary (D G : Type 0) : Type 0 where
  pub candidate : D
  pub group_id : G
  pub validity_votes : ℕ
  pub availability_votes : ℕ
  pub signalled_bad : Bool

pub record CandidateData (V G S C : Type 0) : Type 0 where
  pub group_id : G
  pub candidate : C
  pub validity_votes : Map V (ValidityVote S)
  pub availability_votes : Map V S
  pub indicated_bad_by : List V

pub record AuthorityData (V D S : Type 0) : Type 0 where
  pub proposal : Option (D × S)
  pub known_statements : List (StatementTrace V D)

pub record Table (V D G S C : Type 0) : Type 0 where
  pub authority_data : Map V (AuthorityData V D S)
  pub detected_misbehavior : Map V (Misbehavior C D V S)
  pub candidate_votes : Map D (CandidateData V G S C)
  pub includable_count : Map G ℕ

-- The derived equality of votes and of traces.
module _ {S : Type 0} ⦃e : Eq S⦄ where
  unfoldable pub vote_eqb : ValidityVote S → ValidityVote S → Bool
  vote_eqb (ValidityVote.issued s) (ValidityVote.issued t) = s == t
  vote_eqb (ValidityVote.valid s) (ValidityVote.valid t) = s == t
  vote_eqb (ValidityVote.invalid s) (ValidityVote.invalid t) = s == t
  vote_eqb _ _ = false

  pub vote_eqb_iff : (a b : ValidityVote S) → (vote_eqb a b ≡ true) ↔ (a ≡ b)
  unfolding vote_eqb
  vote_eqb_iff (ValidityVote.issued s) (ValidityVote.issued t) = ground (arith, ==_iff s t)
  vote_eqb_iff (ValidityVote.valid s) (ValidityVote.valid t) = ground (arith, ==_iff s t)
  vote_eqb_iff (ValidityVote.invalid s) (ValidityVote.invalid t) = ground (arith, ==_iff s t)
  vote_eqb_iff _ _ = ground arith

  instance abbrev pub vote_eq : Eq (ValidityVote S)
  vote_eq = record { eqb = vote_eqb; eqb_iff = vote_eqb_iff }

module _ {V D : Type 0} ⦃eV : Eq V⦄ ⦃eD : Eq D⦄ where
  unfoldable pub trace_eqb : StatementTrace V D → StatementTrace V D → Bool
  trace_eqb (StatementTrace.candidate v) (StatementTrace.candidate w) = v == w
  trace_eqb (StatementTrace.valid v d) (StatementTrace.valid w d') = v == w && d == d'
  trace_eqb (StatementTrace.invalid v d) (StatementTrace.invalid w d') = v == w && d == d'
  trace_eqb (StatementTrace.available v d) (StatementTrace.available w d') = v == w && d == d'
  trace_eqb _ _ = false

  pub trace_eqb_iff : (a b : StatementTrace V D) → (trace_eqb a b ≡ true) ↔ (a ≡ b)
  unfolding trace_eqb
  trace_eqb_iff (StatementTrace.candidate v) (StatementTrace.candidate w) =
      ground (arith, ==_iff v w)
  trace_eqb_iff (StatementTrace.valid v d) (StatementTrace.valid w d') =
      ground (arith, ==_iff v w, ==_iff d d')
  trace_eqb_iff (StatementTrace.invalid v d) (StatementTrace.invalid w d') =
      ground (arith, ==_iff v w, ==_iff d d')
  trace_eqb_iff (StatementTrace.available v d) (StatementTrace.available w d') =
      ground (arith, ==_iff v w, ==_iff d d')
  trace_eqb_iff _ _ = ground arith

  instance abbrev pub trace_eq : Eq (StatementTrace V D)
  trace_eq = record { eqb = trace_eqb; eqb_iff = trace_eqb_iff }

-- The methods of `CandidateData`.
module _ {V G S C : Type 0} where
  unfoldable pub indicated_bad : CandidateData V G S C → Bool
  indicated_bad d = elim d.indicated_bad_by [ [] ↦ false | v ∷ vs ↦ true ]

  unfoldable pub can_be_included : CandidateData V G S C → ℕ × ℕ → Bool
  unfolding indicated_bad
  can_be_included d (validity_threshold, availability_threshold) =
      not (indicated_bad d)
      && leb validity_threshold (length d.validity_votes)
      && leb availability_threshold (length d.availability_votes)

  -- `len() - len()`: there are no more indications than votes
  unfoldable pub summary : {D : Type 0} → CandidateData V G S C → D → Summary D G
  unfolding indicated_bad
  summary d digest = record {
    candidate = digest;
    group_id = d.group_id;
    validity_votes = length d.validity_votes - length d.indicated_bad_by;
    availability_votes = length d.availability_votes;
    signalled_bad = indicated_bad d;
  }
