-- ===== src/StatementTable/Import/Signed.antt =====
-- polkadot/statement-table/src/generic.rs: votes, proposals and accusations with their signatures.
use polkadot.Prelude.{
  ◌≡◌, ◌≢◌, refl, false, none, some, arith, Eq, nat_eq, ◌==◌, ==_iff, inl, inr, Option-cases,
  Bool-cases,
}
use mathlib.Core.Path.{subst}
use polkadot.Prelude.Map
use polkadot.Prelude.Map.{Map}
use polkadot.StatementTable.Types.{
  Context, Statement, issued_and_validity, issued_and_invalidity, validity_and_invalidity,
  Misbehavior, validity_double_vote, multiple_candidates, unauthorized_statement, ValidityVote,
  vote_eq, CandidateData, Table,
}
use polkadot.StatementTable.Import.{
  Outcome, store_votes, unauthorized, availability_vote, proposal_of,
}
use polkadot.StatementTable.Import.Valid.{IsValid}

module _ {V D G S C : Type 0} (ctx : Context V D G C)
    (Issued : V → Statement C D → S → Type 0) where
  -- A vote on the candidate of a digest that its authority has signed.
  abbrev pub VoteSigned : D → V → ValidityVote S → Type 0
  VoteSigned d v (ValidityVote.issued s) =
      (c : C) × (ctx.candidate_digest c ≡ d) × Issued v (Statement.candidate c) s
  VoteSigned d v (ValidityVote.valid s) = Issued v (Statement.valid d) s
  VoteSigned d v (ValidityVote.invalid s) = Issued v (Statement.invalid d) s

  -- The authority has no business with the candidate of the statement.
  abbrev pub OffDuty : V → Statement C D → Type 0
  OffDuty v (Statement.candidate c) = ctx.is_member_of v (ctx.candidate_group c) ≡ false
  OffDuty v (Statement.valid d) =
      (c : C) × (ctx.candidate_digest c ≡ d) × (ctx.is_member_of v (ctx.candidate_group c) ≡ false)
  OffDuty v (Statement.invalid d) =
      (c : C) × (ctx.candidate_digest c ≡ d) × (ctx.is_member_of v (ctx.candidate_group c) ≡ false)
  OffDuty v (Statement.available d) =
      (c : C) × (ctx.candidate_digest c ≡ d)
      × (ctx.is_availability_guarantor_of v (ctx.candidate_group c) ≡ false)

  -- The misbehavior holds two statements that `v` signed and that no honest authority signs both,
  -- or one that `v` signed off duty.
  abbrev pub Proves : V → Misbehavior C D V S → Type 0
  Proves v (validity_double_vote (issued_and_validity (c, s) (d, t))) =
      (ctx.candidate_digest c ≡ d)
      × Issued v (Statement.candidate c) s
      × Issued v (Statement.valid d) t
  Proves v (validity_double_vote (issued_and_invalidity (c, s) (d, t))) =
      (ctx.candidate_digest c ≡ d)
      × Issued v (Statement.candidate c) s
      × Issued v (Statement.invalid d) t
  Proves v (validity_double_vote (validity_and_invalidity d s t)) =
      Issued v (Statement.valid d) s × Issued v (Statement.invalid d) t
  Proves v (multiple_candidates m) =
      (ctx.candidate_digest m.first.0 ≢ ctx.candidate_digest m.second.0)
      × Issued v (Statement.candidate m.first.0) m.first.1
      × Issued v (Statement.candidate m.second.0) m.second.1
  Proves v (unauthorized_statement u) =
      (u.statement.sender ≡ v)
      × Issued v u.statement.statement u.statement.signature
      × OffDuty v u.statement.statement

module _ {V D G S C : Type 0} ⦃eV : Eq V⦄ ⦃eD : Eq D⦄ ⦃eG : Eq G⦄ (ctx : Context V D G C)
    (Issued : V → Statement C D → S → Type 0) where
  pub record IsSigned (table : Table V D G S C) : Type 0 where
    pub voted :
        (d : D) (votes : CandidateData V G S C) (v : V) (w : ValidityVote S)
        → Map.get table.candidate_votes d ≡ some votes
        → Map.get votes.validity_votes v ≡ some w
        → VoteSigned ctx Issued d v w
    pub proposed :
        (v : V) (d : D) (s : S)
        → proposal_of v table ≡ some (d, s)
        → (c : C) × (ctx.candidate_digest c ≡ d) × Issued v (Statement.candidate c) s
    pub accused :
        (v : V) (m : Misbehavior C D V S)
        → Map.get table.detected_misbehavior v ≡ some m
        → Proves ctx Issued v m

  -- The outcome of a statement of `v`: a signed table, and proof of a misbehavior.
  abbrev pub IsFair : V → Outcome V D G S C → Type 0
  IsFair v none = Unit
  IsFair v (some (table, none, _)) = IsSigned table
  IsFair v (some (table, some m, _)) = IsSigned table × Proves ctx Issued v m

  pub store_votes-IsFair :
      (from : V) (d : D) (votes votes' : CandidateData V G S C) (table : Table V D G S C)
      → IsSigned table
      → ((v : V) (w : ValidityVote S)
          → Map.get votes'.validity_votes v ≡ some w
          → VoteSigned ctx Issued d v w)
      → IsFair from (store_votes ctx d votes votes' table)
  unfolding store_votes proposal_of
  store_votes-IsFair from d votes votes' table k new = record {
    voted = λ d' x v w g h. elim (Bool-cases (d == d')) [
      | inl e ↦
          let here : d ≡ d' = (==_iff d d').0 e in
          let what : votes' ≡ x =
            ground (arith, Map.get-insert table.candidate_votes d d' votes') in
          subst (λ y. VoteSigned ctx Issued y v w) here (new v w (rw what h))
      | inr e ↦
          k.voted d' x v w (ground (arith, Map.get-insert table.candidate_votes d d' votes')) h
    ];
    proposed = k.proposed;
    accused = k.accused;
  }

  pub availability_vote-IsFair :
      (from : V) (d : D) (s : S) (table : Table V D G S C)
      → IsValid ctx table
      → IsSigned table
      → Issued from (Statement.available d) s
      → IsFair from (availability_vote ctx from d s table)
  unfolding availability_vote unauthorized
  availability_vote-IsFair from d s table inv k iss =
      elim (Option-cases (Map.get table.candidate_votes d)) [
        | inl q ↦ rw (q, IsFair) k
        | inr (votes, q) ↦
            elim (Bool-cases (ctx.is_availability_guarantor_of from votes.group_id)) [
              | inl duty ↦
                  rw (q, duty, IsFair)
                    (store_votes-IsFair from d votes _ table k (λ v w h. k.voted d votes v w q h))
              | inr off ↦
                  let f = inv.filed d votes q in
                  rw (q, off, IsFair)
                    (k, (refl, iss, (votes.candidate, f.digest, rw f.group at off)))
            ]
      ]
