-- ===== src/StatementTable/Import/Accusations.antt =====
-- polkadot/statement-table/src/generic.rs: double votes and validity votes as evidence.
use polkadot.Prelude.{
  ◌≡◌, ◌∙◌, refl, sym, false, Option, none, some, arith, Eq, nat_eq, ◌==◌, ==_iff, inl, inr,
  Option-cases, Bool-cases,
}
use mathlib.Core.Path.{subst}
use polkadot.Prelude.Map
use polkadot.Prelude.Map.{Map}
use polkadot.StatementTable.Types.{
  Context, Statement, ValidityDoubleVote, validity_double_vote, ValidityVote, vote_eq,
  CandidateData, Table,
}
use polkadot.StatementTable.Import.{
  add_vote, known_voter, unauthorized_vote, unauthorized, double_vote, validity_vote,
}
use polkadot.StatementTable.Import.Valid.{IsFiled}
use polkadot.StatementTable.Import.Signed.{VoteSigned, Proves, IsSigned, IsFair, store_votes-IsFair}

module _ {V D G S C : Type 0} ⦃eV : Eq V⦄ ⦃eD : Eq D⦄ ⦃eG : Eq G⦄ ⦃eS : Eq S⦄
    (ctx : Context V D G C) (Issued : V → Statement C D → S → Type 0)
    (collision_free : (c c' : C) → ctx.candidate_digest c ≡ ctx.candidate_digest c' → c ≡ c') where
  add_vote-validity_votes :
      (from : V) (vote : ValidityVote S) (votes : CandidateData V G S C)
      → (add_vote from vote votes).validity_votes ≡ Map.insert votes.validity_votes from vote
  unfolding add_vote
  add_vote-validity_votes from (ValidityVote.issued s) votes = refl
  add_vote-validity_votes from (ValidityVote.valid s) votes = refl
  add_vote-validity_votes from (ValidityVote.invalid s) votes = refl

  add_vote-VoteSigned :
      (d : D) (from v : V) (vote w : ValidityVote S) (votes : CandidateData V G S C)
      → ((u : V) (x : ValidityVote S)
          → Map.get votes.validity_votes u ≡ some x
          → VoteSigned ctx Issued d u x)
      → VoteSigned ctx Issued d from vote
      → Map.get (add_vote from vote votes).validity_votes v ≡ some w
      → VoteSigned ctx Issued d v w
  add_vote-VoteSigned d from v vote w votes old new h =
      let g : Map.get (Map.insert votes.validity_votes from vote) v ≡ some w =
        rw (add_vote-validity_votes from vote votes) at h in
      elim (Bool-cases (from == v)) [
        | inl e ↦
            let here : from ≡ v = (==_iff from v).0 e in
            let what : vote ≡ w = ground (arith, Map.get-insert votes.validity_votes from v vote) in
            rw (sym here, sym what) new
        | inr e ↦ old v w (ground (arith, Map.get-insert votes.validity_votes from v vote))
      ]

  abbrev ProvesDouble : V → Option (ValidityDoubleVote C D S) → Type 0
  ProvesDouble v none = Unit
  ProvesDouble v (some proof) = Proves ctx Issued v (validity_double_vote proof)

  -- The issuer of a candidate signed the candidate that the table has for its digest.
  VoteSigned-issued :
      (d : D) (c : C) (v : V) (s : S)
      → ctx.candidate_digest c ≡ d
      → VoteSigned ctx Issued d v (ValidityVote.issued s)
      → Issued v (Statement.candidate c) s
  VoteSigned-issued d c v s e (c', q, iss) =
      subst (λ x. Issued v (Statement.candidate x) s) (collision_free c' c (q ∙ sym e)) iss

  double_vote-ProvesDouble :
      (d : D) (c : C) (v : V) (old new : ValidityVote S)
      → ctx.candidate_digest c ≡ d
      → VoteSigned ctx Issued d v old
      → VoteSigned ctx Issued d v new
      → ProvesDouble v (double_vote c d old new)
  unfolding double_vote
  double_vote-ProvesDouble d c v (ValidityVote.issued s) (ValidityVote.issued t) e a b = tt
  double_vote-ProvesDouble d c v (ValidityVote.issued s) (ValidityVote.valid t) e a b =
      (e, VoteSigned-issued d c v s e a, b)
  double_vote-ProvesDouble d c v (ValidityVote.issued s) (ValidityVote.invalid t) e a b =
      (e, VoteSigned-issued d c v s e a, b)
  double_vote-ProvesDouble d c v (ValidityVote.valid s) (ValidityVote.issued t) e a b =
      (e, VoteSigned-issued d c v t e b, a)
  double_vote-ProvesDouble d c v (ValidityVote.valid s) (ValidityVote.valid t) e a b = tt
  double_vote-ProvesDouble d c v (ValidityVote.valid s) (ValidityVote.invalid t) e a b = (a, b)
  double_vote-ProvesDouble d c v (ValidityVote.invalid s) (ValidityVote.issued t) e a b =
      (e, VoteSigned-issued d c v t e b, a)
  double_vote-ProvesDouble d c v (ValidityVote.invalid s) (ValidityVote.valid t) e a b = (b, a)
  double_vote-ProvesDouble d c v (ValidityVote.invalid s) (ValidityVote.invalid t) e a b = tt

  known_voter-IsFair :
      (v : V) (d : D) (votes : CandidateData V G S C) (old vote : ValidityVote S)
      (table : Table V D G S C)
      → IsSigned ctx Issued table
      → ctx.candidate_digest votes.candidate ≡ d
      → VoteSigned ctx Issued d v old
      → VoteSigned ctx Issued d v vote
      → IsFair ctx Issued v (known_voter d votes old vote table)
  unfolding known_voter
  known_voter-IsFair v d votes old vote table k e a b = elim (Bool-cases (old == vote)) [
    | inl q ↦ rw (q, IsFair) k
    | inr q ↦ elim (Option-cases (double_vote votes.candidate d old vote)) [
      | inl n ↦ rw (q, n, IsFair) k
      | inr (proof, n) ↦
          rw (q, n, IsFair)
            (
              k,
              subst (ProvesDouble v) n
                  (double_vote-ProvesDouble d votes.candidate v old vote e a b),
            )
    ]
  ]

  unauthorized_vote-IsFair :
      (v : V) (d : D) (votes : CandidateData V G S C) (vote : ValidityVote S)
      (table : Table V D G S C)
      → IsSigned ctx Issued table
      → IsFiled ctx d votes
      → ctx.is_member_of v votes.group_id ≡ false
      → VoteSigned ctx Issued d v vote
      → IsFair ctx Issued v (unauthorized_vote d v vote table)
  unfolding unauthorized_vote unauthorized
  unauthorized_vote-IsFair v d votes (ValidityVote.issued s) table k f off a = tt
  unauthorized_vote-IsFair v d votes (ValidityVote.valid s) table k f off a =
      (k, (refl, a, (votes.candidate, f.digest, rw f.group at off)))
  unauthorized_vote-IsFair v d votes (ValidityVote.invalid s) table k f off a =
      (k, (refl, a, (votes.candidate, f.digest, rw f.group at off)))

  pub validity_vote-IsFair :
      (from : V) (d : D) (vote : ValidityVote S) (table : Table V D G S C)
      → ((votes : CandidateData V G S C)
          → Map.get table.candidate_votes d ≡ some votes
          → IsFiled ctx d votes)
      → IsSigned ctx Issued table
      → VoteSigned ctx Issued d from vote
      → IsFair ctx Issued from (validity_vote ctx from d vote table)
  unfolding validity_vote
  validity_vote-IsFair from d vote table filed k a =
      elim (Option-cases (Map.get table.candidate_votes d)) [
        | inl q ↦ rw (q, validity_vote, IsFair) k
        | inr (votes, q) ↦ elim (Bool-cases (ctx.is_member_of from votes.group_id)) [
          | inr off ↦
              rw (q, off, IsFair)
                (unauthorized_vote-IsFair from d votes vote table k (filed votes q) off a)
          | inl duty ↦ elim (Option-cases (Map.get votes.validity_votes from)) [
            | inr (old, g) ↦
                rw (q, duty, g, IsFair)
                  (known_voter-IsFair from d votes old vote table k (filed votes q).digest
                    (k.voted d votes from old q g) a)
            | inl g ↦
                rw (q, duty, g, IsFair)
                  (store_votes-IsFair ctx Issued from d votes (add_vote from vote votes) table k
                    (λ v w h.
                      add_vote-VoteSigned d from v vote w votes (λ u x r. k.voted d votes u x q r) a
                        h))
          ]
        ]
      ]
