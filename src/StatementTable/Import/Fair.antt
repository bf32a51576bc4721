-- ===== src/StatementTable/Import/Fair.antt =====
-- polkadot/statement-table/src/generic.rs: evidence in each kind of statement.
use mathlib.Core.Bool.{false≢true}
use polkadot.Prelude.{
  ◌≡◌, ◌∙◌, refl, sym, some, arith, Eq, nat_eq, ◌==◌, ==_iff, inl, inr, Option-cases, Bool-cases,
}
use mathlib.Core.Path.{subst}
use polkadot.Prelude.Map
use polkadot.Prelude.Map.{Map}
use polkadot.StatementTable.Types.{Context, Statement, ValidityVote, vote_eq, Table}
use polkadot.StatementTable.Import.{
  unauthorized, proposal_of, note_proposal, open_candidate, new_candidate, second_proposal,
  import_candidate, dispatch,
}
use polkadot.StatementTable.Import.Valid.{IsValid}
use polkadot.StatementTable.Import.Signed.{IsSigned, IsFair, availability_vote-IsFair}
use polkadot.StatementTable.Import.Proposals.{proposal_of-note_proposal}
use polkadot.StatementTable.Import.Candidates.{NeedsVotes, proposed-IsValid}
use polkadot.StatementTable.Import.Accusations.{validity_vote-IsFair}

module _ {V D G S C : Type 0} ⦃eV : Eq V⦄ ⦃eD : Eq D⦄ ⦃eG : Eq G⦄ ⦃eS : Eq S⦄
    (ctx : Context V D G C) (Issued : V → Statement C D → S → Type 0)
    (collision_free : (c c' : C) → ctx.candidate_digest c ≡ ctx.candidate_digest c' → c ≡ c')
    (needs : NeedsVotes ctx) where
  note_proposal-IsSigned :
      (from : V) (c : C) (s : S) (table : Table V D G S C)
      → IsSigned ctx Issued table
      → Issued from (Statement.candidate c) s
      → IsSigned ctx Issued (note_proposal from (ctx.candidate_digest c) s table)
  unfolding note_proposal
  note_proposal-IsSigned from c s table k iss = record {
    voted = k.voted;
    proposed = λ v d t h. elim (Bool-cases (from == v)) [
      | inr other ↦
          k.proposed v d t
            (ground (arith, proposal_of-note_proposal from v (ctx.candidate_digest c) s table))
      | inl same ↦
          let here : from ≡ v = (==_iff from v).0 same in
          let both : (ctx.candidate_digest c ≡ d) × (s ≡ t) = (
            ground (arith, proposal_of-note_proposal from v (ctx.candidate_digest c) s table),
            ground (arith, proposal_of-note_proposal from v (ctx.candidate_digest c) s table),
          ) in
          (c, both.0, rw (sym here, sym both.1) iss)
    ];
    accused = k.accused;
  }

  open_candidate-IsSigned :
      (c : C) (table : Table V D G S C)
      → IsSigned ctx Issued table
      → IsSigned ctx Issued (open_candidate ctx (ctx.candidate_digest c) c table)
  unfolding open_candidate proposal_of new_candidate Map.get
  open_candidate-IsSigned c table k =
      let digest = ctx.candidate_digest c in
      elim (Option-cases (Map.get table.candidate_votes digest)) [
        | inr (votes, q) ↦ rw (q, open_candidate) k
        | inl q ↦
            rw (q, open_candidate)
              (record {
                voted = λ d votes v w g h. elim (Bool-cases (digest == d)) [
                  | inl same ↦
                      let what : new_candidate ctx c ≡ votes = ground (
                        arith,
                        Map.get-insert table.candidate_votes digest d (new_candidate ctx c),
                      ) in
                      let empty : Map.get (new_candidate ctx c).validity_votes v ≡ some w =
                        subst (λ x. Map.get x.validity_votes v ≡ some w) (sym what) h in
                      absurd (ground arith)
                  | inr other ↦
                      k.voted d votes v w
                        (ground (
                          arith,
                          Map.get-insert table.candidate_votes digest d (new_candidate ctx c),
                        ))
                        h
                ];
                proposed = k.proposed;
                accused = k.accused;
              })
      ]

  import_candidate-IsFair :
      (from : V) (c : C) (s : S) (table : Table V D G S C)
      → IsValid ctx table
      → IsSigned ctx Issued table
      → Issued from (Statement.candidate c) s
      → IsFair ctx Issued from (import_candidate ctx from c s table)
  unfolding import_candidate second_proposal unauthorized
  import_candidate-IsFair from c s table inv k iss =
      let digest = ctx.candidate_digest c in
      let vote : ValidityVote S = ValidityVote.issued s in
      elim (Bool-cases (ctx.is_member_of from (ctx.candidate_group c))) [
        | inr off ↦ rw (off, IsFair) (k, (refl, iss, off))
        | inl duty ↦ elim (Option-cases (proposal_of from table)) [
          | inl q ↦
              let opened = proposed-IsValid ctx needs from c s table inv in
              rw (duty, q, IsFair)
                (validity_vote-IsFair ctx Issued collision_free from digest vote _
                  (opened.filed digest)
                  (open_candidate-IsSigned c _ (note_proposal-IsSigned from c s table k iss))
                  (c, refl, iss))
          | inr ((old, t), q) ↦ elim (Bool-cases (old == digest)) [
            | inl same ↦
                rw (duty, q, same, IsFair)
                  (validity_vote-IsFair ctx Issued collision_free from digest vote table
                    (inv.filed digest) k (c, refl, iss))
            | inr other ↦ elim (Option-cases (Map.get table.candidate_votes old)) [
              | inl n ↦ rw (duty, q, other, n, IsFair) tt
              | inr (votes, n) ↦
                  let f = inv.filed old votes n in
                  let (c', e, first) = k.proposed from old t q in
                  rw (duty, q, other, n, IsFair)
                    (
                      k,
                      (
                        λ same.
                            false≢true (sym other ∙ (==_iff old digest).1 (sym f.digest ∙ same)),
                        subst (λ x. Issued from (Statement.candidate x) t)
                            (collision_free c' votes.candidate (e ∙ sym f.digest)) first,
                        iss,
                      ),
                    )
            ]
          ]
        ]
      ]

  pub dispatch-IsFair :
      (st : Statement C D) (s : S) (signer : V) (table : Table V D G S C)
      → IsValid ctx table
      → IsSigned ctx Issued table
      → Issued signer st s
      → IsFair ctx Issued signer (dispatch ctx st s signer table)
  unfolding dispatch
  dispatch-IsFair (Statement.candidate c) s signer table inv k iss =
      import_candidate-IsFair signer c s table inv k iss
  dispatch-IsFair (Statement.valid d) s signer table inv k iss =
      validity_vote-IsFair ctx Issued collision_free signer d (ValidityVote.valid s) table
        (inv.filed d) k iss
  dispatch-IsFair (Statement.invalid d) s signer table inv k iss =
      validity_vote-IsFair ctx Issued collision_free signer d (ValidityVote.invalid s) table
        (inv.filed d) k iss
  dispatch-IsFair (Statement.available d) s signer table inv k iss =
      availability_vote-IsFair ctx Issued signer d s table inv k iss
