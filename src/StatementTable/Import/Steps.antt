-- ===== src/StatementTable/Import/Steps.antt =====
-- polkadot/statement-table/src/generic.rs: the invariant of the table in the two kinds of votes.
use polkadot.Prelude.{
  ◌≡◌, refl, true, false, some, arith, Eq, nat_eq, ◌==◌, inl, inr, Option-cases, Bool-cases,
}
use polkadot.Prelude.Map
use polkadot.Prelude.Map.{Map}
use polkadot.StatementTable.Types.{Context, ValidityVote, CandidateData, Table, vote_eq}
use polkadot.StatementTable.Import.{
  add_vote, known_voter, unauthorized_vote, double_vote, validity_vote, availability_vote,
}
use polkadot.StatementTable.Import.Valid.{
  is_issued, IsFiled, IsValid, Ensures, guarantor_after, add_vote-IsFiled, add_vote-group_id,
  store_votes-IsValid,
}

module _ {V D G S C : Type 0} ⦃eV : Eq V⦄ ⦃eD : Eq D⦄ ⦃eG : Eq G⦄ (ctx : Context V D G C) where
  pub availability_vote-IsValid :
      (from : V) (d : D) (s : S) (table : Table V D G S C)
      → IsValid ctx table
      → Ensures ctx (availability_vote ctx from d s table)
  unfolding availability_vote
  availability_vote-IsValid from d s table inv =
      elim (Option-cases (Map.get table.candidate_votes d)) [
        | inl q ↦ rw (q, Ensures) inv
        | inr (votes, q) ↦
            elim (Bool-cases (ctx.is_availability_guarantor_of from votes.group_id)) [
              | inr off ↦ rw (q, off, Ensures) inv
              | inl duty ↦
                  let f : IsFiled ctx d votes = inv.filed d votes q in
                  rw (q, duty, Ensures)
                    (store_votes-IsValid ctx d votes _ table q refl
                      (record {
                        digest = f.digest;
                        group = f.group;
                        members = f.members;
                        guarantors = λ v w.
                            guarantor_after ctx votes.availability_votes votes.group_id from v s w
                              f.guarantors duty;
                        indicated = f.indicated;
                      })
                      inv)
            ]
      ]

module _ {V D G S C : Type 0} ⦃eV : Eq V⦄ ⦃eD : Eq D⦄ ⦃eG : Eq G⦄ ⦃eS : Eq S⦄
    (ctx : Context V D G C) where
  known_voter-IsValid :
      (d : D) (votes : CandidateData V G S C) (old vote : ValidityVote S) (table : Table V D G S C)
      → IsValid ctx table
      → Ensures ctx (known_voter d votes old vote table)
  unfolding known_voter
  known_voter-IsValid d votes old vote table inv = elim (Bool-cases (old == vote)) [
    | inl q ↦ rw (q, Ensures) inv
    | inr q ↦ elim (Option-cases (double_vote votes.candidate d old vote)) [
      | inl n ↦ rw (q, n, Ensures) inv
      | inr (p, n) ↦ rw (q, n, Ensures) inv
    ]
  ]

  unauthorized_vote-IsValid :
      (d : D) (from : V) (vote : ValidityVote S) (table : Table V D G S C)
      → IsValid ctx table
      → is_issued vote ≡ false
      → Ensures ctx (unauthorized_vote d from vote table)
  unfolding unauthorized_vote
  unauthorized_vote-IsValid d from (ValidityVote.issued s) table inv h = absurd (ground arith)
  unauthorized_vote-IsValid d from (ValidityVote.valid s) table inv h = inv
  unauthorized_vote-IsValid d from (ValidityVote.invalid s) table inv h = inv

  pub validity_vote-IsValid :
      (from : V) (d : D) (vote : ValidityVote S) (table : Table V D G S C)
      → IsValid ctx table
      → ((votes : CandidateData V G S C)
          → Map.get table.candidate_votes d ≡ some votes
          → is_issued vote ≡ true
          → ctx.is_member_of from votes.group_id ≡ true)
      → Ensures ctx (validity_vote ctx from d vote table)
  unfolding validity_vote
  validity_vote-IsValid from d vote table inv may =
      elim (Option-cases (Map.get table.candidate_votes d)) [
        | inl q ↦ rw (q, validity_vote, Ensures) inv
        | inr (votes, q) ↦ elim (Bool-cases (ctx.is_member_of from votes.group_id)) [
          | inr off ↦
              rw (q, off, Ensures)
                (unauthorized_vote-IsValid d from vote table inv
                  (elim (Bool-cases (is_issued vote)) [
                    | inl i ↦ absurd (ground (arith, may votes q i))
                    | inr i ↦ i
                  ]))
          | inl duty ↦ elim (Option-cases (Map.get votes.validity_votes from)) [
            | inr (old, k) ↦
                rw (q, duty, k, Ensures) (known_voter-IsValid d votes old vote table inv)
            | inl k ↦
                rw (q, duty, k, Ensures)
                  (store_votes-IsValid ctx d votes (add_vote from vote votes) table q
                    (add_vote-group_id ctx from vote votes)
                    (add_vote-IsFiled ctx d from vote votes (inv.filed d votes q) k duty) inv)
          ]
        ]
      ]
