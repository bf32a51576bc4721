-- ===== src/StatementTable/Import/Statements.antt =====
-- polkadot/statement-table/src/generic.rs: the invariant of the table in `import_statement`.
use polkadot.Prelude.{
  ◌≡◌, refl, sym, ◌∙◌, true, Option, none, some, List, [], ◌∷◌, arith, Eq, nat_eq, ◌==◌, inl, inr,
  Option-cases, Bool-cases,
}
use mathlib.Core.Path.{subst}
use polkadot.Prelude.Map
use polkadot.Prelude.Map.{Map}
use polkadot.StatementTable.Types.{
  Context, Statement, SignedStatement, StatementTrace, ValidityVote, Misbehavior, Summary, Table,
  vote_eq,
}
use polkadot.StatementTable.Import.{
  validity_vote, default_table, proposal_of, second_proposal, note_origin, note_trace_seen,
  conclude, import_candidate, dispatch, import_statement, import_all, trace_of,
}
use polkadot.StatementTable.Import.Counts.{Tracks}
use polkadot.StatementTable.Import.Valid.{tally, IsValid, default_table-IsValid, Ensures}
use polkadot.StatementTable.Import.Steps.{availability_vote-IsValid, validity_vote-IsValid}
use polkadot.StatementTable.Import.Proposals.{proposal_of-note_trace_seen}
use polkadot.StatementTable.Import.Candidates.{DigestsGroups, NeedsVotes, proposed-IsValid}

module _ {V D G S C : Type 0} ⦃eV : Eq V⦄ ⦃eD : Eq D⦄ ⦃eG : Eq G⦄ ⦃eS : Eq S⦄
    (ctx : Context V D G C) (groups : DigestsGroups ctx) (needs : NeedsVotes ctx) where
  issued_vote-IsValid :
      (from : V) (c : C) (vote : ValidityVote S) (table : Table V D G S C)
      → ctx.is_member_of from (ctx.candidate_group c) ≡ true
      → IsValid ctx table
      → Ensures ctx (validity_vote ctx from (ctx.candidate_digest c) vote table)
  issued_vote-IsValid from c vote table duty inv =
      validity_vote-IsValid ctx from (ctx.candidate_digest c) vote table inv (λ votes q _.
        let f = inv.filed (ctx.candidate_digest c) votes q in
        rw (f.group, groups votes.candidate c f.digest) duty)

  import_candidate-IsValid :
      (from : V) (c : C) (s : S) (table : Table V D G S C)
      → IsValid ctx table
      → Ensures ctx (import_candidate ctx from c s table)
  unfolding import_candidate second_proposal
  import_candidate-IsValid from c s table inv =
      let digest = ctx.candidate_digest c in
      elim (Bool-cases (ctx.is_member_of from (ctx.candidate_group c))) [
        | inr off ↦ rw (off, Ensures) inv
        | inl duty ↦ elim (Option-cases (proposal_of from table)) [
          | inl q ↦
              rw (duty, q, Ensures)
                (issued_vote-IsValid from c (ValidityVote.issued s) _ duty
                  (proposed-IsValid ctx needs from c s table inv))
          | inr ((old, t), q) ↦ elim (Bool-cases (old == digest)) [
            | inl same ↦
                rw (duty, q, same, Ensures)
                  (issued_vote-IsValid from c (ValidityVote.issued s) table duty inv)
            | inr other ↦ elim (Option-cases (Map.get table.candidate_votes old)) [
              | inl n ↦ absurd (inv.opened from old t q n)
              | inr (votes, n) ↦ rw (duty, q, other, n, Ensures) inv
            ]
          ]
        ]
      ]

  note_trace_seen-IsValid :
      (trace : StatementTrace V D) (u : V) (table : Table V D G S C)
      → IsValid ctx table
      → IsValid ctx (note_trace_seen trace u table)
  unfolding note_trace_seen
  note_trace_seen-IsValid trace u table inv = record {
    counted = inv.counted;
    filed = inv.filed;
    opened = λ v d s h. inv.opened v d s (sym (proposal_of-note_trace_seen trace u v table) ∙ h);
  }

  conclude-IsValid :
      (trace : StatementTrace V D) (signer : V) (from : Option V)
      (misbehavior : Option (Misbehavior C D V S)) (table : Table V D G S C)
      → IsValid ctx table
      → IsValid ctx (conclude trace signer from misbehavior table)
  unfolding conclude note_origin proposal_of
  conclude-IsValid trace signer from (some m) table inv = record {
    counted = inv.counted;
    filed = inv.filed;
    opened = inv.opened;
  }
  conclude-IsValid trace signer none none table inv = note_trace_seen-IsValid trace signer table inv
  conclude-IsValid trace signer (some u) none table inv =
      note_trace_seen-IsValid trace signer (note_trace_seen trace u table)
        (note_trace_seen-IsValid trace u table inv)

  dispatch-IsValid :
      (st : Statement C D) (s : S) (signer : V) (table : Table V D G S C)
      → IsValid ctx table
      → Ensures ctx (dispatch ctx st s signer table)
  unfolding dispatch
  dispatch-IsValid (Statement.candidate c) s signer table inv =
      import_candidate-IsValid signer c s table inv
  dispatch-IsValid (Statement.valid d) s signer table inv =
      validity_vote-IsValid ctx signer d (ValidityVote.valid s) table inv
        (λ votes q h. absurd (ground arith))
  dispatch-IsValid (Statement.invalid d) s signer table inv =
      validity_vote-IsValid ctx signer d (ValidityVote.invalid s) table inv
        (λ votes q h. absurd (ground arith))
  dispatch-IsValid (Statement.available d) s signer table inv =
      availability_vote-IsValid ctx signer d s table inv

  -- If candidates with one digest are of one group, and every group needs some vote, then
  -- importing any signed statement into a table that satisfies the invariant returns without a
  -- panic, and the new table satisfies the invariant: the count of includable candidates per group
  -- is exact, every candidate has votes of the authorities on duty only, as many indications of
  -- badness as votes of invalidity, and every proposal on record has its candidate's entry.
  pub import_statement-IsValid :
      (st : SignedStatement C D V S) (from : Option V) (table : Table V D G S C)
      → IsValid ctx table
      → (table' : Table V D G S C) × (maybe_summary : Option (Summary D G)) × (import_statement ctx
            st from table
          ≡ some (table', maybe_summary))
        × IsValid ctx table'
  unfolding import_statement
  import_statement-IsValid st from table inv =
      elim (Option-cases (dispatch ctx st.statement st.signature st.sender table)) [
        | inl q ↦
            absurd (
              subst (Ensures ctx) q
                (dispatch-IsValid st.statement st.signature st.sender table inv))
        | inr ((table', misbehavior, maybe_summary), q) ↦ (
          conclude (trace_of st.statement st.sender) st.sender from misbehavior table',
          maybe_summary,
          rw (q, import_statement) refl,
          conclude-IsValid (trace_of st.statement st.sender) st.sender from misbehavior table' (
              subst (Ensures ctx) q
                (dispatch-IsValid st.statement st.signature st.sender table inv)),
        )
      ]

  pub import_all-IsValid :
      (imports : List (SignedStatement C D V S × Option V)) (table : Table V D G S C)
      → IsValid ctx table
      → (table' : Table V D G S C) × (import_all ctx imports table ≡ some table')
        × IsValid ctx table'
  unfolding import_all
  import_all-IsValid [] table inv = (table, refl, inv)
  import_all-IsValid ((st, from) ∷ imports) table inv =
      let (next, maybe_summary, q, inv') = import_statement-IsValid st from table inv in
      let (last, r, inv'') = import_all-IsValid imports next inv' in
      (last, rw (q, import_all) r, inv'')

  -- Whatever signed statements are imported into a new table, in whatever order: if candidates
  -- with one digest are of one group and every group needs some vote, then no import panics, and
  -- in the table at the end `includable_count` has for each group the number of its candidates
  -- that have enough votes and no indication against them, and no entry for zero.
  pub includable_count-import_all :
      (imports : List (SignedStatement C D V S × Option V))
      → (table : Table V D G S C) × (import_all ctx imports default_table ≡ some table)
        × Tracks table.includable_count (tally ctx table.candidate_votes)
  includable_count-import_all imports =
      let (table, q, inv) = import_all-IsValid imports default_table (default_table-IsValid ctx) in
      (table, q, inv.counted)
