-- ===== src/StatementTable/Import.antt =====
-- polkadot/statement-table/src/generic.rs: importing signed statements. An import returns `none`
-- where the source panics, and else the new table with the misbehavior and the summary.
pub mod Counts
pub mod Valid
pub mod Steps
pub mod Proposals
pub mod Candidates
pub mod Statements
pub mod Signed
pub mod Accusations
pub mod Fair
pub mod Accused
mod Tests
use polkadot.Prelude.{
  ℕ, ◌+◌, ◌-◌, Bool, true, false, not, ◌&&◌, Option, none, some, List, [], ◌∷◌, ◌++◌, length, Eq,
  nat_eq, ◌==◌, insert, if◌then◌else◌,
}
use polkadot.Prelude.Map
use polkadot.Prelude.Map.{Map}
use polkadot.StatementTable.Types.{
  Context, Statement, SignedStatement, StatementTrace, ValidityDoubleVote, issued_and_validity,
  issued_and_invalidity, validity_and_invalidity, Misbehavior, validity_double_vote,
  multiple_candidates, unauthorized_statement, ValidityVote, vote_eq, trace_eq, Summary,
  CandidateData, AuthorityData, Table, can_be_included, summary,
}

-- The votes of one authority on one candidate that contradict one another; `none` for two
-- signatures on the same kind of vote.
pub double_vote :
    {C D S : Type 0} → C → D → ValidityVote S → ValidityVote S → Option (ValidityDoubleVote C D S)
double_vote c d (ValidityVote.issued iss) (ValidityVote.valid good) =
    some (issued_and_validity (c, iss) (d, good))
double_vote c d (ValidityVote.valid good) (ValidityVote.issued iss) =
    some (issued_and_validity (c, iss) (d, good))
double_vote c d (ValidityVote.issued iss) (ValidityVote.invalid bad) =
    some (issued_and_invalidity (c, iss) (d, bad))
double_vote c d (ValidityVote.invalid bad) (ValidityVote.issued iss) =
    some (issued_and_invalidity (c, iss) (d, bad))
double_vote c d (ValidityVote.valid good) (ValidityVote.invalid bad) =
    some (validity_and_invalidity d good bad)
double_vote c d (ValidityVote.invalid bad) (ValidityVote.valid good) =
    some (validity_and_invalidity d good bad)
double_vote c d _ _ = none

module _ {G : Type 0} ⦃eG : Eq G⦄ where
  -- one candidate less in the group, and no entry for zero
  pub less_includable : Map G ℕ → G → Map G ℕ
  less_includable counts group = elim (Map.get counts group) [
    | none ↦ counts
    | some n ↦ if n - 1 == 0 then Map.remove counts group else Map.insert counts group (n - 1)
  ]

  pub more_includable : Map G ℕ → G → Map G ℕ
  more_includable counts group =
      Map.insert counts group (elim (Map.get counts group) [ none ↦ 1 | some n ↦ n + 1 ])

  pub update_includable_count : Map G ℕ → G → Bool → Bool → Map G ℕ
  update_includable_count counts group was_includable is_includable =
      let counts' =
        if was_includable && not is_includable then less_includable counts group else counts in
      if not was_includable && is_includable then more_includable counts' group else counts'

-- the state of the table, the misbehavior and the summary; `none` for a panic
abbrev pub Outcome : Type 0 → Type 0 → Type 0 → Type 0 → Type 0 → Type 0
Outcome V D G S C = Option (Table V D G S C × Option (Misbehavior C D V S) × Option (Summary D G))

pub unauthorized : {C D V S : Type 0} → Statement C D → S → V → Misbehavior C D V S
unauthorized statement signature sender = unauthorized_statement (record {
  statement = record { statement = statement; signature = signature; sender = sender };
})

pub trace_of : {C D V : Type 0} → Statement C D → V → StatementTrace V D
trace_of (Statement.candidate _) signer = StatementTrace.candidate signer
trace_of (Statement.valid d) signer = StatementTrace.valid signer d
trace_of (Statement.invalid d) signer = StatementTrace.invalid signer d
trace_of (Statement.available d) signer = StatementTrace.available signer d

-- a first vote of an authority: a vote of invalidity is noted too
pub add_vote :
    {V G S C : Type 0} ⦃eV : Eq V⦄
    → V
    → ValidityVote S
    → CandidateData V G S C
    → CandidateData V G S C
add_vote from (ValidityVote.invalid s) votes = record votes {
  indicated_bad_by = votes.indicated_bad_by ++ from ∷ [];
  validity_votes = Map.insert votes.validity_votes from (ValidityVote.invalid s);
}
add_vote from vote votes = record votes {
  validity_votes = Map.insert votes.validity_votes from vote;
}

module _ {V D G S C : Type 0} ⦃eV : Eq V⦄ ⦃eD : Eq D⦄ where
  pub note_trace_seen : StatementTrace V D → V → Table V D G S C → Table V D G S C
  note_trace_seen trace known_by table =
      let data_ : AuthorityData V D S = elim (Map.get table.authority_data known_by) [
        | none ↦ record { proposal = none; known_statements = [] }
        | some d ↦ d
      ] in
      let data' : AuthorityData V D S = record data_ {
        known_statements = insert data_.known_statements trace;
      } in
      record table { authority_data = Map.insert table.authority_data known_by data' }

module _ {V D G S C : Type 0} ⦃eS : Eq S⦄ where
  -- an authority that has voted before
  pub known_voter :
      D
      → CandidateData V G S C
      → ValidityVote S
      → ValidityVote S
      → Table V D G S C
      → Outcome V D G S C
  known_voter digest votes old vote table =
      if old == vote
      then some (table, none, none)
      else elim (double_vote votes.candidate digest old vote) [
        | none ↦ some (table, none, none)
        | some proof ↦ some (table, some (validity_double_vote proof), none)
      ]

module _ {V D G S C : Type 0} ⦃eV : Eq V⦄ ⦃eD : Eq D⦄ where
  -- an authority outside of the group; an implicit vote of an issuer gets here only by a panic
  pub unauthorized_vote : D → V → ValidityVote S → Table V D G S C → Outcome V D G S C
  unauthorized_vote digest from (ValidityVote.valid s) table =
      some (table, some (unauthorized (Statement.valid digest) s from), none)
  unauthorized_vote digest from (ValidityVote.invalid s) table =
      some (table, some (unauthorized (Statement.invalid digest) s from), none)
  unauthorized_vote digest from (ValidityVote.issued s) table = none

  -- the proposal that an authority has made, if it has an entry and made one
  pub proposal_of : V → Table V D G S C → Option (D × S)
  proposal_of from table = elim (Map.get table.authority_data from) [
    | none ↦ none
    | some existing ↦ existing.proposal
  ]

  pub note_proposal : V → D → S → Table V D G S C → Table V D G S C
  note_proposal from digest signature table =
      let known : List (StatementTrace V D) = elim (Map.get table.authority_data from) [
        | none ↦ []
        | some existing ↦ existing.known_statements
      ] in
      let data' : AuthorityData V D S = record {
        proposal = some (digest, signature);
        known_statements = known;
      } in
      record table { authority_data = Map.insert table.authority_data from data' }

  -- another candidate of an authority that has proposed before; the source panics if the first
  -- one has no entry
  pub second_proposal : D → S → C → S → Table V D G S C → Outcome V D G S C
  second_proposal old_digest old_signature candidate signature table =
      elim (Map.get table.candidate_votes old_digest) [
        | none ↦ none
        | some votes ↦ some (
          table,
          some (
              multiple_candidates (record {
                first = (votes.candidate, old_signature);
                second = (candidate, signature);
              })),
          none,
        )
      ]

  pub note_origin : StatementTrace V D → Option V → Table V D G S C → Table V D G S C
  note_origin trace none table = table
  note_origin trace (some from) table = note_trace_seen trace from table

  -- all misbehavior in agreement is provable and actively malicious
  pub conclude :
      StatementTrace V D
      → V
      → Option V
      → Option (Misbehavior C D V S)
      → Table V D G S C
      → Table V D G S C
  conclude trace signer from (some misbehavior) table = record table {
    detected_misbehavior = Map.insert table.detected_misbehavior signer misbehavior;
  }
  conclude trace signer from none table =
      note_trace_seen trace signer (note_origin trace from table)

module _ {V D G S C : Type 0} ⦃eV : Eq V⦄ ⦃eD : Eq D⦄ ⦃eG : Eq G⦄ (ctx : Context V D G C) where
  -- the end of both kinds of votes: the new votes, the count and the summary
  pub store_votes :
      D → CandidateData V G S C → CandidateData V G S C → Table V D G S C → Outcome V D G S C
  store_votes digest votes votes' table =
      let thresholds = ctx.requisite_votes votes.group_id in
      some (
        record table {
          candidate_votes = Map.insert table.candidate_votes digest votes';
          includable_count =
              update_includable_count table.includable_count votes.group_id
                (can_be_included votes thresholds) (can_be_included votes' thresholds);
        },
        none,
        some (summary votes' digest),
      )

  pub availability_vote : V → D → S → Table V D G S C → Outcome V D G S C
  availability_vote from digest signature table = elim (Map.get table.candidate_votes digest) [
    | none ↦ some (table, none, none)
    | some votes ↦
        if ctx.is_availability_guarantor_of from votes.group_id
        then store_votes digest votes
            (record votes {
              availability_votes = Map.insert votes.availability_votes from signature;
            })
            table
        else some (table, some (unauthorized (Statement.available digest) signature from), none)
  ]

module _ {V D G S C : Type 0} (ctx : Context V D G C) where
  pub new_candidate : C → CandidateData V G S C
  new_candidate candidate = record {
    group_id = ctx.candidate_group candidate;
    candidate = candidate;
    validity_votes = [];
    availability_votes = [];
    indicated_bad_by = [];
  }

module _ {V D G S C : Type 0} ⦃eD : Eq D⦄ (ctx : Context V D G C) where
  -- `entry(digest).or_insert_with(...)`
  pub open_candidate : D → C → Table V D G S C → Table V D G S C
  open_candidate digest candidate table = elim (Map.get table.candidate_votes digest) [
    | some votes ↦ table
    | none ↦ record table {
      candidate_votes = Map.insert table.candidate_votes digest (new_candidate ctx candidate);
    }
  ]

  pub candidate_includable : D → Table V D G S C → Bool
  candidate_includable digest table = elim (Map.get table.candidate_votes digest) [
    | none ↦ false
    | some votes ↦ can_be_included votes (ctx.requisite_votes votes.group_id)
  ]

module _ {V D G S C : Type 0} ⦃eV : Eq V⦄ ⦃eD : Eq D⦄ ⦃eG : Eq G⦄ ⦃eS : Eq S⦄
    (ctx : Context V D G C) where
  pub validity_vote : V → D → ValidityVote S → Table V D G S C → Outcome V D G S C
  validity_vote from digest vote table = elim (Map.get table.candidate_votes digest) [
    | none ↦ some (table, none, none)
    | some votes ↦
        if ctx.is_member_of from votes.group_id
        then elim (Map.get votes.validity_votes from) [
          | some old ↦ known_voter digest votes old vote table
          | none ↦ store_votes ctx digest votes (add_vote from vote votes) table
        ]
        else unauthorized_vote digest from vote table
  ]

  pub import_candidate : V → C → S → Table V D G S C → Outcome V D G S C
  import_candidate from candidate signature table =
      let digest = ctx.candidate_digest candidate in
      let vote : ValidityVote S = ValidityVote.issued signature in
      if ctx.is_member_of from (ctx.candidate_group candidate)
      then elim (proposal_of from table) [
        | some (old_digest, old_signature) ↦
            if old_digest == digest
            then validity_vote from digest vote table
            else second_proposal old_digest old_signature candidate signature table
        | none ↦
            validity_vote from digest vote
              (open_candidate ctx digest candidate (note_proposal from digest signature table))
      ]
      else some (table, some (unauthorized (Statement.candidate candidate) signature from), none)

  pub dispatch : Statement C D → S → V → Table V D G S C → Outcome V D G S C
  dispatch (Statement.candidate c) signature signer table =
      import_candidate signer c signature table
  dispatch (Statement.valid d) signature signer table =
      validity_vote signer d (ValidityVote.valid signature) table
  dispatch (Statement.invalid d) signature signer table =
      validity_vote signer d (ValidityVote.invalid signature) table
  dispatch (Statement.available d) signature signer table =
      availability_vote ctx signer d signature table

  pub import_statement :
      SignedStatement C D V S
      → Option V
      → Table V D G S C
      → Option (Table V D G S C × Option (Summary D G))
  import_statement st from table = elim (dispatch st.statement st.signature st.sender table) [
    | none ↦ none
    | some (table', misbehavior, maybe_summary) ↦ some (
      conclude (trace_of st.statement st.sender) st.sender from misbehavior table',
      maybe_summary,
    )
  ]

  -- a sequence of imports
  pub import_all :
      List (SignedStatement C D V S × Option V) → Table V D G S C → Option (Table V D G S C)
  import_all [] table = some table
  import_all ((st, from) ∷ imports) table = elim (import_statement st from table) [
    | none ↦ none
    | some (table', _) ↦ import_all imports table'
  ]

pub default_table : {V D G S C : Type 0} → Table V D G S C
default_table = record {
  authority_data = [];
  detected_misbehavior = [];
  candidate_votes = [];
  includable_count = [];
}

module _ {V D G S C : Type 0} ⦃eD : Eq D⦄ where
  pub get_candidate : D → Table V D G S C → Option C
  get_candidate digest table = elim (Map.get table.candidate_votes digest) [
    | none ↦ none
    | some votes ↦ some votes.candidate
  ]

  -- how many groups have includable candidates
  pub includable_groups : Table V D G S C → ℕ
  includable_groups table = length table.includable_count
