-- ===== src/StatementTable/Import/Tests.antt =====
-- Candidates are numbers of the group that is their parity; two votes of validity and one of
-- availability are needed.
use polkadot.Prelude.{
  ℕ, ◌%◌, ◌≡◌, refl, ap, Bool, true, Option, none, some, List, [], ◌∷◌, arith, length, insert,
  nat_eqb, nat_eq,
}
use polkadot.Prelude.Map
use polkadot.StatementTable.Types.{
  Misbehavior, multiple_candidates, Context, Statement, SignedStatement, Summary, Table,
  can_be_included, indicated_bad, summary,
}
use polkadot.StatementTable.Import.{
  double_vote, second_proposal, import_all, import_statement, default_table, candidate_includable,
  includable_groups, dispatch, import_candidate, validity_vote, availability_vote, store_votes,
  update_includable_count, more_includable, less_includable, add_vote, note_trace_seen, note_origin,
  note_proposal, proposal_of, open_candidate, new_candidate, conclude, trace_of, unauthorized_vote,
  unauthorized,
}
use polkadot.StatementTable.Import.Counts.{Tracks}
use polkadot.StatementTable.Import.Valid.{tally, IsValid, default_table-IsValid}
use polkadot.StatementTable.Import.Signed.{Proves}
use polkadot.StatementTable.Import.Accused.{detected_misbehavior-import_all}
use polkadot.StatementTable.Import.Candidates.{DigestsGroups, NeedsVotes}
use polkadot.StatementTable.Import.Statements.{
  import_statement-IsValid, includable_count-import_all,
}

abbrev parity : Context ℕ ℕ ℕ ℕ
parity = record {
  candidate_digest = λ c. c;
  candidate_group = λ c. c % 2;
  is_member_of = λ v g. nat_eqb (v % 2) g;
  is_availability_guarantor_of = λ v g. nat_eqb (v % 3) g;
  requisite_votes = λ _. (2, 1);
}

parity-DigestsGroups : DigestsGroups parity
parity-DigestsGroups = λ c c' e. ap (λ x. x % 2) e

parity-NeedsVotes : NeedsVotes parity
parity-NeedsVotes = λ g. omega arith

abbrev signed : Statement ℕ ℕ → ℕ → SignedStatement ℕ ℕ ℕ ℕ
signed st v = record { statement = st; signature = v; sender = v }

abbrev imports : List (SignedStatement ℕ ℕ ℕ ℕ × Option ℕ)
imports =
    (signed (Statement.candidate 5) 1, none)
    ∷ (signed (Statement.valid 5) 3, some 1)
    ∷ (signed (Statement.available 5) 7, none)
    ∷ (signed (Statement.valid 5) 2, none)
    ∷ []

abbrev includable_in : Option (Table ℕ ℕ ℕ ℕ ℕ) → Option (Bool × ℕ)
includable_in none = none
includable_in (some t) = some (candidate_includable parity 5 t, includable_groups t)

-- every definition that an import goes through
run : ℕ
unfolding double_vote second_proposal import_all import_statement default_table candidate_includable
    includable_groups dispatch import_candidate validity_vote availability_vote store_votes
    update_includable_count more_includable less_includable add_vote note_trace_seen note_origin
    note_proposal proposal_of open_candidate new_candidate conclude trace_of unauthorized_vote
    unauthorized can_be_included indicated_bad summary Map.get Map.insert length insert
run = 0

imports-includable : includable_in (import_all parity imports default_table) ≡ some (true, 1)
unfolding run
imports-includable = refl

import_statement-IsValid_example :
    (table : Table ℕ ℕ ℕ ℕ ℕ) × (maybe_summary : Option (Summary ℕ ℕ)) × (import_statement parity
        (signed (Statement.candidate 5) 1)
        none
        default_table
      ≡ some (table, maybe_summary))
    × IsValid parity table
import_statement-IsValid_example =
    import_statement-IsValid parity parity-DigestsGroups parity-NeedsVotes
      (signed (Statement.candidate 5) 1) none default_table (default_table-IsValid parity)

includable_count-import_all_example :
    (table : Table ℕ ℕ ℕ ℕ ℕ) × (import_all parity imports default_table ≡ some table)
    × Tracks table.includable_count (tally parity table.candidate_votes)
includable_count-import_all_example =
    includable_count-import_all parity parity-DigestsGroups parity-NeedsVotes imports

abbrev twice : List (SignedStatement ℕ ℕ ℕ ℕ × Option ℕ)
twice =
    (signed (Statement.candidate 5) 1, none)
    ∷ (signed (Statement.valid 5) 3, some 1)
    ∷ (signed (Statement.candidate 7) 1, none)
    ∷ []

-- A signature is the number of its authority.
abbrev Issued : ℕ → Statement ℕ ℕ → ℕ → Type 0
Issued v st s = s ≡ v

abbrev table_in : Option (Table ℕ ℕ ℕ ℕ ℕ) → Table ℕ ℕ ℕ ℕ ℕ
table_in none = default_table
table_in (some t) = t

abbrev twice_table : Table ℕ ℕ ℕ ℕ ℕ
twice_table = table_in (import_all parity twice default_table)

abbrev two_candidates : Misbehavior ℕ ℕ ℕ ℕ
two_candidates = multiple_candidates (record { first = (5, 1); second = (7, 1) })

import_all-twice : import_all parity twice default_table ≡ some twice_table
unfolding run
import_all-twice = refl

twice-accused : Map.get twice_table.detected_misbehavior 1 ≡ some two_candidates
unfolding run
twice-accused = refl

detected_misbehavior-import_all_example : Proves parity Issued 1 two_candidates
detected_misbehavior-import_all_example =
    detected_misbehavior-import_all parity Issued (λ c c' e. e) parity-NeedsVotes twice twice_table
      1 two_candidates (refl, (refl, (refl, tt))) import_all-twice twice-accused
