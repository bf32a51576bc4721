-- ===== src/StatementTable/Import/Proposals.antt =====
-- The proposals on record after a step.
use polkadot.Prelude.{
  ◌≡◌, refl, ◌∙◌, Option, none, some, [], Eq, nat_eq, ◌==◌, ==_iff, if◌then◌else◌, inl, inr,
  Bool-cases,
}
use polkadot.Prelude.Map
use polkadot.Prelude.Map.{Map}
use polkadot.StatementTable.Types.{StatementTrace, AuthorityData, Table, vote_eq}
use polkadot.StatementTable.Import.{proposal_of, note_proposal, note_trace_seen}

module _ {V D S : Type 0} where
  known_proposal :
      (o : Option (AuthorityData V D S))
      → (elim o as (λ _. AuthorityData V D S) [
        | none ↦ record { proposal = none; known_statements = [] }
        | some d ↦ d
      ]).proposal
        ≡ elim o as (λ _. Option (D × S)) [ none ↦ none | some d ↦ d.proposal ]
  known_proposal none = refl
  known_proposal (some d) = refl

module _ {V D S : Type 0} ⦃eV : Eq V⦄ where
  proposal-insert :
      (m : Map V (AuthorityData V D S)) (u v : V) (x : AuthorityData V D S)
      → (elim (Map.get (Map.insert m u x) v) [ none ↦ none | some existing ↦ existing.proposal ])
        ≡ (if u == v
            then x.proposal
            else elim (Map.get m v) [ none ↦ none | some existing ↦ existing.proposal ])
  proposal-insert m u v x =
      rw (Map.get-insert m u v x)
        (elim (Bool-cases (u == v)) [ inl q ↦ rw (q) refl | inr q ↦ rw (q) refl ])

module _ {V D G S C : Type 0} ⦃eV : Eq V⦄ ⦃eD : Eq D⦄ where
  pub proposal_of-note_proposal :
      (from v : V) (d : D) (s : S) (table : Table V D G S C)
      → proposal_of v (note_proposal from d s table)
        ≡ (if from == v then some (d, s) else proposal_of v table)
  unfolding proposal_of note_proposal
  proposal_of-note_proposal from v d s table = proposal-insert table.authority_data from v _

  pub proposal_of-note_trace_seen :
      (trace : StatementTrace V D) (u v : V) (table : Table V D G S C)
      → proposal_of v (note_trace_seen trace u table) ≡ proposal_of v table
  unfolding proposal_of note_trace_seen
  proposal_of-note_trace_seen trace u v table = elim (Bool-cases (u == v)) [
    | inl q ↦
        let same : u ≡ v = (==_iff u v).0 q in
        proposal-insert table.authority_data u v _
        ∙ rw (q, same) (known_proposal (Map.get table.authority_data v))
    | inr q ↦ proposal-insert table.authority_data u v _ ∙ rw (q) refl
  ]
