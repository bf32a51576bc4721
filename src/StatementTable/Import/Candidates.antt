-- ===== src/StatementTable/Import/Candidates.antt =====
-- polkadot/statement-table/src/generic.rs: the entry of a new candidate.
use polkadot.Prelude.{
  ◌+◌, ◌≤◌, ◌≡◌, ◌≢◌, refl, sym, ap, false, none, some, arith, length, Eq, nat_eq, ◌==◌, ==_iff,
  ==_refl, inl, inr, Option-cases, Bool-cases,
}
use polkadot.Prelude.Map
use polkadot.Prelude.Map.{Map}
use polkadot.StatementTable.Types.{
  Context, CandidateData, Table, can_be_included, indicated_bad, vote_eq,
}
use polkadot.StatementTable.Import.{proposal_of, note_proposal, open_candidate, new_candidate}
use polkadot.StatementTable.Import.Counts.{Tracks}
use polkadot.StatementTable.Import.Valid.{includable, tally, IsFiled, IsValid}
use polkadot.StatementTable.Import.Proposals.{proposal_of-note_proposal}

-- Candidates with one digest are of one group.
abbrev pub DigestsGroups : {V D G C : Type 0} → Context V D G C → Type 0
DigestsGroups ctx =
    (c c' : _)
    → ctx.candidate_digest c ≡ ctx.candidate_digest c'
    → ctx.candidate_group c ≡ ctx.candidate_group c'

-- Some vote is needed before a candidate can be included.
abbrev pub NeedsVotes : {V D G C : Type 0} → Context V D G C → Type 0
NeedsVotes ctx = (g : _) → 1 ≤ (ctx.requisite_votes g).0 + (ctx.requisite_votes g).1

module _ {V D G S C : Type 0} ⦃eV : Eq V⦄ ⦃eD : Eq D⦄ ⦃eG : Eq G⦄ (ctx : Context V D G C)
    (needs : NeedsVotes ctx) where
  tally_new :
      (c : C) (d : D) (m : Map D (CandidateData V G S C)) (g : G)
      → Map.get m d ≡ none
      → tally ctx (Map.insert m d (new_candidate ctx c)) g ≡ tally ctx m g
  unfolding new_candidate can_be_included indicated_bad length
  tally_new c d m g h = ground (
    arith,
    Map.count_values-insert (includable ctx g) m d (new_candidate ctx c),
    needs (ctx.candidate_group c),
  )

  new_candidate-IsFiled :
      (c : C) → IsFiled {S = S} ctx (ctx.candidate_digest c) (new_candidate ctx c)
  unfolding new_candidate Map.get Map.count_values length
  new_candidate-IsFiled c = record {
    digest = refl;
    group = refl;
    members = λ v vote h. absurd (ground arith);
    guarantors = λ v s h. absurd (ground arith);
    indicated = refl;
  }

  open_candidate-IsValid :
      (c : C) (table : Table V D G S C)
      → Tracks table.includable_count (tally ctx table.candidate_votes)
      → ((d : D) (votes : CandidateData V G S C)
          → Map.get table.candidate_votes d ≡ some votes
          → IsFiled ctx d votes)
      → ((v : V) (d : D) (s : S)
          → proposal_of v table ≡ some (d, s)
          → (ctx.candidate_digest c == d) ≡ false
          → Map.get table.candidate_votes d ≢ none)
      → IsValid ctx (open_candidate ctx (ctx.candidate_digest c) c table)
  unfolding open_candidate proposal_of
  open_candidate-IsValid c table counted filed opened =
      let digest = ctx.candidate_digest c in
      elim (Option-cases (Map.get table.candidate_votes digest)) [
        | inr (votes, q) ↦
            rw (q, open_candidate)
              (record {
                counted = counted;
                filed = filed;
                opened = λ v d s h e. elim (Bool-cases (digest == d)) [
                  | inl same ↦
                      let here : digest ≡ d = (==_iff digest d).0 same in
                      ground (arith, q, ap (Map.get table.candidate_votes) here, e)
                  | inr other ↦ opened v d s h other e
                ];
              })
        | inl q ↦
            rw (q, open_candidate)
              (record {
                counted = λ g. rw (tally_new c digest table.candidate_votes g q) (counted g);
                filed = λ d w h. elim (Bool-cases (digest == d)) [
                  | inl same ↦
                      let here : digest ≡ d = (==_iff digest d).0 same in
                      let what : new_candidate ctx c ≡ w = ground (
                        arith,
                        Map.get-insert table.candidate_votes digest d (new_candidate ctx c),
                      ) in
                      rw (sym here, sym what) (new_candidate-IsFiled c)
                  | inr other ↦ filed d w (
                      ground (
                        arith,
                        Map.get-insert table.candidate_votes digest d (new_candidate ctx c),
                      ))
                ];
                opened = λ v d s h e. elim (Bool-cases (digest == d)) [
                  | inl same ↦
                      ground
                        (arith, Map.get-insert table.candidate_votes digest d (new_candidate ctx c))
                  | inr other ↦ opened v d s h other (
                      ground (
                        arith,
                        Map.get-insert table.candidate_votes digest d (new_candidate ctx c),
                      ))
                ];
              })
      ]

  pub proposed-IsValid :
      (from : V) (c : C) (s : S) (table : Table V D G S C)
      → IsValid ctx table
      → IsValid ctx (
          open_candidate ctx
            (ctx.candidate_digest c)
            c
            (note_proposal from (ctx.candidate_digest c) s table))
  unfolding note_proposal
  proposed-IsValid from c s table inv =
      let digest = ctx.candidate_digest c in
      open_candidate-IsValid c (note_proposal from digest s table) inv.counted inv.filed
        (λ v d t h other. elim (Bool-cases (from == v)) [
          | inl same ↦
              absurd
                (ground (arith, ==_refl digest, proposal_of-note_proposal from v digest s table))
          | inr ne ↦
              inv.opened v d t (ground (arith, proposal_of-note_proposal from v digest s table))
        ])
