-- ===== src/StatementTable/Import/Accused.antt =====
-- polkadot/statement-table/src/generic.rs: the misbehavior on record after imports.
use polkadot.Prelude.{
  ◌≡◌, ◌∙◌, sym, ap, Option, none, some, List, [], ◌∷◌, arith, Eq, nat_eq, ◌==◌, ==_iff, inl, inr,
  Option-cases, Bool-cases, All,
}
use mathlib.Core.Path.{subst}
use polkadot.Prelude.Map
use polkadot.Prelude.Map.{Map}
use polkadot.StatementTable.Types.{
  Context, Statement, SignedStatement, StatementTrace, Misbehavior, vote_eq, Summary, Table,
}
use polkadot.StatementTable.Import.{
  proposal_of, note_trace_seen, note_origin, conclude, trace_of, dispatch, import_statement,
  import_all, default_table,
}
use polkadot.StatementTable.Import.Valid.{IsValid, default_table-IsValid}
use polkadot.StatementTable.Import.Signed.{Proves, IsSigned, IsFair}
use polkadot.StatementTable.Import.Proposals.{proposal_of-note_trace_seen}
use polkadot.StatementTable.Import.Candidates.{NeedsVotes}
use polkadot.StatementTable.Import.Statements.{import_statement-IsValid}
use polkadot.StatementTable.Import.Fair.{dispatch-IsFair}

module _ {V D G S C : Type 0} ⦃eV : Eq V⦄ ⦃eD : Eq D⦄ ⦃eG : Eq G⦄ ⦃eS : Eq S⦄
    (ctx : Context V D G C) (Issued : V → Statement C D → S → Type 0)
    (collision_free : (c c' : C) → ctx.candidate_digest c ≡ ctx.candidate_digest c' → c ≡ c')
    (needs : NeedsVotes ctx) where
  note_trace_seen-IsSigned :
      (trace : StatementTrace V D) (u : V) (table : Table V D G S C)
      → IsSigned ctx Issued table
      → IsSigned ctx Issued (note_trace_seen trace u table)
  unfolding note_trace_seen
  note_trace_seen-IsSigned trace u table k = record {
    voted = k.voted;
    proposed = λ v d s h. k.proposed v d s (sym (proposal_of-note_trace_seen trace u v table) ∙ h);
    accused = k.accused;
  }

  accused_after :
      (table : Table V D G S C) (signer v : V) (m m' : Misbehavior C D V S)
      → IsSigned ctx Issued table
      → Proves ctx Issued signer m
      → Map.get (Map.insert table.detected_misbehavior signer m) v ≡ some m'
      → Proves ctx Issued v m'
  accused_after table signer v m m' k p h = elim (Bool-cases (signer == v)) [
    | inl e ↦
        let here : signer ≡ v = (==_iff signer v).0 e in
        let what : m ≡ m' = ground (arith, Map.get-insert table.detected_misbehavior signer v m) in
        rw (sym here, sym what) p
    | inr e ↦ k.accused v m' (ground (arith, Map.get-insert table.detected_misbehavior signer v m))
  ]

  conclude-IsSigned :
      (trace : StatementTrace V D) (signer : V) (from : Option V)
      (misbehavior : Option (Misbehavior C D V S)) (table : Table V D G S C)
      (maybe_summary : Option (Summary D G))
      → IsFair ctx Issued signer (some (table, misbehavior, maybe_summary))
      → IsSigned ctx Issued (conclude trace signer from misbehavior table)
  unfolding conclude note_origin proposal_of
  conclude-IsSigned trace signer from (some m) table sm (k, p) = record {
    voted = k.voted;
    proposed = k.proposed;
    accused = λ v m' h. accused_after table signer v m m' k p h;
  }
  conclude-IsSigned trace signer none none table sm k =
      note_trace_seen-IsSigned trace signer table k
  conclude-IsSigned trace signer (some u) none table sm k =
      note_trace_seen-IsSigned trace signer (note_trace_seen trace u table)
        (note_trace_seen-IsSigned trace u table k)

  import_statement-IsSigned :
      (st : SignedStatement C D V S) (from : Option V) (table table' : Table V D G S C)
      (maybe_summary : Option (Summary D G))
      → IsValid ctx table
      → IsSigned ctx Issued table
      → Issued st.sender st.statement st.signature
      → import_statement ctx st from table ≡ some (table', maybe_summary)
      → IsSigned ctx Issued table'
  unfolding import_statement
  import_statement-IsSigned st from table table' maybe_summary inv k iss h =
      elim (Option-cases (dispatch ctx st.statement st.signature st.sender table)) [
        | inl q ↦ absurd (ground arith)
        | inr ((next, misbehavior, sm), q) ↦
            let fair = subst (IsFair ctx Issued st.sender) q (
              dispatch-IsFair ctx Issued collision_free needs st.statement st.signature st.sender
                table inv k iss) in
            let trace = trace_of st.statement st.sender in
            let same : conclude trace st.sender from misbehavior next ≡ table' = ground arith in
            rw (sym same) (conclude-IsSigned trace st.sender from misbehavior next sm fair)
      ]

  abbrev pub IsIssued : SignedStatement C D V S × Option V → Type 0
  IsIssued (st, _) = Issued st.sender st.statement st.signature

  import_all-IsSigned :
      (imports : List (SignedStatement C D V S × Option V)) (table table' : Table V D G S C)
      → IsValid ctx table
      → IsSigned ctx Issued table
      → All IsIssued imports
      → import_all ctx imports table ≡ some table'
      → IsSigned ctx Issued table'
  unfolding import_all
  import_all-IsSigned [] table table' inv k iss h =
      let same : table ≡ table' = ground arith in rw (sym same) k
  import_all-IsSigned ((st, from) ∷ imports) table table' inv k iss h =
      let (next, sm, q, inv') =
        import_statement-IsValid ctx (λ c c' e. ap ctx.candidate_group (collision_free c c' e))
          needs st from table inv in
      import_all-IsSigned imports next table' inv'
        (import_statement-IsSigned st from table next sm inv k iss.0 q) iss.1
        (rw (q, import_all) at h)

  default_table-IsSigned : IsSigned ctx Issued default_table
  unfolding default_table proposal_of Map.get
  default_table-IsSigned = record {
    voted = λ d votes v w h. absurd (ground arith);
    proposed = λ v d s h. absurd (ground arith);
    accused = λ v m h. absurd (ground arith);
  }

  -- Only authorities that broke the rules are accused: if every statement that is imported into a
  -- new table was issued by its sender, digests are free of collisions and every group needs some
  -- vote, then the misbehavior on record for an authority holds either two contradictory
  -- statements that this authority issued (votes of two kinds on one candidate, or two candidates
  -- with different digests), or one that it issued without being on duty for the candidate.
  pub detected_misbehavior-import_all :
      (imports : List (SignedStatement C D V S × Option V)) (table : Table V D G S C) (v : V)
      (m : Misbehavior C D V S)
      → All IsIssued imports
      → import_all ctx imports default_table ≡ some table
      → Map.get table.detected_misbehavior v ≡ some m
      → Proves ctx Issued v m
  detected_misbehavior-import_all imports table v m iss h =
      (import_all-IsSigned imports default_table table (default_table-IsValid ctx)
          default_table-IsSigned iss h).accused
        v m
