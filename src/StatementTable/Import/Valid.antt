-- ===== src/StatementTable/Import/Valid.antt =====
-- polkadot/statement-table/src/generic.rs: the invariant of the table.
use polkadot.Prelude.{
  ℕ, ◌+◌, ◌≡◌, ◌≢◌, refl, sym, ap, Bool, true, false, ◌&&◌, none, some, [], ◌∷◌, arith, length,
  length-append, Eq, nat_eq, ◌==◌, ==_iff, ==_refl, if◌then◌else◌, inl, inr, Bool-cases,
}
use polkadot.Prelude.Map
use polkadot.Prelude.Map.{Map}
use polkadot.StatementTable.Types.{
  Context, ValidityVote, CandidateData, Table, can_be_included, vote_eq,
}
use polkadot.StatementTable.Import.{Outcome, add_vote, store_votes, proposal_of, default_table}
use polkadot.StatementTable.Import.Counts.{Tracks, update_includable_count-Tracks}

abbrev pub is_issued : {S : Type 0} → ValidityVote S → Bool
is_issued (ValidityVote.issued _) = true
is_issued _ = false

abbrev pub is_invalid : {S : Type 0} → ValidityVote S → Bool
is_invalid (ValidityVote.invalid _) = true
is_invalid _ = false

module _ {V D G S C : Type 0} ⦃eV : Eq V⦄ ⦃eD : Eq D⦄ ⦃eG : Eq G⦄ (ctx : Context V D G C) where
  -- A candidate of the group that has its votes.
  abbrev pub includable : G → CandidateData V G S C → Bool
  includable g votes =
      votes.group_id == g && can_be_included votes (ctx.requisite_votes votes.group_id)

  -- The number of includable candidates of a group.
  abbrev pub tally : Map D (CandidateData V G S C) → G → ℕ
  tally m g = Map.count_values (includable g) m

  -- The data of one candidate, stored under the digest `d`: the candidate's own digest and group,
  -- votes of the authorities on duty only, and as many indications as votes of invalidity.
  pub record IsFiled (d : D) (votes : CandidateData V G S C) : Type 0 where
    pub digest : ctx.candidate_digest votes.candidate ≡ d
    pub group : votes.group_id ≡ ctx.candidate_group votes.candidate
    pub members :
        (v : V) (vote : ValidityVote S)
        → Map.get votes.validity_votes v ≡ some vote
        → ctx.is_member_of v votes.group_id ≡ true
    pub guarantors :
        (v : V) (s : S)
        → Map.get votes.availability_votes v ≡ some s
        → ctx.is_availability_guarantor_of v votes.group_id ≡ true
    pub indicated : length votes.indicated_bad_by ≡ Map.count_values is_invalid votes.validity_votes

  pub record IsValid (table : Table V D G S C) : Type 0 where
    pub counted : Tracks table.includable_count (tally table.candidate_votes)
    pub filed :
        (d : D) (votes : CandidateData V G S C)
        → Map.get table.candidate_votes d ≡ some votes
        → IsFiled d votes
    pub opened :
        (v : V) (d : D) (s : S)
        → proposal_of v table ≡ some (d, s)
        → Map.get table.candidate_votes d ≢ none

  tally-insert_ne :
      (m : Map D (CandidateData V G S C)) (d : D) (votes votes' : CandidateData V G S C) (h : G)
      → Map.get m d ≡ some votes
      → votes'.group_id ≡ votes.group_id
      → (votes.group_id == h) ≡ false
      → tally (Map.insert m d votes') h ≡ tally m h
  tally-insert_ne m d votes votes' h g same ne = ground (
    arith,
    Map.count_values-replace (includable h) m d votes' votes,
    ==_iff votes.group_id h,
    ==_iff votes'.group_id h,
  )

  tally-insert_eq :
      (m : Map D (CandidateData V G S C)) (d : D) (votes votes' : CandidateData V G S C)
      → Map.get m d ≡ some votes
      → votes'.group_id ≡ votes.group_id
      → tally (Map.insert m d votes') votes.group_id
          + (if can_be_included votes (ctx.requisite_votes votes.group_id) then 1 else 0)
        ≡ tally m votes.group_id
          + (if can_be_included votes' (ctx.requisite_votes votes.group_id) then 1 else 0)
  tally-insert_eq m d votes votes' g same = ground (
    arith,
    Map.count_values-replace (includable votes.group_id) m d votes' votes,
    ==_iff votes'.group_id votes.group_id,
    ==_refl votes.group_id,
    ap ctx.requisite_votes same,
  )

  -- A table that satisfies the invariant, and no panic.
  abbrev pub Ensures : Outcome V D G S C → Type 0
  Ensures none = ⊥
  Ensures (some (table, _, _)) = IsValid table

  pub store_votes-IsValid :
      (d : D) (votes votes' : CandidateData V G S C) (table : Table V D G S C)
      → Map.get table.candidate_votes d ≡ some votes
      → votes'.group_id ≡ votes.group_id
      → IsFiled d votes'
      → IsValid table
      → Ensures (store_votes ctx d votes votes' table)
  unfolding store_votes proposal_of
  store_votes-IsValid d votes votes' table g same new_filed inv = record {
    counted =
        update_includable_count-Tracks table.includable_count votes.group_id _ _
          (tally table.candidate_votes) (tally (Map.insert table.candidate_votes d votes'))
          inv.counted (λ h ne. tally-insert_ne table.candidate_votes d votes votes' h g same ne)
          (tally-insert_eq table.candidate_votes d votes votes' g same);
    filed = λ d' w h. elim (Bool-cases (d == d')) [
      | inl e ↦
          let here : d ≡ d' = (==_iff d d').0 e in
          let what : votes' ≡ w =
            ground (arith, Map.get-insert table.candidate_votes d d' votes') in
          rw (sym here, sym what) new_filed
      | inr e ↦ inv.filed d' w (ground (arith, Map.get-insert table.candidate_votes d d' votes'))
    ];
    opened = λ v d' s h e.
        inv.opened v d' s h (ground (arith, Map.get-insert table.candidate_votes d d' votes'));
  }

  member_after :
      (m : Map V (ValidityVote S)) (g : G) (from v : V) (vote w : ValidityVote S)
      → ((u : V) (x : ValidityVote S) → Map.get m u ≡ some x → ctx.is_member_of u g ≡ true)
      → ctx.is_member_of from g ≡ true
      → Map.get (Map.insert m from vote) v ≡ some w
      → ctx.is_member_of v g ≡ true
  member_after m g from v vote w old new h = elim (Bool-cases (from == v)) [
    | inl e ↦ rw (sym ((==_iff from v).0 e)) new
    | inr e ↦ old v w (ground (arith, Map.get-insert m from v vote))
  ]

  pub guarantor_after :
      (m : Map V S) (g : G) (from v : V) (vote w : S)
      → ((u : V) (x : S) → Map.get m u ≡ some x → ctx.is_availability_guarantor_of u g ≡ true)
      → ctx.is_availability_guarantor_of from g ≡ true
      → Map.get (Map.insert m from vote) v ≡ some w
      → ctx.is_availability_guarantor_of v g ≡ true
  guarantor_after m g from v vote w old new h = elim (Bool-cases (from == v)) [
    | inl e ↦ rw (sym ((==_iff from v).0 e)) new
    | inr e ↦ old v w (ground (arith, Map.get-insert m from v vote))
  ]

  pub add_vote-group_id :
      (from : V) (vote : ValidityVote S) (votes : CandidateData V G S C)
      → (add_vote from vote votes).group_id ≡ votes.group_id
  unfolding add_vote
  add_vote-group_id from (ValidityVote.issued s) votes = refl
  add_vote-group_id from (ValidityVote.valid s) votes = refl
  add_vote-group_id from (ValidityVote.invalid s) votes = refl

  pub add_vote-IsFiled :
      (d : D) (from : V) (vote : ValidityVote S) (votes : CandidateData V G S C)
      → IsFiled d votes
      → Map.get votes.validity_votes from ≡ none
      → ctx.is_member_of from votes.group_id ≡ true
      → IsFiled d (add_vote from vote votes)
  unfolding add_vote
  add_vote-IsFiled d from (ValidityVote.issued s) votes f fresh m = record {
    digest = f.digest;
    group = f.group;
    members = λ v w.
        member_after votes.validity_votes votes.group_id from v (ValidityVote.issued s) w f.members
          m;
    guarantors = f.guarantors;
    indicated = ground (
      arith,
      f.indicated,
      Map.count_values-insert is_invalid votes.validity_votes from (ValidityVote.issued s),
    );
  }
  add_vote-IsFiled d from (ValidityVote.valid s) votes f fresh m = record {
    digest = f.digest;
    group = f.group;
    members = λ v w.
        member_after votes.validity_votes votes.group_id from v (ValidityVote.valid s) w f.members
          m;
    guarantors = f.guarantors;
    indicated = ground (
      arith,
      f.indicated,
      Map.count_values-insert is_invalid votes.validity_votes from (ValidityVote.valid s),
    );
  }
  add_vote-IsFiled d from (ValidityVote.invalid s) votes f fresh m = record {
    digest = f.digest;
    group = f.group;
    members = λ v w.
        member_after votes.validity_votes votes.group_id from v (ValidityVote.invalid s) w f.members
          m;
    guarantors = f.guarantors;
    indicated = ground (
      arith,
      f.indicated,
      Map.count_values-insert is_invalid votes.validity_votes from (ValidityVote.invalid s),
      length-append votes.indicated_bad_by (from ∷ []),
    );
  }

  pub default_table-IsValid : IsValid default_table
  unfolding default_table proposal_of Map.get Map.count_values
  default_table-IsValid = record {
    counted = λ g. refl;
    filed = λ d votes h. absurd (ground arith);
    opened = λ v d s h. absurd (ground arith);
  }
