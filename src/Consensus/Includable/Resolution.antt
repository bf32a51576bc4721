-- ===== src/Consensus/Includable/Resolution.antt =====
-- polkadot/consensus/src/shared_table/includable.rs: updates, and when the future resolves.
use polkadot.Prelude.{
  ◌+◌, ◌-◌, ◌≡◌, ◌↔◌, ◌⊎◌, sym, refl, Bool, true, not, ◌&&◌, none, some, List, [], ◌∷◌, arith, Eq,
  nat_eq, ◌==◌, if◌then◌else◌, inl, inr, Option-cases,
}
use polkadot.Prelude.Map
use polkadot.Prelude.Map.{Map}
use polkadot.Consensus.Includable.{
  IncludabilitySender, try_complete, is_complete, track, update_candidate,
}
use polkadot.Consensus.Includable.Tracking.{
  AllIncludable, IsTracking, IsCounted, try_complete-true, try_complete-tracking,
  try_complete-is_complete, try_complete-IsTracking, collect-Distinct,
}

module _ {H : Type 0} ⦃e : Eq H⦄ where
  -- The sender that `update_candidate` tries to complete.
  updated : H → Bool → IncludabilitySender H → IncludabilitySender H
  updated c b s = elim (Map.get s.tracking c) [
    | none ↦ s
    | some old ↦ record s {
      tracking = Map.insert s.tracking c b;
      includable_count =
          if not old && b
          then s.includable_count + 1
          else if old && not b
          then s.includable_count - 1
          else s.includable_count;
    }
  ]

  update_candidate-updated :
      (c : H) (b : Bool) (s : IncludabilitySender H)
      → update_candidate c b s ≡ try_complete (updated c b s)
  unfolding update_candidate updated
  update_candidate-updated c b s = elim (Option-cases (Map.get s.tracking c)) [
    | inl q ↦ rw (q, update_candidate, updated) refl
    | inr (old, q) ↦ rw (q, update_candidate, updated) refl
  ]

  updated-IsCounted :
      (c : H) (b : Bool) (s : IncludabilitySender H) → IsTracking s → IsCounted (updated c b s)
  unfolding updated
  updated-IsCounted c b s k = elim (Option-cases (Map.get s.tracking c)) [
    | inl q ↦ rw (q, updated) (record { distinct = k.distinct; counted = k.counted })
    | inr (old, q) ↦
        rw (q, updated)
          (record {
            distinct = Map.insert-Distinct s.tracking c b k.distinct;
            counted =
                ground (arith, k.counted, Map.count_values-replace (λ x. x) s.tracking c b old);
          })
  ]

  pub track-IsTracking : (cs : List (H × Bool)) → IsTracking (track cs)
  unfolding track Map.keys
  track-IsTracking cs =
      try_complete-IsTracking _ (record { distinct = collect-Distinct cs [] tt; counted = refl })

  track-is_complete :
      (cs : List (H × Bool)) → is_complete (track cs) ≡ true → AllIncludable (track cs).tracking
  unfolding track is_complete Map.keys
  track-is_complete cs done =
      elim ((try_complete-is_complete _
          (record { distinct = collect-Distinct cs [] tt; counted = refl })).0
        done) [ inl q ↦ absurd (ground arith) | inr all ↦ rw (try_complete-tracking _) all ]

  update_candidate-IsTracking :
      (c : H) (b : Bool) (s : IncludabilitySender H)
      → IsTracking s
      → IsTracking (update_candidate c b s).0
  update_candidate-IsTracking c b s k =
      rw (update_candidate-updated c b s)
        (try_complete-IsTracking (updated c b s) (updated-IsCounted c b s k))

  updated-is_complete :
      (c : H) (b : Bool) (s : IncludabilitySender H) → is_complete (updated c b s) ≡ is_complete s
  unfolding updated is_complete
  updated-is_complete c b s = ground arith

  update_candidate-is_complete :
      (c : H) (b : Bool) (s : IncludabilitySender H)
      → IsTracking s
      → (is_complete (update_candidate c b s).0 ≡ true)
        ↔ ((is_complete s ≡ true) ⊎ AllIncludable (update_candidate c b s).0.tracking)
  update_candidate-is_complete c b s k =
      rw
        (
          update_candidate-updated c b s,
          try_complete-tracking (updated c b s),
          sym (updated-is_complete c b s),
        )
        (try_complete-is_complete (updated c b s) (updated-IsCounted c b s k))

  -- A tracker is consistent if no candidate is twice in it, the number of the includable ones is
  -- right, and it has completed if all of them are includable. On a consistent tracker an update
  -- returns `true` exactly if every tracked candidate is includable after it, sets the
  -- candidate's flag if it is tracked and no other one, and leaves the tracker consistent.
  pub update_candidate_exact :
      (c : H) (b : Bool) (s : IncludabilitySender H)
      → IsTracking s
      → (((update_candidate c b s).1 ≡ true) ↔ AllIncludable (update_candidate c b s).0.tracking)
        × ((h : H)
            → Map.get (update_candidate c b s).0.tracking h
              ≡ (if c == h && Map.contains_key s.tracking c then some b else Map.get s.tracking h))
        × IsTracking (update_candidate c b s).0
  unfolding updated Map.contains_key
  update_candidate_exact c b s k = (
    rw (update_candidate-updated c b s, try_complete-tracking (updated c b s))
        (try_complete-true (updated c b s) (updated-IsCounted c b s k)),
    λ h.
        rw (update_candidate-updated c b s, try_complete-tracking (updated c b s))
          (ground (arith, Map.get-insert s.tracking c h b)),
    update_candidate-IsTracking c b s k,
  )

  unfoldable pub update_all : List (H × Bool) → IncludabilitySender H → IncludabilitySender H
  update_all [] s = s
  update_all ((c, b) ∷ us) s = update_all us (update_candidate c b s).0

  -- All tracked candidates are includable before the updates or after one of them.
  abbrev pub Ever : List (H × Bool) → IncludabilitySender H → Type 0
  Ever [] s = AllIncludable s.tracking
  Ever ((c, b) ∷ us) s = AllIncludable s.tracking ⊎ Ever us (update_candidate c b s).0

  Ever-now :
      (us : List (H × Bool)) (s : IncludabilitySender H) → AllIncludable s.tracking → Ever us s
  Ever-now [] s all = all
  Ever-now (u ∷ us) s all = inl all

  update_all-is_complete :
      (us : List (H × Bool)) (s : IncludabilitySender H)
      → IsTracking s
      → (is_complete (update_all us s) ≡ true) ↔ ((is_complete s ≡ true) ⊎ Ever us s)
  unfolding update_all
  update_all-is_complete [] s k =
      (λ c. inl c, λ h. elim h [ inl c ↦ c | inr all ↦ k.completed all ])
  update_all-is_complete ((c, b) ∷ us) s k =
      let next =
        update_all-is_complete us (update_candidate c b s).0
          (update_candidate-IsTracking c b s k) in
      let step = update_candidate-is_complete c b s k in
      (
        λ done. elim (next.0 done) [
          | inl now ↦ elim (step.0 now) [
            | inl before ↦ inl before
            | inr all ↦ inr (inr (Ever-now us _ all))
          ]
          | inr ever ↦ inr (inr ever)
        ],
        λ h. elim h [
          | inl before ↦ next.1 (inl (step.1 (inl before)))
          | inr (inl all) ↦ next.1 (inl (step.1 (inl (k.completed all))))
          | inr (inr ever) ↦ next.1 (inr ever)
        ],
      )

  -- After tracking some candidates and any updates, the future has resolved exactly if at the
  -- start or after one of the updates every tracked candidate was includable.
  pub is_complete-track :
      (cs us : List (H × Bool))
      → (is_complete (update_all us (track cs)) ≡ true) ↔ Ever us (track cs)
  is_complete-track cs us =
      let (to, from) = update_all-is_complete us (track cs) (track-IsTracking cs) in
      (
        λ done. elim (to done) [
          | inl start ↦ Ever-now us (track cs) (track-is_complete cs start)
          | inr ever ↦ ever
        ],
        λ ever. from (inr ever),
      )
