-- ===== src/Bft/Justification/Voters.antt =====
-- substrate/bft/src/generic/accumulator.rs: the voters of a justification that `check` counts.
use mathlib.Core.List.{append-nil, append_assoc}
use polkadot.Prelude.{
  ℕ, ◌≤◌, ◌≡◌, sym, ap, ◌∙◌, ◌↔◌, false, Option, some, List, [], ◌∷◌, ◌++◌, arith, ok, inl, inr,
  length, Eq, contains, insert, Distinct, insert_new, insert-Distinct, Distinct-middle,
  Option-cases, Bool-cases,
}
use polkadot.Bft.Justification.{UncheckedJustification, Signed, collect_voters, check}

module _ {S V : Type 0} ⦃e : Eq V⦄ where
  collect_sound :
      (signer : S → Option V) (ss : List S) (voted out : List V)
      → collect_voters signer ss voted ≡ some out
      → Distinct voted
      → (vs : List V) × (out ≡ voted ++ vs) × Signed signer vs ss × Distinct out
  unfolding collect_voters
  collect_sound signer [] voted out h d =
      let e : out ≡ voted = ground arith in ([], e ∙ sym (append-nil voted), tt, rw e d)
  collect_sound signer (s ∷ ss) voted out h d = elim (Option-cases (signer s)) [
    | inl q ↦ absurd (ground arith)
    | inr (v, q) ↦ elim (Bool-cases (contains voted v)) [
      | inl c ↦ absurd (ground arith)
      | inr c ↦
          let (vs, p, g, d') =
            collect_sound signer ss (insert voted v) out (ground arith)
              (insert-Distinct voted v d) in
          (v ∷ vs, p ∙ rw (insert_new voted v c) (append_assoc voted (v ∷ []) vs), (q, g), d')
    ]
  ]

  collect_step :
      (signer : S → Option V) (s : S) (ss : List S) (voted : List V) (v : V)
      → signer s ≡ some v
      → contains voted v ≡ false
      → collect_voters signer (s ∷ ss) voted ≡ collect_voters signer ss (voted ++ v ∷ [])
  unfolding collect_voters
  collect_step signer s ss voted v q c = ground (arith, insert_new voted v c)

  collect_complete :
      (signer : S → Option V) (ss : List S) (voted vs : List V)
      → Signed signer vs ss
      → Distinct (voted ++ vs)
      → collect_voters signer ss voted ≡ some (voted ++ vs)
  unfolding collect_voters
  collect_complete signer [] voted [] g d = ap some (sym (append-nil voted))
  collect_complete signer [] voted (v ∷ vs) g d = elim g [ ]
  collect_complete signer (s ∷ ss) voted [] g d = elim g [ ]
  collect_complete signer (s ∷ ss) voted (v ∷ vs) g d =
      let assoc = append_assoc voted (v ∷ []) vs in
      collect_step signer s ss voted v g.0 (Distinct-middle voted vs v d)
      ∙ collect_complete signer ss (voted ++ v ∷ []) vs g.1 (rw assoc d)
      ∙ ap some assoc

module _ {D S V : Type 0} ⦃e : Eq V⦄ where
  -- The signatures come from different voters, at least `threshold` of them.
  abbrev pub Supported : (ℕ → D → S → Option V) → ℕ → UncheckedJustification D S → Type 0
  Supported check_message threshold j =
      (vs : List V) × Signed (check_message j.round_number j.digest) vs j.signatures
      × Distinct vs
      × (threshold ≤ length vs)

  -- `check` returns the checked justification exactly when there is a list of different voters,
  -- at least `threshold` of them, of whom each signed the signature in its place.
  pub check_exact :
      (check_message : ℕ → D → S → Option V) (threshold : ℕ) (j : UncheckedJustification D S)
      → (check j threshold check_message ≡ ok (record { unchecked = j }))
        ↔ Supported check_message threshold j
  unfolding check
  check_exact check_message threshold j = (sound, complete)
    where
      signer : S → Option V
      signer = check_message j.round_number j.digest

      sound :
          check j threshold check_message ≡ ok (record { unchecked = j })
          → Supported check_message threshold j
      sound h = elim (Option-cases (collect_voters signer j.signatures [])) [
        | inl q ↦ absurd (ground arith)
        | inr (out, q) ↦
            let (vs, p, g, d) = collect_sound signer j.signatures [] out q tt in
            (vs, g, rw (← p) d, rw (← p) (ground arith))
      ]

      complete :
          Supported check_message threshold j
          → check j threshold check_message ≡ ok (record { unchecked = j })
      complete (vs, g, d, t) = ground (arith, collect_complete signer j.signatures [] vs g d)
