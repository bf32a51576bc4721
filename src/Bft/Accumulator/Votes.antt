-- ===== src/Bft/Accumulator/Votes.antt =====
-- The votes that an accumulator has recorded, and the justifications that it makes of them.
use polkadot.Prelude.{
  ℕ, ◌+◌, ◌≤◌, ◌≡◌, refl, false, none, some, List, [], ◌∷◌, ◌++◌, arith, if◌then◌else◌, length, Eq,
  ◌==◌, ==_iff, contains, Distinct, Bool-cases, inl, inr,
}
use polkadot.Prelude.Map
use polkadot.Prelude.Map.{Map, get_of_Entries, insert_vacant}
use polkadot.Bft.Justification.{Justification}
use polkadot.Bft.Accumulator.{VoteCounts, counts_of, signatures_for, justify}

module _ {D : Type 0} ⦃eD : Eq D⦄ where
  pub counts_of-insert :
      (counts : Map D VoteCounts) (d d' : D) (c : VoteCounts)
      → counts_of (Map.insert counts d c) d' ≡ (if d == d' then c else counts_of counts d')
  unfolding counts_of
  counts_of-insert counts d d' c = ground (arith, Map.get-insert counts d d' c)

module _ {D A S : Type 0} ⦃eD : Eq D⦄ where
  -- The senders of the votes for a digest.
  unfoldable pub voters_for : D → Map A (D × S) → List A
  voters_for d [] = []
  voters_for d ((a, (d', s)) ∷ m) = if d' == d then a ∷ voters_for d m else voters_for d m

  pub length-voters_for :
      (d : D) (m : Map A (D × S)) → length (voters_for d m) ≡ length (signatures_for d m)
  unfolding voters_for signatures_for
  length-voters_for d [] = refl
  length-voters_for d ((a, (d', s)) ∷ m) = ground (arith, length-voters_for d m)

  length-signatures_for :
      (d : D) (m : Map A (D × S)) (a : A) (d' : D) (s : S)
      → length (signatures_for d (m ++ (a, (d', s)) ∷ []))
        ≡ (if d' == d then length (signatures_for d m) + 1 else length (signatures_for d m))
  unfolding signatures_for
  length-signatures_for d [] a d' s = ground arith
  length-signatures_for d ((b, (d'', t)) ∷ m) a d' s =
      ground (arith, length-signatures_for d m a d' s)

module _ {D A S : Type 0} ⦃eA : Eq A⦄ where
  -- The recorded vote of each voter is the signature in its place, for digest `d`.
  abbrev pub Recorded : Map A (D × S) → D → List A → List S → Type 0
  Recorded m d [] [] = Unit
  Recorded m d (a ∷ as_) (s ∷ ss) = (Map.get m a ≡ some (d, s)) × Recorded m d as_ ss
  Recorded m d _ _ = ⊥

  Recorded-insert :
      (m : Map A (D × S)) (d : D) (k : A) (v : D × S) (voters : List A) (ss : List S)
      → Map.get m k ≡ none
      → Recorded m d voters ss
      → Recorded (Map.insert m k v) d voters ss
  Recorded-insert m d k v [] [] h r = tt
  Recorded-insert m d k v [] (s ∷ ss) h r = elim r [ ]
  Recorded-insert m d k v (a ∷ voters) [] h r = elim r [ ]
  Recorded-insert m d k v (a ∷ voters) (s ∷ ss) h r =
      (ground (arith, Map.get-insert m k a v, ==_iff k a), Recorded-insert m d k v voters ss h r.1)

module _ {D A S : Type 0} ⦃eD : Eq D⦄ ⦃eA : Eq A⦄ where
  -- The first vote of `a` adds one signature for its digest.
  pub signatures_for-insert :
      (d : D) (m : Map A (D × S)) (a : A) (d' : D) (s : S)
      → Map.get m a ≡ none
      → length (signatures_for d (Map.insert m a (d', s)))
        ≡ (if d' == d then length (signatures_for d m) + 1 else length (signatures_for d m))
  signatures_for-insert d m a d' s h =
      rw (insert_vacant m a (d', s) h) (length-signatures_for d m a d' s)

  Recorded-of_Entries :
      (n m : Map A (D × S)) (d : D)
      → Map.Entries n m
      → Recorded n d (voters_for d m) (signatures_for d m)
  unfolding voters_for signatures_for
  Recorded-of_Entries n [] d h = tt
  Recorded-of_Entries n ((a, (d', s)) ∷ m) d h = elim (Bool-cases (d' == d)) [
    | inl q ↦ rw q (ground (arith, ==_iff d' d), Recorded-of_Entries n m d h.1)
    | inr q ↦ rw q (Recorded-of_Entries n m d h.1)
  ]

  contains-voters_for :
      (d : D) (m : Map A (D × S)) (a : A)
      → contains (Map.keys m) a ≡ false
      → contains (voters_for d m) a ≡ false
  unfolding voters_for contains Map.keys
  contains-voters_for d [] a h = refl
  contains-voters_for d ((b, (d', s)) ∷ m) a h = ground (arith, contains-voters_for d m a)

  Distinct-voters_for :
      (d : D) (m : Map A (D × S)) → Distinct (Map.keys m) → Distinct (voters_for d m)
  unfolding voters_for Map.keys
  Distinct-voters_for d [] h = tt
  Distinct-voters_for d ((b, (d', s)) ∷ m) h = elim (Bool-cases (d' == d)) [
    | inl q ↦ rw q (contains-voters_for d m b h.0, Distinct-voters_for d m h.1)
    | inr q ↦ rw q (Distinct-voters_for d m h.1)
  ]

  -- A justification for the round, made of the recorded votes of `threshold` different voters.
  pub record IsJustified (threshold round : ℕ) (votes : Map A (D × S)) (j : Justification D S)
      : Type 0 where
    pub same_round : j.unchecked.round_number ≡ round
    pub voters : List A
    pub recorded : Recorded votes j.unchecked.digest voters j.unchecked.signatures
    pub distinct : Distinct voters
    pub enough : threshold ≤ length voters

  pub justify-IsJustified :
      (threshold round : ℕ) (d : D) (m : Map A (D × S))
      → Distinct (Map.keys m)
      → threshold ≤ length (signatures_for d m)
      → IsJustified threshold round m (justify round d m)
  unfolding justify
  justify-IsJustified threshold round d m h t = record {
    same_round = refl;
    voters = voters_for d m;
    recorded = Recorded-of_Entries m m d (get_of_Entries m h);
    distinct = Distinct-voters_for d m h;
    enough = omega (arith, length-voters_for d m);
  }

  pub IsJustified-insert :
      (threshold round : ℕ) (m : Map A (D × S)) (j : Justification D S) (a : A) (v : D × S)
      → Map.get m a ≡ none
      → IsJustified threshold round m j
      → IsJustified threshold round (Map.insert m a v) j
  IsJustified-insert threshold round m j a v h old = record {
    same_round = old.same_round;
    voters = old.voters;
    recorded =
        Recorded-insert m j.unchecked.digest a v old.voters j.unchecked.signatures h old.recorded;
    distinct = old.distinct;
    enough = old.enough;
  }
