-- ===== src/StateDb/Pruning/Window.antt =====
-- substrate/state-db/src/pruning.rs: the blocks of a window, and which of their deletions stand.
use polkadot.Prelude.{
  ◌≡◌, ◌∙◌, refl, Bool, true, false, not, ◌&&◌, ◌||◌, List, [], ◌∷◌, ◌++◌, length, arith, Eq,
  nat_eq, contains,
}
use mathlib.Core.List.{map}
use polkadot.StateDb.Types.{Bytes}
use polkadot.StateDb.Pruning.{DeathRow}

-- The keys that a block inserts and deletes.
abbrev pub Change : Type 0 → Type 0
Change K = List K × List K

module _ {K : Type 0} ⦃eK : Eq K⦄ where
  unfoldable pub reinserted : K → List (Change K) → Bool
  reinserted k [] = false
  reinserted k ((ins, _) ∷ bs) = contains ins k || reinserted k bs

  -- A block of the window has deleted the key, and no later one has inserted it.
  unfoldable pub doomed : K → List (Change K) → Bool
  unfolding reinserted
  doomed k [] = false
  doomed k ((_, del) ∷ bs) = contains del k && not (reinserted k bs) || doomed k bs

  -- A block deletes only what it inserts itself or what is not deleted in the window before.
  abbrev pub IsFresh : List (Change K) → Change K → Type 0
  IsFresh bs (ins, del) =
      (k : K) → contains del k ≡ true → (contains ins k || not (doomed k bs)) ≡ true

  pub reinserted-append :
      (k : K) (bs : List (Change K)) (b : Change K)
      → reinserted k (bs ++ b ∷ []) ≡ (reinserted k bs || contains b.0 k)
  unfolding reinserted
  reinserted-append k [] (ins, del) = ground arith
  reinserted-append k ((ins, del) ∷ bs) b = ground (arith, reinserted-append k bs b)

module _ {H K : Type 0} ⦃eK : Eq K⦄ where
  -- The rows hold what the blocks delete for good.
  abbrev pub Views : List (Change K) → List (DeathRow H K) → Type 0
  Views [] [] = Unit
  Views ((_, del) ∷ bs) (r ∷ rows) =
      ((k : K) → contains r.deleted k ≡ (contains del k && not (reinserted k bs))) × Views bs rows
  Views _ _ = ⊥

  -- The hash and the journal key of a row.
  abbrev pub tag_of : DeathRow H K → H × Bytes
  tag_of r = (r.hash, r.journal_key)

  -- The same rows, less the keys that pass a test.
  abbrev pub Removed : (K → Bool) → List (DeathRow H K) → List (DeathRow H K) → Type 0
  Removed gone [] [] = Unit
  Removed gone (r ∷ rows) (r' ∷ rows') =
      ((k : K) → contains r'.deleted k ≡ (contains r.deleted k && not (gone k)))
      × (tag_of r' ≡ tag_of r)
      × Removed gone rows rows'
  Removed gone _ _ = ⊥

  pub Removed-none : (rows : List (DeathRow H K)) → Removed (λ k. false) rows rows
  Removed-none [] = tt
  Removed-none (r ∷ rows) = (λ k. ground arith, refl, Removed-none rows)

  pub Removed-trans :
      (f g h : K → Bool) (l m n : List (DeathRow H K))
      → ((k : K) → h k ≡ (f k || g k))
      → Removed f l m
      → Removed g m n
      → Removed h l n
  Removed-trans f g h [] [] [] same p q = tt
  Removed-trans f g h [] [] (_ ∷ _) same p q = absurd q
  Removed-trans f g h [] (_ ∷ _) n same p q = absurd p
  Removed-trans f g h (_ ∷ _) [] n same p q = absurd p
  Removed-trans f g h (_ ∷ _) (_ ∷ _) [] same p q = absurd q
  Removed-trans f g h (r ∷ l) (r' ∷ m) (r'' ∷ n) same (p, hp, ps) (q, hq, qs) =
      (λ k. ground (arith, p k, q k, same k), hq ∙ hp, Removed-trans f g h l m n same ps qs)

  pub tags-Removed :
      (f : K → Bool) (l m : List (DeathRow H K)) → Removed f l m → map tag_of m ≡ map tag_of l
  tags-Removed f [] [] p = refl
  tags-Removed f [] (_ ∷ _) p = absurd p
  tags-Removed f (_ ∷ _) [] p = absurd p
  tags-Removed f (_ ∷ l) (_ ∷ m) (_, h, p) = rw (h, tags-Removed f l m p) refl

  pub length-Removed :
      (f : K → Bool) (l m : List (DeathRow H K)) → Removed f l m → length m ≡ length l
  length-Removed f [] [] p = refl
  length-Removed f [] (_ ∷ _) p = absurd p
  length-Removed f (_ ∷ _) [] p = absurd p
  length-Removed f (_ ∷ l) (_ ∷ m) (_, _, p) = omega (arith, length-Removed f l m p)

  pub Views-append :
      (bs : List (Change K)) (b : Change K) (rows rows' : List (DeathRow H K)) (row : DeathRow H K)
      → Views bs rows
      → Removed (contains b.0) rows rows'
      → ((k : K) → contains row.deleted k ≡ contains b.1 k)
      → Views (bs ++ b ∷ []) (rows' ++ row ∷ [])
  unfolding reinserted
  Views-append [] b [] [] row v p new = (λ k. ground (arith, new k), tt)
  Views-append [] b [] (_ ∷ _) row v p new = absurd p
  Views-append [] b (_ ∷ _) rows' row v p new = absurd v
  Views-append (_ ∷ _) b [] rows' row v p new = absurd v
  Views-append (_ ∷ _) b (_ ∷ _) [] row v p new = absurd p
  Views-append ((ins, del) ∷ bs) b (r ∷ rows) (r' ∷ rows') row (v, vs) (p, _, ps) new = (
    λ k. ground (arith, v k, p k, reinserted-append k bs b),
    Views-append bs b rows rows' row vs ps new,
  )

  -- No row has the key.
  abbrev pub Absent : K → List (DeathRow H K) → Type 0
  Absent k [] = Unit
  Absent k (r ∷ rows) = (contains r.deleted k ≡ false) × Absent k rows

  -- What is not doomed, or is inserted now, is in no row afterwards.
  pub Absent-fresh :
      (k : K) (bs : List (Change K)) (ins : List K) (rows rows' : List (DeathRow H K))
      → (contains ins k || not (doomed k bs)) ≡ true
      → Views bs rows
      → Removed (contains ins) rows rows'
      → Absent k rows'
  unfolding doomed
  Absent-fresh k [] ins [] [] h v p = tt
  Absent-fresh k [] ins [] (_ ∷ _) h v p = absurd p
  Absent-fresh k [] ins (_ ∷ _) rows' h v p = absurd v
  Absent-fresh k (_ ∷ _) ins [] rows' h v p = absurd v
  Absent-fresh k (_ ∷ _) ins (_ ∷ _) [] h v p = absurd p
  Absent-fresh k ((_, del) ∷ bs) ins (r ∷ rows) (r' ∷ rows') h (v, vs) (p, _, ps) =
      (ground (arith, h, v k, p k), Absent-fresh k bs ins rows rows' (ground (arith, h)) vs ps)
