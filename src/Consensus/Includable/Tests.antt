-- ===== src/Consensus/Includable/Tests.antt =====
-- Two candidates, one after the other.
use polkadot.Prelude.{
  ℕ, ◌≡◌, ◌↔◌, refl, Bool, true, false, ◌&&◌, some, List, [], ◌∷◌, length, nat_eq, ◌==◌,
  if◌then◌else◌,
}
use polkadot.Prelude.Map
use polkadot.Consensus.Includable.{is_complete, track, collect, try_complete, update_candidate}
use polkadot.Consensus.Includable.Tracking.{AllIncludable, IsTracking}
use polkadot.Consensus.Includable.Resolution.{
  update_all, Ever, is_complete-track, update_candidate_exact, track-IsTracking,
}

abbrev two : List (ℕ × Bool)
two = (4, false) ∷ (5, true) ∷ []

completes :
    is_complete (update_all ((5, false) ∷ (4, true) ∷ (5, true) ∷ (4, false) ∷ []) (track two))
    ≡ true
unfolding update_all is_complete track collect try_complete update_candidate Map.get Map.insert
    Map.count_values length
completes = refl

not_at_once : is_complete (update_all ((5, false) ∷ (4, true) ∷ []) (track two)) ≡ false
unfolding update_all is_complete track collect try_complete update_candidate Map.get Map.insert
    Map.count_values length
not_at_once = refl

is_complete-track_example :
    (is_complete (update_all ((5, false) ∷ (4, true) ∷ (5, true) ∷ []) (track two)) ≡ true)
    ↔ Ever ((5, false) ∷ (4, true) ∷ (5, true) ∷ []) (track two)
is_complete-track_example = is_complete-track two ((5, false) ∷ (4, true) ∷ (5, true) ∷ [])

update_candidate_exact_example :
    (((update_candidate 4 true (track two)).1 ≡ true)
      ↔ AllIncludable (update_candidate 4 true (track two)).0.tracking)
    × ((h : ℕ)
        → Map.get (update_candidate 4 true (track two)).0.tracking h ≡ (
            if 4 == h && Map.contains_key (track two).tracking 4
            then some true
            else Map.get (track two).tracking h))
    × IsTracking (update_candidate 4 true (track two)).0
update_candidate_exact_example = update_candidate_exact 4 true (track two) (track-IsTracking two)
