-- ===== src/Consensus/Includable.antt =====
-- polkadot/consensus/src/shared_table/includable.rs: a future that resolves when all candidates of
-- a proposal are includable. The sending half of the channel is present until it has sent.
pub mod Tracking
pub mod Resolution
mod Tests
use polkadot.Prelude.{
  ℕ, ◌+◌, ◌-◌, Bool, true, false, not, ◌&&◌, Option, none, some, List, [], ◌∷◌, length, Eq, nat_eq,
  ◌==◌, if◌then◌else◌,
}
use polkadot.Prelude.Map
use polkadot.Prelude.Map.{Map}

pub record IncludabilitySender (H : Type 0) : Type 0 where
  pub tracking : Map H Bool
  pub includable_count : ℕ
  pub sender : Option (Unit {0})

module _ {H : Type 0} where
  -- `take()` of the sender and `send`
  pub try_complete : IncludabilitySender H → IncludabilitySender H × Bool
  try_complete s =
      if s.includable_count == length s.tracking
      then (record s { sender = none }, true)
      else (s, false)

  pub is_complete : IncludabilitySender H → Bool
  is_complete s = elim s.sender [ none ↦ true | some _ ↦ false ]

module _ {H : Type 0} ⦃e : Eq H⦄ where
  -- `collect()` into a map: the last value of a key stays
  pub collect : List (H × Bool) → Map H Bool → Map H Bool
  collect [] m = m
  collect ((h, b) ∷ rest) m = collect rest (Map.insert m h b)

  -- the sender; the other half resolves when `is_complete` holds
  pub track : List (H × Bool) → IncludabilitySender H
  unfolding try_complete
  track candidates =
      let tracking = collect candidates [] in
      (try_complete (record {
        tracking = tracking;
        includable_count = Map.count_values (λ b. b) tracking;
        sender = some tt;
      })).0

  pub update_candidate : H → Bool → IncludabilitySender H → IncludabilitySender H × Bool
  update_candidate candidate includable s = elim (Map.get s.tracking candidate) [
    | none ↦ try_complete s
    | some old ↦ try_complete (record s {
      tracking = Map.insert s.tracking candidate includable;
      includable_count =
          if not old && includable
          then s.includable_count + 1
          else if old && not includable
          then s.includable_count - 1
          else s.includable_count;
    })
  ]
