-- ===== src/Bft/Strategy/Turns/Ranks.antt =====
-- substrate/bft/src/generic/mod.rs: the local states in which a node may vote.
use mathlib.Core.Path.{subst}
use polkadot.Prelude.{zero, suc, ap, ℕ, ◌≤◌, ◌≡◌, ◌∙◌, sym, refl, true, false, arith, nat_eq}
use polkadot.Bft.Strategy.{LocalState}
use polkadot.Bft.Strategy.Turns.{may_prepare, may_commit, is_start, has_voted_advance}
use polkadot.Bft.Strategy.Turns.Drive.{local_state_eq}
use polkadot.Bft.Strategy.Turns.Sent.{rank}

pub rank_start : (s : LocalState) → is_start s ≡ true → rank s ≡ 0
unfolding is_start
rank_start LocalState.start h = refl
rank_start LocalState.proposed h = absurd (ground (arith, h))
rank_start (LocalState.prepared _) h = absurd (ground (arith, h))
rank_start LocalState.committed h = absurd (ground (arith, h))
rank_start LocalState.vote_advance h = absurd (ground (arith, h))

pub rank-may_prepare : (s : LocalState) → may_prepare s ≡ true → rank s ≤ 1
unfolding may_prepare
rank-may_prepare LocalState.start h = omega arith
rank-may_prepare LocalState.proposed h = omega arith
rank-may_prepare (LocalState.prepared _) h = absurd (ground (arith, h))
rank-may_prepare LocalState.committed h = absurd (ground (arith, h))
rank-may_prepare LocalState.vote_advance h = absurd (ground (arith, h))

pub rank-may_commit : (s : LocalState) → may_commit s ≡ true → rank s ≤ 3
unfolding may_commit
rank-may_commit LocalState.start h = omega arith
rank-may_commit LocalState.proposed h = omega arith
rank-may_commit (LocalState.prepared true) h = omega arith
rank-may_commit (LocalState.prepared false) h = omega arith
rank-may_commit LocalState.committed h = absurd (ground (arith, h))
rank-may_commit LocalState.vote_advance h = absurd (ground (arith, h))

pub rank_may_advance : (s : LocalState) → has_voted_advance s ≡ false → rank s ≤ 4
unfolding has_voted_advance
rank_may_advance LocalState.start h = omega arith
rank_may_advance LocalState.proposed h = omega arith
rank_may_advance (LocalState.prepared true) h = omega arith
rank_may_advance (LocalState.prepared false) h = omega arith
rank_may_advance LocalState.committed h = omega arith
rank_may_advance LocalState.vote_advance h = absurd (ground (arith, h))

pub rank_le : (s : LocalState) → rank s ≤ 5
rank_le LocalState.start = omega arith
rank_le LocalState.proposed = omega arith
rank_le (LocalState.prepared true) = omega arith
rank_le (LocalState.prepared false) = omega arith
rank_le LocalState.committed = omega arith
rank_le LocalState.vote_advance = omega arith

state_of : ℕ → LocalState
state_of zero = LocalState.start
state_of (suc zero) = LocalState.proposed
state_of (suc (suc zero)) = LocalState.prepared true
state_of (suc (suc (suc zero))) = LocalState.prepared false
state_of (suc (suc (suc (suc zero)))) = LocalState.committed
state_of _ = LocalState.vote_advance

state_of-rank : (s : LocalState) → state_of (rank s) ≡ s
unfolding state_of
state_of-rank LocalState.start = refl
state_of-rank LocalState.proposed = refl
state_of-rank (LocalState.prepared true) = refl
state_of-rank (LocalState.prepared false) = refl
state_of-rank LocalState.committed = refl
state_of-rank LocalState.vote_advance = refl

local_state_eq_refl : (s : LocalState) → local_state_eq s s ≡ true
unfolding local_state_eq
local_state_eq_refl LocalState.start = refl
local_state_eq_refl LocalState.proposed = refl
local_state_eq_refl (LocalState.prepared true) = refl
local_state_eq_refl (LocalState.prepared false) = refl
local_state_eq_refl LocalState.committed = refl
local_state_eq_refl LocalState.vote_advance = refl

pub local_state_eq-rank : (s s' : LocalState) → rank s ≡ rank s' → local_state_eq s s' ≡ true
local_state_eq-rank s s' h =
    let same : s ≡ s' = sym (state_of-rank s) ∙ ap state_of h ∙ state_of-rank s' in
    subst (λ x. local_state_eq s x ≡ true) same (local_state_eq_refl s)
