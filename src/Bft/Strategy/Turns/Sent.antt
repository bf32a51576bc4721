-- ===== src/Bft/Strategy/Turns/Sent.antt =====
-- substrate/bft/src/generic/mod.rs: the order of the messages that a node sends.
use polkadot.Prelude.{
  true, false, ℕ, ◌+◌, ◌*◌, ◌≤◌, ◌<◌, ◌≡◌, refl, List, [], ◌∷◌, ◌++◌, arith, length, Bool-cases,
  inl, inr, if◌then◌else◌, ◌==◌, ==_iff, nat_eq,
}
use polkadot.Bft.Messages.{Vote, Message, LocalizedMessage}
use polkadot.Bft.Strategy.{Context, Communication, LocalState, Strategy, current_round}

-- What `Context::sign_local` is documented to return: the message, with the digest of a proposal,
-- from the local authority.
abbrev pub IsSigned :
    {C D A S : Type 0} → Context C D A S → Message C D → LocalizedMessage C D A S → Type 0
IsSigned ctx (Message.propose round c) (LocalizedMessage.propose p) =
    (p.round_number ≡ round)
    × (p.proposal ≡ c)
    × (p.digest ≡ ctx.candidate_digest c)
    × (p.sender ≡ ctx.local_id)
IsSigned ctx (Message.vote v) (LocalizedMessage.vote l) = (l.vote ≡ v) × (l.sender ≡ ctx.local_id)
IsSigned ctx _ _ = ⊥

abbrev pub Signs : {C D A S : Type 0} → Context C D A S → Type 0
Signs {C} {D} ctx = (m : Message C D) → IsSigned ctx m (ctx.sign_local m)

-- The place of a message in the order proposal, prepare, commit, advance, round by round.
abbrev pub vote_stamp : {D : Type 0} → Vote D → ℕ
vote_stamp (Vote.prepare round _) = 6 * round + 1
vote_stamp (Vote.commit round _) = 6 * round + 3
vote_stamp (Vote.advance_round round) = 6 * round + 4

abbrev pub stamp : {C D A S : Type 0} → LocalizedMessage C D A S → ℕ
stamp (LocalizedMessage.propose p) = 6 * p.round_number
stamp (LocalizedMessage.vote l) = vote_stamp l.vote

abbrev pub message_stamp : {C D : Type 0} → Message C D → ℕ
message_stamp (Message.propose round _) = 6 * round
message_stamp (Message.vote v) = vote_stamp v

pub stamp_lem :
    {C D A S : Type 0} (ctx : Context C D A S) (m : Message C D) (l : LocalizedMessage C D A S)
    → IsSigned ctx m l
    → stamp l ≡ message_stamp m
stamp_lem ctx (Message.propose round c) (LocalizedMessage.propose p) (h, _, _, _) = omega (arith, h)
stamp_lem ctx (Message.propose round c) (LocalizedMessage.vote p) h = absurd h
stamp_lem ctx (Message.vote v) (LocalizedMessage.propose p) h = absurd h
stamp_lem ctx (Message.vote v) (LocalizedMessage.vote l) (h, _) = rw h refl

abbrev pub rank : LocalState → ℕ
rank LocalState.start = 0
rank LocalState.proposed = 1
rank (LocalState.prepared true) = 2
rank (LocalState.prepared false) = 3
rank LocalState.committed = 4
rank LocalState.vote_advance = 5

-- The place of the next message that a node may send.
abbrev pub place : {C D A S : Type 0} → Strategy C D A S → ℕ
place s = 6 * current_round s + rank s.local_state

-- The consensus messages come in their order, each at most once, from one place up to another.
abbrev pub Ascending : {C D A S : Type 0} → ℕ → ℕ → List (Communication C D A S) → Type 0
Ascending lo hi [] = lo ≤ hi
Ascending lo hi (Communication.auxiliary _ ∷ rest) = Ascending lo hi rest
Ascending lo hi (Communication.consensus m ∷ rest) =
    (lo ≤ stamp m) × Ascending (stamp m + 1) hi rest

pub Ascending-le :
    {C D A S : Type 0} (lo hi : ℕ) (a : List (Communication C D A S)) → Ascending lo hi a → lo ≤ hi
Ascending-le lo hi [] h = h
Ascending-le lo hi (Communication.auxiliary _ ∷ a) h = Ascending-le lo hi a h
Ascending-le lo hi (Communication.consensus m ∷ a) (h, h') =
    omega (arith, h, Ascending-le (stamp m + 1) hi a h')

pub Ascending-weaken :
    {C D A S : Type 0} (lo mid hi : ℕ) (a : List (Communication C D A S))
    → lo ≤ mid
    → Ascending mid hi a
    → Ascending lo hi a
Ascending-weaken lo mid hi [] h k = omega arith
Ascending-weaken lo mid hi (Communication.auxiliary _ ∷ a) h k = Ascending-weaken lo mid hi a h k
Ascending-weaken lo mid hi (Communication.consensus m ∷ a) h (k, k') = (omega arith, k')

pub Ascending-append :
    {C D A S : Type 0} (lo mid hi : ℕ) (a b : List (Communication C D A S))
    → Ascending lo mid a
    → Ascending mid hi b
    → Ascending lo hi (a ++ b)
Ascending-append lo mid hi [] b h k = Ascending-weaken lo mid hi b h k
Ascending-append lo mid hi (Communication.auxiliary _ ∷ a) b h k =
    Ascending-append lo mid hi a b h k
Ascending-append lo mid hi (Communication.consensus m ∷ a) b (h, h') k =
    (h, Ascending-append (stamp m + 1) mid hi a b h' k)

-- The messages of a queue with a place.
unfoldable pub sent_at :
    {C D A S : Type 0} → ℕ → List (Communication C D A S) → List (LocalizedMessage C D A S)
sent_at t [] = []
sent_at t (Communication.auxiliary _ ∷ rest) = sent_at t rest
sent_at t (Communication.consensus m ∷ rest) =
    if stamp m == t then m ∷ sent_at t rest else sent_at t rest

sent_before :
    {C D A S : Type 0} (t lo hi : ℕ) (a : List (Communication C D A S))
    → Ascending lo hi a
    → t < lo
    → sent_at t a ≡ []
unfolding sent_at
sent_before t lo hi [] h k = refl
sent_before t lo hi (Communication.auxiliary _ ∷ a) h k = sent_before t lo hi a h k
sent_before t lo hi (Communication.consensus m ∷ a) (h, h') k =
    ground (arith, h, k, sent_before t (stamp m + 1) hi a h', ==_iff (stamp m) t)

pub length-sent_at :
    {C D A S : Type 0} (t lo hi : ℕ) (a : List (Communication C D A S))
    → Ascending lo hi a
    → length (sent_at t a) ≤ 1
unfolding sent_at
length-sent_at t lo hi [] h = omega arith
length-sent_at t lo hi (Communication.auxiliary _ ∷ a) h = length-sent_at t lo hi a h
length-sent_at t lo hi (Communication.consensus m ∷ a) (h, h') = elim (Bool-cases (stamp m == t)) [
  | inl e ↦
      let none_later : sent_at t a ≡ [] =
        sent_before t (stamp m + 1) hi a h' (ground (arith, e, ==_iff (stamp m) t)) in
      rw (e, none_later) (omega arith)
  | inr e ↦ rw e (length-sent_at t (stamp m + 1) hi a h')
]
