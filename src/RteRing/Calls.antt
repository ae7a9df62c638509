-- ===== src/RteRing/Calls.antt =====
-- The calls that a wrapped ring serves, whichever resource its capacity limits, and what one does
-- to a queue of buffers.
use libmoon.Prelude.{ℕ, ◌^◌, ◌<◌, List, [], ◌∷◌, ◌++◌, take, length}

pub data Call : Type 0 where
  enqueue_bulk enqueue_burst : List ℕ → Call
  enqueue : ℕ → Call
  dequeue_bulk dequeue_burst : ℕ → Call
  dequeue : Call

-- The buffers that a call offers to the ring.
abbrev pub offered : Call → List ℕ
offered (enqueue_bulk objs) = objs
offered (enqueue_burst objs) = objs
offered (enqueue obj) = obj ∷ []
offered (dequeue_bulk n) = []
offered (dequeue_burst n) = []
offered dequeue = []

-- The number that a call returns, and the buffers that it writes to the caller's array.
pub record Reply : Type 0 where
  pub returned : ℕ
  pub objs : List ℕ

-- All buffers that a sequence of calls handed out, in order.
abbrev pub handed_out : List Reply → List ℕ
handed_out [] = []
handed_out (r ∷ rs) = r.objs ++ handed_out rs

-- All buffers that a sequence of calls took, in order: of each batch the first `returned`.
abbrev pub taken : List Call → List Reply → List ℕ
taken [] rs = []
taken (c ∷ cs) [] = []
taken (c ∷ cs) (r ∷ rs) = take r.returned (offered c) ++ taken cs rs

-- Every batch of the sequence is smaller than 2 ^ 31: the size is an `int` on the Lua side.
abbrev pub IsOffer : Call → Type 0
IsOffer c = length (offered c) < 2 ^ 31

abbrev pub AllOffers : List Call → Type 0
AllOffers [] = Unit
AllOffers (c ∷ cs) = IsOffer c × AllOffers cs
