-- ===== src/PktSizedRing/Threads/Alone.antt =====
-- The two steps of an enqueue in a row, with no dequeue in between, are the enqueue.
use libmoon.Prelude.{ℕ, ◌≡◌, refl, length, Bool-cases, ltb, leb, add32, inl, inr}
use libmoon.RteRing.{RteRing}
use libmoon.PktSizedRing.{PsRing, psring_enqueue_bulk, psring_enqueue_burst, psring_enqueue}
use libmoon.PktSizedRing.Threads.{
  Offer, offer_bulk, offer_burst, offer_one, Producer, outside, passed, Threads, test_count,
  put_offer, produce_from,
}

module _ (api : RteRing) where
  -- A further step of a producer that is still in its call.
  abbrev pub go_on : Producer → Threads api → Threads api
  go_on outside s = s
  go_on (passed p) s = put_offer api p s

  abbrev pub whole_call : Offer → Threads api → Threads api
  whole_call r s = let tested = produce_from api outside r s in go_on tested.producer tested

  abbrev pub enqueue_by : Offer → PsRing api → ℕ × PsRing api
  enqueue_by (offer_bulk obj) psr = psring_enqueue_bulk api psr obj
  enqueue_by (offer_burst obj) psr = psring_enqueue_burst api psr obj
  enqueue_by (offer_one x) psr = psring_enqueue api psr x

  -- From a ring with no call in progress, the two steps of an enqueue with no dequeue in between
  -- leave the ring as the enqueue function does, for each of the three, and no call in progress.
  whole_call-enqueue_by :
      (r : Offer) (s : Threads api)
      → s.producer ≡ outside
      → ((whole_call r s).psr ≡ (enqueue_by r s.psr).1) × ((whole_call r s).producer ≡ outside)
  unfolding test_count put_offer psring_enqueue_bulk psring_enqueue_burst psring_enqueue
  whole_call-enqueue_by (offer_bulk obj) s e =
      elim (Bool-cases (ltb (add32 (api.count s.psr.ring) (length obj)) s.psr.capacity)) [
        | inl fits ↦ rw fits (refl, refl)
        | inr over ↦ rw (over, e) (refl, refl)
      ]
  whole_call-enqueue_by (offer_burst obj) s e =
      elim (Bool-cases (ltb s.psr.capacity (api.count s.psr.ring))) [
        | inl over ↦ rw (over, e) (refl, refl)
        | inr within ↦ rw within (refl, refl)
      ]
  whole_call-enqueue_by (offer_one x) s e =
      elim (Bool-cases (leb (add32 (api.count s.psr.ring) 1) s.psr.capacity)) [
        | inl fits ↦ rw fits (refl, refl)
        | inr over ↦ rw (over, e) (refl, refl)
      ]
