-- ===== src/Bidengine/Order/Settled.antt =====
-- What an order owes when its loop ends, told from the events that it received, and that its cleanup
-- does it.
use rezerve.Base.{
  ◌==◌, nat_eq, list_eq, ◌⊎◌, ◌≤◌, ◌≡◌, Bool, true, false, not, ◌&&◌, ◌||◌, List, [], ◌∷◌, Option,
  none, some, if◌then◌else◌, ltb,
}
use rezerve.Bidengine.Ids.{OrderId, group_eq, order_eq}
use rezerve.Bidengine.Order.{
  Config, Event, Effect, Run, step, is_enabled, query_bid_result, lease_created, bid_closed,
  cluster_result, bid_result, found, bid_open, bid_other,
}
use rezerve.Bidengine.Order.Pipeline.{bit, reserves, bids}
use rezerve.Bidengine.Order.Cleanup.{wins, unreserves, closes}

-- The events that the loop receives before it ends, in front of those received before, newest first.
unfoldable pub received : Config → Run → List Event → List Event → List Event
received c s [] acc = acc
received c s (e ∷ es) acc =
    let (t, stop) = step c s e in
    let on = received c t es (e ∷ acc) in
    let skip = received c s es acc in
    if is_enabled s e then (if stop then e ∷ acc else on) else skip

-- The order of the reservation that the cluster gave, and whether it answered.
abbrev pub reserved : List Event → Option OrderId
reserved [] = none
reserved (cluster_result (some id) ∷ l) = some id
reserved (_ ∷ l) = reserved l

abbrev pub answered : List Event → Bool
answered [] = false
answered (cluster_result r ∷ l) = true
answered (_ ∷ l) = answered l

-- Whether the transaction that places the bid was answered.
abbrev pub bid_answered : List Event → Bool
bid_answered [] = false
bid_answered (bid_result b ∷ l) = true
bid_answered (_ ∷ l) = bid_answered l

-- Whether the chain has an open bid of the order, as the events tell: it was found open, or its
-- transaction succeeded, and no event after that closed it, in which the provider is compared with its
-- printed form.
abbrev pub standing : Config → List Event → Bool
standing c [] = false
standing c (query_bid_result (found b) ∷ l) = elim b.state [
  | bid_open ↦ true
  | bid_other ↦ standing c l
]
standing c (bid_result b ∷ l) = b || standing c l
standing c (bid_closed id ∷ l) =
    not (c.order_id.group == id.order.group && (id.provider == c.provider_string)) && standing c l
standing c (_ ∷ l) = standing c l

-- The newest event is a lease of the order's group, with this provider or with another.
abbrev pub gained : Config → List Event → Bool
gained c (lease_created id ∷ l) =
    (c.order_id.group == id.order.group) && (id.provider == c.provider)
gained c _ = false

abbrev pub lost : Config → List Event → Bool
lost c (lease_created id ∷ l) =
    (c.order_id.group == id.order.group) && not (id.provider == c.provider)
lost c _ = false

-- A reservation was asked for, and a bid sent, to which there is no answer yet.
abbrev pub awaited : List Event → List Effect → Bool
awaited l log = ltb 0 (reserves log) && not (answered l)

abbrev pub flying : List Event → List Effect → Bool
flying l log = ltb 0 (bids log) && not (bid_answered l)

record Told (c : Config) (s : Run) (l : List Event) : Type 0 where
  reservation : s.reservation ≡ reserved l
  cluster : s.cluster_ch ≡ awaited l s.log
  asked : answered l ≡ true → 1 ≤ reserves s.log
  bid : s.bid_ch ≡ flying l s.log
  sent : bid_answered l ≡ true → 1 ≤ bids s.log
  placed : s.bid_placed ≡ (standing c l || (lost c l && flying l s.log))
  won : s.won ≡ gained c l

-- The loop goes on from here.
abbrev Going : Config → List Event → Type 0
Going c l = (gained c l ≡ false) × (lost c l ≡ false)

abbrev held : Option OrderId → List OrderId
held none = []
held (some id) = id ∷ []

-- The reservation to give back: the one that the cluster gave, or the one that arrives `late`.
abbrev pub owed : List Event → List Effect → Option OrderId → List OrderId
owed l log late = held (if awaited l log then late else reserved l)

-- A bid to be closed: the order's own on the chain, or one that was on its way there when another
-- provider got the lease.
abbrev pub to_close : Config → List Event → List Effect → Bool
to_close c l log = standing c l || (lost c l && flying l log)

-- From the events received, and the requests sent by the end of the loop: what the whole log has.
abbrev pub Settled : Config → List Event → List Effect → Option OrderId → List Effect → Type 0
Settled c l sent late log =
    ((gained c l ≡ true) × (wins log ≡ 1) × (unreserves log ≡ []) × (closes log ≡ 0))
    ⊎ ((gained c l ≡ false)
        × (wins log ≡ 0)
        × (unreserves log ≡ owed l sent late)
        × (closes log ≡ bit (to_close c l sent)))
