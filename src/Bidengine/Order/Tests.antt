-- ===== src/Bidengine/Order/Tests.antt =====
-- Runs of an order: one that bids and wins its lease, and one whose lease another provider gets.
use rezerve.Base.{
  ◌≤◌, ◌≡◌, refl, true, false, List, [], ◌∷◌, ◌++◌, none, some, bytes, has_prefix, All, arith,
}
use rezerve.Bidengine.Ids.{GroupId, OrderId, Coin}
use rezerve.Bidengine.Order.{
  Config, Event, shutdown, query_bid_result, bid_closed, on_bid_closed, query_error, lease_created,
  group_result, should_bid_result, cluster_result, price_result, bid_result, Bid, bid_open,
  publish_lease_won, broadcast_bid, calculate_price, reserve, check_should_bid, query_group,
  unreserve, close_bid, start, step, is_enabled, is_stale_bid,
}
use rezerve.Bidengine.Order.Pipeline.{run, one_bid_per_order, reserves, bids}
use rezerve.Bidengine.Order.Price.{Priced, bids_within_limit}
use rezerve.Bidengine.Order.Cleanup.{execute, cleanup}
use rezerve.Bidengine.Order.Settled.{received, owed, to_close, Settled}
use rezerve.Bidengine.Order.Stale.{old_bids_are_never_stale}

abbrev group_id : GroupId
group_id = record { owner = bytes "alice"; dseq = 7; gseq = 1 }

abbrev order_id : OrderId
order_id = record { group = group_id; oseq = 1 }

abbrev config : Config
config = record {
  order_id = order_id;
  provider = bytes "p1";
  provider_string = bytes "owner:p1";
  bid_timeout = 300_000_000_000;
  created_at_block_height = 900;
}

abbrev limit : Coin
limit = record { denom = bytes "uakt"; amount = 50 }

abbrev price : Coin
price = record { denom = bytes "uakt"; amount = 40 }

abbrev bidding : List Event
bidding =
    group_result (some limit)
    ∷ should_bid_result (some true)
    ∷ cluster_result (some order_id)
    ∷ price_result (some price)
    ∷ bid_result true
    ∷ []

abbrev won : Event
won = lease_created (record { order = order_id; provider = bytes "p1" })

abbrev lost : Event
lost = lease_created (record { order = order_id; provider = bytes "p2" })

abbrev old_bid : Bid
old_bid = record { state = bid_open; created_at = 100 }

bidding_sends : bids (run config (start false) bidding).0.log ≡ 1
unfolding run step start is_enabled
bidding_sends = refl

one_bid_per_order_example :
    (reserves (run config (start false) bidding).0.log ≤ 1)
    × (bids (run config (start false) bidding).0.log ≤ 1)
one_bid_per_order_example = one_bid_per_order config false bidding

bids_within_limit_example :
    All (Priced (run config (start false) bidding).0.group) (run config (start false) bidding).0.log
bids_within_limit_example = bids_within_limit config false bidding

-- What these events tell: a reservation to give back and a bid to close.
lost_owes :
    (owed
        (received config (start false) (bidding ++ lost ∷ []) [])
        (run config (start false) (bidding ++ lost ∷ [])).0.log
        none
      ≡ order_id ∷ [])
    × (to_close config
          (received config (start false) (bidding ++ lost ∷ []) [])
          (run config (start false) (bidding ++ lost ∷ [])).0.log
        ≡ true)
unfolding received run step start is_enabled
lost_owes = (refl, refl)

-- A shutdown while the bid is on its way: the reservation goes back and the bid is left.
shutdown_log :
    (execute config false
      (group_result (some limit)
        ∷ should_bid_result (some true)
        ∷ cluster_result (some order_id)
        ∷ price_result (some price)
        ∷ shutdown
        ∷ [])
      none).log
    ≡ unreserve order_id
      ∷ broadcast_bid price
      ∷ calculate_price
      ∷ reserve
      ∷ check_should_bid
      ∷ query_group
      ∷ []
unfolding execute cleanup run step start is_enabled
shutdown_log = refl

-- The lease of another provider: the reservation goes back and the bid is closed.
lost_log :
    (execute config false (bidding ++ lost ∷ []) none).log
    ≡ close_bid
      ∷ unreserve order_id
      ∷ broadcast_bid price
      ∷ calculate_price
      ∷ reserve
      ∷ check_should_bid
      ∷ query_group
      ∷ []
unfolding execute cleanup run step start is_enabled
lost_log = refl

won_log :
    (execute config false (bidding ++ won ∷ []) none).log
    ≡ publish_lease_won (record { order = order_id; provider = bytes "p1" })
      ∷ broadcast_bid price
      ∷ calculate_price
      ∷ reserve
      ∷ check_should_bid
      ∷ query_group
      ∷ []
unfolding execute cleanup run step start is_enabled
won_log = refl

not_found_goes_on :
    (run config
      (start true)
      (query_bid_result (query_error (bytes "rpc: bid not found: x")) ∷ bidding)).0.bid_placed
    ≡ true
unfolding run step start is_enabled has_prefix
not_found_goes_on = refl

old_bids_are_never_stale_example : is_stale_bid config old_bid ≡ false
old_bids_are_never_stale_example =
    old_bids_are_never_stale config old_bid (omega arith) (omega arith)

-- The bid of this provider is closed from outside: the printed form of the provider is compared with
-- its address, so the event is passed over.
bid_closed_passed_over :
    (run config (start false) (
      bidding ++ bid_closed (record { order = order_id; provider = bytes "p1" }) ∷ [])).0.bid_placed
    ≡ true
unfolding run step start is_enabled on_bid_closed
bid_closed_passed_over = refl
