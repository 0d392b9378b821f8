-- ===== src/Bidengine/Order.antt =====
-- provider/bidengine/order.go: the loop of `order.run`. A channel on which a result is awaited is a
-- flag of the state; an event is a value received on one of them, or from the lifecycle, the chain's
-- event stream or the timer; what the order asks of others is a log of effects, newest first.
pub mod Pipeline
pub mod Price
pub mod Cleanup
pub mod Settled
pub mod Stale
mod Tests
use rezerve.Base.{
  ℕ, ◌+◌, ◌-◌, ◌*◌, ◌%◌, suc, ◌≡◌, Bool, true, false, not, ◌&&◌, ◌||◌, List, [], ◌∷◌, Option, none,
  some, Text, bytes, ℤ, pos, negsuc, ◌==◌, nat_eq, list_eq, if◌then◌else◌, ltb, leb, all, length,
  has_prefix,
}
use rezerve.Bidengine.Ids.{GroupId, OrderId, BidId, Coin, group_eq, order_eq}

pub record Config : Type 0 where
  pub order_id : OrderId
  -- The provider's address, and what `Provider().String()` prints.
  pub provider : Text
  pub provider_string : Text
  -- In nanoseconds; no timeout if 0.
  pub bid_timeout : ℕ
  pub created_at_block_height : ℕ

pub data BidState : Type 0 where
  bid_open bid_other : BidState

pub record Bid : Type 0 where
  pub state : BidState
  pub created_at : ℕ

-- The answer to the query for an existing bid.
pub data QueryBid : Type 0 where
  query_error : Text → QueryBid
  found : Bid → QueryBid

pub data Event : Type 0 where
  shutdown : Event
  query_bid_result : QueryBid → Event
  lease_created : BidId → Event
  order_closed : OrderId → Event
  bid_closed : BidId → Event
  -- `none` is an error: the group's price limit, the verdict, the reservation's order, the price.
  group_result : Option Coin → Event
  should_bid_result : Option Bool → Event
  cluster_result : Option OrderId → Event
  price_result : Option Coin → Event
  bid_result : Bool → Event
  bid_timed_out : Event

pub data Effect : Type 0 where
  query_group query_bid check_should_bid reserve calculate_price : Effect
  publish_lease_won : BidId → Effect
  broadcast_bid : Coin → Effect
  unreserve : OrderId → Effect
  close_bid : Effect

pub record Run : Type 0 where
  pub query_bid_ch : Bool
  pub group_ch : Bool
  pub stored_group_ch : Bool
  pub should_bid_ch : Bool
  pub cluster_ch : Bool
  pub price_ch : Bool
  pub bid_ch : Bool
  pub timer : Bool
  pub group : Option Coin
  pub reservation : Option OrderId
  pub won : Bool
  pub bid_placed : Bool
  pub log : List Effect

abbrev pub emit : Effect → Run → Run
emit e s = record s { log = e ∷ s.log }

-- Some proper inner part of the text begins with the pattern and goes on behind it.
has_inner : Text → Text → Bool
has_inner pattern [] = false
has_inner pattern (c ∷ s) =
    (has_prefix pattern s && ltb (length pattern) (length s)) || has_inner pattern s

-- `^.+bid not found.+$`, in which a dot is no line feed.
match_bid_not_found : Text → Bool
unfolding has_inner
match_bid_not_found err = all (λ c. not (c == 10)) err && has_inner (bytes "bid not found") err

bid_timeout_enabled : Config → Bool
bid_timeout_enabled c = ltb 0 c.bid_timeout

-- `createdAtBlock - o.session.CreatedAtBlockHeight()`
abbrev pub block_age : ℕ → ℕ → ℤ
block_age created height =
    if leb height created then pos (created - height) else negsuc (height - created - 1)

abbrev pub min_time_per_block : ℕ
min_time_per_block = 5_000_000_000

abbrev pub two_63 : ℕ
two_63 = 9_223_372_036_854_775_808

abbrev pub two_64 : ℕ
two_64 = 18_446_744_073_709_551_616

-- The 64-bit word of `time.Duration(blockAge) * minTimePerBlock`.
abbrev pub at_least_this_old : ℤ → ℕ
at_least_this_old (pos n) = n * min_time_per_block % two_64
at_least_this_old (negsuc n) = (two_64 - suc n * min_time_per_block % two_64) % two_64

-- A signed comparison of that word with the timeout.
abbrev pub older_than : ℤ → ℕ → Bool
older_than age timeout = let w = at_least_this_old age in ltb w two_63 && ltb timeout w

pub is_stale_bid : Config → Bid → Bool
unfolding bid_timeout_enabled
is_stale_bid c bid =
    if not (bid_timeout_enabled c)
    then false
    else older_than (block_age bid.created_at c.created_at_block_height) c.bid_timeout

-- The state before the loop: the group is asked for at once, and set aside while an existing bid is
-- looked up.
pub start : Bool → Run
start check_for_existing_bid = record {
  query_bid_ch = check_for_existing_bid;
  group_ch = not check_for_existing_bid;
  stored_group_ch = check_for_existing_bid;
  should_bid_ch = false;
  cluster_ch = false;
  price_ch = false;
  bid_ch = false;
  timer = false;
  group = none;
  reservation = none;
  won = false;
  bid_placed = false;
  log = if check_for_existing_bid then query_bid ∷ query_group ∷ [] else query_group ∷ [];
}

-- The event's channel is one that the `select` waits on.
pub is_enabled : Run → Event → Bool
is_enabled s shutdown = true
is_enabled s (query_bid_result q) = s.query_bid_ch
is_enabled s (lease_created id) = true
is_enabled s (order_closed id) = true
is_enabled s (bid_closed id) = true
is_enabled s (group_result g) = s.group_ch
is_enabled s (should_bid_result b) = s.should_bid_ch
is_enabled s (cluster_result r) = s.cluster_ch
is_enabled s (price_result p) = s.price_ch
is_enabled s (bid_result b) = s.bid_ch
is_enabled s bid_timed_out = s.timer

-- The group's result may be received now.
abbrev release_group : Run → Run
release_group s = record s {
  query_bid_ch = false;
  group_ch = s.stored_group_ch;
  stored_group_ch = false;
}

on_found : Config → Run → Bid → Run × Bool
unfolding is_stale_bid bid_timeout_enabled
on_found c s bid = elim bid.state [
  | bid_other ↦ (record s { query_bid_ch = false }, true)
  | bid_open ↦
      let t = record s { bid_placed = true } in
      if is_stale_bid c bid
      then (record t { query_bid_ch = false }, true)
      else (release_group (record t { timer = bid_timeout_enabled c }), false)
]

on_query_bid : Config → Run → QueryBid → Run × Bool
unfolding match_bid_not_found on_found
on_query_bid c s (query_error err) =
    if match_bid_not_found err
    then (release_group s, false)
    else (record s { query_bid_ch = false }, true)
on_query_bid c s (found bid) = on_found c s bid

on_lease_created : Config → Run → BidId → Run × Bool
on_lease_created c s id =
    if not (c.order_id.group == id.order.group)
    then (s, false)
    else if not (id.provider == c.provider)
    then (if s.bid_ch then record s { bid_placed = true } else s, true)
    else (record (emit (publish_lease_won id) s) { won = true }, true)

on_bid_closed : Config → Run → BidId → Run × Bool
on_bid_closed c s id =
    if s.won
    then (s, false)
    else if not (c.order_id.group == id.order.group)
    then (s, false)
    else if not (id.provider == c.provider_string)
    then (s, false)
    else (record s { bid_placed = false }, true)

on_cluster : Run → OrderId → Run × Bool
on_cluster s id =
    let t = record s { cluster_ch = false; reservation = some id } in
    if s.bid_placed
    then (t, false)
    else (record (emit calculate_price t) { price_ch = true }, false)

-- `group` is set by then; a loop that gets here without one would panic.
on_price : Run → Coin → Run × Bool
on_price s price = elim s.group [
  | none ↦ (record s { price_ch = false }, true)
  | some max_price ↦
      let t = record s { price_ch = false } in
      if not (max_price.denom == price.denom)
      then (t, true)
      else if ltb max_price.amount price.amount
      then (t, true)
      else (record (emit (broadcast_bid price) t) { bid_ch = true }, false)
]

-- One turn of the loop: the state after it, and whether the loop ends.
pub step : Config → Run → Event → Run × Bool
unfolding on_query_bid on_lease_created on_bid_closed on_cluster on_price bid_timeout_enabled
step c s shutdown = (s, true)
step c s (query_bid_result q) = on_query_bid c s q
step c s (lease_created id) = on_lease_created c s id
step c s (order_closed id) = (s, id == c.order_id)
step c s (bid_closed id) = on_bid_closed c s id
step c s (group_result none) = (record s { group_ch = false }, true)
step c s (group_result (some g)) = (
  record (emit check_should_bid s) { group_ch = false; group = some g; should_bid_ch = true },
  false,
)
step c s (should_bid_result none) = (record s { should_bid_ch = false }, true)
step c s (should_bid_result (some b)) =
    if b
    then (record (emit reserve s) { should_bid_ch = false; cluster_ch = true }, false)
    else (record s { should_bid_ch = false }, true)
step c s (cluster_result none) = (record s { cluster_ch = false }, true)
step c s (cluster_result (some id)) = on_cluster s id
step c s (price_result none) = (record s { price_ch = false }, true)
step c s (price_result (some p)) = on_price s p
step c s (bid_result b) =
    if b
    then (record s { bid_ch = false; bid_placed = true; timer = bid_timeout_enabled c }, false)
    else (record s { bid_ch = false }, true)
step c s bid_timed_out = (s, true)
