-- ===== src/Bidengine/Order/Price.antt =====
-- An order's bid keeps to the price that its group allows: the comparison in `order.run` before the
-- bid is sent.
use rezerve.Base.{
  ◌≤◌, ◌≡◌, inl, inr, Bool, true, false, not, List, [], ◌∷◌, Option, none, some, arith, ◌==◌,
  ==_iff, nat_eq, list_eq, All, ltb, Bool-cases, Option-cases,
}
use rezerve.Bidengine.Ids.{OrderId, BidId, Coin, group_eq, order_eq}
use rezerve.Bidengine.Order.{
  Config, Event, shutdown, query_bid_result, lease_created, order_closed, bid_closed, group_result,
  should_bid_result, cluster_result, price_result, bid_result, bid_timed_out, QueryBid, query_error,
  found, Effect, query_group, query_bid, check_should_bid, reserve, calculate_price,
  publish_lease_won, broadcast_bid, unreserve, close_bid, Run, start, is_enabled, step,
  on_query_bid, on_found, on_price, on_cluster, on_lease_created, on_bid_closed,
}
use rezerve.Bidengine.Order.Pipeline.{run, Inv, start-Inv, step-Inv, bids}

-- A bid in the log is in the denomination of the group's limit and does not pass it.
abbrev pub Within : Option Coin → Coin → Type 0
Within none p = ⊥
Within (some limit) p = (limit.denom ≡ p.denom) × (p.amount ≤ limit.amount)

abbrev pub Priced : Option Coin → Effect → Type 0
Priced g (broadcast_bid p) = Within g p
Priced g _ = Unit

no_bids-Priced : (g : Option Coin) (l : List Effect) → bids l ≡ 0 → All (Priced g) l
no_bids-Priced g [] h = tt
no_bids-Priced g (broadcast_bid p ∷ l) h = absurd (omega (arith, h))
no_bids-Priced g (query_group ∷ l) h = (tt, no_bids-Priced g l h)
no_bids-Priced g (query_bid ∷ l) h = (tt, no_bids-Priced g l h)
no_bids-Priced g (check_should_bid ∷ l) h = (tt, no_bids-Priced g l h)
no_bids-Priced g (reserve ∷ l) h = (tt, no_bids-Priced g l h)
no_bids-Priced g (calculate_price ∷ l) h = (tt, no_bids-Priced g l h)
no_bids-Priced g (publish_lease_won i ∷ l) h = (tt, no_bids-Priced g l h)
no_bids-Priced g (unreserve i ∷ l) h = (tt, no_bids-Priced g l h)
no_bids-Priced g (close_bid ∷ l) h = (tt, no_bids-Priced g l h)

-- Looking up an existing bid adds no request.
on_query_bid-log :
    (c : Config) (s : Run) (q : QueryBid)
    → ((on_query_bid c s q).0.log ≡ s.log) × ((on_query_bid c s q).0.group ≡ s.group)
unfolding on_query_bid on_found
on_query_bid-log c s (query_error x) = ground arith
on_query_bid-log c s (found b) = ground arith

on_bid_closed-log :
    (c : Config) (s : Run) (id : BidId)
    → ((on_bid_closed c s id).0.log ≡ s.log) × ((on_bid_closed c s id).0.group ≡ s.group)
unfolding on_bid_closed
on_bid_closed-log c s id = ground arith

on_lease_created-Priced :
    (c : Config) (s : Run) (id : BidId)
    → All (Priced s.group) s.log
    → All (Priced (on_lease_created c s id).0.group) (on_lease_created c s id).0.log
unfolding on_lease_created
on_lease_created-Priced c s id a = elim (Bool-cases (not (c.order_id.group == id.order.group))) [
  | inl h ↦ rw h a
  | inr h ↦ elim (Bool-cases (not (id.provider == c.provider))) [
    | inl k ↦ elim (Bool-cases s.bid_ch) [ inl b ↦ rw (h, k, b) a | inr b ↦ rw (h, k, b) a ]
    | inr k ↦ rw (h, k) (tt, a)
  ]
]

on_cluster-Priced :
    (s : Run) (id : OrderId)
    → All (Priced s.group) s.log
    → All (Priced (on_cluster s id).0.group) (on_cluster s id).0.log
unfolding on_cluster
on_cluster-Priced s id a = elim (Bool-cases s.bid_placed) [ inl p ↦ rw p a | inr p ↦ rw p (tt, a) ]

on_price-Priced :
    (s : Run) (p : Coin)
    → All (Priced s.group) s.log
    → All (Priced (on_price s p).0.group) (on_price s p).0.log
unfolding on_price
on_price-Priced s p a = elim (Option-cases s.group) [
  | inl h ↦ rw h (rw h at a)
  | inr (g, h) ↦ elim (Bool-cases (not (g.denom == p.denom))) [
    | inl k ↦ rw (h, k) (rw h at a)
    | inr k ↦ elim (Bool-cases (ltb g.amount p.amount)) [
      | inl l ↦ rw (h, k, l) (rw h at a)
      | inr l ↦ rw (h, k, l) (ground (arith, k, l, ==_iff g.denom p.denom), rw h at a)
    ]
  ]
]

step-Priced :
    (c : Config) (s : Run) (e : Event)
    → is_enabled s e ≡ true
    → Inv s
    → All (Priced s.group) s.log
    → All (Priced (step c s e).0.group) (step c s e).0.log
unfolding step is_enabled
step-Priced c s shutdown h v a = a
step-Priced c s (query_bid_result q) h v a =
    let (log, group) = on_query_bid-log c s q in rw (log, group) a
step-Priced c s (lease_created id) h v a = on_lease_created-Priced c s id a
step-Priced c s (order_closed id) h v a = a
step-Priced c s (bid_closed id) h v a =
    let (log, group) = on_bid_closed-log c s id in rw (log, group) a
step-Priced c s (group_result none) h v a = a
step-Priced c s (group_result (some g)) h v a =
    (tt, no_bids-Priced (some g) s.log (ground (arith, v.one_bid)))
step-Priced c s (should_bid_result none) h v a = a
step-Priced c s (should_bid_result (some true)) h v a = (tt, a)
step-Priced c s (should_bid_result (some false)) h v a = a
step-Priced c s (cluster_result none) h v a = a
step-Priced c s (cluster_result (some id)) h v a = on_cluster-Priced s id a
step-Priced c s (price_result none) h v a = a
step-Priced c s (price_result (some p)) h v a = on_price-Priced s p a
step-Priced c s (bid_result true) h v a = a
step-Priced c s (bid_result false) h v a = a
step-Priced c s bid_timed_out h v a = a

run-Priced :
    (c : Config) (s : Run) (es : List Event)
    → Inv s
    → All (Priced s.group) s.log
    → All (Priced (run c s es).0.group) (run c s es).0.log
unfolding run
run-Priced c s [] v a = a
run-Priced c s (e ∷ es) v a = elim (Bool-cases (is_enabled s e)) [
  | inr off ↦ rw off (run-Priced c s es v a)
  | inl enabled ↦ elim (Bool-cases (step c s e).1) [
    | inl stop ↦ rw (enabled, stop) (step-Priced c s e enabled v a)
    | inr on ↦
        rw (enabled, on)
          (run-Priced c (step c s e).0 es (step-Inv c s e enabled v)
            (step-Priced c s e enabled v a))
  ]
]

-- Whatever arrives, in whatever order, a bid that the order sends is in the denomination of the
-- price that its group allows at most, and does not pass it.
pub bids_within_limit :
    (c : Config) (check : Bool) (es : List Event)
    → let s = (run c (start check) es).0 in All (Priced s.group) s.log
unfolding start
bids_within_limit c true es = run-Priced c (start true) es (start-Inv true) (tt, (tt, tt))
bids_within_limit c false es = run-Priced c (start false) es (start-Inv false) (tt, tt)
