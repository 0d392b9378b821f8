-- ===== src/Bidengine/Order/Cleanup.antt =====
-- The end of `order.run`, behind its loop: an order that did not win gives back its reservation and
-- closes its bid.
use rezerve.Base.{
  ◌==◌, nat_eq, list_eq, ◌⊎◌, subst, ℕ, suc, ◌≡◌, ◌⊎◌, inl, inr, Bool, true, false, List, [], ◌∷◌,
  Option, none, some, arith, nat_eq, list_eq, if◌then◌else◌, Bool-cases,
}
use rezerve.Bidengine.Ids.{BidId, group_eq, OrderId, group_eq, order_eq}
use rezerve.Bidengine.Order.{
  on_lease_created, Config, Event, lease_created, Effect, unreserve, close_bid, Run, emit, start,
  step, publish_lease_won, is_enabled, shutdown, query_bid_result, order_closed, bid_closed,
  group_result, should_bid_result, cluster_result, price_result, bid_result, bid_timed_out,
  query_error, found, on_query_bid, on_found,
}
use rezerve.Bidengine.Order.Pipeline.{run, bit}

-- The cluster's answer that is still awaited is awaited now.
unfoldable pub take_reservation : Run → Option OrderId → Run
take_reservation s none = record s { cluster_ch = false }
take_reservation s (some id) = record s { cluster_ch = false; reservation = some id }

abbrev give_back : Run → Run
give_back s = elim s.reservation [ none ↦ s | some id ↦ emit (unreserve id) s ]

-- The answers of `Unreserve` and of the transaction change only the log and the counters.
unfoldable pub cleanup : Run → Option OrderId → Run
unfolding take_reservation
cleanup s late =
    let t = give_back (if s.cluster_ch then take_reservation s late else s) in
    if s.won then s else if s.bid_placed then emit close_bid t else t

-- The order's whole life: the reservation that arrives while it shuts down is `late`.
unfoldable pub execute : Config → Bool → List Event → Option OrderId → Run
execute c check es late = cleanup (run c (start check) es).0 late

abbrev pub wins : List Effect → ℕ
wins [] = 0
wins (publish_lease_won id ∷ l) = suc (wins l)
wins (_ ∷ l) = wins l

-- The orders whose reservations are given back.
abbrev pub unreserves : List Effect → List OrderId
unreserves [] = []
unreserves (unreserve id ∷ l) = id ∷ unreserves l
unreserves (_ ∷ l) = unreserves l

abbrev pub closes : List Effect → ℕ
closes [] = 0
closes (close_bid ∷ l) = suc (closes l)
closes (_ ∷ l) = closes l

-- While the loop goes on nothing is won, and nothing is given back or closed before it ends.
pub record Kept (s : Run) (won : Bool) : Type 0 where
  pub flag : s.won ≡ won
  pub wins_once : wins s.log ≡ bit won
  pub no_unreserve : unreserves s.log ≡ []
  pub no_close : closes s.log ≡ 0

pub start-Kept : (check : Bool) → Kept (start check) false
unfolding start
start-Kept true = ground arith
start-Kept false = ground arith

step-Kept :
    (c : Config) (s : Run) (e : Event)
    → Kept s false
    → Kept (step c s e).0 (step c s e).0.won × ((step c s e).1 ≡ false → (step c s e).0.won ≡ false)
unfolding step on_query_bid on_found
step-Kept c s shutdown k = ground arith
step-Kept c s (query_bid_result (query_error x)) k = ground arith
step-Kept c s (query_bid_result (found b)) k = ground arith
step-Kept c s (lease_created id) k = ground arith
step-Kept c s (order_closed id) k = ground arith
step-Kept c s (bid_closed id) k = ground arith
step-Kept c s (group_result none) k = ground arith
step-Kept c s (group_result (some g)) k = ground arith
step-Kept c s (should_bid_result none) k = ground arith
step-Kept c s (should_bid_result (some b)) k = ground arith
step-Kept c s (cluster_result none) k = ground arith
step-Kept c s (cluster_result (some id)) k = ground arith
step-Kept c s (price_result none) k = ground arith
step-Kept c s (price_result (some p)) k = ground arith
step-Kept c s (bid_result b) k = ground arith
step-Kept c s bid_timed_out k = ground arith

pub run-Kept :
    (c : Config) (s : Run) (es : List Event) → Kept s false → Kept (run c s es).0 (run c s es).0.won
unfolding run
run-Kept c s [] k = ground arith
run-Kept c s (e ∷ es) k = elim (Bool-cases (is_enabled s e)) [
  | inr off ↦ rw off (run-Kept c s es k)
  | inl enabled ↦
      let (kept, unwon) = step-Kept c s e k in
      elim (Bool-cases (step c s e).1) [
        | inl stop ↦ rw (enabled, stop) kept
        | inr on ↦ rw (enabled, on) (run-Kept c (step c s e).0 es (rw (unwon on) at kept))
      ]
]

pub run_unwon :
    (c : Config) (s : Run) (es : List Event)
    → Kept s false
    → (run c s es).1 ≡ false
    → (run c s es).0.won ≡ false
unfolding run
run_unwon c s [] k going = k.flag
run_unwon c s (e ∷ es) k going = elim (Bool-cases (is_enabled s e)) [
  | inr off ↦ rw off (run_unwon c s es k (rw off at going))
  | inl enabled ↦
      let (kept, unwon) = step-Kept c s e k in
      elim (Bool-cases (step c s e).1) [
        | inl stop ↦ absurd (ground (arith, enabled, stop))
        | inr on ↦
            rw (enabled, on)
              (run_unwon c (step c s e).0 es (rw (unwon on) at kept) (rw (enabled, on) at going))
      ]
]

lost-close :
    (c : Config) (s : Run) (id : BidId) (late : Option OrderId)
    → Kept s false
    → (c.order_id.group == id.order.group) ≡ true
    → (id.provider == c.provider) ≡ false
    → (s.bid_ch ≡ true) ⊎ (s.bid_placed ≡ true)
    → ((step c s (lease_created id)).1 ≡ true)
      × (closes (cleanup (step c s (lease_created id)).0 late).log ≡ 1)
unfolding step on_lease_created cleanup take_reservation
lost-close c s id none k same other (inl flying) = rw (same, other, flying) (ground arith)
lost-close c s id none k same other (inr placed) = ground arith
lost-close c s id (some o) k same other (inl flying) = rw (same, other, flying) (ground arith)
lost-close c s id (some o) k same other (inr placed) = ground arith

-- While an order goes on with its bid on the chain, or on its way there, a lease of its group with
-- another provider ends it, and it closes its bid once.
pub lost_lease_closes_bid :
    (c : Config) (check : Bool) (es : List Event) (id : BidId) (late : Option OrderId)
    → (run c (start check) es).1 ≡ false
    → (c.order_id.group == id.order.group) ≡ true
    → (id.provider == c.provider) ≡ false
    → ((run c (start check) es).0.bid_ch ≡ true) ⊎ ((run c (start check) es).0.bid_placed ≡ true)
    → ((step c (run c (start check) es).0 (lease_created id)).1 ≡ true)
      × (closes (cleanup (step c (run c (start check) es).0 (lease_created id)).0 late).log ≡ 1)
lost_lease_closes_bid c check es id late going same other bidding =
    let s = (run c (start check) es).0 in
    let kept = run-Kept c (start check) es (start-Kept check) in
    let unwon = run_unwon c (start check) es (start-Kept check) going in
    lost-close c s id late (subst (λ w. Kept s w) unwon kept) same other bidding
