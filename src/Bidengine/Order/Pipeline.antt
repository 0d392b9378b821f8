-- ===== src/Bidengine/Order/Pipeline.antt =====
-- An order's requests follow one another: at most one reservation and one bid, each behind its
-- guards.
use rezerve.Base.{
  ℕ, suc, ◌+◌, ◌≤◌, ◌≡◌, refl, ◌∙◌, inl, inr, Bool, true, false, List, [], ◌∷◌, none, some, arith,
  nat_eq, list_eq, if◌then◌else◌, Bool-cases,
}
use rezerve.Bidengine.Ids.{group_eq, order_eq}
use rezerve.Bidengine.Order.{
  Config, Event, shutdown, query_bid_result, lease_created, order_closed, bid_closed, group_result,
  should_bid_result, cluster_result, price_result, bid_result, bid_timed_out, query_error, found,
  Effect, reserve, broadcast_bid, Run, start, is_enabled, step,
}

-- The loop over the events that arrive; a value on a channel that is not waited on stays there.
unfoldable pub run : Config → Run → List Event → Run × Bool
run c s [] = (s, false)
run c s (e ∷ es) =
    let (t, stop) = step c s e in
    let on = run c t es in
    let skip = run c s es in if is_enabled s e then (if stop then (t, true) else on) else skip

abbrev pub bit : Bool → ℕ
bit true = 1
bit false = 0

-- How many reservations the log asks for, and how many bids it sends.
abbrev pub reserves : List Effect → ℕ
reserves [] = 0
reserves (reserve ∷ l) = suc (reserves l)
reserves (_ ∷ l) = reserves l

abbrev pub bids : List Effect → ℕ
bids [] = 0
bids (broadcast_bid p ∷ l) = suc (bids l)
bids (_ ∷ l) = bids l

-- A stage is awaited only where the later ones have not been asked for.
pub record Inv (s : Run) : Type 0 where
  pub one_reserve :
      reserves s.log + bit s.group_ch + bit s.stored_group_ch + bit s.should_bid_ch ≤ 1
  pub one_bid :
      bids s.log
        + bit s.group_ch
        + bit s.stored_group_ch
        + bit s.should_bid_ch
        + bit s.cluster_ch
        + bit s.price_ch
      ≤ 1

pub start-Inv : (check : Bool) → Inv (start check)
unfolding start
start-Inv true = omega arith
start-Inv false = omega arith

pub step-Inv :
    (c : Config) (s : Run) (e : Event) → is_enabled s e ≡ true → Inv s → Inv (step c s e).0
unfolding step is_enabled
step-Inv c s shutdown h v = v
step-Inv c s (query_bid_result (query_error x)) h v = ground arith
step-Inv c s (query_bid_result (found b)) h v = ground arith
step-Inv c s (lease_created id) h v = ground arith
step-Inv c s (order_closed id) h v = v
step-Inv c s (bid_closed id) h v = ground arith
step-Inv c s (group_result none) h v = ground arith
step-Inv c s (group_result (some g)) h v = ground arith
step-Inv c s (should_bid_result none) h v = ground arith
step-Inv c s (should_bid_result (some b)) h v = ground arith
step-Inv c s (cluster_result none) h v = ground arith
step-Inv c s (cluster_result (some id)) h v = ground arith
step-Inv c s (price_result none) h v = ground arith
step-Inv c s (price_result (some p)) h v = ground arith
step-Inv c s (bid_result b) h v = ground arith
step-Inv c s bid_timed_out h v = v

pub run-Inv : (c : Config) (s : Run) (es : List Event) → Inv s → Inv (run c s es).0
unfolding run
run-Inv c s [] v = v
run-Inv c s (e ∷ es) v = elim (Bool-cases (is_enabled s e)) [
  | inr off ↦ rw off (run-Inv c s es v)
  | inl enabled ↦ elim (Bool-cases (step c s e).1) [
    | inl stop ↦ rw (enabled, stop) (step-Inv c s e enabled v)
    | inr on ↦ rw (enabled, on) (run-Inv c (step c s e).0 es (step-Inv c s e enabled v))
  ]
]

-- While the loop runs: a bid on the chain rules out one under way, and a query for an existing bid
-- holds the group back.
pub record Quiet (s : Run) : Type 0 where
  pub placed : s.bid_placed ≡ true → (s.price_ch ≡ false) × (s.bid_ch ≡ false)
  pub held : s.query_bid_ch ≡ true → s.stored_group_ch ≡ true
  pub counted : s.bid_ch ≡ true → 1 ≤ bids s.log

start-Quiet : (check : Bool) → Quiet (start check)
unfolding start
start-Quiet true = ground arith
start-Quiet false = ground arith

step-Quiet :
    (c : Config) (s : Run) (e : Event)
    → is_enabled s e ≡ true
    → (step c s e).1 ≡ false
    → Inv s
    → Quiet s
    → Quiet (step c s e).0
unfolding step is_enabled
step-Quiet c s shutdown h go v q = q
step-Quiet c s (query_bid_result (query_error x)) h go v q = ground arith
step-Quiet c s (query_bid_result (found b)) h go v q = ground arith
step-Quiet c s (lease_created id) h go v q = ground arith
step-Quiet c s (order_closed id) h go v q = q
step-Quiet c s (bid_closed id) h go v q = ground arith
step-Quiet c s (group_result none) h go v q = ground arith
step-Quiet c s (group_result (some g)) h go v q = ground arith
step-Quiet c s (should_bid_result none) h go v q = ground arith
step-Quiet c s (should_bid_result (some b)) h go v q = ground arith
step-Quiet c s (cluster_result none) h go v q = ground arith
step-Quiet c s (cluster_result (some id)) h go v q = ground arith
step-Quiet c s (price_result none) h go v q = ground arith
step-Quiet c s (price_result (some p)) h go v q = ground arith
step-Quiet c s (bid_result b) h go v q = ground arith
step-Quiet c s bid_timed_out h go v q = q

-- With the order's bid on the chain a turn sends no other, and the bid stays known unless the loop
-- ends.
step_placed :
    (c : Config) (s : Run) (e : Event)
    → is_enabled s e ≡ true
    → Quiet s
    → s.bid_placed ≡ true
    → (bids (step c s e).0.log ≡ bids s.log)
      × ((step c s e).1 ≡ false → (step c s e).0.bid_placed ≡ true)
unfolding step is_enabled
step_placed c s e h q p = ground arith

run_placed :
    (c : Config) (s : Run) (es : List Event)
    → Inv s
    → Quiet s
    → s.bid_placed ≡ true
    → bids (run c s es).0.log ≡ bids s.log
unfolding run
run_placed c s [] v q p = refl
run_placed c s (e ∷ es) v q p = elim (Bool-cases (is_enabled s e)) [
  | inr off ↦ rw off (run_placed c s es v q p)
  | inl enabled ↦
      let (same, stays) = step_placed c s e enabled q p in
      elim (Bool-cases (step c s e).1) [
        | inl stop ↦ rw (enabled, stop) same
        | inr on ↦
            rw (enabled, on)
              (run_placed c (step c s e).0 es (step-Inv c s e enabled v)
                  (step-Quiet c s e enabled on v q) (stays on)
                ∙ same)
      ]
]

run-Quiet :
    (c : Config) (s : Run) (es : List Event)
    → Inv s
    → Quiet s
    → (run c s es).1 ≡ false
    → Quiet (run c s es).0
unfolding run
run-Quiet c s [] v q go = q
run-Quiet c s (e ∷ es) v q go = elim (Bool-cases (is_enabled s e)) [
  | inr off ↦ rw off (run-Quiet c s es v q (rw off at go))
  | inl enabled ↦ elim (Bool-cases (step c s e).1) [
    | inl stop ↦ absurd (ground (arith, enabled, stop))
    | inr on ↦
        rw (enabled, on)
          (run-Quiet c (step c s e).0 es (step-Inv c s e enabled v)
            (step-Quiet c s e enabled on v q) (rw (enabled, on) at go))
  ]
]

-- Whatever arrives, in whatever order, an order asks for one reservation at most and sends one bid
-- at most.
pub one_bid_per_order :
    (c : Config) (check : Bool) (es : List Event)
    → (reserves (run c (start check) es).0.log ≤ 1) × (bids (run c (start check) es).0.log ≤ 1)
one_bid_per_order c check es =
    let v = run-Inv c (start check) es (start-Inv check) in
    (omega (arith, v.one_reserve), omega (arith, v.one_bid))

-- An order that goes on with its bid on the chain, found there at the start or sent by itself, sends
-- none after it, whatever arrives.
pub no_bid_after_placed :
    (c : Config) (check : Bool) (before after : List Event)
    → (run c (start check) before).1 ≡ false
    → (run c (start check) before).0.bid_placed ≡ true
    → bids (run c (run c (start check) before).0 after).0.log
      ≡ bids (run c (start check) before).0.log
no_bid_after_placed c check before after going placed =
    let s = (run c (start check) before).0 in
    run_placed c s after (run-Inv c (start check) before (start-Inv check))
      (run-Quiet c (start check) before (start-Inv check) (start-Quiet check) going) placed
