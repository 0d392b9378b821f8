-- ===== src/Bidengine/Service/Monitors.antt =====
-- provider/bidengine/service.go: `run` and `processOrdersPage`. The service's map is an association
-- list of orders, its monitors are numbers; the monitors that are alive stand beside it.
use rezerve.Base.{
  Mirrored, insert-Mirrored, delete-Mirrored, is_alive, remove_alive, is_some, ℕ, suc, ◌%◌, ◌≡◌,
  refl, Bool, true, false, ◌&&◌, List, [], ◌∷◌, ◌++◌, Option, none, some, arith, Eq, nat_eq,
  if◌then◌else◌, if-both, if-cases, length, Dict, lookup, insert, delete, Next, goes_on, stops,
  After, After_end, loop, loop_inv, may_any, drain_map, AllEnd, drain_ends,
}

-- The service of orders that are told apart by their path.
pub record State (K : Type 0) : Type 0 where
  pub orders : Dict K ℕ
  pub alive : Dict K ℕ
  pub created : ℕ
  pub signal : Bool
  pub shutdown_requested : Bool
  pub published : List ℕ

-- What the loop receives. `taken`: the select of `trySignal` chose a pending request to shut down.
pub data Event (K : Type 0) : Type 0 where
  request_shutdown shutdown signalled : Event K
  orders_page : List (K × Bool) → Event K
  order_created : K → Bool → Bool → Event K
  other_event status_asked : Event K
  order_done : K → ℕ → Bool → Event K

is_some-none : (o : Option ℕ) → is_some o ≡ false → o ≡ none
is_some-none none h = refl
is_some-none (some x) h = absurd (ground (arith, h))

module _ {K : Type 0} ⦃e : Eq K⦄ where
  -- The service after `trySignal` at its start.
  unfoldable pub start : State K
  start = record {
    orders = [];
    alive = [];
    created = 0;
    signal = true;
    shutdown_requested = false;
    published = [];
  }

  abbrev pub try_signal : Bool → State K → State K
  try_signal taken s =
      if taken && s.shutdown_requested
      then record s { shutdown_requested = false }
      else record s { signal = true }

  -- `newOrder` and its monitor, if it is made.
  unfoldable pub new_order : K → Bool → State K → State K
  new_order k made s =
      if made
      then record s {
        orders = insert k s.created s.orders;
        alive = s.alive ++ ((k, s.created) ∷ []);
        created = suc s.created;
      }
      else s

  unfoldable pub process_orders_page : List (K × Bool) → State K → State K
  unfolding new_order
  process_orders_page [] s = s
  process_orders_page ((k, made) ∷ ks) s =
      process_orders_page ks (if is_some (lookup k s.orders) then s else new_order k made s)

  unfoldable pub on_order_created : K → Bool → Bool → State K → State K
  unfolding new_order
  on_order_created k made taken s =
      if is_some (lookup k s.orders)
      then s
      else if made
      then try_signal taken (new_order k made s)
      else s

  -- The monitor that ends is gone, and its order is dropped.
  unfoldable pub on_order_done : K → ℕ → Bool → State K → State K
  unfolding remove_alive
  on_order_done k n taken s =
      try_signal taken (record s { orders = delete k s.orders; alive = remove_alive k n s.alive })

  abbrev pub orders_count : State K → ℕ
  orders_count s = length s.orders % 4_294_967_296

  -- Only a monitor that is alive ends.
  abbrev pub is_enabled : State K → Event K → Bool
  is_enabled s shutdown = s.shutdown_requested
  is_enabled s signalled = s.signal
  is_enabled s (order_done k n taken) = is_alive k n s.alive
  is_enabled s ev = true

  unfoldable pub step : State K → Event K → State K × Next
  unfolding process_orders_page on_order_created on_order_done
  step s request_shutdown = (record s { shutdown_requested = true }, goes_on)
  step s shutdown = (record s { shutdown_requested = false }, stops)
  step s (orders_page page) = (process_orders_page page s, goes_on)
  step s (order_created k made taken) = (on_order_created k made taken s, goes_on)
  step s other_event = (s, goes_on)
  step s status_asked = (s, goes_on)
  step s (order_done k n taken) = (on_order_done k n taken s, goes_on)
  step s signalled =
      (record s { signal = false; published = orders_count s ∷ s.published }, goes_on)

  unfoldable pub run : State K → List (Event K) → State K × Next
  run = loop is_enabled step

  -- The service's orders are those whose monitors are alive, each with its one monitor.
  abbrev pub Monitored : State K → Type 0
  Monitored s = Mirrored s.orders s.alive

  new_order-Monitored :
      (k : K) (made : Bool) (s : State K)
      → is_some (lookup k s.orders) ≡ false
      → Monitored s
      → Monitored (new_order k made s)
  unfolding new_order
  new_order-Monitored k made s free h =
      if-both Monitored made
        (insert-Mirrored k s.created s.orders s.alive (is_some-none (lookup k s.orders) free) h) h

  process_orders_page-Monitored :
      (page : List (K × Bool)) (s : State K) → Monitored s → Monitored (process_orders_page page s)
  unfolding process_orders_page
  process_orders_page-Monitored [] s h = h
  process_orders_page-Monitored ((k, made) ∷ ks) s h =
      process_orders_page-Monitored ks
        (if is_some (lookup k s.orders) then s else new_order k made s)
        (if-cases Monitored (is_some (lookup k s.orders)) (λ _. h)
          (λ free. new_order-Monitored k made s free h))

  try_signal-Monitored : (taken : Bool) (s : State K) → Monitored s → Monitored (try_signal taken s)
  try_signal-Monitored taken s h = if-both Monitored (taken && s.shutdown_requested) h h

  step-Monitored :
      (s : State K) (ev : Event K)
      → is_enabled s ev ≡ true
      → Monitored s
      → After Monitored Monitored (step s ev)
  unfolding step on_order_created on_order_done
  step-Monitored s request_shutdown on h = h
  step-Monitored s shutdown on h = h
  step-Monitored s (orders_page page) on h = process_orders_page-Monitored page s h
  step-Monitored s (order_created k made taken) on h =
      if-cases Monitored (is_some (lookup k s.orders)) (λ _. h)
        (λ free.
          if-both Monitored made
            (try_signal-Monitored taken (new_order k made s) (new_order-Monitored k made s free h))
            h)
  step-Monitored s other_event on h = h
  step-Monitored s status_asked on h = h
  step-Monitored s (order_done k n taken) on h =
      try_signal-Monitored taken
        (record s { orders = delete k s.orders; alive = remove_alive k n s.alive })
        (delete-Mirrored k n s.orders s.alive on h)
  step-Monitored s signalled on h = h

  -- Whatever arrives, in whatever order, each order has one monitor at most, and the service's orders
  -- are those whose monitors are alive: none is monitored twice, and no monitor is forgotten.
  pub one_monitor_per_order : (evs : List (Event K)) → Monitored (run start evs).0
  unfolding run start
  one_monitor_per_order evs = After_end Monitored (run start evs) (
      loop_inv is_enabled step Monitored Monitored (λ ev. true)
        (λ s ev may on h. step-Monitored s ev on h) start evs (may_any evs) (refl, tt))

  -- The end of the loop: an order is dropped for each monitor that ends, until none is left.
  unfoldable pub drain_orders : List (K × ℕ) → State K → State K
  drain_orders ds s =
      let (orders, alive) = drain_map ds s.orders s.alive in
      record s { orders = orders; alive = alive }

  -- After whatever arrived, the shutdown comes to its end: once each monitor that is alive has ended,
  -- in whatever order, no order is left to wait for.
  pub shutdown_drains_monitors :
      (evs : List (Event K)) (ds : List (K × ℕ))
      → AllEnd ds (run start evs).0.alive
      → (drain_orders ds (run start evs).0).orders ≡ []
  unfolding drain_orders
  shutdown_drains_monitors evs ds ends =
      drain_ends ds (run start evs).0.orders (run start evs).0.alive (one_monitor_per_order evs)
        ends
