-- ===== src/Bidengine/Service/Tests.antt =====
-- A chain of two pages behind a query that fails once, and two orders, one of them seen twice.
use rezerve.Base.{
  ℕ, ◌≡◌, refl, true, false, List, [], ◌∷◌, map, Option, some, Text, bytes, arith, nat_eq, list_eq,
  ◌==◌, if◌then◌else◌, lookup, insert, delete, goes_on, loop, remove_alive, AllEnd,
}
use rezerve.Bidengine.Service.Fetcher.{
  Page, traversed, asking, turn, orders_fetcher, Pages, answers, fetches_every_page,
}
use rezerve.Bidengine.Service.Monitors.{
  Event, request_shutdown, shutdown, orders_page, order_created, order_done, start, new_order,
  process_orders_page, on_order_created, on_order_done, step, run, Monitored, one_monitor_per_order,
  drain_orders, shutdown_drains_monitors,
}

abbrev chain : Text → Option (Page ℕ)
chain key =
    if key == []
    then some (record { orders = 1 ∷ 2 ∷ []; next_key = bytes "a" })
    else some (record { orders = 3 ∷ []; next_key = [] })

chain_of_two : Pages chain [] ((1 ∷ 2 ∷ []) ∷ (3 ∷ []) ∷ [])
chain_of_two = Pages.next (1 ∷ 2 ∷ []) (bytes "a") refl refl refl (Pages.last (3 ∷ []) refl)

fetches_every_page_example :
    orders_fetcher (map (answers chain) (false ∷ true ∷ true ∷ [])) [] []
    ≡ ((1 ∷ 2 ∷ []) ∷ (3 ∷ []) ∷ [], traversed)
fetches_every_page_example =
    fetches_every_page chain (false ∷ true ∷ true ∷ []) ((1 ∷ 2 ∷ []) ∷ (3 ∷ []) ∷ []) chain_of_two
      (omega arith)

-- Two pages that name each other as the next.
abbrev ring : Text → Option (Page ℕ)
ring key =
    some (record { orders = []; next_key = if key == bytes "a" then bytes "b" else bytes "a" })

ring_goes_on :
    (orders_fetcher (map (answers ring) (true ∷ true ∷ true ∷ true ∷ [])) [] []).1
    ≡ asking (bytes "b")
unfolding orders_fetcher turn
ring_goes_on = refl

abbrev arrivals : List (Event ℕ)
arrivals =
    order_created 7 true false
    ∷ orders_page ((7, true) ∷ (8, true) ∷ (9, false) ∷ [])
    ∷ order_done 7 0 false
    ∷ []

one_monitor_per_order_example : Monitored (run start arrivals).0
one_monitor_per_order_example = one_monitor_per_order arrivals

arrivals_orders : (run start arrivals).0.orders ≡ (8, 1) ∷ []
unfolding run loop step start new_order process_orders_page on_order_created on_order_done
    remove_alive lookup insert delete
arrivals_orders = refl

-- A request to shut down that `trySignal` takes is lost: the loop goes on and never sees it.
request_lost :
    (run {K = ℕ} start (request_shutdown ∷ order_created 7 true true ∷ shutdown ∷ [])).1 ≡ goes_on
unfolding run loop step start on_order_created new_order lookup insert
request_lost = refl

arrivals_alive : (run start arrivals).0.alive ≡ (8, 1) ∷ []
unfolding run loop step start new_order process_orders_page on_order_created on_order_done
    remove_alive lookup insert delete
arrivals_alive = refl

arrivals_end : AllEnd ((9, 4) ∷ (8, 1) ∷ []) (run start arrivals).0.alive
unfolding run loop step start new_order process_orders_page on_order_created on_order_done
    remove_alive lookup insert delete
arrivals_end k n on = ground (arith, on)

shutdown_drains_monitors_example :
    (drain_orders ((9, 4) ∷ (8, 1) ∷ []) (run start arrivals).0).orders ≡ []
shutdown_drains_monitors_example =
    shutdown_drains_monitors arrivals ((9, 4) ∷ (8, 1) ∷ []) arrivals_end
