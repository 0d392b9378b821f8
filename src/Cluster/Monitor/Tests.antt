-- ===== src/Cluster/Monitor/Tests.antt =====
-- A deployment of one service that never comes up.
use rezerve.Base.{◌≤◌, ◌≡◌, refl, true, false, List, [], ◌∷◌, none, some, loop, arith}
use rezerve.Cluster.Monitor.{
  pending, run_check, close_lease, publish_status, count_err, count_down, count_failed, Config,
  Event, tick, check_finished, start, run_check_now, publish_change, on_unhealthy, on_check, step,
  run,
}
use rezerve.Cluster.Monitor.Closing.{closes, Justified, closes_after_retries}

abbrev config : Config
config = record { monitor_max_retries = 1; has_healthcheck_period = true }

abbrev down : List Event
down = tick ∷ check_finished none ∷ tick ∷ check_finished (some false) ∷ tick ∷ []

down_log :
    (run config start down).0.log
    ≡ close_lease
      ∷ count_failed
      ∷ count_down
      ∷ run_check
      ∷ publish_status pending
      ∷ count_down
      ∷ count_err
      ∷ run_check
      ∷ []
unfolding run loop step start run_check_now on_check on_unhealthy publish_change
down_log = refl

closes_after_retries_example :
    (closes (run config start down).0.log ≤ 1) × Justified 2 (run config start down).0.log
closes_after_retries_example = closes_after_retries config down (omega arith)
