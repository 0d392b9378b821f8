-- ===== src/Cluster/Manager/Tests.antt =====
-- A deployment that is updated and torn down, and an attempt to close that ends during the teardown.
use rezerve.Base.{ℕ, ◌≡◌, ◌≢◌, refl, true, false, List, [], ◌∷◌, none, some, bytes, panics, loop}
use rezerve.Cluster.Manager.{
  failure, do_deploy, do_teardown, start_monitor, stop_monitor, remove_funds_monitor,
  attempt_reclaim_close, close_bid, Chain, attempt_close, Event, reclaim_requested, reclaim,
  reclaim_received, reclaim_finished, update, run_result, retry_teardown_timer, teardown_request,
  start, start_deploy, start_teardown, start_reclaim_attempt, on_update, on_result, on_run_result,
  on_teardown_request, on_reclaim_finished, step, run,
}
use rezerve.Cluster.Manager.Phases.{StaysDown, never_panics, teardown_is_final}

-- A first deploy, an update during it, a teardown that fails once.
abbrev busy : List (Event ℕ)
busy =
    update 2
    ∷ run_result none
    ∷ run_result none
    ∷ reclaim_requested 90
    ∷ teardown_request
    ∷ run_result (some (failure (bytes "timeout")))
    ∷ []

abbrev end : List (Event ℕ)
end = reclaim_received ∷ retry_teardown_timer ∷ update 3 ∷ run_result none ∷ []

busy_log :
    (run 5 (start 1) busy).0.log
    ≡ do_teardown ∷ remove_funds_monitor ∷ stop_monitor ∷ stop_monitor ∷ start_monitor ∷ do_deploy
      ∷ do_deploy ∷ []
unfolding run loop step start on_update on_run_result on_result on_teardown_request start_deploy
    start_teardown reclaim start_reclaim_attempt
busy_log = refl

never_panics_example : (run 5 (start 1) busy).1 ≢ panics
never_panics_example = never_panics 5 1 busy

teardown_is_final_example :
    StaysDown (run 5 (start 1) busy).0 (run 5 (run 5 (start 1) busy).0 end).0
unfolding run loop step start on_update on_run_result on_result on_teardown_request start_deploy
    start_teardown reclaim start_reclaim_attempt
teardown_is_final_example = teardown_is_final 5 1 busy end refl refl

-- A teardown during the first deploy.
abbrev whole : List (Event ℕ)
whole = teardown_request ∷ run_result none ∷ run_result none ∷ []

abbrev due : Chain
due = record { sync_info = some (false, 100); accepts = true }

-- The attempt started before the teardown, and its close goes out after it.
close_during_teardown :
    (run {D = ℕ} 5 (start 1) (
      reclaim_requested 90 ∷ reclaim_received ∷ teardown_request ∷ reclaim_finished due ∷ [])).0.log
    ≡ close_bid ∷ attempt_reclaim_close ∷ do_deploy ∷ []
unfolding run loop step start reclaim start_reclaim_attempt on_teardown_request on_reclaim_finished
    attempt_close
close_during_teardown = refl
