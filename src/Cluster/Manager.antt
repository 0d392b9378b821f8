-- ===== src/Cluster/Manager.antt =====
-- provider/cluster/manager.go: the deployment manager of one lease. A channel that is awaited is a flag
-- of the state; an event is a value received on one; what the manager starts and asks of others is a
-- log, newest first.
pub mod Phases
pub mod Reclaim
mod Tests
use rezerve.Base.{
  ℕ, ◌+◌, ◌-◌, ◌*◌, ◌%◌, ◌≡◌, Bool, true, false, not, ◌&&◌, ◌||◌, List, [], ◌∷◌, Option, none, some,
  Text, if◌then◌else◌, ltb, Next, goes_on, stops, panics, loop,
}

pub data DeploymentState : Type 0 where
  deploy_active deploy_pending deploy_complete : DeploymentState
  teardown_active teardown_pending teardown_complete : DeploymentState

-- `ErrLeaseInactive`, also wrapped, and any other error.
pub data Failure : Type 0 where
  lease_inactive : Failure
  failure : Text → Failure

pub data Effect : Type 0 where
  do_deploy do_teardown start_monitor stop_monitor remove_funds_monitor : Effect
  attempt_reclaim_close close_bid : Effect

-- What the node answers to an attempt to close: whether it is catching up and the time of its block,
-- or an error; and whether the broadcast is accepted.
pub record Chain : Type 0 where
  pub sync_info : Option (Bool × ℕ)
  pub accepts : Bool

pub data Event (D : Type 0) : Type 0 where
  shutdown : Event D
  -- The call of `reclaim` by the service, or by `checkLeaseActive` of a deploy.
  reclaim_requested : ℕ → Event D
  reclaim_received : Event D
  reclaim_timer : Event D
  reclaim_finished : Chain → Event D
  update : D → Event D
  -- `none` is success.
  run_result : Option Failure → Event D
  retry_teardown_timer : Event D
  teardown_request : Event D

pub record State (D : Type 0) : Type 0 where
  pub state : DeploymentState
  pub deployment : D
  pub runch : Bool
  pub retry_teardown : Bool
  pub monitor : Bool
  pub messages : Option Failure
  pub reclaim_queue : Option ℕ
  -- The deadline received last, and that of the attempt under way.
  pub reclaim_deadline : ℕ
  pub attempted : ℕ
  pub reclaiming : Bool
  pub reclaim_armed : Bool
  pub log : List Effect

abbrev pub tears_down : DeploymentState → Bool
tears_down teardown_active = true
tears_down teardown_pending = true
tears_down teardown_complete = true
tears_down _ = false

-- `remaining * time.Second`, a word.
abbrev pub seconds : ℕ → ℕ
seconds n = n * 1_000_000_000 % 18_446_744_073_709_551_616

-- `attemptReclaimClose`: whether the close is broadcast, whether it is done, and the wait if not.
pub attempt_close : ℕ → ℕ → Chain → Bool × (Bool × ℕ)
attempt_close retry_interval deadline c = elim c.sync_info [
  | none ↦ (false, (false, retry_interval))
  | some (catching_up, block_time) ↦
      if catching_up
      then (false, (false, retry_interval))
      else if ltb block_time deadline
      then (false, (false, seconds (deadline - block_time)))
      else if c.accepts
      then (true, (true, 0))
      else (true, (false, retry_interval))
]

module _ {D : Type 0} where
  abbrev pub emit : Effect → State D → State D
  emit e s = record s { log = e ∷ s.log }

  abbrev pub tearing_down : State D → Bool
  tearing_down s = tears_down s.state

  -- A monitor that was shut down is kept, and shut down again by the next call.
  abbrev pub stop_monitor_if : State D → State D
  stop_monitor_if s = if s.monitor then emit stop_monitor s else s

  pub start_deploy : State D → State D
  start_deploy s = record (emit do_deploy (stop_monitor_if s)) {
    state = deploy_active;
    runch = true;
  }

  pub start_teardown : State D → State D
  start_teardown s = record (emit do_teardown (emit remove_funds_monitor (stop_monitor_if s))) {
    state = teardown_active;
    runch = true;
  }

  pub start_reclaim_attempt : State D → State D
  start_reclaim_attempt s =
      if s.reclaiming || tearing_down s then s else record (emit attempt_reclaim_close s) {
        reclaiming = true;
        attempted = s.reclaim_deadline;
      }

  -- The send of `reclaim`, which drops a deadline behind a queued one.
  pub reclaim : ℕ → State D → State D
  reclaim deadline s = elim s.reclaim_queue [
    | none ↦ record s { reclaim_queue = some deadline }
    | some queued ↦ s
  ]

  -- The manager before its loop: the first deploy is under way.
  pub start : D → State D
  start d = record {
    state = deploy_active;
    deployment = d;
    runch = true;
    retry_teardown = false;
    monitor = false;
    messages = none;
    reclaim_queue = none;
    reclaim_deadline = 0;
    attempted = 0;
    reclaiming = false;
    reclaim_armed = false;
    log = do_deploy ∷ [];
  }

  on_update : DeploymentState → State D → State D
  unfolding start_deploy
  on_update deploy_active s = record s { state = deploy_pending }
  on_update deploy_complete s = start_deploy s
  on_update _ s = s

  -- A result other than that of an inactive lease.
  on_result : DeploymentState → Option Failure → State D → State D × Next
  unfolding start_deploy start_teardown
  on_result deploy_active r s = (
    record (emit start_monitor s) { state = deploy_complete; monitor = true; messages = r },
    goes_on,
  )
  on_result deploy_pending r s = (start_deploy s, goes_on)
  on_result deploy_complete r s = (s, panics)
  on_result teardown_active none s = (record s { state = teardown_complete }, stops)
  on_result teardown_active (some e) s = (record s { retry_teardown = true }, goes_on)
  on_result teardown_pending r s = (start_teardown s, goes_on)
  on_result teardown_complete r s = (s, panics)

  on_run_result : Option Failure → State D → State D × Next
  unfolding on_result start_teardown
  on_run_result (some lease_inactive) s = (start_teardown (record s { runch = false }), goes_on)
  on_run_result r s = on_result s.state r (record s { runch = false })

  on_teardown_request : DeploymentState → State D → State D
  unfolding start_teardown
  on_teardown_request deploy_active s = record s { state = teardown_pending }
  on_teardown_request deploy_pending s = record s { state = teardown_pending }
  on_teardown_request deploy_complete s = start_teardown s
  on_teardown_request _ s = s

  -- The attempt that is under way ends; the close it may have broadcast is in the log.
  on_reclaim_finished : ℕ → Chain → State D → State D
  unfolding attempt_close
  on_reclaim_finished retry_interval c s =
      let (sent, (done, wait)) = attempt_close retry_interval s.attempted c in
      let t = record (if sent then emit close_bid s else s) { reclaiming = false } in
      if tearing_down s then t else record t { reclaim_armed = not done }

  abbrev pub is_enabled : State D → Event D → Bool
  is_enabled s reclaim_received = elim s.reclaim_queue [ none ↦ false | some _ ↦ true ]
  is_enabled s reclaim_timer = s.reclaim_armed
  is_enabled s (reclaim_finished c) = s.reclaiming
  is_enabled s (run_result r) = s.runch
  is_enabled s retry_teardown_timer = s.retry_teardown
  is_enabled s _ = true

  -- One turn of the loop, or a deadline that is sent to it.
  pub step : ℕ → State D → Event D → State D × Next
  unfolding start_teardown start_reclaim_attempt on_update on_run_result on_teardown_request
      on_reclaim_finished reclaim
  step retry_interval s shutdown = (s, stops)
  step retry_interval s (reclaim_requested deadline) = (reclaim deadline s, goes_on)
  step retry_interval s reclaim_received = elim s.reclaim_queue [
    | none ↦ (s, goes_on)
    | some d ↦
        (start_reclaim_attempt (record s { reclaim_queue = none; reclaim_deadline = d }), goes_on)
  ]
  step retry_interval s reclaim_timer =
      (start_reclaim_attempt (record s { reclaim_armed = false }), goes_on)
  step retry_interval s (reclaim_finished c) = (on_reclaim_finished retry_interval c s, goes_on)
  step retry_interval s (update d) = (on_update s.state (record s { deployment = d }), goes_on)
  step retry_interval s (run_result r) = on_run_result r s
  step retry_interval s retry_teardown_timer =
      (start_teardown (record s { retry_teardown = false }), goes_on)
  step retry_interval s teardown_request =
      (on_teardown_request s.state (stop_monitor_if s), goes_on)

  pub run : ℕ → State D → List (Event D) → State D × Next
  run retry_interval = loop is_enabled (step retry_interval)
