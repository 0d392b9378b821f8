-- ===== src/Manifest/Service.antt =====
-- provider/manifest/service.go: `run`, `handleLease`, `ensureManager` and `maybeRemoveWatchdog`. The
-- maps are association lists of deployments, managers and watchdogs are numbers, and those that are
-- alive stand beside them. What is sent to them and published is a log, newest first.
pub mod Guarded
pub mod Kept
mod Tests
use rezerve.Base.{
  ℕ, suc, ◌%◌, ◌≡◌, ◌↔◌, Bool, true, false, ◌&&◌, List, [], ◌∷◌, ◌++◌, none, some, Text, Eq, ◌==◌,
  ==_iff, nat_eq, list_eq, if◌then◌else◌, arith, length, Dict, lookup, insert, delete, is_alive,
  remove_alive, Next, goes_on, stops, loop, ltb, drain_map,
}
use rezerve.Bidengine.Ids.{BidId}

pub record DeploymentId : Type 0 where
  pub owner : Text
  pub dseq : ℕ

abbrev pub deployment_beq : DeploymentId → DeploymentId → Bool
deployment_beq a b = (a.owner == b.owner) && (a.dseq == b.dseq)

pub deployment_beq_iff : (a b : DeploymentId) → (deployment_beq a b ≡ true) ↔ (a ≡ b)
deployment_beq_iff a b = ground (arith, ==_iff a.owner b.owner)

instance abbrev pub deployment_eq : Eq DeploymentId
deployment_eq = record { equal = deployment_beq; equal_iff = deployment_beq_iff }

abbrev pub deployment_id : BidId → DeploymentId
deployment_id k = record { owner = k.order.group.owner; dseq = k.order.group.dseq }

pub data Effect : Type 0 where
  create_manager create_watchdog : DeploymentId → ℕ → Effect
  manager_lease manager_remove_lease : ℕ → BidId → Effect
  manager_update : ℕ → Text → Effect
  manager_manifest : DeploymentId → ℕ → Effect
  manager_stop stop_watchdog : ℕ → Effect
  publish_status : ℕ → Effect

pub record State : Type 0 where
  pub managers : Dict DeploymentId ℕ
  pub alive : Dict DeploymentId ℕ
  pub watchdogs : Dict DeploymentId ℕ
  pub guarding : Dict DeploymentId ℕ
  pub created : ℕ
  pub shutdown_requested : Bool
  pub signal : Bool
  pub log : List Effect

pub record Config : Type 0 where
  pub own : Text
  pub manifest_timeout : ℕ

-- What the loop receives. `taken`: the select of `trySignal` chose a pending request to shut down.
pub data Event : Type 0 where
  request_shutdown shutdown signalled status_asked other_event : Event
  lease_won lease_closed : BidId → Event
  deployment_updated : DeploymentId → Text → Event
  deployment_closed active_check : DeploymentId → Event
  manifest_request : DeploymentId → (taken : Bool) → Event
  manager_done : DeploymentId → ℕ → Bool → Event
  watchdog_done : DeploymentId → ℕ → Event

abbrev emit : Effect → State → State
emit e s = record s { log = e ∷ s.log }

unfoldable pub start : State
start = record {
  managers = [];
  alive = [];
  watchdogs = [];
  guarding = [];
  created = 0;
  shutdown_requested = false;
  signal = false;
  log = [];
}

abbrev pub try_signal : Bool → State → State
try_signal taken s =
    if taken && s.shutdown_requested
    then record s { shutdown_requested = false }
    else record s { signal = true }

abbrev new_manager : DeploymentId → State → State
new_manager d s = record s {
  managers = insert d s.created s.managers;
  alive = s.alive ++ ((d, s.created) ∷ []);
  created = suc s.created;
  log = create_manager d s.created ∷ s.log;
}

-- The manager of a deployment, made if there is none, and the service with it.
unfoldable pub ensure_manager : DeploymentId → State → ℕ × State
ensure_manager d s = elim (lookup d s.managers) [
  | some n ↦ (n, s)
  | none ↦ (s.created, new_manager d s)
]

abbrev new_watchdog : DeploymentId → State → State
new_watchdog d s = record s {
  watchdogs = insert d s.created s.watchdogs;
  guarding = s.guarding ++ ((d, s.created) ∷ []);
  created = suc s.created;
  log = create_watchdog d s.created ∷ s.log;
}

unfoldable pub ensure_watchdog : Config → DeploymentId → State → State
ensure_watchdog cfg d s =
    if ltb 0 cfg.manifest_timeout
    then elim (lookup d s.watchdogs) [ some n ↦ s | none ↦ new_watchdog d s ]
    else s

unfoldable pub handle_lease : Config → BidId → State → State
unfolding ensure_watchdog ensure_manager
handle_lease cfg k s =
    let (n, t) = ensure_manager (deployment_id k) (ensure_watchdog cfg (deployment_id k) s) in
    emit (manager_lease n k) t

unfoldable pub maybe_remove_watchdog : DeploymentId → State → State
maybe_remove_watchdog d s = elim (lookup d s.watchdogs) [
  | some n ↦ emit (stop_watchdog n) s
  | none ↦ s
]

-- What a manager is sent, if the deployment has one.
unfoldable pub notify : DeploymentId → (ℕ → Effect) → State → State
notify d msg s = elim (lookup d s.managers) [ some n ↦ emit (msg n) s | none ↦ s ]

unfoldable pub on_manifest_request : DeploymentId → Bool → State → State
unfolding maybe_remove_watchdog ensure_manager
on_manifest_request d taken s =
    let (n, t) = ensure_manager d (maybe_remove_watchdog d s) in
    try_signal taken (emit (manager_manifest d n) t)

unfoldable pub on_manager_done : DeploymentId → ℕ → Bool → State → State
unfolding maybe_remove_watchdog
on_manager_done d n taken s = try_signal taken (
    maybe_remove_watchdog d
      (record s { managers = delete d s.managers; alive = remove_alive d n s.alive }))

unfoldable pub on_watchdog_done : DeploymentId → ℕ → State → State
on_watchdog_done d n s = record s {
  watchdogs = delete d s.watchdogs;
  guarding = remove_alive d n s.guarding;
}

abbrev pub managers_count : State → ℕ
managers_count s = length s.managers % 4_294_967_296

abbrev pub is_active : State → DeploymentId → Bool
is_active s d = elim (lookup d s.managers) [ some n ↦ true | none ↦ false ]

-- Only a manager or a watchdog that is alive ends.
abbrev pub is_enabled : State → Event → Bool
is_enabled s shutdown = s.shutdown_requested
is_enabled s signalled = s.signal
is_enabled s (manager_done d n taken) = is_alive d n s.alive
is_enabled s (watchdog_done d n) = is_alive d n s.guarding
is_enabled s ev = true

-- One turn of the loop.
unfoldable pub step : Config → State → Event → State × Next
unfolding handle_lease notify on_manifest_request on_manager_done on_watchdog_done
step cfg s request_shutdown = (record s { shutdown_requested = true }, goes_on)
step cfg s shutdown = (record s { shutdown_requested = false }, stops)
step cfg s (lease_won k) = (if k.provider == cfg.own then handle_lease cfg k s else s, goes_on)
step cfg s (deployment_updated d hash) = (notify d (λ n. manager_update n hash) s, goes_on)
step cfg s (deployment_closed d) = (notify d manager_stop s, goes_on)
step cfg s (lease_closed k) = (
  if k.provider == cfg.own then notify (deployment_id k) (λ n. manager_remove_lease n k) s else s,
  goes_on,
)
step cfg s other_event = (s, goes_on)
step cfg s (active_check d) = (s, goes_on)
step cfg s (manifest_request d taken) = (on_manifest_request d taken s, goes_on)
step cfg s status_asked = (s, goes_on)
step cfg s signalled =
    (record (emit (publish_status (managers_count s)) s) { signal = false }, goes_on)
step cfg s (manager_done d n taken) = (on_manager_done d n taken s, goes_on)
step cfg s (watchdog_done d n) = (on_watchdog_done d n s, goes_on)

unfoldable pub run : Config → List Event → State × Next
unfolding start
run cfg = loop is_enabled (step cfg) start

-- The end of the loop: a manager is dropped for each that ends, until none is left.
unfoldable pub drain_managers : List (DeploymentId × ℕ) → State → State
drain_managers ds s =
    let (managers, alive) = drain_map ds s.managers s.alive in
    record s { managers = managers; alive = alive }
