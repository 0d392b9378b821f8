-- ===== src/Manifest/Service/Kept.antt =====
-- The managers and the watchdogs that provider/manifest/service.go keeps.
use rezerve.Base.{
  ℕ, ◌≡◌, refl, Bool, true, ◌&&◌, List, ◌==◌, nat_eq, list_eq, if-both, lookup, After, After_end,
  loop_inv, may_any, Mirrored, insert-Mirrored, delete-Mirrored, some-cases, ltb, AllEnd,
  drain_ends, [],
}
use rezerve.Bidengine.Ids.{BidId}
use rezerve.Manifest.Service.{
  DeploymentId, deployment_eq, deployment_id, Effect, State, Config, Event, request_shutdown,
  shutdown, signalled, status_asked, other_event, lease_won, lease_closed, deployment_updated,
  deployment_closed, active_check, manifest_request, manager_done, watchdog_done, start, try_signal,
  ensure_manager, ensure_watchdog, handle_lease, maybe_remove_watchdog, notify, on_manifest_request,
  on_manager_done, on_watchdog_done, is_enabled, step, run, DeploymentId, drain_managers,
}

-- A deployment has one manager and one watchdog at most, and those known are those that are alive.
abbrev pub Paired : State → Type 0
Paired s = Mirrored s.managers s.alive × Mirrored s.watchdogs s.guarding

ensure_manager-Paired : (d : DeploymentId) (s : State) → Paired s → Paired (ensure_manager d s).1
unfolding ensure_manager
ensure_manager-Paired d s (h, g) =
    some-cases (λ (r : ℕ × State). Paired r.1) (lookup d s.managers) (λ n there. (h, g))
      (λ free. (insert-Mirrored d s.created s.managers s.alive free h, g))

ensure_watchdog-Paired :
    (cfg : Config) (d : DeploymentId) (s : State) → Paired s → Paired (ensure_watchdog cfg d s)
unfolding ensure_watchdog
ensure_watchdog-Paired cfg d s (h, g) =
    if-both Paired (ltb 0 cfg.manifest_timeout)
      (some-cases Paired (lookup d s.watchdogs) (λ n there. (h, g))
        (λ free. (h, insert-Mirrored d s.created s.watchdogs s.guarding free g)))
      (h, g)

handle_lease-Paired :
    (cfg : Config) (k : BidId) (s : State) → Paired s → Paired (handle_lease cfg k s)
unfolding handle_lease
handle_lease-Paired cfg k s h =
    ensure_manager-Paired (deployment_id k) _ (ensure_watchdog-Paired cfg (deployment_id k) s h)

maybe_remove_watchdog-Paired :
    (d : DeploymentId) (s : State) → Paired s → Paired (maybe_remove_watchdog d s)
unfolding maybe_remove_watchdog
maybe_remove_watchdog-Paired d s h =
    some-cases Paired (lookup d s.watchdogs) (λ n there. h) (λ free. h)

notify-Paired :
    (d : DeploymentId) (msg : ℕ → Effect) (s : State) → Paired s → Paired (notify d msg s)
unfolding notify
notify-Paired d msg s h = some-cases Paired (lookup d s.managers) (λ n there. h) (λ free. h)

try_signal-Paired : (taken : Bool) (s : State) → Paired s → Paired (try_signal taken s)
try_signal-Paired taken s h = if-both Paired (taken && s.shutdown_requested) h h

step-Paired :
    (cfg : Config) (s : State) (ev : Event)
    → is_enabled s ev ≡ true
    → Paired s
    → After Paired Paired (step cfg s ev)
unfolding step on_manifest_request on_manager_done on_watchdog_done
step-Paired cfg s request_shutdown on h = h
step-Paired cfg s shutdown on h = h
step-Paired cfg s (lease_won k) on h =
    if-both Paired (k.provider == cfg.own) (handle_lease-Paired cfg k s h) h
step-Paired cfg s (deployment_updated d hash) on h = notify-Paired d _ s h
step-Paired cfg s (deployment_closed d) on h = notify-Paired d _ s h
step-Paired cfg s (lease_closed k) on h =
    if-both Paired (k.provider == cfg.own) (notify-Paired (deployment_id k) _ s h) h
step-Paired cfg s other_event on h = h
step-Paired cfg s (active_check d) on h = h
step-Paired cfg s (manifest_request d taken) on h =
    try_signal-Paired taken _ (ensure_manager-Paired d _ (maybe_remove_watchdog-Paired d s h))
step-Paired cfg s status_asked on h = h
step-Paired cfg s signalled on h = h
step-Paired cfg s (manager_done d n taken) on (h, g) =
    try_signal-Paired taken _
      (maybe_remove_watchdog-Paired d _ (delete-Mirrored d n s.managers s.alive on h, g))
step-Paired cfg s (watchdog_done d n) on (h, g) =
    (h, delete-Mirrored d n s.watchdogs s.guarding on g)

-- Whatever arrives, in whatever order: a deployment has one manager and one watchdog at most, and the
-- managers and watchdogs that the service knows are those that are alive.
pub one_manager_and_watchdog : (cfg : Config) (evs : List Event) → Paired (run cfg evs).0
unfolding run start
one_manager_and_watchdog cfg evs = After_end Paired (run cfg evs) (
    loop_inv is_enabled (step cfg) Paired Paired (λ ev. true)
      (λ s ev may on h. step-Paired cfg s ev on h) start evs (may_any evs) ((refl, tt), (refl, tt)))

-- After whatever arrived, the shutdown does not wait for ever for the managers: once each that is alive
-- has ended, in whatever order, none is left in the map.
pub shutdown_drains_managers :
    (cfg : Config) (evs : List Event) (ds : List (DeploymentId × ℕ))
    → AllEnd ds (run cfg evs).0.alive
    → (drain_managers ds (run cfg evs).0).managers ≡ []
unfolding drain_managers
shutdown_drains_managers cfg evs ds ends =
    drain_ends ds (run cfg evs).0.managers (run cfg evs).0.alive
      (one_manager_and_watchdog cfg evs).0 ends
