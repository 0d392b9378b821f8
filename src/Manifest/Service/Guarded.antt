-- ===== src/Manifest/Service/Guarded.antt =====
-- When provider/manifest/service.go asks a watchdog to stop.
use rezerve.Base.{
  ℕ, ◌≡◌, sym, subst, Bool, true, false, ◌&&◌, ◌||◌, List, [], ◌∷◌, some, arith, ◌==◌, ==_iff,
  nat_eq, list_eq, if-both, Bool-cases, inl, inr, lookup, lookup-insert, lookup-delete, After,
  After_end, loop_inv, may_any, some-cases, if◌then◌else◌, ltb,
}
use rezerve.Manifest.Service.{
  DeploymentId, deployment_eq, deployment_id, Effect, create_watchdog, manager_manifest,
  stop_watchdog, State, Config, Event, request_shutdown, shutdown, signalled, status_asked,
  other_event, lease_won, lease_closed, deployment_updated, deployment_closed, active_check,
  manifest_request, manager_done, watchdog_done, start, try_signal, ensure_manager, ensure_watchdog,
  handle_lease, maybe_remove_watchdog, notify, on_manifest_request, on_manager_done,
  on_watchdog_done, is_enabled, step, run,
}

-- Whether a manifest of the deployment came since its last watchdog was made.
abbrev pub came : DeploymentId → List Effect → Bool
came d [] = false
came d (manager_manifest e n ∷ l) = let rest = came d l in if e == d then true else rest
came d (create_watchdog e n ∷ l) = let rest = came d l in if e == d then false else rest
came d (_ ∷ l) = came d l

abbrev pub asked_to_stop : ℕ → List Effect → Bool
asked_to_stop n [] = false
asked_to_stop n (stop_watchdog m ∷ l) = (m == n) || asked_to_stop n l
asked_to_stop n (_ ∷ l) = asked_to_stop n l

-- A watchdog whose deployment got its manifest has been asked to stop.
abbrev pub Quiet : State → Type 0
Quiet s =
    (d : DeploymentId) (n : ℕ)
    → lookup d s.watchdogs ≡ some n
    → came d s.log ≡ true
    → asked_to_stop n s.log ≡ true

ensure_manager-Quiet : (d : DeploymentId) (s : State) → Quiet s → Quiet (ensure_manager d s).1
unfolding ensure_manager
ensure_manager-Quiet d s h =
    some-cases (λ (r : ℕ × State). Quiet r.1) (lookup d s.managers) (λ n there. h) (λ free. h)

ensure_watchdog-Quiet :
    (cfg : Config) (d : DeploymentId) (s : State) → Quiet s → Quiet (ensure_watchdog cfg d s)
unfolding ensure_watchdog
ensure_watchdog-Quiet cfg d s h =
    if-both Quiet (ltb 0 cfg.manifest_timeout)
      (some-cases Quiet (lookup d s.watchdogs) (λ n there. h)
        (λ free f n there got. elim (Bool-cases (d == f)) [
          | inl same ↦ absurd (ground (arith, same, got))
          | inr other ↦
              h f n (ground (arith, there, lookup-insert d f s.created s.watchdogs, other))
                (ground (arith, other, got))
        ]))
      h

maybe_remove_watchdog-Quiet :
    (d : DeploymentId) (s : State) → Quiet s → Quiet (maybe_remove_watchdog d s)
unfolding maybe_remove_watchdog
maybe_remove_watchdog-Quiet d s h =
    some-cases Quiet (lookup d s.watchdogs) (λ n there f m has got. ground (arith, h f m has got))
      (λ free. h)

-- The watchdog of the deployment, if there is one, has been asked to stop.
abbrev Stopped : DeploymentId → State → Type 0
Stopped d s = (n : ℕ) → lookup d s.watchdogs ≡ some n → asked_to_stop n s.log ≡ true

maybe_remove_watchdog-Stopped :
    (d : DeploymentId) (s : State) → Stopped d (maybe_remove_watchdog d s)
unfolding maybe_remove_watchdog
maybe_remove_watchdog-Stopped d s =
    some-cases (Stopped d) (lookup d s.watchdogs) (λ n there m has. ground (arith, there, has))
      (λ free m has. absurd (ground (arith, free, has)))

ensure_manager-Stopped :
    (d : DeploymentId) (s : State) → Stopped d s → Stopped d (ensure_manager d s).1
unfolding ensure_manager
ensure_manager-Stopped d s h =
    some-cases (λ (r : ℕ × State). Stopped d r.1) (lookup d s.managers) (λ n there. h) (λ free. h)

manifest-Quiet :
    (d : DeploymentId) (n : ℕ) (s : State)
    → Stopped d s
    → Quiet s
    → Quiet (record s { log = manager_manifest d n ∷ s.log })
manifest-Quiet d n s stopped h f m has got = elim (Bool-cases (d == f)) [
  | inl same ↦
      stopped m (subst (λ x. lookup x s.watchdogs ≡ some m) (sym ((==_iff d f).0 same)) has)
  | inr other ↦ h f m has (ground (arith, other, got))
]

notify-Quiet :
    (d : DeploymentId) (msg : ℕ → Effect) (s : State)
    → ((n : ℕ) → Quiet s → Quiet (record s { log = msg n ∷ s.log }))
    → Quiet s
    → Quiet (notify d msg s)
unfolding notify
notify-Quiet d msg s silent h =
    some-cases Quiet (lookup d s.managers) (λ n there. silent n h) (λ free. h)

try_signal-Quiet : (taken : Bool) (s : State) → Quiet s → Quiet (try_signal taken s)
try_signal-Quiet taken s h = if-both Quiet (taken && s.shutdown_requested) h h

step-Quiet : (cfg : Config) (s : State) (ev : Event) → Quiet s → After Quiet Quiet (step cfg s ev)
unfolding step handle_lease on_manifest_request on_manager_done on_watchdog_done
step-Quiet cfg s request_shutdown h = h
step-Quiet cfg s shutdown h = h
step-Quiet cfg s (lease_won k) h =
    if-both Quiet (k.provider == cfg.own)
      (ensure_manager-Quiet (deployment_id k) _ (ensure_watchdog-Quiet cfg (deployment_id k) s h)) h
step-Quiet cfg s (deployment_updated d hash) h = notify-Quiet d _ s (λ n k. k) h
step-Quiet cfg s (deployment_closed d) h = notify-Quiet d _ s (λ n k. k) h
step-Quiet cfg s (lease_closed k) h =
    if-both Quiet (k.provider == cfg.own) (notify-Quiet (deployment_id k) _ s (λ n q. q) h) h
step-Quiet cfg s other_event h = h
step-Quiet cfg s (active_check d) h = h
step-Quiet cfg s (manifest_request d taken) h =
    let t = maybe_remove_watchdog d s in
    try_signal-Quiet taken _ (
      manifest-Quiet d (ensure_manager d t).0 (ensure_manager d t).1
        (ensure_manager-Stopped d t (maybe_remove_watchdog-Stopped d s))
        (ensure_manager-Quiet d t (maybe_remove_watchdog-Quiet d s h)))
step-Quiet cfg s status_asked h = h
step-Quiet cfg s signalled h = h
step-Quiet cfg s (manager_done d n taken) h =
    try_signal-Quiet taken _ (maybe_remove_watchdog-Quiet d _ h)
step-Quiet cfg s (watchdog_done d n) h =
    λ f m has got. h f m (ground (arith, has, lookup-delete d f s.watchdogs, ==_iff d f)) got

-- Whatever arrives, in whatever order: a watchdog whose deployment got a manifest since the watchdog
-- was made has been asked to stop.
pub manifest_stops_watchdog : (cfg : Config) (evs : List Event) → Quiet (run cfg evs).0
unfolding run start lookup
manifest_stops_watchdog cfg evs = After_end Quiet (run cfg evs) (
    loop_inv is_enabled (step cfg) Quiet Quiet (λ ev. true) (λ s ev may on h. step-Quiet cfg s ev h)
      start evs (may_any evs) (λ d n has got. absurd (ground (arith, got))))
