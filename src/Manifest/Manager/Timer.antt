-- ===== src/Manifest/Manager/Timer.antt =====
-- The timer that is to end a manager whose deployment has neither a lease nor a manifest.
use rezerve.Base.{
  ◌≡◌, ◌≢◌, refl, Bool, true, false, not, ◌||◌, List, [], ◌∷◌, ◌++◌, arith, if-both, ok, err, stops,
  After, After-stops, loop_inv, All,
}
use rezerve.Manifest.Manager.{
  received, State, Checks, emit, start, clear_fetched, maybe_fetch_data, maybe_schedule_stop,
  fill_all_requests, emitted, validate_requests, emit_manifest, emit_received_events, Event,
  shutdown, stop_timer, lease_won, lease_removed, manifest_request, version_update, fetch_result,
  is_enabled, is_empty, on_requests, on_manifest, on_fetch_result, step, run,
}
use rezerve.Manifest.Proxy.{Group}

abbrev Unarmed : State → Type 0
Unarmed s = s.stoptimer ≡ false

abbrev pub not_shutdown : Event → Bool
not_shutdown shutdown = false
not_shutdown _ = true

schedule_keeps : (s : State) → Unarmed s → Unarmed (maybe_schedule_stop s)
unfolding maybe_schedule_stop
schedule_keeps s h = ground (arith, h)

fetch_keeps : (stale : Bool) (s : State) → Unarmed s → Unarmed (maybe_fetch_data stale s)
unfolding maybe_fetch_data
fetch_keeps stale s h = ground (arith, h)

validate_keeps : (c : Checks) (s : State) → Unarmed s → Unarmed (validate_requests c s)
unfolding validate_requests
validate_keeps c s h = if-both Unarmed (not s.fetched || is_empty s.requests) h h

emit_keeps : (s : State) → Unarmed s → Unarmed (emit_received_events s)
unfolding emit_received_events emit_manifest fill_all_requests
emit_keeps s h = if-both Unarmed (not s.fetched) h (published s.manifests)
  where
    published : (ms : List (List Group)) → Unarmed (emitted ms s)
    published [] = h
    published (m ∷ ms) = if-both Unarmed (is_empty s.local_leases) h h

requests_keep : (c : Checks) (s : State) → Unarmed s → Unarmed (on_requests c s)
requests_keep c s h = emit_keeps (validate_requests c s) (validate_keeps c s h)

step-Unarmed :
    (s : State) (e : Event)
    → not_shutdown e ≡ true
    → is_enabled s e ≡ true
    → Unarmed s
    → After Unarmed (λ _. ⊥) (step s e)
unfolding step on_manifest on_fetch_result fill_all_requests
step-Unarmed s shutdown calm on h = absurd (ground (arith, calm))
step-Unarmed s stop_timer calm on h = absurd (ground (arith, on, h))
step-Unarmed s lease_removed calm on h = schedule_keeps (clear_fetched s) h
step-Unarmed s (lease_won stale) calm on h =
    fetch_keeps stale (maybe_schedule_stop (clear_fetched s)) (schedule_keeps (clear_fetched s) h)
step-Unarmed s (version_update v) calm on h = h
step-Unarmed s (manifest_request r stale c) calm on h =
    let arrived = record (emit (received r.id) s) { requests = s.requests ++ (r ∷ []) } in
    let t = maybe_fetch_data stale (maybe_schedule_stop arrived) in
    let k = fetch_keeps stale (maybe_schedule_stop arrived) (schedule_keeps arrived h) in
    if-both Unarmed t.runch k (requests_keep c t k)
step-Unarmed s (fetch_result (err e) c) calm on h = h
step-Unarmed s (fetch_result (ok f) c) calm on h =
    let t = record s { runch = false; fetched = true; hash = f.hash; local_leases = f.leases } in
    schedule_keeps (on_requests c t) (requests_keep c t h)

-- The manager never ends by itself: unless it is told to shut down its loop goes on, since the stop
-- timer is never set, also when the deployment has neither a lease nor a manifest.
pub never_ends_by_itself :
    (es : List Event) → All (λ e. not_shutdown e ≡ true) es → (run start es).1 ≢ stops
unfolding run start
never_ends_by_itself es calm ended =
    After-stops Unarmed (λ _. ⊥) (run start es) ended
      (loop_inv is_enabled step Unarmed (λ _. ⊥) not_shutdown
        (λ s e ok on h. step-Unarmed s e ok on h) start es calm refl)
