-- ===== src/Manifest/Manager/Waiting.antt =====
-- Which uploads wait, and for what.
use rezerve.Base.{
  ◌≡◌, refl, ◌∙◌, Bool, true, false, not, ◌||◌, List, [], ◌∷◌, ◌++◌, arith, if-cases, if-both, ok,
  err, After, After_end, loop_inv, may_any,
}
use rezerve.Manifest.Manager.{
  Request, received, State, Checks, emit, start, clear_fetched, maybe_fetch_data,
  maybe_schedule_stop, fill_all_requests, screen_all, first_manifest, emitted, validate_requests,
  emit_manifest, emit_received_events, Event, shutdown, stop_timer, lease_won, lease_removed,
  manifest_request, version_update, fetch_result, is_enabled, is_empty, on_requests, on_manifest,
  on_fetch_result, step, run,
}
use rezerve.Manifest.Proxy.{Group}

-- No upload waits.
abbrev Settled : State → Type 0
Settled s = (s.requests ≡ []) × (s.pending_requests ≡ [])

-- Uploads wait for a fetch only, and none waits for its manifest to be published.
abbrev Waiting : State → Type 0
Waiting s = (s.runch ≡ false → s.requests ≡ []) × (s.pending_requests ≡ [])

Settled-Waiting : (s : State) → Settled s → Waiting s
Settled-Waiting s (p, q) = ((λ e. p), q)

first_manifest-empty : (kept : List Request) → first_manifest kept ≡ [] → kept ≡ []
first_manifest-empty [] e = refl
first_manifest-empty (r ∷ rs) e = absurd (ground (arith, e))

append-empty : {A : Type 0} (xs ys : List A) → xs ++ ys ≡ [] → ys ≡ []
append-empty [] ys e = e
append-empty (x ∷ xs) ys e = absurd (ground (arith, e))

both-empty : {A : Type 0} (xs ys : List A) → xs ≡ [] → ys ≡ [] → xs ++ ys ≡ []
both-empty [] ys e h = h
both-empty (x ∷ xs) ys e h = absurd (ground (arith, e))

is_empty-nil : {A : Type 0} (xs : List A) → is_empty xs ≡ true → xs ≡ []
is_empty-nil [] e = refl
is_empty-nil (x ∷ xs) e = absurd (ground (arith, e))

-- After the checks, what is accepted waits for a manifest that is there.
Checked : State → Type 0
Checked s = (s.fetched ≡ true) × (s.requests ≡ []) × (s.manifests ≡ [] → s.pending_requests ≡ [])

validate_requests-Checked :
    (c : Checks) (s : State)
    → s.fetched ≡ true
    → s.pending_requests ≡ []
    → Checked (validate_requests c s)
unfolding Checked validate_requests
validate_requests-Checked c s on none_pending =
    if-cases Checked (not s.fetched || is_empty s.requests)
      (λ e. (on, is_empty-nil s.requests (rw on at e), λ _. none_pending))
      (λ e.
        let kept = (screen_all c s s.requests s.log).0 in
        (
          on,
          refl,
          λ no_manifest. both-empty s.pending_requests kept none_pending (
              first_manifest-empty kept
                (append-empty s.manifests (first_manifest kept) no_manifest)),
        ))

emit_received_events-Settled : (s : State) → Checked s → Settled (emit_received_events s)
unfolding Checked emit_received_events emit_manifest fill_all_requests
emit_received_events-Settled s (on, no_requests, h) =
    if-cases Settled (not s.fetched) (λ off. absurd (ground (arith, on, off)))
      (λ _. published s.manifests h)
  where
    published :
        (ms : List (List Group)) → (ms ≡ [] → s.pending_requests ≡ []) → Settled (emitted ms s)
    published [] h = (no_requests, h refl)
    published (m ∷ ms) h =
        if-both Settled (is_empty s.local_leases) (refl, refl) (no_requests, refl)

on_requests-Settled :
    (c : Checks) (s : State)
    → s.fetched ≡ true
    → s.pending_requests ≡ []
    → Settled (on_requests c s)
on_requests-Settled c s on h =
    emit_received_events-Settled (validate_requests c s) (validate_requests-Checked c s on h)

stop_requests :
    (s : State)
    → ((maybe_schedule_stop s).requests ≡ s.requests)
      × ((maybe_schedule_stop s).pending_requests ≡ s.pending_requests)
      × ((maybe_schedule_stop s).runch ≡ s.runch)
      × ((maybe_schedule_stop s).fetched ≡ s.fetched)
unfolding maybe_schedule_stop
stop_requests s = ground arith

-- Without a fetch under way the deployment is known, else one starts.
fetch_starts :
    (stale : Bool) (s : State)
    → ((maybe_fetch_data stale s).pending_requests ≡ s.pending_requests)
      × ((maybe_fetch_data stale s).runch ≡ false → (maybe_fetch_data stale s).fetched ≡ true)
unfolding maybe_fetch_data
fetch_starts stale s = ground arith

fetch_unknown :
    (stale : Bool) (s : State) → s.fetched ≡ false → (maybe_fetch_data stale s).runch ≡ true
unfolding maybe_fetch_data
fetch_unknown stale s e = ground (arith, e)

step-Waiting : (s : State) (e : Event) → Waiting s → After Waiting Waiting (step s e)
unfolding step on_manifest on_fetch_result fill_all_requests
step-Waiting s shutdown h = h
step-Waiting s stop_timer h = h
step-Waiting s lease_removed (h, k) =
    let (p, q, r, _) = stop_requests (clear_fetched s) in rw (p, q, r) (h, k)
step-Waiting s (lease_won stale) (h, k) =
    let unknown = maybe_schedule_stop (clear_fetched s) in
    let (_, q, _, f) = stop_requests (clear_fetched s) in
    (
      (λ off. absurd (ground (arith, fetch_unknown stale unknown f, off))),
      (fetch_starts stale unknown).0 ∙ q ∙ k,
    )
step-Waiting s (version_update v) h = h
step-Waiting s (manifest_request r stale c) (h, k) =
    let arrived = record (emit (received r.id) s) { requests = s.requests ++ (r ∷ []) } in
    let t = maybe_fetch_data stale (maybe_schedule_stop arrived) in
    let (p, q, r, _) = stop_requests arrived in
    let (x, y) = fetch_starts stale (maybe_schedule_stop arrived) in
    if-cases Waiting t.runch (λ on. ((λ off. absurd (ground (arith, on, off))), x ∙ q ∙ k))
      (λ off. Settled-Waiting (on_requests c t) (on_requests-Settled c t (y off) (x ∙ q ∙ k)))
step-Waiting s (fetch_result (err e) c) h = ((λ _. refl), refl)
step-Waiting s (fetch_result (ok f) c) (h, k) =
    let t = record s { runch = false; fetched = true; hash = f.hash; local_leases = f.leases } in
    let (p, q, r, _) = stop_requests (on_requests c t) in
    let (a, b) = on_requests-Settled c t refl k in
    Settled-Waiting (maybe_schedule_stop (on_requests c t)) (p ∙ a, q ∙ b)

-- Between two events no upload waits, unless a fetch of the deployment is under way; an upload that
-- was accepted has been answered.
pub waits_for_fetch_only :
    (es : List Event)
    → (run start es).0.runch ≡ false
    → ((run start es).0.requests ≡ []) × ((run start es).0.pending_requests ≡ [])
unfolding run start
waits_for_fetch_only es idle =
    let (h, k) = After_end Waiting (run start es) (
      loop_inv is_enabled step Waiting Waiting (λ e. true) (λ s e may on h. step-Waiting s e h)
        start es (may_any es) ((λ _. refl), refl)) in
    (h idle, k)
