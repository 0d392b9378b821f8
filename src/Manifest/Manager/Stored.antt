-- ===== src/Manifest/Manager/Stored.antt =====
-- The manifests that the manager keeps and publishes.
use rezerve.Base.{
  ◌≡◌, refl, Bool, true, false, not, ◌||◌, List, [], ◌∷◌, ◌++◌, Option, none, some, arith, if-both,
  Option-cases, inl, inr, ok, err, After, After_end, loop_inv, All, All-append, may_any,
}
use rezerve.Manifest.Manager.{
  Error, no_lease_for_deployment, passed_on, Request, Lease, Effect, received, answered,
  manifest_received, State, Checks, emit, start, clear_fetched, maybe_fetch_data,
  maybe_schedule_stop, answer_all, fill_all_requests, last_manifest, emitted, Screened, skipped,
  accepted, refused, screen, screen_all, validate_request, first_manifest, settle, keep_accepted,
  publish_all, validate_requests, emit_manifest, emit_received_events, Event, shutdown, stop_timer,
  lease_won, lease_removed, manifest_request, version_update, fetch_result, is_enabled, is_empty,
  on_requests, on_manifest, on_fetch_result, step, run,
}
use rezerve.Manifest.Proxy.{
  Group, WithinLimits, validate_proxy_buffer_limits, validate-WithinLimits,
}

-- A published manifest is within the limits.
abbrev pub EffectWithin : Effect → Type 0
EffectWithin (manifest_received id g) = WithinLimits g
EffectWithin _ = Unit

-- What is kept and what was published is within the limits.
abbrev pub Limited : State → Type 0
Limited s = All WithinLimits s.manifests × All EffectWithin s.log

-- A request that is accepted has passed the check of its limits.
validate_request-WithinLimits :
    (c : Checks) (s : State) (r : Request) → validate_request c s r ≡ none → WithinLimits r.manifest
unfolding validate_request
validate_request-WithinLimits c s r h =
    elim (Option-cases (validate_proxy_buffer_limits r.manifest)) [
      | inl e ↦ validate-WithinLimits r.manifest e
      | inr (x, e) ↦ absurd (ground (arith, e, h))
    ]

screen-WithinLimits :
    (c : Checks) (s : State) (r : Request) → screen c s r ≡ accepted → WithinLimits r.manifest
unfolding screen
screen-WithinLimits c s r h = elim (Option-cases (validate_request c s r)) [
  | inl e ↦ validate_request-WithinLimits c s r e
  | inr (x, e) ↦ absurd (ground (arith, e, h))
]

keep_within :
    (x : Screened) (r : Request) (kept : List Request)
    → (x ≡ accepted → WithinLimits r.manifest)
    → All (λ r. WithinLimits r.manifest) kept
    → All (λ r. WithinLimits r.manifest) (keep_accepted x r kept)
keep_within accepted r kept h k = (h refl, k)
keep_within skipped r kept h k = k
keep_within (refused e) r kept h k = k

settle_within :
    (x : Screened) (r : Request) (l : List Effect)
    → All EffectWithin l
    → All EffectWithin (settle x r l)
settle_within accepted r l h = h
settle_within skipped r l h = (tt, h)
settle_within (refused e) r l h = (tt, h)

screen_all-within :
    (c : Checks) (s : State) (rs : List Request) (l : List Effect)
    → All EffectWithin l
    → All (λ r. WithinLimits r.manifest) (screen_all c s rs l).0
      × All EffectWithin (screen_all c s rs l).1
unfolding screen_all
screen_all-within c s [] l h = (tt, h)
screen_all-within c s (r ∷ rs) l h =
    let below = settle (screen c s r) r l in
    let (p, q) = screen_all-within c s rs below (settle_within (screen c s r) r l h) in
    (keep_within (screen c s r) r (screen_all c s rs below).0 (screen-WithinLimits c s r) p, q)

first_within :
    (kept : List Request)
    → All (λ r. WithinLimits r.manifest) kept
    → All WithinLimits (first_manifest kept)
first_within [] h = tt
first_within (r ∷ rs) (h, k) = (h, tt)

answer_all-within :
    (e : Option Error) (rs : List Request) (l : List Effect)
    → All EffectWithin l
    → All EffectWithin (answer_all e rs l)
unfolding answer_all
answer_all-within e [] l h = h
answer_all-within e (r ∷ rs) l h = answer_all-within e rs (answered r.id e ∷ l) (tt, h)

publish_all-within :
    (g : List Group) (xs : List Lease) (l : List Effect)
    → WithinLimits g
    → All EffectWithin l
    → All EffectWithin (publish_all g xs l)
unfolding publish_all
publish_all-within g [] l w h = h
publish_all-within g (x ∷ xs) l w h =
    publish_all-within g xs (manifest_received x.lease_id g ∷ l) w (w, h)

last_within :
    (m : List Group) (ms : List (List Group))
    → WithinLimits m
    → All WithinLimits ms
    → WithinLimits (last_manifest m ms)
last_within m [] h k = h
last_within m (n ∷ ns) h (k, ks) = last_within n ns k ks

fill_all_requests-Limited : (e : Error) (s : State) → Limited s → Limited (fill_all_requests e s)
unfolding fill_all_requests
fill_all_requests-Limited e s (m, l) = (
  m,
  answer_all-within (some e) s.requests (answer_all (some e) s.pending_requests s.log)
      (answer_all-within (some e) s.pending_requests s.log l),
)

validate_requests-Limited : (c : Checks) (s : State) → Limited s → Limited (validate_requests c s)
unfolding validate_requests
validate_requests-Limited c s (m, l) =
    if-both Limited (not s.fetched || is_empty s.requests) (m, l)
      (let (p, q) = screen_all-within c s s.requests s.log l in
        (
          All-append WithinLimits s.manifests (first_manifest (screen_all c s s.requests s.log).0) m
              (first_within (screen_all c s s.requests s.log).0 p),
          q,
        ))

emit_received_events-Limited : (s : State) → Limited s → Limited (emit_received_events s)
unfolding emit_received_events emit_manifest
emit_received_events-Limited s (m, l) =
    if-both Limited (not s.fetched) (m, l) (published s.manifests m)
  where
    published : (ms : List (List Group)) → All WithinLimits ms → Limited (emitted ms s)
    published [] h = (m, l)
    published (g ∷ gs) (h, k) =
        if-both Limited (is_empty s.local_leases)
          (fill_all_requests-Limited no_lease_for_deployment s (m, l))
          (
            m,
            answer_all-within none s.pending_requests
                (publish_all (last_manifest g gs) s.local_leases s.log)
                (publish_all-within (last_manifest g gs) s.local_leases s.log (last_within g gs h k)
                  l),
          )

on_requests-Limited : (c : Checks) (s : State) → Limited s → Limited (on_requests c s)
on_requests-Limited c s h =
    emit_received_events-Limited (validate_requests c s) (validate_requests-Limited c s h)

schedule_keeps_limits : (s : State) → Limited s → Limited (maybe_schedule_stop s)
unfolding maybe_schedule_stop
schedule_keeps_limits s h =
    if-both Limited (not (is_empty s.local_leases) || not (is_empty s.manifests))
      (if-both Limited s.stoptimer h h) (if-both Limited s.stoptimer h h)

fetch_keeps_limits : (stale : Bool) (s : State) → Limited s → Limited (maybe_fetch_data stale s)
unfolding maybe_fetch_data
fetch_keeps_limits stale s h =
    if-both Limited s.runch h (if-both Limited (not s.fetched || stale) h h)

step-Limited : (s : State) (e : Event) → Limited s → After Limited Limited (step s e)
unfolding step on_manifest on_fetch_result
step-Limited s shutdown h = h
step-Limited s stop_timer h = h
step-Limited s lease_removed h = schedule_keeps_limits (clear_fetched s) h
step-Limited s (lease_won stale) h =
    fetch_keeps_limits stale (maybe_schedule_stop (clear_fetched s))
      (schedule_keeps_limits (clear_fetched s) h)
step-Limited s (version_update v) h = h
step-Limited s (manifest_request r stale c) (m, l) =
    let arrived = record (emit (received r.id) s) { requests = s.requests ++ (r ∷ []) } in
    let t = maybe_fetch_data stale (maybe_schedule_stop arrived) in
    let k =
      fetch_keeps_limits stale (maybe_schedule_stop arrived)
        (schedule_keeps_limits arrived (m, (tt, l))) in
    if-both Limited t.runch k (on_requests-Limited c t k)
step-Limited s (fetch_result (err e) c) h =
    fill_all_requests-Limited (passed_on e) (record s { runch = false }) h
step-Limited s (fetch_result (ok f) c) h =
    let t = record s { runch = false; fetched = true; hash = f.hash; local_leases = f.leases } in
    schedule_keeps_limits (on_requests c t) (on_requests-Limited c t h)

-- Every manifest that the manager keeps, and every one that it has published for a lease, keeps all
-- its proxies' buffers within the provider's limits.
pub manifests_within_limits : (es : List Event) → Limited (run start es).0
unfolding run start
manifests_within_limits es = After_end Limited (run start es) (
    loop_inv is_enabled step Limited Limited (λ e. true) (λ s e may on h. step-Limited s e h) start
      es (may_any es) (tt, tt))
