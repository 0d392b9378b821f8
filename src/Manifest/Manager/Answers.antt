-- ===== src/Manifest/Manager/Answers.antt =====
-- What becomes of an upload: that none is forgotten, and none answered twice.
use rezerve.Base.{
  ℕ, ◌+◌, ◌≡◌, refl, ◌∙◌, Bool, true, false, not, ◌||◌, List, [], ◌∷◌, ◌++◌, Option, none, some,
  arith, if-both, nat_beq, ok, err, After, After_end, loop_inv, may_any,
}
use rezerve.Manifest.Manager.{
  Error, passed_on, no_lease_for_deployment, not_running, Request, Lease, Effect, received, dropped,
  answered, manifest_received, State, Checks, emit, start, clear_fetched, maybe_fetch_data,
  maybe_schedule_stop, answer_all, fill_all_requests, Screened, skipped, accepted, refused, screen,
  screen_all, settle, keep_accepted, last_manifest, emitted, validate_requests, publish_all,
  emit_manifest, emit_received_events, Event, shutdown, stop_timer, lease_won, lease_removed,
  manifest_request, version_update, fetch_result, is_enabled, is_empty, on_requests, on_manifest,
  on_fetch_result, step, run, finish,
}
use rezerve.Manifest.Proxy.{Group}

abbrev one : Bool → ℕ
one true = 1
one false = 0

module _ (i : ℕ) where
  -- How often an upload was received, and how often it was answered or passed over.
  abbrev pub times_received : List Effect → ℕ
  times_received [] = 0
  times_received (received j ∷ l) = one (nat_beq i j) + times_received l
  times_received (_ ∷ l) = times_received l

  abbrev pub times_settled : List Effect → ℕ
  times_settled [] = 0
  times_settled (answered j e ∷ l) = one (nat_beq i j) + times_settled l
  times_settled (dropped j ∷ l) = one (nat_beq i j) + times_settled l
  times_settled (_ ∷ l) = times_settled l

  abbrev pub times_in : List Request → ℕ
  times_in [] = 0
  times_in (r ∷ rs) = one (nat_beq i r.id) + times_in rs

  times_in-append : (rs ts : List Request) → times_in (rs ++ ts) ≡ times_in rs + times_in ts
  times_in-append [] ts = omega arith
  times_in-append (r ∷ rs) ts = omega (arith, times_in-append rs ts)

  answer_all-times :
      (e : Option Error) (rs : List Request) (l : List Effect)
      → (times_settled (answer_all e rs l) ≡ times_in rs + times_settled l)
        × (times_received (answer_all e rs l) ≡ times_received l)
  unfolding answer_all
  answer_all-times e [] l = (omega arith, refl)
  answer_all-times e (r ∷ rs) l =
      let (h, k) = answer_all-times e rs (answered r.id e ∷ l) in (omega (arith, h), k)

  publish_all-times :
      (g : List Group) (xs : List Lease) (l : List Effect)
      → (times_settled (publish_all g xs l) ≡ times_settled l)
        × (times_received (publish_all g xs l) ≡ times_received l)
  unfolding publish_all
  publish_all-times g [] l = (refl, refl)
  publish_all-times g (x ∷ xs) l = publish_all-times g xs (manifest_received x.lease_id g ∷ l)

  settle-times :
      (x : Screened) (r : Request) (l : List Effect) (kept : List Request)
      → (times_in (keep_accepted x r kept) + times_settled (settle x r l)
          ≡ one (nat_beq i r.id) + times_in kept + times_settled l)
        × (times_received (settle x r l) ≡ times_received l)
  settle-times skipped r l kept = (omega arith, refl)
  settle-times accepted r l kept = (omega arith, refl)
  settle-times (refused e) r l kept = (omega arith, refl)

  screen_all-times :
      (c : Checks) (s : State) (rs : List Request) (l : List Effect)
      → (times_in (screen_all c s rs l).0 + times_settled (screen_all c s rs l).1
          ≡ times_in rs + times_settled l)
        × (times_received (screen_all c s rs l).1 ≡ times_received l)
  unfolding screen_all
  screen_all-times c s [] l = (refl, refl)
  screen_all-times c s (r ∷ rs) l =
      let (h, k) = screen_all-times c s rs (settle (screen c s r) r l) in
      let (x, y) =
        settle-times (screen c s r) r l (screen_all c s rs (settle (screen c s r) r l)).0 in
      (omega (arith, h, x), k ∙ y)

  -- Every upload received was answered or passed over, or is still waiting.
  abbrev pub Accounted : State → Type 0
  Accounted s =
      times_received s.log ≡ times_settled s.log + times_in s.requests + times_in s.pending_requests

  fill_all_requests-Accounted :
      (e : Error) (s : State) → Accounted s → Accounted (fill_all_requests e s)
  unfolding fill_all_requests
  fill_all_requests-Accounted e s h =
      let (p, q) = answer_all-times (some e) s.pending_requests s.log in
      let (x, y) =
        answer_all-times (some e) s.requests (answer_all (some e) s.pending_requests s.log) in
      omega (arith, h, p, q, x, y)

  emptied :
      (e : Error) (s : State)
      → (times_in (fill_all_requests e s).requests ≡ 0)
        × (times_in (fill_all_requests e s).pending_requests ≡ 0)
  unfolding fill_all_requests
  emptied e s = (refl, refl)

  validate_requests-Accounted :
      (c : Checks) (s : State) → Accounted s → Accounted (validate_requests c s)
  unfolding validate_requests
  validate_requests-Accounted c s h = if-both Accounted (not s.fetched || is_empty s.requests) h (
      let (p, q) = screen_all-times c s s.requests s.log in
      let r = times_in-append s.pending_requests (screen_all c s s.requests s.log).0 in
      omega (arith, h, p, q, r))

  emit_manifest-Accounted :
      (g : List Group) (s : State) → Accounted s → Accounted (emit_manifest g s)
  unfolding emit_manifest
  emit_manifest-Accounted g s h =
      let (p, q) = publish_all-times g s.local_leases s.log in
      let (x, y) = answer_all-times none s.pending_requests (publish_all g s.local_leases s.log) in
      omega (arith, h, p, q, x, y)

  emit_received_events-Accounted : (s : State) → Accounted s → Accounted (emit_received_events s)
  unfolding emit_received_events
  emit_received_events-Accounted s h = if-both Accounted (not s.fetched) h (published s.manifests)
    where
      published : (ms : List (List Group)) → Accounted (emitted ms s)
      published [] = h
      published (m ∷ ms) =
          if-both Accounted (is_empty s.local_leases)
            (fill_all_requests-Accounted no_lease_for_deployment s h)
            (emit_manifest-Accounted (last_manifest m ms) s h)

  on_requests-Accounted : (c : Checks) (s : State) → Accounted s → Accounted (on_requests c s)
  on_requests-Accounted c s h =
      emit_received_events-Accounted (validate_requests c s) (validate_requests-Accounted c s h)

  -- Neither asks for an answer, nor forgets an upload.
  fetch_frame : (stale : Bool) (s : State) → Accounted s → Accounted (maybe_fetch_data stale s)
  unfolding maybe_fetch_data
  fetch_frame stale s h =
      if-both Accounted s.runch h (if-both Accounted (not s.fetched || stale) h h)

  stop_frame : (s : State) → Accounted s → Accounted (maybe_schedule_stop s)
  unfolding maybe_schedule_stop
  stop_frame s h =
      if-both Accounted (not (is_empty s.local_leases) || not (is_empty s.manifests))
        (if-both Accounted s.stoptimer h h) (if-both Accounted s.stoptimer h h)

  step-Accounted : (s : State) (e : Event) → Accounted s → After Accounted Accounted (step s e)
  unfolding step on_manifest on_fetch_result
  step-Accounted s shutdown h = h
  step-Accounted s stop_timer h = h
  step-Accounted s lease_removed h = stop_frame (clear_fetched s) h
  step-Accounted s (lease_won stale) h =
      fetch_frame stale (maybe_schedule_stop (clear_fetched s)) (stop_frame (clear_fetched s) h)
  step-Accounted s (version_update v) h = h
  step-Accounted s (manifest_request r stale c) h =
      let arrived = record (emit (received r.id) s) { requests = s.requests ++ (r ∷ []) } in
      let t = maybe_fetch_data stale (maybe_schedule_stop arrived) in
      let k =
        fetch_frame stale (maybe_schedule_stop arrived)
          (stop_frame arrived (omega (arith, h, times_in-append s.requests (r ∷ [])))) in
      if-both Accounted t.runch k (on_requests-Accounted c t k)
  step-Accounted s (fetch_result (err e) c) h =
      fill_all_requests-Accounted (passed_on e) (record s { runch = false }) h
  step-Accounted s (fetch_result (ok f) c) h =
      let t = record s { runch = false; fetched = true; hash = f.hash; local_leases = f.leases } in
      stop_frame (on_requests c t) (on_requests-Accounted c t h)

  run-Accounted : (es : List Event) → Accounted (run start es).0
  unfolding run start
  run-Accounted es = After_end Accounted (run start es) (
      loop_inv is_enabled step Accounted Accounted (λ e. true)
        (λ s e may on h. step-Accounted s e h) start es (may_any es) refl)

  -- When the manager has ended, every upload it received was answered, or passed over since its
  -- context was done, exactly as often as it was received.
  pub every_upload_settled :
      (es : List Event)
      → times_received (finish (run start es).0).log ≡ times_settled (finish (run start es).0).log
  unfolding finish
  every_upload_settled es =
      let h = fill_all_requests-Accounted not_running (run start es).0 (run-Accounted es) in
      let (p, q) = emptied not_running (run start es).0 in omega (arith, h, p, q)
