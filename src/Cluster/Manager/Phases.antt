-- ===== src/Cluster/Manager/Phases.antt =====
-- The manager's phases: what is awaited in each, that no result comes in a phase that cannot take it,
-- and that a teardown is final.
use rezerve.Base.{
  ℕ, suc, ◌≡◌, ◌≢◌, refl, ◌∙◌, inl, inr, Bool, true, false, not, ◌&&◌, ◌||◌, List, [], ◌∷◌, Option,
  none, some, arith, if◌then◌else◌, if-both, Next, goes_on, stops, panics, After, After-map,
  After-ne-panics, After-goes_on, After-stops, After_end, loop_inv, may_any, All, Option-cases,
}
use rezerve.Cluster.Manager.{
  DeploymentState, deploy_active, deploy_pending, deploy_complete, teardown_active,
  teardown_pending, teardown_complete, Failure, lease_inactive, failure, Effect, do_deploy,
  attempt_reclaim_close, Chain, Event, shutdown, reclaim_requested, reclaim, reclaim_received,
  reclaim_timer, reclaim_finished, update, run_result, retry_teardown_timer, teardown_request,
  State, tears_down, stop_monitor_if, start, start_teardown, start_reclaim_attempt, on_update,
  on_result, on_run_result, on_teardown_request, on_reclaim_finished, is_enabled, step, run,
}

-- In each phase, whether an execution is awaited and whether a teardown waits to be tried again.
abbrev pub awaits : DeploymentState → Bool → Bool → Bool
awaits deploy_active running again = running && not again
awaits deploy_pending running again = running && not again
awaits deploy_complete running again = not running && not again
awaits teardown_active running again = if running then not again else again
awaits teardown_pending running again = running && not again
awaits teardown_complete running again = not running && not again

abbrev pub Awaited : {D : Type 0} → State D → Type 0
Awaited s = awaits s.state s.runch s.retry_teardown ≡ true

-- The loop went on and still awaits what its phase does, or it stopped after a teardown.
abbrev Safe : {D : Type 0} → State D × Next → Type 0
Safe = After Awaited (λ s. s.state ≡ teardown_complete)

abbrev pub deploys : List Effect → ℕ
deploys [] = 0
deploys (do_deploy ∷ l) = suc (deploys l)
deploys (_ ∷ l) = deploys l

abbrev pub attempts : List Effect → ℕ
attempts [] = 0
attempts (attempt_reclaim_close ∷ l) = suc (attempts l)
attempts (_ ∷ l) = attempts l

awaits_running : (d : DeploymentState) (again : Bool) → awaits d true again ≡ true → again ≡ false
awaits_running deploy_active again h = ground arith
awaits_running deploy_pending again h = ground arith
awaits_running deploy_complete again h = absurd (ground (arith, h))
awaits_running teardown_active again h = ground arith
awaits_running teardown_pending again h = ground arith
awaits_running teardown_complete again h = absurd (ground (arith, h))

module _ {D : Type 0} where
  abbrev pub not_shutdown : Event D → Bool
  not_shutdown shutdown = false
  not_shutdown _ = true

  on_result-Safe :
      (d : DeploymentState) (r : Option Failure) (s : State D)
      → s.state ≡ d
      → awaits d true s.retry_teardown ≡ true
      → s.runch ≡ false
      → Safe (on_result d r s)
  unfolding on_result
  on_result-Safe deploy_active r s e h idle = ground arith
  on_result-Safe deploy_pending r s e h idle = ground arith
  on_result-Safe deploy_complete r s e h idle = absurd (ground (arith, h))
  on_result-Safe teardown_active none s e h idle = refl
  on_result-Safe teardown_active (some x) s e h idle = rw (e, idle) refl
  on_result-Safe teardown_pending r s e h idle = ground arith
  on_result-Safe teardown_complete r s e h idle = absurd (ground (arith, h))

  on_run_result-Safe :
      (r : Option Failure) (s : State D) → s.runch ≡ true → Awaited s → Safe (on_run_result r s)
  unfolding on_run_result
  on_run_result-Safe (some lease_inactive) s on h =
      let calm = awaits_running s.state s.retry_teardown (rw on at h) in ground (arith, calm)
  on_run_result-Safe (some (failure x)) s on h =
      on_result-Safe s.state (some (failure x)) (record s { runch = false }) refl (rw on at h) refl
  on_run_result-Safe none s on h =
      on_result-Safe s.state none (record s { runch = false }) refl (rw on at h) refl

  on_update-Awaited :
      (d : DeploymentState) (s : State D) → s.state ≡ d → Awaited s → Awaited (on_update d s)
  unfolding on_update
  on_update-Awaited deploy_active s e h = ground (arith, h, e)
  on_update-Awaited deploy_pending s e h = h
  on_update-Awaited deploy_complete s e h = ground (arith, h, e)
  on_update-Awaited teardown_active s e h = h
  on_update-Awaited teardown_pending s e h = h
  on_update-Awaited teardown_complete s e h = h

  on_teardown_request-Awaited :
      (d : DeploymentState) (s : State D)
      → s.state ≡ d
      → Awaited s
      → Awaited (on_teardown_request d s)
  unfolding on_teardown_request
  on_teardown_request-Awaited deploy_active s e h = ground (arith, h, e)
  on_teardown_request-Awaited deploy_pending s e h = ground (arith, h, e)
  on_teardown_request-Awaited deploy_complete s e h = ground (arith, h, e)
  on_teardown_request-Awaited teardown_active s e h = h
  on_teardown_request-Awaited teardown_pending s e h = h
  on_teardown_request-Awaited teardown_complete s e h = h

  start_reclaim_attempt-Awaited : (s : State D) → Awaited s → Awaited (start_reclaim_attempt s)
  unfolding start_reclaim_attempt
  start_reclaim_attempt-Awaited s h = if-both Awaited (s.reclaiming || tears_down s.state) h h

  -- The end of an attempt changes neither the phase nor what runs.
  reclaim_finished_frame :
      (interval : ℕ) (c : Chain) (s : State D)
      → ((on_reclaim_finished interval c s).state ≡ s.state)
        × ((on_reclaim_finished interval c s).runch ≡ s.runch)
        × ((on_reclaim_finished interval c s).retry_teardown ≡ s.retry_teardown)
        × (deploys (on_reclaim_finished interval c s).log ≡ deploys s.log)
        × (attempts (on_reclaim_finished interval c s).log ≡ attempts s.log)
  unfolding on_reclaim_finished
  reclaim_finished_frame interval c s = ground arith

  -- The send of a deadline changes neither the phase nor what runs.
  reclaim_frame :
      (deadline : ℕ) (s : State D)
      → ((reclaim deadline s).state ≡ s.state)
        × ((reclaim deadline s).runch ≡ s.runch)
        × ((reclaim deadline s).retry_teardown ≡ s.retry_teardown)
        × (deploys (reclaim deadline s).log ≡ deploys s.log)
        × (attempts (reclaim deadline s).log ≡ attempts s.log)
  unfolding reclaim
  reclaim_frame deadline s = ground arith

  stop_monitor_frame :
      (s : State D)
      → ((stop_monitor_if s).state ≡ s.state)
        × ((stop_monitor_if s).runch ≡ s.runch)
        × ((stop_monitor_if s).retry_teardown ≡ s.retry_teardown)
        × (deploys (stop_monitor_if s).log ≡ deploys s.log)
        × (attempts (stop_monitor_if s).log ≡ attempts s.log)
  stop_monitor_frame s = ground arith

  step-Safe :
      (interval : ℕ) (s : State D) (e : Event D)
      → not_shutdown e ≡ true
      → is_enabled s e ≡ true
      → Awaited s
      → Safe (step interval s e)
  unfolding step
  step-Safe interval s shutdown calm on h = absurd (ground (arith, calm))
  step-Safe interval s (reclaim_requested deadline) calm on h =
      let (state, runs, again, _, _) = reclaim_frame deadline s in rw (state, runs, again) h
  step-Safe interval s reclaim_received calm on h = elim (Option-cases s.reclaim_queue) [
    | inl e ↦ absurd (ground (arith, e, on))
    | inr (d, e) ↦
        rw (step, e)
          (start_reclaim_attempt-Awaited (record s { reclaim_queue = none; reclaim_deadline = d })
            h)
  ]
  step-Safe interval s reclaim_timer calm on h =
      start_reclaim_attempt-Awaited (record s { reclaim_armed = false }) h
  step-Safe interval s (reclaim_finished c) calm on h =
      let (state, runs, again, _, _) = reclaim_finished_frame interval c s in
      rw (state, runs, again) h
  step-Safe interval s (update d) calm on h =
      on_update-Awaited s.state (record s { deployment = d }) refl h
  step-Safe interval s (run_result r) calm on h = on_run_result-Safe r s on h
  step-Safe interval s retry_teardown_timer calm on h = ground arith
  step-Safe interval s teardown_request calm on h =
      let (state, runs, again, _, _) = stop_monitor_frame s in
      on_teardown_request-Awaited s.state (stop_monitor_if s) state (rw (state, runs, again) h)

  -- Once the lease is being torn down, it stays so, and neither a deploy nor an attempt to close it
  -- starts any more.
  abbrev pub StaysDown : State D → State D → Type 0
  StaysDown s t =
      (tears_down t.state ≡ true)
      × (deploys t.log ≡ deploys s.log)
      × (attempts t.log ≡ attempts s.log)

  on_result-StaysDown :
      (d : DeploymentState) (r : Option Failure) (s : State D)
      → s.state ≡ d
      → tears_down d ≡ true
      → StaysDown s (on_result d r s).0
  unfolding on_result start_teardown
  on_result-StaysDown deploy_active r s e h = absurd (ground (arith, h))
  on_result-StaysDown deploy_pending r s e h = absurd (ground (arith, h))
  on_result-StaysDown deploy_complete r s e h = absurd (ground (arith, h))
  on_result-StaysDown teardown_active none s e h = (refl, refl, refl)
  on_result-StaysDown teardown_active (some x) s e h = ground arith
  on_result-StaysDown teardown_pending r s e h = ground arith
  on_result-StaysDown teardown_complete r s e h = ground arith

  on_update-StaysDown :
      (d : DeploymentState) (s : State D)
      → s.state ≡ d
      → tears_down d ≡ true
      → StaysDown s (on_update d s)
  unfolding on_update
  on_update-StaysDown deploy_active s e h = absurd (ground (arith, h))
  on_update-StaysDown deploy_pending s e h = absurd (ground (arith, h))
  on_update-StaysDown deploy_complete s e h = absurd (ground (arith, h))
  on_update-StaysDown teardown_active s e h = ground arith
  on_update-StaysDown teardown_pending s e h = ground arith
  on_update-StaysDown teardown_complete s e h = ground arith

  on_teardown_request-StaysDown :
      (d : DeploymentState) (s : State D)
      → s.state ≡ d
      → tears_down d ≡ true
      → StaysDown s (on_teardown_request d s)
  unfolding on_teardown_request
  on_teardown_request-StaysDown deploy_active s e h = absurd (ground (arith, h))
  on_teardown_request-StaysDown deploy_pending s e h = absurd (ground (arith, h))
  on_teardown_request-StaysDown deploy_complete s e h = absurd (ground (arith, h))
  on_teardown_request-StaysDown teardown_active s e h = ground arith
  on_teardown_request-StaysDown teardown_pending s e h = ground arith
  on_teardown_request-StaysDown teardown_complete s e h = ground arith

  on_run_result-StaysDown :
      (r : Option Failure) (s : State D)
      → tears_down s.state ≡ true
      → StaysDown s (on_run_result r s).0
  unfolding on_run_result start_teardown
  on_run_result-StaysDown (some lease_inactive) s h = ground arith
  on_run_result-StaysDown (some (failure x)) s h =
      on_result-StaysDown s.state (some (failure x)) (record s { runch = false }) refl h
  on_run_result-StaysDown none s h =
      on_result-StaysDown s.state none (record s { runch = false }) refl h

  step-StaysDown :
      (interval : ℕ) (s : State D) (e : Event D)
      → tears_down s.state ≡ true
      → StaysDown s (step interval s e).0
  unfolding step start_teardown start_reclaim_attempt
  step-StaysDown interval s shutdown h = (h, refl, refl)
  step-StaysDown interval s (reclaim_requested deadline) h =
      let (state, _, _, d, a) = reclaim_frame deadline s in rw state (h, d, a)
  step-StaysDown interval s reclaim_received h = ground arith
  step-StaysDown interval s reclaim_timer h = ground arith
  step-StaysDown interval s (reclaim_finished c) h =
      let (state, _, _, d, a) = reclaim_finished_frame interval c s in rw state (h, d, a)
  step-StaysDown interval s (update d) h =
      on_update-StaysDown s.state (record s { deployment = d }) refl h
  step-StaysDown interval s (run_result r) h = on_run_result-StaysDown r s h
  step-StaysDown interval s retry_teardown_timer h = ground arith
  step-StaysDown interval s teardown_request h =
      let (state, _, _, d, a) = stop_monitor_frame s in
      let (t, x, y) = on_teardown_request-StaysDown s.state (stop_monitor_if s) state h in
      (t, x ∙ d, y ∙ a)

  step-ended :
      (interval : ℕ) (s : State D) (e : Event D)
      → is_enabled s e ≡ true
      → Awaited s
      → After Awaited (λ s. Unit) (step interval s e)
  unfolding step
  step-ended interval s shutdown on h = tt
  step-ended interval s e on h =
      After-map Awaited (λ t. t.state ≡ teardown_complete) Awaited (λ t. Unit) (step interval s e)
        (λ k. k) (λ k. tt) (step-Safe interval s e refl on h)

  start-Awaited : (d : D) → Awaited (start d)
  unfolding start
  start-Awaited d = refl

  run-Awaited :
      (interval : ℕ) (d : D) (es : List (Event D))
      → After Awaited (λ s. Unit) (run interval (start d) es)
  unfolding run
  run-Awaited interval d es =
      loop_inv is_enabled (step interval) Awaited (λ s. Unit) (λ e. true)
        (λ s e ok on h. step-ended interval s e on h) (start d) es (may_any es) (start-Awaited d)

  -- Whatever happens, in whatever order, no result arrives in a phase that cannot take it: the
  -- manager's loop never panics on an invalid state.
  pub never_panics :
      (interval : ℕ) (d : D) (es : List (Event D)) → (run interval (start d) es).1 ≢ panics
  never_panics interval d es =
      After-ne-panics Awaited (λ s. Unit) (run interval (start d) es) (run-Awaited interval d es)

  run-StaysDown :
      (interval : ℕ) (s : State D) (es : List (Event D))
      → Awaited s
      → tears_down s.state ≡ true
      → StaysDown s (run interval s es).0
  unfolding run
  run-StaysDown interval s es h down = After_end (StaysDown s) (run interval s es) (
      After-map (λ u. Awaited u × StaysDown s u) (StaysDown s) (StaysDown s) (StaysDown s)
        (run interval s es) (λ k. k.1) (λ k. k)
        (loop_inv is_enabled (step interval) (λ u. Awaited u × StaysDown s u) (StaysDown s)
          (λ e. true)
          (λ t e ok on (a, (x, p, q)).
            let (y, p', q') = step-StaysDown interval t e x in
            After-map Awaited (λ u. Unit) (λ u. Awaited u × StaysDown s u) (StaysDown s)
              (step interval t e) (λ b. (b, (y, p' ∙ p, q' ∙ q))) (λ _. (y, p' ∙ p, q' ∙ q))
              (step-ended interval t e on a))
          s es (may_any es) (h, (down, refl, refl))))

  -- Once a lease is being torn down it stays so to the end of the loop, and neither a deploy nor an
  -- attempt to close the lease starts after it, whatever happens.
  pub teardown_is_final :
      (interval : ℕ) (d : D) (before after : List (Event D))
      → (run interval (start d) before).1 ≡ goes_on
      → tears_down (run interval (start d) before).0.state ≡ true
      → StaysDown
          (run interval (start d) before).0
          (run interval (run interval (start d) before).0 after).0
  teardown_is_final interval d before after going down =
      run-StaysDown interval (run interval (start d) before).0 after
        (After-goes_on Awaited (λ s. Unit) (run interval (start d) before) going
          (run-Awaited interval d before))
        down

  -- Unless it is told to shut down, the manager's loop ends only when a teardown has succeeded.
  pub stops_torn_down :
      (interval : ℕ) (d : D) (es : List (Event D))
      → All (λ e. not_shutdown e ≡ true) es
      → (run interval (start d) es).1 ≡ stops
      → (run interval (start d) es).0.state ≡ teardown_complete
  unfolding run
  stops_torn_down interval d es calm stopped =
      After-stops Awaited (λ s. s.state ≡ teardown_complete) (run interval (start d) es) stopped
        (loop_inv is_enabled (step interval) Awaited (λ s. s.state ≡ teardown_complete) not_shutdown
          (λ s e ok on h. step-Safe interval s e ok on h) (start d) es calm (start-Awaited d))
