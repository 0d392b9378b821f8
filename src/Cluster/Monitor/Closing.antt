-- ===== src/Cluster/Monitor/Closing.antt =====
-- When the monitor closes a lease, and what it publishes.
use rezerve.Base.{
  ℕ, suc, ◌+◌, ◌≡◌, ◌≤◌, ◌<◌, refl, Bool, true, false, ◌&&◌, List, [], ◌∷◌, none, some, arith,
  After, After_end, loop_inv, may_any,
}
use rezerve.Cluster.Monitor.{
  Status, unknown, Effect, close_lease, publish_status, count_up, count_down, Config, Event,
  shutdown, tick, close_finished, check_finished, State, same_status, start, run_check_now,
  publish_change, on_healthy, on_unhealthy, on_check, is_enabled, step, run,
}

-- The failed checks in a row.
abbrev pub downs : List Effect → ℕ
downs [] = 0
downs (count_down ∷ l) = suc (downs l)
downs (count_up ∷ l) = 0
downs (_ ∷ l) = downs l

abbrev pub closes : List Effect → ℕ
closes [] = 0
closes (close_lease ∷ l) = suc (closes l)
closes (_ ∷ l) = closes l

abbrev pub last_published : List Effect → Status
last_published [] = unknown
last_published (publish_status s ∷ l) = s
last_published (_ ∷ l) = last_published l

-- Each close comes right after so many failed checks in a row.
abbrev pub Justified : ℕ → List Effect → Type 0
Justified n [] = Unit
Justified n (close_lease ∷ l) = (downs l ≡ n) × Justified n l
Justified n (_ ∷ l) = Justified n l

-- Each status published differs from the one before.
abbrev pub Changes : List Effect → Type 0
Changes [] = Unit
Changes (publish_status s ∷ l) = (same_status s (last_published l) ≡ false) × Changes l
Changes (_ ∷ l) = Changes l

abbrev running : Bool → ℕ
running true = 1
running false = 0

-- The attempts are the failed checks in a row and the check under way; a check that is due or under
-- way is not too late, and no lease is closed before it.
abbrev Counted : ℕ → State → Type 0
Counted max s =
    (s.attempts ≡ downs s.log + running s.runch)
    × (s.attempts + running s.tickch ≤ max + 1)
    × (s.tickch && s.runch ≡ false)
    × (closes s.log + running s.tickch + running s.runch ≤ 1)
    × Justified (max + 1) s.log

abbrev Told : State → Type 0
Told s = (last_published s.log ≡ s.prev_status) × Changes s.log

step-Counted :
    (cfg : Config) (s : State) (e : Event)
    → cfg.monitor_max_retries + 1 < 18_446_744_073_709_551_616
    → is_enabled s e ≡ true
    → Counted cfg.monitor_max_retries s
    → After (Counted cfg.monitor_max_retries) (Counted cfg.monitor_max_retries) (step cfg s e)
unfolding step on_check on_healthy on_unhealthy run_check_now publish_change
step-Counted cfg s shutdown small on h = h
step-Counted cfg s tick small on (a, b, c, d, e) =
    (ground arith, ground arith, ground arith, ground arith, e)
step-Counted cfg s (check_finished none) small on h = ground arith
step-Counted cfg s (check_finished (some true)) small on h = ground arith
step-Counted cfg s (check_finished (some false)) small on h = ground arith
step-Counted cfg s close_finished small on h = h

step-Told : (cfg : Config) (s : State) (e : Event) → Told s → After Told Told (step cfg s e)
unfolding step on_check on_healthy on_unhealthy run_check_now publish_change
step-Told cfg s shutdown h = h
step-Told cfg s tick h = h
step-Told cfg s (check_finished none) h = ground arith
step-Told cfg s (check_finished (some true)) h = ground arith
step-Told cfg s (check_finished (some false)) h = ground arith
step-Told cfg s close_finished h = h

-- A monitor whose retries plus one fit a word closes its lease once at most, and only right after
-- failed checks in a row, one more than its retries.
pub closes_after_retries :
    (cfg : Config) (es : List Event)
    → cfg.monitor_max_retries + 1 < 18_446_744_073_709_551_616
    → (closes (run cfg start es).0.log ≤ 1)
      × Justified (cfg.monitor_max_retries + 1) (run cfg start es).0.log
unfolding run start
closes_after_retries cfg es small =
    let Kept = Counted cfg.monitor_max_retries in
    let (_, _, _, once, after) = After_end Kept (run cfg start es) (
      loop_inv is_enabled (step cfg) Kept Kept (λ e. true)
        (λ s e may on h. step-Counted cfg s e small on h) start es (may_any es)
        (refl, omega arith, refl, omega arith, tt)) in
    (omega (arith, once), after)

-- A status is published only when it differs from the one published before.
pub publishes-Changes : (cfg : Config) (es : List Event) → Changes (run cfg start es).0.log
unfolding run start
publishes-Changes cfg es =
    (After_end Told (run cfg start es) (
      loop_inv is_enabled (step cfg) Told Told (λ e. true) (λ s e may on h. step-Told cfg s e h)
        start es (may_any es) (refl, tt))).1
