-- ===== src/Cluster/Monitor.antt =====
-- provider/cluster/monitor.go: the monitor of a deployment's health. What it publishes, broadcasts and
-- counts is a log, newest first; a period is kept as to whether it is set.
pub mod Closing
mod Tests
use rezerve.Base.{
  ℕ, suc, ◌+◌, ◌%◌, ◌≡◌, ◌≤◌, ◌↔◌, Bool, true, false, not, ◌&&◌, List, [], ◌∷◌, Option, none, some,
  Text, arith, refl, if◌then◌else◌, nat_beq, ltb, leb, list_eq, nat_eq, Next, goes_on, stops, loop,
  Dict, lookup, All, Option-cases, inl, inr,
}

pub data Status : Type 0 where
  unknown pending deployed : Status

pub data Effect : Type 0 where
  run_check close_lease : Effect
  publish_status : Status → Effect
  count_err count_up count_down count_failed : Effect

-- A service of the manifest's group: its name and the replicas that it asks for.
pub record Spec : Type 0 where
  pub name : Text
  pub count : ℕ

pub record Config : Type 0 where
  pub monitor_max_retries : ℕ
  pub has_healthcheck_period : Bool

pub data Event : Type 0 where
  shutdown tick close_finished : Event
  -- `none` is the query's error.
  check_finished : Option Bool → Event

pub record State : Type 0 where
  pub attempts : ℕ
  pub tickch : Bool
  pub runch : Bool
  pub closech : Bool
  pub prev_status : Status
  pub log : List Effect

-- The services that are not there, or have too few replicas; what is available is a 32-bit word.
bad_services : Dict Text ℕ → List Spec → ℕ
bad_services status [] = 0
bad_services status (s ∷ ss) =
    let rest = bad_services status ss in
    elim (lookup s.name status) [
      | none ↦ suc rest
      | some available ↦ if ltb available s.count then suc rest else rest
    ]

pub do_check : Option (Dict Text ℕ) → List Spec → Option Bool
unfolding bad_services
do_check none services = none
do_check (some status) services = some (nat_beq (bad_services status services) 0)

abbrev pub emit : Effect → State → State
emit e s = record s { log = e ∷ s.log }

abbrev pub same_status : Status → Status → Bool
same_status unknown unknown = true
same_status pending pending = true
same_status deployed deployed = true
same_status _ _ = false

pub start : State
start = record {
  attempts = 0;
  tickch = true;
  runch = false;
  closech = false;
  prev_status = unknown;
  log = [];
}

-- `attempts` is a word.
pub run_check_now : State → State
run_check_now s = record (emit run_check s) {
  attempts = (s.attempts + 1) % 18_446_744_073_709_551_616;
  runch = true;
}

pub publish_change : Status → State → State
publish_change curr s =
    if same_status curr s.prev_status
    then s
    else record (emit (publish_status curr) s) { prev_status = curr }

pub on_healthy : Config → State → State
unfolding publish_change
on_healthy cfg s =
    publish_change deployed
      (record (emit count_up s) { attempts = 0; tickch = cfg.has_healthcheck_period })

pub on_unhealthy : Config → State → State
unfolding publish_change
on_unhealthy cfg s =
    let t = publish_change pending (emit count_down s) in
    if leb t.attempts cfg.monitor_max_retries
    then record t { tickch = true }
    else record (emit close_lease (emit count_failed t)) { closech = true }

pub on_check : Config → Option Bool → State → State
unfolding on_healthy on_unhealthy
on_check cfg none s = on_unhealthy cfg (emit count_err s)
on_check cfg (some true) s = on_healthy cfg s
on_check cfg (some false) s = on_unhealthy cfg s

abbrev pub is_enabled : State → Event → Bool
is_enabled s shutdown = true
is_enabled s tick = s.tickch
is_enabled s (check_finished r) = s.runch
is_enabled s close_finished = s.closech

-- One turn of the loop.
pub step : Config → State → Event → State × Next
unfolding on_check run_check_now
step cfg s shutdown = (s, stops)
step cfg s tick = (run_check_now (record s { tickch = false }), goes_on)
step cfg s (check_finished r) = (on_check cfg r (record s { runch = false }), goes_on)
step cfg s close_finished = (record s { closech = false }, goes_on)

pub run : Config → State → List Event → State × Next
run cfg = loop is_enabled (step cfg)

-- A service is there with the replicas that it asks for.
abbrev pub Enough : ℕ → Option ℕ → Type 0
Enough count none = ⊥
Enough count (some available) = count ≤ available

abbrev pub AllAvailable : Dict Text ℕ → List Spec → Type 0
AllAvailable status = All (λ s. Enough s.count (lookup s.name status))

bad_services_iff :
    (status : Dict Text ℕ) (ss : List Spec) → (bad_services status ss ≡ 0) ↔ AllAvailable status ss
unfolding bad_services
bad_services_iff status [] = ground arith
bad_services_iff status (s ∷ ss) =
    let rest = bad_services_iff status ss in
    elim (Option-cases (lookup s.name status)) [
      | inl absent ↦ rw absent (ground arith)
      | inr (n, there) ↦ rw there (ground (arith, rest))
    ]

-- A check finds a deployment healthy exactly when every service of its group has as many replicas
-- available as it asks for.
pub do_check_iff :
    (status : Dict Text ℕ) (services : List Spec)
    → (do_check (some status) services ≡ some true) ↔ AllAvailable status services
unfolding do_check
do_check_iff status services = ground (arith, bad_services_iff status services)
