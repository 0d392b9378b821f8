-- ===== src/Balance/Checker.antt =====
-- provider/balance_checker.go: `run`, `removeLease`, `runEscrowCheck` and `timerFunc`. A timer is known
-- by its lease and a number; the timers that are set and the checks under way stand beside the leases.
-- What is published and broadcast is a log, newest first.
use rezerve.Base.{
  ℕ, suc, ◌+◌, ◌-◌, Bool, true, false, not, ◌&&◌, ◌||◌, List, [], ◌∷◌, Option, none, some, ◌==◌,
  nat_eq, if◌then◌else◌, ltb, leb, Dict, lookup, insert, delete, Next, goes_on, stops, loop,
}
use rezerve.Bidengine.Ids.{BidId, bid_eq}
use rezerve.Balance.Check.{
  ChainAnswers, Config, LeaseCheckResponse, RespState, next_check, scheduled_withdraw, minute,
  do_escrow_check,
}

pub record Monitored : Type 0 where
  pub tm : Option ℕ
  pub scheduled_withdraw_at : Option ℕ

pub record Timer : Type 0 where
  pub lid : BidId
  pub number : ℕ
  pub due : ℕ
  pub scheduled : Bool

pub data Effect : Type 0 where
  withdraw publish_closed : BidId → Effect

pub record State : Type 0 where
  pub leases : Dict BidId Monitored
  pub timers : List Timer
  pub checks : List (BidId × Bool)
  pub created : ℕ
  pub log : List Effect

-- What the loop receives, with the time, and what its timers do. `check_in` is the random delay of a
-- lease that is not new; `published`: the bus takes the closure of a lease.
pub data Event : Type 0 where
  shutdown other_event withdraw_result : Event
  add_funds_monitor : (now : ℕ) → BidId → (is_new : Bool) → (check_in : ℕ) → Event
  remove_funds_monitor : BidId → Event
  timer_fires : BidId → ℕ → Bool → Event
  check_result : (now : ℕ) → BidId → Bool → ChainAnswers → (published : Bool) → Event

unfoldable pub start : State
start = record { leases = []; timers = []; checks = []; created = 0; log = [] }

-- `time.AfterFunc`, whose timer is kept with the lease.
unfoldable pub timer_func : ℕ → BidId → Bool → Option ℕ → State → State
timer_func due k scheduled withdraw_at s = record s {
  leases = insert k (record { tm = some s.created; scheduled_withdraw_at = withdraw_at }) s.leases;
  timers = record { lid = k; number = s.created; due = due; scheduled = scheduled } ∷ s.timers;
  created = suc s.created;
}

abbrev pub next_withdrawal : Config → ℕ → Option ℕ
next_withdrawal cfg now =
    if ltb 0 cfg.withdrawal_period then some (now + cfg.withdrawal_period) else none

unfoldable pub on_add : Config → ℕ → BidId → Bool → ℕ → State → State
unfolding timer_func
on_add cfg now k is_new check_in s =
    if is_new
    then record s {
      leases =
          insert k (record { tm = none; scheduled_withdraw_at = next_withdrawal cfg now }) s.leases;
      checks = (k, false) ∷ s.checks;
    }
    else timer_func (now + check_in) k false (next_withdrawal cfg now) s

-- The timer stops, unless it has fired.
unfoldable pub remove_timer : BidId → ℕ → List Timer → List Timer
remove_timer k n [] = []
remove_timer k n (t ∷ ts) =
    let rest = remove_timer k n ts in if (t.lid == k) && (t.number == n) then rest else t ∷ rest

unfoldable pub stop_timer : BidId → Option ℕ → List Timer → List Timer
unfolding remove_timer
stop_timer k none ts = ts
stop_timer k (some n) ts = remove_timer k n ts

unfoldable pub remove_lease : BidId → State → State
unfolding stop_timer
remove_lease k s = elim (lookup k s.leases) [
  | some m ↦ record s { leases = delete k s.leases; timers = stop_timer k m.tm s.timers }
  | none ↦ s
]

-- When the lease is looked at next, and whether that is for the scheduled withdrawal.
unfoldable pub next_timer : ℕ → ℕ → Option ℕ → ℕ × Bool
next_timer now check_after none = (now + check_after, false)
next_timer now check_after (some withdraw_at) =
    if leb (withdraw_at - now) check_after
    then (now + (withdraw_at - now), true)
    else (now + check_after, false)

-- A response without an error. The next withdrawal is not looked at after one that was just sent.
unfoldable pub on_checked : Config → ℕ → BidId → Monitored → LeaseCheckResponse → State → State
unfolding next_timer timer_func
on_checked cfg now k m resp s = elim resp.state [
  | next_check ↦
      let (due, scheduled) = next_timer now resp.check_after m.scheduled_withdraw_at in
      timer_func due k scheduled m.scheduled_withdraw_at s
  | _ ↦
      let withdraw_at =
        if ltb 0 cfg.withdrawal_period
        then some (now + cfg.withdrawal_period)
        else m.scheduled_withdraw_at in
      timer_func (now + resp.check_after) k false withdraw_at
        (record s { log = withdraw k ∷ s.log })
]

abbrev pub was_scheduled : RespState → Bool
was_scheduled scheduled_withdraw = true
was_scheduled _ = false

unfoldable pub on_response : Config → ℕ → BidId → LeaseCheckResponse → Bool → State → State
unfolding remove_lease on_checked timer_func
on_response cfg now k resp published s = elim (lookup k s.leases) [
  | none ↦ s
  | some m ↦
      if resp.closed && published
      then remove_lease k (record s { log = publish_closed k ∷ s.log })
      else if resp.err || resp.closed
      then timer_func (now + minute) k (was_scheduled resp.state) m.scheduled_withdraw_at s
      else on_checked cfg now k m resp s
]

-- The check that has ended.
unfoldable pub remove_check : BidId → Bool → List (BidId × Bool) → List (BidId × Bool)
remove_check k b [] = []
remove_check k b ((j, c) ∷ l) =
    let rest = remove_check k b l in
    if (j == k) && (if b then c else not c) then l else (j, c) ∷ rest

abbrev pub is_set : BidId → ℕ → Bool → List Timer → Bool
is_set k n b [] = false
is_set k n b (t ∷ ts) =
    ((t.lid == k) && ((t.number == n) && (if b then t.scheduled else not t.scheduled)))
    || is_set k n b ts

abbrev pub is_checked : BidId → Bool → List (BidId × Bool) → Bool
is_checked k b [] = false
is_checked k b ((j, c) ∷ l) = ((j == k) && (if b then c else not c)) || is_checked k b l

-- Only a timer that is set fires, and only a check under way ends.
abbrev pub is_enabled : State → Event → Bool
is_enabled s (timer_fires k n b) = is_set k n b s.timers
is_enabled s (check_result now k b chain published) = is_checked k b s.checks
is_enabled s ev = true

-- The timers that the end of the loop stops.
unfoldable pub stop_timers : Dict BidId Monitored → List Timer → List Timer
unfolding stop_timer
stop_timers [] ts = ts
stop_timers ((k, m) ∷ l) ts = stop_timers l (stop_timer k m.tm ts)

-- A turn of the loop, or a timer that starts its check.
unfoldable pub step : Config → State → Event → State × Next
unfolding on_add remove_lease on_response remove_timer remove_check stop_timers
step cfg s shutdown = (record s { timers = stop_timers s.leases s.timers }, stops)
step cfg s other_event = (s, goes_on)
step cfg s withdraw_result = (s, goes_on)
step cfg s (add_funds_monitor now k is_new check_in) = (on_add cfg now k is_new check_in s, goes_on)
step cfg s (remove_funds_monitor k) = (remove_lease k s, goes_on)
step cfg s (timer_fires k n b) =
    (record s { timers = remove_timer k n s.timers; checks = (k, b) ∷ s.checks }, goes_on)
step cfg s (check_result now k b chain published) = (
  on_response cfg now k (do_escrow_check cfg chain k b) published
      (record s { checks = remove_check k b s.checks }),
  goes_on,
)

unfoldable pub run : Config → List Event → State × Next
unfolding start
run cfg = loop is_enabled (step cfg) start
