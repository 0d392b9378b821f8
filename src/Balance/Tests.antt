-- ===== src/Balance/Tests.antt =====
-- A lease whose deposit lasts a while, runs out, and one whose node is behind.
use rezerve.Base.{
  ℕ, suc, ◌+◌, ◌*◌, ◌-◌, ◌/◌, ◌≡◌, ◌↔◌, ◌⊎◌, refl, true, false, ◌&&◌, List, [], ◌∷◌, Option, none,
  some, bytes, nat_eq, list_eq, lookup, insert, loop, if◌then◌else◌, goes_on, ltb, ℤ, pos, negsuc,
}
use rezerve.Bidengine.Ids.{BidId, bid_eq}
use rezerve.Balance.Check.{
  ChainAnswers, Config, lease_active, do_escrow_check, by_lease_state, check_funds, by_blocks,
  balance_of,
}
use rezerve.Balance.Checker.{
  Event, State, add_funds_monitor, timer_fires, check_result, start, timer_func, on_add, on_checked,
  on_response, remove_timer, remove_check, next_timer, step, run, withdraw,
}
use rezerve.Balance.Due.{NonPositive, Reported}
use rezerve.Balance.Pending.{Remembered, no_lease_forgotten, is_monitored}
use rezerve.Balance.Intime.{Prompt, longest, next_check_in_time}
use rezerve.Balance.Withdrawn.{withdrawals, withdraws_iff}

-- The blocks that a balance lasts, rounded down; a balance that was never set is none.
abbrev blocks : Option ℕ → ℕ → ℕ → ℕ → ℤ
blocks none height settled price = pos 0
blocks (some funds) height settled price =
    let spent = (height - settled) * price in
    if ltb funds spent then negsuc 0 else pos ((funds - spent) / price)

abbrev config : Config
config = record {
  withdrawal_period = 0;
  check_interval = 600_000_000_000;
  block_time = 6_000_000_000;
  denom = bytes "uact";
  blocks_remain = blocks;
}

abbrev lease : BidId
lease = record {
  order = record { group = record { owner = bytes "o"; dseq = 5; gseq = 1 }; oseq = 1 };
  provider = bytes "p";
}

abbrev chain : ℕ → ChainAnswers
chain height = record {
  sync_info = some (false, height);
  lease = some (lease, lease_active);
  deployment = some (record { denom = bytes "uact"; amount = 100 } ∷ [], 10);
  active_prices = some (2 ∷ []);
  reclaiming_prices = some [];
}

abbrev arrivals : List Event
arrivals =
    add_funds_monitor 0 lease true 0
    ∷ check_result 1 lease false (chain 20) true
    ∷ timer_fires lease 0 false
    ∷ check_result 300_000_000_000 lease false (chain 60) true
    ∷ []

arrivals_withdraw : (run config arrivals).0.log ≡ withdraw lease ∷ []
unfolding run loop step start on_add on_response on_checked timer_func remove_timer remove_check
    next_timer do_escrow_check by_lease_state check_funds by_blocks balance_of lookup insert
arrivals_withdraw = refl

arrivals_go_on : (run config arrivals).1 ≡ goes_on
unfolding run loop step start on_add on_response on_checked timer_func remove_timer remove_check
    next_timer do_escrow_check by_lease_state check_funds by_blocks balance_of lookup insert
arrivals_go_on = refl

no_lease_forgotten_example : Remembered (run config arrivals).0
no_lease_forgotten_example = no_lease_forgotten config arrivals arrivals_go_on

abbrev known : State
known = record {
  leases = (lease, record { tm = none; scheduled_withdraw_at = none }) ∷ [];
  timers = [];
  checks = [];
  created = 0;
  log = [];
}

known_lease : lookup lease known.leases ≡ some (record { tm = none; scheduled_withdraw_at = none })
unfolding lookup
known_lease = refl

open_lease : ((do_escrow_check config (chain 20) lease false).closed && true) ≡ false
unfolding do_escrow_check by_lease_state check_funds by_blocks balance_of
open_lease = refl

next_check_in_time_example :
    Prompt
      (7 + longest config)
      lease
      (on_response config 7 lease (do_escrow_check config (chain 20) lease false) true known)
next_check_in_time_example =
    next_check_in_time config 7 lease false (chain 20) true
      (record { tm = none; scheduled_withdraw_at = none }) known known_lease open_lease

withdraws_iff_example :
    let t = on_response config 7 lease (do_escrow_check config (chain 60) lease false) true known in
    (withdrawals lease t.log ≡ suc (withdrawals lease known.log)) ↔ (
      (is_monitored (lookup lease known.leases) ≡ true)
      × ((z : ℤ) × Reported config (chain 60) lease z × ((false ≡ true) ⊎ NonPositive z)))
withdraws_iff_example = withdraws_iff config 7 lease false (chain 60) true known
