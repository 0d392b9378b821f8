-- ===== src/Balance/Intime.antt =====
-- How soon the loop of provider/balance_checker.go looks at a lease again.
use rezerve.Base.{
  ℕ, zero, suc, ◌+◌, ◌*◌, ◌/◌, ◌≡◌, ◌≤◌, refl, sym, subst, Bool, false, ◌&&◌, ◌||◌, [], ◌∷◌, Option,
  none, some, arith, nat_eq, if-cases, lookup, if◌then◌else◌, ltb, ℤ, pos, negsuc, some-cases,
}
use rezerve.Bidengine.Ids.{BidId, bid_eq}
use rezerve.Balance.Check.{
  ChainAnswers, Config, LeaseCheckResponse, RespState, do_escrow_check, by_blocks, minute, initial,
}
use rezerve.Balance.Checker.{Monitored, State, timer_func, next_timer, on_checked, on_response}
use rezerve.Balance.Due.{do_escrow_check-Sound}

-- How long a lease may wait for its next check: ten minutes or the interval.
abbrev pub longest : Config → ℕ
longest cfg = if ltb (minute * 10) cfg.check_interval then cfg.check_interval else minute * 10

mul_le_left : (a b c : ℕ) → a ≤ b → a * c ≤ b * c
mul_le_left a b c h = grind (arith, h)

by_blocks_le :
    (cfg : Config) (state : RespState) (z : ℤ) → (by_blocks cfg state z).check_after ≤ longest cfg
unfolding by_blocks
by_blocks_le cfg state (pos zero) = ground arith
by_blocks_le cfg state (pos (suc n)) =
    let per = cfg.check_interval / cfg.block_time in
    let whole : per * cfg.block_time ≤ cfg.check_interval = omega arith in
    if-cases (λ (m : ℕ). m * cfg.block_time ≤ longest cfg) (ltb per (suc n))
      (λ more. ground (arith, whole))
      (λ less.
        let under = mul_le_left (suc n) per cfg.block_time (ground (arith, less)) in
        ground (arith, whole, under))
by_blocks_le cfg state (negsuc n) = ground arith

check_after_le :
    (cfg : Config) (chain : ChainAnswers) (k : BidId) (b : Bool)
    → (do_escrow_check cfg chain k b).err ≡ false
    → (do_escrow_check cfg chain k b).closed ≡ false
    → (do_escrow_check cfg chain k b).check_after ≤ longest cfg
check_after_le cfg chain k b e c =
    let (z, reported, same) = do_escrow_check-Sound cfg chain k b e c in
    subst (λ (r : LeaseCheckResponse). r.check_after ≤ longest cfg) (sym same)
      (by_blocks_le cfg (initial b) z)

-- The newest timer is the lease's, and due in time.
abbrev pub Prompt : ℕ → BidId → State → Type 0
Prompt latest k s = elim s.timers [ [] ↦ ⊥ | t ∷ ts ↦ (t.lid ≡ k) × (t.due ≤ latest) ]

next_timer_le : (now after : ℕ) (w : Option ℕ) → (next_timer now after w).0 ≤ now + after
unfolding next_timer
next_timer_le now after none = omega arith
next_timer_le now after (some w) = ground arith

on_checked-Prompt :
    (cfg : Config) (now : ℕ) (k : BidId) (m : Monitored) (resp : LeaseCheckResponse) (s : State)
    → resp.check_after ≤ longest cfg
    → Prompt (now + longest cfg) k (on_checked cfg now k m resp s)
unfolding on_checked timer_func
on_checked-Prompt cfg now k m resp s h =
    ground (arith, h, next_timer_le now resp.check_after m.scheduled_withdraw_at)

-- After the answer to a check of a lease that stays monitored, whatever the chain said and also after
-- an error: a timer is set for it that is due within ten minutes or the configured interval, whichever
-- is longer.
pub next_check_in_time :
    (cfg : Config) (now : ℕ) (k : BidId) (b : Bool) (chain : ChainAnswers) (published : Bool)
    (m : Monitored) (s : State)
    → lookup k s.leases ≡ some m
    → ((do_escrow_check cfg chain k b).closed && published) ≡ false
    → Prompt
        (now + longest cfg)
        k
        (on_response cfg now k (do_escrow_check cfg chain k b) published s)
unfolding on_response timer_func
next_check_in_time cfg now k b chain published m s there stays =
    let resp = do_escrow_check cfg chain k b in
    let P = Prompt (now + longest cfg) k in
    some-cases P (lookup k s.leases)
      (λ n known.
        if-cases P (resp.closed && published) (λ closed. absurd (ground (arith, closed, stays)))
          (λ stays_known.
            if-cases P (resp.err || resp.closed) (λ failed. (refl, ground arith))
              (λ fine.
                on_checked-Prompt cfg now k n resp s
                  (check_after_le cfg chain k b (ground (arith, fine)) (ground (arith, fine))))))
      (λ gone. absurd (ground (arith, gone, there)))

-- A scheduled withdrawal is never overslept: where none is sent now, the timer is due no later than it.
next_timer_scheduled : (now after w : ℕ) → now ≤ w → (next_timer now after (some w)).0 ≤ w
unfolding next_timer
next_timer_scheduled now after w h = ground (arith, h)
