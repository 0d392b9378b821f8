-- ===== src/Balance/Due.antt =====
-- When a lease's funds are withdrawn, and how soon they are looked at again.
use rezerve.Base.{
  ℕ, zero, suc, ◌≡◌, ◌↔◌, ◌⊎◌, refl, subst, Bool, true, false, not, ◌++◌, Option, none, some, arith,
  ◌==◌, ==_iff, ==_self, nat_eq, if-cases, ℤ, pos, negsuc, some-cases, list_eq,
}
use rezerve.Bidengine.Ids.{BidId, bid_eq}
use rezerve.Balance.Check.{
  ChainAnswers, Config, LeaseStatus, lease_active, lease_reclaiming, lease_insufficient_funds,
  lease_closed, lease_invalid, LeaseCheckResponse, RespState, next_check, out_of_funds,
  scheduled_withdraw, do_escrow_check, by_lease_state, check_funds, by_blocks, balance_of, initial,
  sum,
}

abbrev pub IsRunning : LeaseStatus → Type 0
IsRunning lease_active = Unit
IsRunning lease_reclaiming = Unit
IsRunning _ = ⊥

abbrev pub NonPositive : ℤ → Type 0
NonPositive (pos zero) = Unit
NonPositive (pos (suc n)) = ⊥
NonPositive (negsuc n) = Unit

-- What the chain says of the funds, as far as its answers go.
abbrev pub blocks_left : Config → ChainAnswers → Option ℤ
blocks_left cfg chain = elim chain.sync_info [
  | none ↦ none
  | some p ↦ elim chain.deployment [
    | none ↦ none
    | some d ↦ elim chain.active_prices [
      | none ↦ none
      | some active ↦ elim chain.reclaiming_prices [
        | none ↦ none
        | some reclaiming ↦
            some (cfg.blocks_remain (balance_of cfg.denom d.0) p.1 d.1 (sum (active ++ reclaiming)))
      ]
    ]
  ]
]

-- The node is in sync and reports the lease as using up funds, with all that the check asks for; the
-- blocks that remain.
abbrev pub Reported : Config → ChainAnswers → BidId → ℤ → Type 0
Reported cfg chain k z =
    ((h : ℕ) × (chain.sync_info ≡ some (false, h)))
    × ((st : LeaseStatus) × (chain.lease ≡ some (k, st)) × IsRunning st)
    × (blocks_left cfg chain ≡ some z)

-- A check that is neither an error nor the closure of the lease comes from such a report.
abbrev pub Sound : Config → ChainAnswers → BidId → Bool → LeaseCheckResponse → Type 0
Sound cfg chain k b r =
    r.err ≡ false
    → r.closed ≡ false
    → (z : ℤ) × Reported cfg chain k z × (r ≡ by_blocks cfg (initial b) z)

check_funds-Sound :
    (cfg : Config) (chain : ChainAnswers) (k : BidId) (b : Bool) (h : ℕ) (st : LeaseStatus)
    → chain.sync_info ≡ some (false, h)
    → chain.lease ≡ some (k, st)
    → IsRunning st
    → Sound cfg chain k b (check_funds cfg chain h (initial b))
unfolding check_funds
check_funds-Sound cfg chain k b h st synced found running =
    let P = Sound cfg chain k b in
    some-cases P chain.deployment
      (λ d has.
        some-cases P chain.active_prices
          (λ active some_active.
            some-cases P chain.reclaiming_prices
              (λ reclaiming some_reclaiming e c. (
                cfg.blocks_remain (balance_of cfg.denom d.0) h d.1 (sum (active ++ reclaiming)),
                (
                  (h, synced),
                  (st, found, running),
                  rw (synced, has, some_active, some_reclaiming) refl,
                ),
                refl,
              ))
              (λ no e c. absurd (ground (arith, e))))
          (λ no e c. absurd (ground (arith, e))))
      (λ no e c. absurd (ground (arith, e)))

by_lease_state-Sound :
    (cfg : Config) (chain : ChainAnswers) (k : BidId) (b : Bool) (h : ℕ) (st : LeaseStatus)
    → chain.sync_info ≡ some (false, h)
    → chain.lease ≡ some (k, st)
    → Sound cfg chain k b (by_lease_state cfg chain h (initial b) st)
unfolding by_lease_state
by_lease_state-Sound cfg chain k b h lease_active synced found =
    check_funds-Sound cfg chain k b h lease_active synced found tt
by_lease_state-Sound cfg chain k b h lease_reclaiming synced found =
    check_funds-Sound cfg chain k b h lease_reclaiming synced found tt
by_lease_state-Sound cfg chain k b h lease_insufficient_funds synced found =
    λ e c. absurd (ground (arith, c))
by_lease_state-Sound cfg chain k b h lease_closed synced found = λ e c. absurd (ground (arith, c))
by_lease_state-Sound cfg chain k b h lease_invalid synced found = λ e c. absurd (ground (arith, e))

pub do_escrow_check-Sound :
    (cfg : Config) (chain : ChainAnswers) (k : BidId) (b : Bool)
    → Sound cfg chain k b (do_escrow_check cfg chain k b)
unfolding do_escrow_check
do_escrow_check-Sound cfg chain k b =
    let P = Sound cfg chain k b in
    some-cases P chain.sync_info
      (λ p synced.
        if-cases P p.0 (λ behind e c. absurd (ground (arith, e)))
          (λ ahead.
            some-cases P chain.lease
              (λ q found.
                if-cases P (not (q.0 == k)) (λ differs e c. absurd (ground (arith, e)))
                  (λ same.
                    let is_k : q.0 ≡ k = (==_iff q.0 k).0 (ground (arith, same)) in
                    by_lease_state-Sound cfg chain k b p.1 q.1
                      (subst (λ x. chain.sync_info ≡ some (x, p.1)) ahead synced)
                      (subst (λ x. chain.lease ≡ some (x, q.1)) is_k found)))
              (λ no e c. absurd (ground (arith, e)))))
      (λ no e c. absurd (ground (arith, e)))

-- Such a check withdraws exactly when the funds are spent or the withdrawal was scheduled.
abbrev pub withdraws : RespState → Bool
withdraws next_check = false
withdraws out_of_funds = true
withdraws scheduled_withdraw = true

pub by_blocks-withdraws :
    (cfg : Config) (b : Bool) (z : ℤ)
    → (withdraws (by_blocks cfg (initial b) z).state ≡ true) ↔ ((b ≡ true) ⊎ NonPositive z)
unfolding by_blocks
by_blocks-withdraws cfg true (pos zero) = ground arith
by_blocks-withdraws cfg true (pos (suc n)) = ground arith
by_blocks-withdraws cfg true (negsuc n) = ground arith
by_blocks-withdraws cfg false (pos zero) = ground arith
by_blocks-withdraws cfg false (pos (suc n)) = ground arith
by_blocks-withdraws cfg false (negsuc n) = ground arith

check_funds_of_report :
    (cfg : Config) (chain : ChainAnswers) (state : RespState) (h : ℕ) (z : ℤ)
    → chain.sync_info ≡ some (false, h)
    → blocks_left cfg chain ≡ some z
    → check_funds cfg chain h state ≡ by_blocks cfg state z
unfolding check_funds
check_funds_of_report cfg chain state h z synced left = ground (arith, synced, left)

-- A report that the node makes leads to a check without an error.
pub do_escrow_check_of_report :
    (cfg : Config) (chain : ChainAnswers) (k : BidId) (b : Bool) (z : ℤ)
    → Reported cfg chain k z
    → do_escrow_check cfg chain k b ≡ by_blocks cfg (initial b) z
unfolding do_escrow_check by_lease_state
do_escrow_check_of_report cfg chain k b z ((h, synced), (lease_active, found, running), left) =
    rw (synced, found, ==_self k) (check_funds_of_report cfg chain (initial b) h z synced left)
do_escrow_check_of_report cfg chain k b z ((h, synced), (lease_reclaiming, found, running), left) =
    rw (synced, found, ==_self k) (check_funds_of_report cfg chain (initial b) h z synced left)
do_escrow_check_of_report cfg chain k b z
      ((h, synced), (lease_insufficient_funds, found, running), left) =
    absurd running
do_escrow_check_of_report cfg chain k b z ((h, synced), (lease_closed, found, running), left) =
    absurd running
do_escrow_check_of_report cfg chain k b z ((h, synced), (lease_invalid, found, running), left) =
    absurd running
