-- ===== src/Balance/Withdrawn.antt =====
-- The withdrawals that the loop of provider/balance_checker.go sends, and how soon it looks at a
-- lease again.
use rezerve.Base.{
  ℕ, zero, suc, ◌≡◌, ◌↔◌, ◌⊎◌, refl, ap, ◌∙◌, subst, Bool, true, false, ◌&&◌, ◌||◌, List, [], ◌∷◌,
  some, arith, ◌==◌, ==_self, nat_eq, if-cases, lookup, if◌then◌else◌, ℤ, pos, negsuc, some-cases,
  list_eq,
}
use rezerve.Bidengine.Ids.{BidId, bid_eq}
use rezerve.Balance.Check.{
  ChainAnswers, Config, LeaseCheckResponse, RespState, do_escrow_check, by_blocks, initial,
}
use rezerve.Balance.Checker.{
  Monitored, Effect, withdraw, publish_closed, State, timer_func, remove_lease, on_checked,
  on_response,
}
use rezerve.Balance.Pending.{is_monitored}
use rezerve.Balance.Due.{
  NonPositive, Reported, withdraws, do_escrow_check-Sound, by_blocks-withdraws,
  do_escrow_check_of_report,
}

abbrev pub withdrawals : BidId → List Effect → ℕ
withdrawals k [] = 0
withdrawals k (withdraw j ∷ l) = let rest = withdrawals k l in if j == k then suc rest else rest
withdrawals k (publish_closed j ∷ l) = withdrawals k l

-- A response to which a monitored lease's funds are withdrawn.
abbrev Owed : BidId → LeaseCheckResponse → State → Type 0
Owed k resp s =
    (is_monitored (lookup k s.leases) ≡ true)
    × (resp.err ≡ false)
    × (resp.closed ≡ false)
    × (withdraws resp.state ≡ true)

-- The response withdraws once where it is owed, and not at all elsewhere.
abbrev Pays : BidId → LeaseCheckResponse → State → State → Type 0
Pays k resp s t = (withdrawals k t.log ≡ suc (withdrawals k s.log)) ↔ Owed k resp s

remove_lease_log : (k : BidId) (s : State) → (remove_lease k s).log ≡ s.log
unfolding remove_lease
remove_lease_log k s =
    some-cases (λ (t : State). t.log ≡ s.log) (lookup k s.leases) (λ m there. refl) (λ gone. refl)

on_checked-Pays :
    (cfg : Config) (now : ℕ) (k : BidId) (m : Monitored) (resp : LeaseCheckResponse) (s : State)
    → lookup k s.leases ≡ some m
    → resp.err ≡ false
    → resp.closed ≡ false
    → Pays k resp s (on_checked cfg now k m resp s)
unfolding on_checked timer_func
on_checked-Pays cfg now k m resp s there e c = ground (arith, there, e, c, ==_self k)

on_response-Pays :
    (cfg : Config) (now : ℕ) (k : BidId) (resp : LeaseCheckResponse) (published : Bool) (s : State)
    → Pays k resp s (on_response cfg now k resp published s)
unfolding on_response timer_func
on_response-Pays cfg now k resp published s =
    let P = Pays k resp s in
    some-cases P (lookup k s.leases)
      (λ m there.
        if-cases P (resp.closed && published) (λ closed. ground (arith, closed, remove_lease_log k))
          (λ going.
            if-cases P (resp.err || resp.closed) (λ failed. ground (arith, failed))
              (λ fine.
                on_checked-Pays cfg now k m resp s there (ground (arith, fine))
                  (ground (arith, fine)))))
      (λ gone. ground (arith, gone))

by_blocks_fine :
    (cfg : Config) (state : RespState) (z : ℤ)
    → ((by_blocks cfg state z).err ≡ false) × ((by_blocks cfg state z).closed ≡ false)
unfolding by_blocks
by_blocks_fine cfg state (pos zero) = (refl, refl)
by_blocks_fine cfg state (pos (suc n)) = (refl, refl)
by_blocks_fine cfg state (negsuc n) = (refl, refl)

-- The answer to a check withdraws a lease's funds, once, exactly when the lease is monitored, the node
-- is in sync and reports it as active or reclaiming with all that the check asks for, and either no
-- blocks remain or the check was for the scheduled withdrawal.
pub withdraws_iff :
    (cfg : Config) (now : ℕ) (k : BidId) (b : Bool) (chain : ChainAnswers) (published : Bool)
    (s : State)
    → let t = on_response cfg now k (do_escrow_check cfg chain k b) published s in
      (withdrawals k t.log ≡ suc (withdrawals k s.log)) ↔ (
        (is_monitored (lookup k s.leases) ≡ true)
        × ((z : ℤ) × Reported cfg chain k z × ((b ≡ true) ⊎ NonPositive z)))
withdraws_iff cfg now k b chain published s =
    let resp = do_escrow_check cfg chain k b in
    let pays = on_response-Pays cfg now k resp published s in
    (
      λ more.
          let (known, e, c, w) = pays.0 more in
          let (z, reported, same) = do_escrow_check-Sound cfg chain k b e c in
          let paid = subst (λ (r : LeaseCheckResponse). withdraws r.state ≡ true) same w in
          (known, (z, reported, (by_blocks-withdraws cfg b z).0 paid)),
      λ owed.
          let (known, (z, reported, due)) = owed in
          let same = do_escrow_check_of_report cfg chain k b z reported in
          let (e, c) = by_blocks_fine cfg (initial b) z in
          pays.1 (
            known,
            ap (λ (r : LeaseCheckResponse). r.err) same ∙ e,
            ap (λ (r : LeaseCheckResponse). r.closed) same ∙ c,
            ap (λ (r : LeaseCheckResponse). withdraws r.state) same
                ∙ (by_blocks-withdraws cfg b z).1 due,
          ),
    )
