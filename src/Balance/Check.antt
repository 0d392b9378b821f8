-- ===== src/Balance/Check.antt =====
-- provider/balance_checker.go: `doEscrowCheck`. The answers of the chain are arguments, as is the
-- calculation of the blocks that a balance lasts, which the node's library does. Times are nanoseconds.
use rezerve.Base.{
  ℕ, zero, suc, ◌+◌, ◌*◌, ◌/◌, Bool, true, false, not, List, [], ◌∷◌, ◌++◌, Option, none, some,
  Text, ◌==◌, nat_eq, list_eq, if◌then◌else◌, ltb, ℤ, pos, negsuc,
}
use rezerve.Bidengine.Ids.{BidId, Coin, bid_eq}

abbrev pub minute : ℕ
minute = 60_000_000_000

pub data LeaseStatus : Type 0 where
  lease_active lease_reclaiming lease_insufficient_funds lease_closed : LeaseStatus
  lease_invalid : LeaseStatus

pub data RespState : Type 0 where
  next_check out_of_funds scheduled_withdraw : RespState

-- What the queries answer; `none` is an error. Two queries list the prices of the active and of the
-- reclaiming leases of the deployment.
pub record ChainAnswers : Type 0 where
  pub sync_info : Option (Bool × ℕ)
  pub lease : Option (BidId × LeaseStatus)
  pub deployment : Option (List Coin × ℕ)
  pub active_prices : Option (List ℕ)
  pub reclaiming_prices : Option (List ℕ)

-- What a check reports; `err` stands for its error.
pub record LeaseCheckResponse : Type 0 where
  pub state : RespState
  pub check_after : ℕ
  pub err : Bool
  pub closed : Bool

abbrev pub sum : List ℕ → ℕ
sum [] = 0
sum (n ∷ ns) = n + sum ns

-- The amount of the first funds in the denomination, and `none` for one that was never set.
unfoldable pub balance_of : Text → List Coin → Option ℕ
balance_of denom [] = none
balance_of denom (c ∷ cs) =
    let rest = balance_of denom cs in if c.denom == denom then some c.amount else rest

-- The periods that are configured, the node's average time of a block, and its calculation of how many
-- blocks a balance lasts: of the balance, the height, the height of the last settlement, and the price.
pub record Config : Type 0 where
  pub withdrawal_period : ℕ
  pub check_interval : ℕ
  pub block_time : ℕ
  pub denom : Text
  pub blocks_remain : Option ℕ → ℕ → ℕ → ℕ → ℤ

abbrev min : ℕ → ℕ → ℕ
min a b = if ltb b a then b else a

-- The end of a check of a lease that uses up funds, by the blocks that remain.
unfoldable pub by_blocks : Config → RespState → ℤ → LeaseCheckResponse
by_blocks cfg state (negsuc n) = record {
  state = out_of_funds;
  check_after = minute * 10;
  err = false;
  closed = false;
}
by_blocks cfg state (pos zero) = record {
  state = out_of_funds;
  check_after = minute * 10;
  err = false;
  closed = false;
}
by_blocks cfg state (pos (suc n)) = record {
  state = state;
  check_after = min (suc n) (cfg.check_interval / cfg.block_time) * cfg.block_time;
  err = false;
  closed = false;
}

abbrev pub failed : RespState → LeaseCheckResponse
failed state = record { state = state; check_after = 0; err = true; closed = false }

abbrev pub was_closed : RespState → LeaseCheckResponse
was_closed state = record { state = state; check_after = 0; err = false; closed = true }

abbrev pub initial : Bool → RespState
initial scheduled = if scheduled then scheduled_withdraw else next_check

-- The funds of the deployment, once its lease is known to use them up.
unfoldable pub check_funds : Config → ChainAnswers → ℕ → RespState → LeaseCheckResponse
unfolding by_blocks balance_of
check_funds cfg chain height state = elim chain.deployment [
  | none ↦ failed state
  | some (funds, settled_at) ↦ elim chain.active_prices [
    | none ↦ failed state
    | some active ↦ elim chain.reclaiming_prices [
      | none ↦ failed state
      | some reclaiming ↦ by_blocks cfg state (
          cfg.blocks_remain (balance_of cfg.denom funds) height settled_at
            (sum (active ++ reclaiming)))
    ]
  ]
]

unfoldable pub by_lease_state :
    Config → ChainAnswers → ℕ → RespState → LeaseStatus → LeaseCheckResponse
unfolding check_funds
by_lease_state cfg chain height state lease_closed = was_closed state
by_lease_state cfg chain height state lease_insufficient_funds = was_closed state
by_lease_state cfg chain height state lease_active = check_funds cfg chain height state
by_lease_state cfg chain height state lease_reclaiming = check_funds cfg chain height state
by_lease_state cfg chain height state lease_invalid = failed state

unfoldable pub do_escrow_check : Config → ChainAnswers → BidId → Bool → LeaseCheckResponse
unfolding by_lease_state
do_escrow_check cfg chain lid scheduled = elim chain.sync_info [
  | none ↦ failed (initial scheduled)
  | some (catching_up, height) ↦
      if catching_up then failed (initial scheduled) else elim chain.lease [
        | none ↦ failed (initial scheduled)
        | some (found, state) ↦
            if not (found == lid)
            then failed (initial scheduled)
            else by_lease_state cfg chain height (initial scheduled) state
      ]
]
