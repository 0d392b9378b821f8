-- ===== src/Bidengine/Order/Stale.antt =====
-- The age of a bid that is on the chain already: `isStaleBid` takes the bid's block less the block of
-- the session, and the bid of an earlier run of the provider stands in an earlier block.
use rezerve.Base.{
  ℕ, suc, ◌*◌, ◌-◌, ◌%◌, ◌<◌, ◌≤◌, ◌≡◌, refl, false, arith, negsuc, ltb, leb, Bool-cases, inl, inr,
}
use rezerve.Bidengine.Order.{
  Config, Bid, is_stale_bid, bid_timeout_enabled, block_age, older_than, two_63, two_64,
  min_time_per_block,
}

-- A negative age is a negative word: no timeout is below it.
negative_age : (n timeout : ℕ) → n < 1_800_000_000 → older_than (negsuc n) timeout ≡ false
negative_age n timeout h =
    let far : ltb ((two_64 - suc n * min_time_per_block % two_64) % two_64) two_63 ≡ false =
      ground (arith, h) in
    rw far refl

older_than-block_age :
    (created height timeout : ℕ)
    → created ≤ height
    → height ≤ 1_800_000_000
    → older_than (block_age created height) timeout ≡ false
older_than-block_age created height timeout older low = elim (Bool-cases (leb height created)) [
  | inl same ↦ ground (arith, same, older)
  | inr below ↦
      rw below (negative_age (height - created - 1) timeout (ground (arith, below, older, low)))
]

-- A bid that is not younger than the session is never stale, however old it is and whatever the
-- timeout, with the session at block 1,800,000,000 at most.
pub old_bids_are_never_stale :
    (c : Config) (bid : Bid)
    → bid.created_at ≤ c.created_at_block_height
    → c.created_at_block_height ≤ 1_800_000_000
    → is_stale_bid c bid ≡ false
unfolding is_stale_bid bid_timeout_enabled
old_bids_are_never_stale c bid older height = elim (Bool-cases (bid_timeout_enabled c)) [
  | inr off ↦ rw off refl
  | inl on ↦
      rw on
        (older_than-block_age bid.created_at c.created_at_block_height c.bid_timeout older height)
]
