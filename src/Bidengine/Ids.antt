-- ===== src/Bidengine/Ids.antt =====
-- The identifiers of the market module, compared field by field, and prices. The chain's types are
-- not in the repository; these are the fields that the provider reads.
use rezerve.Base.{ℕ, ◌≡◌, ◌↔◌, Bool, true, ◌&&◌, arith, Text, Eq, ◌==◌, ==_iff, nat_eq, list_eq}

pub record GroupId : Type 0 where
  pub owner : Text
  pub dseq : ℕ
  pub gseq : ℕ

pub record OrderId : Type 0 where
  pub group : GroupId
  pub oseq : ℕ

-- A bid or a lease: an order and a provider.
pub record BidId : Type 0 where
  pub order : OrderId
  pub provider : Text

-- A price: its denomination, and its amount in units of the smallest decimal.
pub record Coin : Type 0 where
  pub denom : Text
  pub amount : ℕ

abbrev pub group_beq : GroupId → GroupId → Bool
group_beq a b = (a.owner == b.owner) && ((a.dseq == b.dseq) && (a.gseq == b.gseq))

pub group_beq_iff : (a b : GroupId) → (group_beq a b ≡ true) ↔ (a ≡ b)
group_beq_iff a b = ground (arith, ==_iff a.owner b.owner)

instance abbrev pub group_eq : Eq GroupId
group_eq = record { equal = group_beq; equal_iff = group_beq_iff }

abbrev pub order_beq : OrderId → OrderId → Bool
order_beq a b = group_beq a.group b.group && (a.oseq == b.oseq)

pub order_beq_iff : (a b : OrderId) → (order_beq a b ≡ true) ↔ (a ≡ b)
order_beq_iff a b = ground (arith, group_beq_iff a.group b.group)

instance abbrev pub order_eq : Eq OrderId
order_eq = record { equal = order_beq; equal_iff = order_beq_iff }

abbrev pub bid_beq : BidId → BidId → Bool
bid_beq a b = order_beq a.order b.order && (a.provider == b.provider)

pub bid_beq_iff : (a b : BidId) → (bid_beq a b ≡ true) ↔ (a ≡ b)
bid_beq_iff a b = ground (arith, order_beq_iff a.order b.order, ==_iff a.provider b.provider)

instance abbrev pub bid_eq : Eq BidId
bid_eq = record { equal = bid_beq; equal_iff = bid_beq_iff }
