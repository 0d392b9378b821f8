-- ===== src/Operator/Ip/Resource.antt =====
-- provider/operator/ip/operator.go and
-- provider/cluster/kube/operators/clients/metallb/client.go: what a passthrough is, and its names. A
-- resource's name is kept as its parts; service names are lower-case labels.
use rezerve.Base.{
  ℕ, ◌≡◌, ◌↔◌, Bool, true, false, ◌&&◌, Text, arith, Eq, ◌==◌, ==_iff, nat_eq, list_eq,
}
use rezerve.Bidengine.Ids.{BidId, bid_eq}

-- `unset` is the zero value.
pub data Protocol : Type 0 where
  unset tcp udp : Protocol

abbrev pub protocol_beq : Protocol → Protocol → Bool
protocol_beq unset unset = true
protocol_beq tcp tcp = true
protocol_beq udp udp = true
protocol_beq _ _ = false

pub protocol_beq_iff : (a b : Protocol) → (protocol_beq a b ≡ true) ↔ (a ≡ b)
protocol_beq_iff unset unset = ground arith
protocol_beq_iff unset tcp = ground arith
protocol_beq_iff unset udp = ground arith
protocol_beq_iff tcp unset = ground arith
protocol_beq_iff tcp tcp = ground arith
protocol_beq_iff tcp udp = ground arith
protocol_beq_iff udp unset = ground arith
protocol_beq_iff udp tcp = ground arith
protocol_beq_iff udp udp = ground arith

instance abbrev pub protocol_eq : Eq Protocol
protocol_eq = record { equal = protocol_beq; equal_iff = protocol_beq_iff }

-- What an event asks for, and what the operator keeps of it.
pub record Directive : Type 0 where
  pub lease : BidId
  pub service : Text
  pub port : ℕ
  pub external_port : ℕ
  pub sharing_key : Text
  pub protocol : Protocol

pub record StateKey : Type 0 where
  pub owner : Text
  pub sharing_key : Text
  pub external_port : ℕ

abbrev pub state_key_beq : StateKey → StateKey → Bool
state_key_beq a b =
    (a.owner == b.owner)
    && ((a.sharing_key == b.sharing_key) && (a.external_port == b.external_port))

pub state_key_beq_iff : (a b : StateKey) → (state_key_beq a b ≡ true) ↔ (a ≡ b)
state_key_beq_iff a b = ground (arith, ==_iff a.owner b.owner, ==_iff a.sharing_key b.sharing_key)

instance abbrev pub state_key_eq : Eq StateKey
state_key_eq = record { equal = state_key_beq; equal_iff = state_key_beq_iff }

-- The namespace of a lease and the name in it: the service, the external port and the protocol.
pub record ResourceName : Type 0 where
  pub lease : BidId
  pub service : Text
  pub external_port : ℕ
  pub protocol : Protocol

abbrev pub resource_name_beq : ResourceName → ResourceName → Bool
resource_name_beq a b =
    (a.lease == b.lease)
    && ((a.service == b.service)
        && ((a.external_port == b.external_port) && (a.protocol == b.protocol)))

pub resource_name_beq_iff : (a b : ResourceName) → (resource_name_beq a b ≡ true) ↔ (a ≡ b)
resource_name_beq_iff a b =
    ground (arith, ==_iff a.lease b.lease, ==_iff a.service b.service, ==_iff a.protocol b.protocol)

instance abbrev pub resource_name_eq : Eq ResourceName
resource_name_eq = record { equal = resource_name_beq; equal_iff = resource_name_beq_iff }

abbrev pub get_state_key : Directive → StateKey
get_state_key d = record {
  owner = d.lease.order.group.owner;
  sharing_key = d.sharing_key;
  external_port = d.external_port;
}

abbrev pub create_ip_passthrough_resource_name : Directive → ResourceName
create_ip_passthrough_resource_name d = record {
  lease = d.lease;
  service = d.service;
  external_port = d.external_port;
  protocol = d.protocol;
}
