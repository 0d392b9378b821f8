-- ===== src/Operator/Ip/Mirrors.antt =====
-- What the IP operator keeps stands behind a service of the cluster.
use rezerve.Base.{Bool, true, not, ◌||◌, Text, ◌==◌, nat_eq, list_eq}
use rezerve.Bidengine.Ids.{bid_eq}
use rezerve.Operator.Ip.Resource.{protocol_eq, state_key_eq, ResourceName, resource_name_eq}
use rezerve.Operator.Ip.{Event, resource_event}
use rezerve.Operator.Ip.Keyed.{is_set, name_of}

module _ (sharing : ResourceName → Text) where
  abbrev pub is_shared : Event → Bool
  is_shared (resource_event now kind a d counted) =
      not (is_set d.protocol) || (d.sharing_key == sharing (name_of d))
  is_shared _ = true
