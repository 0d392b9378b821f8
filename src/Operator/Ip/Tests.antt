-- ===== src/Operator/Ip/Tests.antt =====
-- An IP that one lease leaves to another.
use rezerve.Base.{
  ℕ, ◌≡◌, refl, true, List, [], ◌∷◌, some, Text, bytes, nat_eq, list_eq, lookup, if◌then◌else◌,
}
use rezerve.Bidengine.Ids.{BidId, bid_eq}
use rezerve.Operator.IgnoreList.{IgnoreListConfig}
use rezerve.Operator.Ip.Resource.{
  tcp, Directive, ResourceName, state_key_eq, resource_name_eq, get_state_key,
}
use rezerve.Operator.Ip.{
  State, known_of, add_kind, delete_kind, Event, resource_event, apply_add_or_update_event,
}
use rezerve.Operator.Ip.Keyed.{name_of}
use rezerve.Operator.Ip.Restart.{all_well, Taken, take_over_leaves_adopted_service}

abbrev lease : ℕ → BidId
lease n = record {
  order = record { group = record { owner = bytes "o"; dseq = n; gseq = 1 }; oseq = 1 };
  provider = bytes "p";
}

abbrev directive : ℕ → Directive
directive n = record {
  lease = lease n;
  service = bytes "web";
  port = 8080;
  external_port = 80;
  sharing_key = bytes "k";
  protocol = tcp;
}

abbrev config : IgnoreListConfig
config = record { failure_limit = 3; entry_limit = 10; age_limit = 100 }

abbrev arrivals : List Event
arrivals =
    resource_event 1 add_kind all_well (directive 1) true
    ∷ resource_event 2 add_kind all_well (directive 2) true
    ∷ resource_event 3 delete_kind all_well (directive 1) true
    ∷ []

abbrev sharing : ResourceName → Text
sharing n = bytes "k"

-- A cluster with the first lease's service, that the operator knows from its start.
abbrev after_start : State
after_start = record {
  state = (get_state_key (directive 1), known_of (directive 1)) ∷ [];
  leases_ignored = [];
  services = (name_of (directive 1), directive 1) ∷ [];
}

known_there :
    (lookup (get_state_key (directive 2)) after_start.state
      ≡ some (if true then known_of (directive 1) else directive 1))
    × (lookup (name_of (directive 1)) after_start.services ≡ some (directive 1))
unfolding lookup
known_there = (refl, refl)

take_over_leaves_adopted_service_example :
    Taken
      (directive 1)
      (directive 2)
      (some (directive 1))
      (apply_add_or_update_event all_well (directive 2) after_start)
take_over_leaves_adopted_service_example =
    take_over_leaves_adopted_service (directive 1) (directive 2) after_start true known_there.0 refl
      refl refl known_there.1
