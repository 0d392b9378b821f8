-- ===== src/Operator/Hostnames/Tests.antt =====
-- A hostname that moves to another lease, and one that a foreign delete event makes the operator forget.
use rezerve.Base.{
  ℕ, ◌≡◌, refl, true, [], ◌∷◌, none, bytes, nat_eq, list_eq, lookup, delete, if◌then◌else◌, arith,
  ==_iff, ◌==◌,
}
use rezerve.Bidengine.Ids.{BidId, bid_eq}
use rezerve.Operator.IgnoreList.{IgnoreListConfig}
use rezerve.Operator.Hostnames.Locate.{ResourceEvent, manifest_found, default_options}
use rezerve.Operator.Hostnames.{
  ingress_name_eq, ingress_of, State, HostnameAnswers, managed, add_kind, delete_kind, apply_event,
  apply_delete_event, remove_hostname_from_deployment,
}
use rezerve.Operator.Hostnames.Routed.{Routed, state_of, one_ingress_per_hostname}

abbrev lease : ℕ → BidId
lease n = record {
  order = record { group = record { owner = bytes "o"; dseq = n; gseq = 1 }; oseq = 1 };
  provider = bytes "p";
}

abbrev event : ℕ → ResourceEvent
event n = record {
  hostname = bytes "a.com";
  lease = lease n;
  service = bytes "web";
  external_port = 80;
}

abbrev config : IgnoreListConfig
config = record { failure_limit = 3; entry_limit = 10; age_limit = 100 }

-- An endpoint without an external port has its port.
abbrev external : ℕ → ℕ → ℕ
external port external_port = if external_port == 0 then port else external_port

abbrev answers : HostnameAnswers
answers = record {
  manifest = manifest_found (
      record {
        name = bytes "web";
        count = 1;
        expose =
            record {
              port = 80;
              external_port = 0;
              is_global = true;
              http_options = default_options;
            }
            ∷ [];
      }
      ∷ []);
  removed = none;
  connected = none;
}

-- The hostname of the first lease.
abbrev serving : State
serving = record {
  hostnames = (bytes "a.com", managed (event 1)) ∷ [];
  leases_ignored = [];
  ingresses = (ingress_of (event 1), record { event = event 1; options = default_options }) ∷ [];
}

serving-Routed : Routed serving
unfolding lookup
serving-Routed k h there = ground (arith, there, ==_iff (bytes "a.com") h)

one_ingress_per_hostname_example :
    Routed (state_of (apply_event config external 1 add_kind answers (event 2) serving))
one_ingress_per_hostname_example =
    one_ingress_per_hostname config external 1 add_kind answers (event 2) serving tt serving-Routed

-- A delete event of another lease: the hostname is forgotten, and its ingress stays.
foreign_delete :
    state_of (apply_event config external 1 delete_kind answers (event 2) serving)
    ≡ record serving { hostnames = [] }
unfolding apply_event apply_delete_event remove_hostname_from_deployment delete
foreign_delete = refl
