-- ===== src/Operator/Hostnames.antt =====
-- provider/operator/hostname/operator.go in its ingress mode: the ingresses of the cluster are an
-- association list by lease and hostname, and how the cluster answers is an event's. Ports fit an int32.
pub mod Locate
pub mod Routed
mod Tests
use rezerve.Base.{
  ℕ, ◌≡◌, ◌↔◌, Bool, true, false, not, ◌&&◌, ◌||◌, List, [], ◌∷◌, Option, none, some, Text, arith,
  Eq, ◌==◌, ==_iff, nat_eq, list_eq, if◌then◌else◌, Dict, lookup, insert, delete, Next, goes_on,
  stops, loop, bytes, has_prefix,
}
use rezerve.Bidengine.Ids.{BidId, bid_eq}
use rezerve.Operator.IgnoreList.{IgnoreListEntry, IgnoreListConfig, add_error, is_flagged, prune}
use rezerve.Operator.Hostnames.Locate.{
  ConnectDirective, HostnameFailure, ManifestAnswer, ResourceEvent, build_directive,
  expected_resource_not_found, kube_not_found, locate_service_from_manifest, located, other_failure,
  unlocated,
}

pub record ManagedHostname : Type 0 where
  pub present_lease : BidId
  pub present_service_name : Text
  pub present_external_port : ℕ

-- An ingress stands in its lease's namespace under its hostname.
pub record IngressName : Type 0 where
  pub lease : BidId
  pub hostname : Text

abbrev pub ingress_name_beq : IngressName → IngressName → Bool
ingress_name_beq a b = (a.lease == b.lease) && (a.hostname == b.hostname)

pub ingress_name_beq_iff : (a b : IngressName) → (ingress_name_beq a b ≡ true) ↔ (a ≡ b)
ingress_name_beq_iff a b = ground (arith, ==_iff a.lease b.lease, ==_iff a.hostname b.hostname)

instance abbrev pub ingress_name_eq : Eq IngressName
ingress_name_eq = record { equal = ingress_name_beq; equal_iff = ingress_name_beq_iff }

abbrev pub ingress_of : ResourceEvent → IngressName
ingress_of ev = record { lease = ev.lease; hostname = ev.hostname }

pub record State : Type 0 where
  pub hostnames : Dict Text ManagedHostname
  pub leases_ignored : Dict BidId IgnoreListEntry
  pub ingresses : Dict IngressName ConnectDirective

-- How the cluster answers the calls of an event.
pub record HostnameAnswers : Type 0 where
  pub manifest : ManifestAnswer
  pub removed : Option HostnameFailure
  pub connected : Option HostnameFailure

pub data Outcome : Type 0 where
  done : State → Outcome
  failed_with : HostnameFailure → State → Outcome

abbrev pub is_kube_not_found : HostnameFailure → Bool
is_kube_not_found (kube_not_found e) = true
is_kube_not_found _ = false

unfoldable pub remove_hostname_from_deployment :
    Option HostnameFailure → IngressName → Bool → State → Outcome
remove_hostname_from_deployment none n allow_missing s =
    done (record s { ingresses = delete n s.ingresses })
remove_hostname_from_deployment (some e) n allow_missing s =
    if allow_missing && is_kube_not_found e then done s else failed_with e s

unfoldable pub connect_hostname_to_deployment :
    Option HostnameFailure → ConnectDirective → State → Outcome
connect_hostname_to_deployment none d s =
    done (record s { ingresses = insert (ingress_of d.event) d s.ingresses })
connect_hostname_to_deployment (some e) d s = failed_with e s

abbrev pub managed : ResourceEvent → ManagedHostname
managed ev = record {
  present_lease = ev.lease;
  present_service_name = ev.service;
  present_external_port = ev.external_port;
}

-- The entry is stored if everything went well.
abbrev pub store : ResourceEvent → Outcome → Outcome
store ev (done s) = done (record s { hostnames = insert ev.hostname (managed ev) s.hostnames })
store ev (failed_with e s) = failed_with e s

abbrev pub forget : Text → State → State
forget h s = record s { hostnames = delete h s.hostnames }

-- The ingress moves to another lease, once that of the lease before is gone.
unfoldable pub swap_ingress : Option HostnameFailure → ConnectDirective → Outcome → Outcome
unfolding connect_hostname_to_deployment
swap_ingress answer d (done s) = connect_hostname_to_deployment answer d (forget d.event.hostname s)
swap_ingress answer d (failed_with e s) = failed_with e s

unfoldable pub connect_event : HostnameAnswers → ConnectDirective → State → Outcome
unfolding connect_hostname_to_deployment remove_hostname_from_deployment swap_ingress
connect_event a d s = elim (lookup d.event.hostname s.hostnames) [
  | none ↦ connect_hostname_to_deployment a.connected d s
  | some entry ↦
      if entry.present_lease == d.event.lease
      then connect_hostname_to_deployment a.connected d s
      else swap_ingress a.connected d (
          remove_hostname_from_deployment a.removed
            (record { lease = entry.present_lease; hostname = d.event.hostname }) false s)
]

unfoldable pub apply_add_or_update_event :
    (ℕ → ℕ → ℕ) → HostnameAnswers → ResourceEvent → State → Outcome
unfolding locate_service_from_manifest connect_event
apply_add_or_update_event external a ev s =
    elim (locate_service_from_manifest external a.manifest ev) [
      | unlocated e ↦ failed_with e s
      | located e ↦ store ev (connect_event a (build_directive ev e) s)
    ]

abbrev pub drop_entry : Text → Outcome → Outcome
drop_entry h (done s) = done (forget h s)
drop_entry h (failed_with e s) = failed_with e s

unfoldable pub apply_delete_event : HostnameAnswers → ResourceEvent → State → Outcome
unfolding remove_hostname_from_deployment
apply_delete_event a ev s =
    drop_entry ev.hostname (remove_hostname_from_deployment a.removed (ingress_of ev) true s)

-- `strings.Contains`.
unfoldable pub contains_text : Text → Text → Bool
contains_text [] part = has_prefix part []
contains_text (c ∷ cs) part = has_prefix part (c ∷ cs) || contains_text cs part

abbrev pub failure_text : HostnameFailure → Text
failure_text (kube_not_found e) = e
failure_text (expected_resource_not_found e) = e
failure_text (other_failure e) = e

unfoldable pub is_resource_not_found : HostnameFailure → Bool
unfolding contains_text
is_resource_not_found (kube_not_found e) = true
is_resource_not_found (expected_resource_not_found e) = true
is_resource_not_found (other_failure e) = contains_text e (bytes "not found")

-- Only an error of a missing resource is held against the lease.
abbrev pub record_event_error : ℕ → ResourceEvent → Outcome → Outcome
record_event_error now ev (done s) = done s
record_event_error now ev (failed_with e s) = failed_with e (
    if is_resource_not_found e
    then record s {
      leases_ignored = add_error now ev.lease (failure_text e) (ev.hostname ∷ []) s.leases_ignored;
    }
    else s)

pub data Kind : Type 0 where
  delete_kind add_kind update_kind unknown_kind : Kind

unfoldable pub apply_event :
    IgnoreListConfig → (ℕ → ℕ → ℕ) → ℕ → Kind → HostnameAnswers → ResourceEvent → State → Outcome
unfolding apply_delete_event apply_add_or_update_event is_resource_not_found
apply_event cfg external now delete_kind a ev s = apply_delete_event a ev s
apply_event cfg external now unknown_kind a ev s =
    failed_with (other_failure (bytes "unknown event type")) s
apply_event cfg external now _ a ev s =
    if is_flagged cfg ev.lease s.leases_ignored
    then done s
    else record_event_error now ev (apply_add_or_update_event external a ev s)

pub data Event : Type 0 where
  resource_event : (now : ℕ) → Kind → HostnameAnswers → ResourceEvent → Event
  prune_tick : (now : ℕ) → Event
  prepare_tick context_done events_end : Event

abbrev pub unless_failed : Outcome → State × Next
unless_failed (done s) = (s, goes_on)
unless_failed (failed_with e s) = (s, stops)

-- One turn of the loop.
unfoldable pub step : IgnoreListConfig → (ℕ → ℕ → ℕ) → State → Event → State × Next
unfolding apply_event
step cfg external s (resource_event now kind a ev) =
    unless_failed (apply_event cfg external now kind a ev s)
step cfg external s (prune_tick now) =
    (record s { leases_ignored = (prune cfg now s.leases_ignored).0 }, goes_on)
step cfg external s prepare_tick = (s, goes_on)
step cfg external s context_done = (s, stops)
step cfg external s events_end = (s, stops)

-- The entries that the operator makes of the connections which the cluster has at its start.
unfoldable pub identify : List ResourceEvent → Dict Text ManagedHostname → Dict Text ManagedHostname
identify [] m = m
identify (c ∷ cs) m = identify cs (insert c.hostname (managed c) m)

abbrev connections : Dict IngressName ConnectDirective → List ResourceEvent
connections [] = []
connections ((n, d) ∷ m) = d.event ∷ connections m

unfoldable pub start : Dict BidId IgnoreListEntry → Dict IngressName ConnectDirective → State
unfolding identify
start ignored ingresses = record {
  hostnames = identify (connections ingresses) [];
  leases_ignored = ignored;
  ingresses = ingresses;
}

abbrev always : State → Event → Bool
always s ev = true

unfoldable pub monitor_until_error :
    IgnoreListConfig → (ℕ → ℕ → ℕ) → State → List Event → State × Next
monitor_until_error cfg external = loop always (step cfg external)
