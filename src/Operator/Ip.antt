-- ===== src/Operator/Ip.antt =====
-- provider/operator/ip/operator.go, with the calls that it makes of
-- provider/cluster/kube/operators/clients/metallb/client.go: the services of the cluster are an
-- association list by the parts of a resource's name, and how Kubernetes answers is an event's.
pub mod Resource
pub mod Keyed
pub mod Mirrors
pub mod Restart
mod Tests
use rezerve.Base.{
  ℕ, Bool, true, not, ◌||◌, List, [], ◌∷◌, Option, none, some, Text, arith, ◌==◌, nat_eq, list_eq,
  if◌then◌else◌, Dict, lookup, insert, delete, Next, goes_on, stops, loop,
}
use rezerve.Bidengine.Ids.{BidId, bid_eq}
use rezerve.Operator.IgnoreList.{IgnoreListEntry, IgnoreListConfig, add_error, is_flagged, prune}
use rezerve.Operator.Ip.Resource.{
  Directive, ResourceName, StateKey, create_ip_passthrough_resource_name, get_state_key,
  protocol_eq, resource_name_eq, state_key_eq, unset,
}

pub record State : Type 0 where
  pub state : Dict StateKey Directive
  pub leases_ignored : Dict BidId IgnoreListEntry
  pub services : Dict ResourceName Directive

pub data KubeFailure : Type 0 where
  not_found broken : Text → KubeFailure

-- How Kubernetes answers the two calls of an event.
pub record Answers : Type 0 where
  pub purged : Option KubeFailure
  pub created : Option KubeFailure

-- A resource that is not there counts as purged.
unfoldable pub purge_ip_passthrough :
    Option KubeFailure → Directive → State → State × Option KubeFailure
purge_ip_passthrough none d s =
    (record s { services = delete (create_ip_passthrough_resource_name d) s.services }, none)
purge_ip_passthrough (some (not_found e)) d s = (s, none)
purge_ip_passthrough (some (broken e)) d s = (s, some (broken e))

unfoldable pub create_ip_passthrough :
    Option KubeFailure → Directive → State → State × Option KubeFailure
create_ip_passthrough answer d s = elim d.protocol [
  | unset ↦ (s, some (broken []))
  | _ ↦ elim answer [
    | some e ↦ (s, some e)
    | none ↦
        (record s { services = insert (create_ip_passthrough_resource_name d) d s.services }, none)
  ]
]

-- What is kept when a call has succeeded.
abbrev pub store : Directive → State × Option KubeFailure → State × Option KubeFailure
store d (s, some e) = (s, some e)
store d (s, none) = (record s { state = insert (get_state_key d) d s.state }, none)

abbrev pub has_changed : Directive → Directive → Bool
has_changed entry d =
    not (entry.service == d.service)
    || not (entry.port == d.port)
    || not (entry.sharing_key == d.sharing_key)
    || not (entry.external_port == d.external_port)
    || not (entry.protocol == d.protocol)

-- The lease of the entry gives way to the event's.
unfoldable pub reconnect :
    Answers → Directive → State × Option KubeFailure → State × Option KubeFailure
unfolding create_ip_passthrough
reconnect a d (s, some e) = (s, some e)
reconnect a d (s, none) =
    store d
      (create_ip_passthrough a.created d (record s { state = delete (get_state_key d) s.state }))

unfoldable pub apply_add_or_update_event : Answers → Directive → State → State × Option KubeFailure
unfolding create_ip_passthrough purge_ip_passthrough reconnect
apply_add_or_update_event a d s = elim (lookup (get_state_key d) s.state) [
  | none ↦ store d (create_ip_passthrough a.created d s)
  | some entry ↦
      if entry.lease == d.lease
      then if has_changed entry d
        then store d (create_ip_passthrough a.created d s)
        else store d (s, none)
      else reconnect a d (purge_ip_passthrough a.purged entry s)
]

abbrev pub forget : Directive → State × Option KubeFailure → State × Option KubeFailure
forget d (s, some e) = (s, some e)
forget d (s, none) = (record s { state = delete (get_state_key d) s.state }, none)

unfoldable pub apply_delete_event : Answers → Directive → State → State × Option KubeFailure
unfolding purge_ip_passthrough
apply_delete_event a d s = forget d (purge_ip_passthrough a.purged d s)

-- Only a resource that is not found is held against the lease.
abbrev pub record_event_error :
    ℕ → Directive → State × Option KubeFailure → State × Option KubeFailure
record_event_error now d (s, none) = (s, none)
record_event_error now d (s, some (broken e)) = (s, some (broken e))
record_event_error now d (s, some (not_found e)) = (
  record s { leases_ignored = add_error now d.lease e (d.sharing_key ∷ []) s.leases_ignored },
  some (not_found e),
)

pub data Kind : Type 0 where
  delete_kind add_kind update_kind unknown_kind : Kind

unfoldable pub apply_event :
    IgnoreListConfig → ℕ → Kind → Answers → Directive → State → State × Option KubeFailure
unfolding apply_delete_event apply_add_or_update_event
apply_event cfg now delete_kind a d s = apply_delete_event a d s
apply_event cfg now unknown_kind a d s = (s, some (broken []))
apply_event cfg now _ a d s =
    if is_flagged cfg d.lease s.leases_ignored
    then (s, none)
    else record_event_error now d (apply_add_or_update_event a d s)

-- What the loop receives; `counted`: the metrics of the cluster could be read after it.
pub data Event : Type 0 where
  resource_event : (now : ℕ) → Kind → Answers → Directive → (counted : Bool) → Event
  prune_tick : (now : ℕ) → Event
  prepare_tick : Event
  update_tick : (counted : Bool) → Event
  pool_change : (counted : Bool) → Event
  context_done events_end pool_changes_end : Event

abbrev pub unless_failed : Bool → State × Option KubeFailure → State × Next
unless_failed counted (s, some e) = (s, stops)
unless_failed counted (s, none) = (s, if counted then goes_on else stops)

-- One turn of the loop.
unfoldable pub step : IgnoreListConfig → State → Event → State × Next
unfolding apply_event
step cfg s (resource_event now kind a d counted) =
    unless_failed counted (apply_event cfg now kind a d s)
step cfg s (prune_tick now) =
    (record s { leases_ignored = (prune cfg now s.leases_ignored).0 }, goes_on)
step cfg s prepare_tick = (s, goes_on)
step cfg s (update_tick counted) = (s, if counted then goes_on else stops)
step cfg s (pool_change counted) = (s, if counted then goes_on else stops)
step cfg s context_done = (s, stops)
step cfg s events_end = (s, stops)
step cfg s pool_changes_end = (s, stops)

-- What the operator keeps at its start of the services that are there: not their protocol.
abbrev pub known_of : Directive → Directive
known_of d = record d { protocol = unset }

unfoldable pub adopt : List Directive → Dict StateKey Directive → Dict StateKey Directive
adopt [] m = m
adopt (d ∷ ds) m = adopt ds (insert (get_state_key d) (known_of d) m)

abbrev directives : Dict ResourceName Directive → List Directive
directives [] = []
directives ((k, d) ∷ m) = d ∷ directives m

-- The operator at its start, over the services of the cluster and the leases ignored before.
unfoldable pub start : Dict BidId IgnoreListEntry → Dict ResourceName Directive → State
unfolding adopt
start ignored services = record {
  state = adopt (directives services) [];
  leases_ignored = ignored;
  services = services;
}

abbrev always : State → Event → Bool
always s ev = true

unfoldable pub monitor_until_error : IgnoreListConfig → State → List Event → State × Next
monitor_until_error cfg = loop always (step cfg)
