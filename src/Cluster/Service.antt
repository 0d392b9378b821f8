-- ===== src/Cluster/Service.antt =====
-- provider/cluster/service.go: `run`, `teardownLease` and `doCheckDeploymentExists`. The map of managers
-- is an association list of leases, managers are numbers, and those that are alive stand beside it. What
-- is sent to a manager, to the inventory and to the bus is a log, newest first.
pub mod Drain
pub mod Held
pub mod Managed
mod Tests
use rezerve.Base.{
  ℕ, zero, suc, ◌%◌, Bool, true, false, ◌&&◌, List, [], ◌∷◌, ◌++◌, Option, none, some, Text, ◌==◌,
  nat_eq, list_eq, if◌then◌else◌, length, Dict, lookup, insert, delete, is_alive, remove_alive,
  Next, goes_on, stops, loop,
}
use rezerve.Bidengine.Ids.{OrderId, BidId, bid_eq}

pub data Effect : Type 0 where
  create : BidId → ℕ → Bool → Effect
  update teardown reclaim : ℕ → Effect
  unreserve : OrderId → Effect
  remove_funds_monitor : BidId → Effect
  publish_status : ℕ → Effect

pub record State : Type 0 where
  pub managers : Dict BidId ℕ
  pub alive : Dict BidId ℕ
  pub created : ℕ
  pub ctx_done : Bool
  pub signal : Bool
  pub gauge : ℕ
  pub log : List Effect

-- A question whether a deployment exists, without the sequence number of its order.
pub record CheckRequest : Type 0 where
  pub owner : Text
  pub dseq : ℕ
  pub gseq : ℕ

-- What the loop receives. `has_group` and `found`: the manifest has its group, and the inventory its
-- reservation. `taken`: the select of `trySignal` chose a context that is done.
pub data Event : Type 0 where
  context_done shutdown status_asked other_event : Event
  manifest_received : BidId → (has_group found taken : Bool) → Event
  lease_closed lease_reclaim_started : BidId → Event
  signalled : (has_inventory : Bool) → Event
  inventory_update : (valid : Bool) → Event
  manager_done : BidId → ℕ → Bool → Event
  check_deployment : CheckRequest → Event

abbrev emit : Effect → State → State
emit e s = record s { log = e ∷ s.log }

abbrev set_gauge : State → State
set_gauge s = record s { gauge = length s.managers }

abbrev pub managers_count : State → ℕ
managers_count s = length s.managers % 4_294_967_296

abbrev pub try_signal : Bool → State → State
try_signal taken s = if taken && s.ctx_done then s else record s { signal = true }

-- `newDeploymentManager`, put into the map.
unfoldable pub new_manager : BidId → Bool → State → State
new_manager k is_new s = record s {
  managers = insert k s.created s.managers;
  alive = s.alive ++ ((k, s.created) ∷ []);
  created = suc s.created;
  log = create k s.created is_new ∷ s.log;
}

-- A manager of each deployment that the cluster has.
unfoldable pub adopt : List BidId → State → State
unfolding new_manager
adopt [] s = s
adopt (k ∷ ks) s = adopt ks (set_gauge (new_manager k false s))

-- The service once the operators that it waits for are ready.
unfoldable pub start : List BidId → State
unfolding adopt
start deployments =
    record (adopt deployments (record {
      managers = [];
      alive = [];
      created = 0;
      ctx_done = false;
      signal = false;
      gauge = 0;
      log = [];
    })) { signal = true }

unfoldable pub on_manifest_received : BidId → Bool → Bool → Bool → State → State
unfolding new_manager
on_manifest_received k has_group found taken s =
    if has_group && found
    then elim (lookup k s.managers) [
      | some n ↦ emit (update n) s
      | none ↦ try_signal taken (new_manager k true s)
    ]
    else s

unfoldable pub teardown_lease : Text → BidId → State → State
teardown_lease own k s = elim (lookup k s.managers) [
  | some n ↦ emit (teardown n) s
  | none ↦ if k.provider == own then emit (unreserve k.order) s else s
]

unfoldable pub on_reclaim_started : BidId → State → State
on_reclaim_started k s = elim (lookup k s.managers) [ some n ↦ emit (reclaim n) s | none ↦ s ]

unfoldable pub publish : Bool → State → State
publish has_inventory s = if has_inventory then emit (publish_status (managers_count s)) s else s

unfoldable pub on_manager_done : BidId → ℕ → Bool → State → State
unfolding remove_alive
on_manager_done k n taken s = try_signal taken (record (emit (unreserve k.order) s) {
  managers = delete k s.managers;
  alive = remove_alive k n s.alive;
})

-- The leases are passed in the order in which the map is walked, which may be any.
unfoldable pub check_deployment_exists : CheckRequest → List BidId → Option BidId
check_deployment_exists req [] = none
check_deployment_exists req (k ∷ ks) =
    let rest = check_deployment_exists req ks in
    let group = k.order.group in
    if (group.gseq == req.gseq) && ((group.dseq == req.dseq) && (group.owner == req.owner))
    then some k
    else rest

-- Only a manager that is alive ends.
abbrev pub is_enabled : State → Event → Bool
is_enabled s (signalled has_inventory) = s.signal
is_enabled s (manager_done k n taken) = is_alive k n s.alive
is_enabled s ev = true

-- One turn of the loop of the provider `own`.
unfoldable pub step : Text → State → Event → State × Next
unfolding on_manifest_received teardown_lease on_reclaim_started publish on_manager_done
step own s context_done = (record s { ctx_done = true }, goes_on)
step own s shutdown = (s, stops)
step own s (manifest_received k has_group found taken) =
    (set_gauge (on_manifest_received k has_group found taken s), goes_on)
step own s (lease_closed k) =
    (set_gauge (teardown_lease own k (emit (remove_funds_monitor k) s)), goes_on)
step own s (lease_reclaim_started k) = (set_gauge (on_reclaim_started k s), goes_on)
step own s other_event = (set_gauge s, goes_on)
step own s status_asked = (set_gauge s, goes_on)
step own s (signalled has_inventory) =
    (publish has_inventory (record s { signal = false }), goes_on)
step own s (inventory_update valid) = (publish valid s, goes_on)
step own s (manager_done k n taken) = (set_gauge (on_manager_done k n taken s), goes_on)
step own s (check_deployment req) = (set_gauge s, goes_on)

unfoldable pub run : Text → List BidId → List Event → State × Next
unfolding start
run own deployments = loop is_enabled (step own) (start deployments)

-- The managers that the end of the loop still waits for, after those in the list have ended: one is
-- received for each entry of the map, whichever it is.
unfoldable pub drain : ℕ → List (BidId × ℕ) → Dict BidId ℕ → ℕ × Dict BidId ℕ
unfolding remove_alive
drain n [] alive = (n, alive)
drain zero (d ∷ ds) alive = (0, alive)
drain (suc n) ((k, i) ∷ ds) alive =
    if is_alive k i alive then drain n ds (remove_alive k i alive) else drain (suc n) ds alive
