-- ===== src/Cluster/Inventory/Loop.antt =====
-- provider/cluster/inventory.go: `handleRequest`, `run` and the calls that reach it. The client's
-- inventory is a parameter: `adjust` charges a reservation to it, and reports whether it fits.
use rezerve.Base.{
  ℕ, ◌+◌, ◌-◌, ◌%◌, Bool, true, false, not, ◌&&◌, List, [], ◌∷◌, ◌++◌, Option, none, some, Text,
  ◌==◌, nat_eq, list_eq, if◌then◌else◌, ltb, map,
}
use rezerve.Bidengine.Ids.{OrderId, group_eq, order_eq}
use rezerve.Cluster.Inventory.{
  ResourceUnit, ResourceGroup, Reservation, two_64, new_reservation, reservation_count_endpoints,
  tee_type_from_attributes, count_reserved_ips, available_leased_ips, no_leased_ips_available,
  insufficient_ips, insufficient_capacity, reservation_not_found, not_running, Response, value,
  failed, panicked, State, Event, cluster_deployment, timer_fired, reserve_request, lookup_request,
  unreserve_request, inventory_result, inventory_update, check_result, check_units,
}

abbrev pub bool_eqb : Bool → Bool → Bool
bool_eqb true b = b
bool_eqb false b = not b

-- Go's `+=` and `-=` on a `uint`.
abbrev pub add_ports : ℕ → ℕ → ℕ
add_ports a b = (a + b) % two_64

abbrev pub sub_ports : ℕ → ℕ → ℕ
sub_ports a b = (a + (two_64 - b)) % two_64

-- The first reservation that passes a test, and the others.
unfoldable pub take_out :
    (Reservation → Bool) → List Reservation → Option (Reservation × List Reservation)
take_out p [] = none
take_out p (r ∷ rs) =
    let rest = take_out p rs in
    if p r
    then some (r, rs)
    else elim rest [ none ↦ none | some found ↦ some (found.0, r ∷ found.1) ]

abbrev pub find : (Reservation → Bool) → List Reservation → Option Reservation
find p [] = none
find p (r ∷ rs) = let rest = find p rs in if p r then some r else rest

abbrev pub has_order : OrderId → Reservation → Bool
has_order order r = r.order == order

abbrev pub has_order_name : OrderId → Text → Reservation → Bool
has_order_name order name r = (r.order == order) && (r.resources.name == name)

-- The loop over the reservations at a deployment's event: the first one of that order and group takes
-- the new status, and the ports follow a change of it. The last part says whether it changed.
unfoldable pub mark_allocated :
    OrderId → Text → Bool → List Reservation → ℕ → List Reservation × (ℕ × Bool)
mark_allocated order name deployed [] ports = ([], (ports, false))
mark_allocated order name deployed (r ∷ rs) ports =
    let rest = mark_allocated order name deployed rs ports in
    let next = record r { allocated = deployed } in
    let count = reservation_count_endpoints r in
    if not (has_order_name order name r)
    then (r ∷ rest.0, rest.1)
    else if bool_eqb r.allocated deployed
    then (next ∷ rs, (ports, false))
    else (next ∷ rs, (if deployed then sub_ports ports count else add_ports ports count, true))

-- The first reservation of a confirmed order.
unfoldable pub confirm : OrderId → List Reservation → List Reservation
confirm order [] = []
confirm order (r ∷ rs) =
    let rest = confirm order rs in
    if r.order == order then record r { ips_confirmed = true } ∷ rs else r ∷ rest

unfoldable pub confirm_all : List OrderId → List Reservation → List Reservation
confirm_all [] rs = rs
confirm_all (o ∷ os) rs = confirm_all os (confirm o rs)

-- `sdlutil.ComputeCommittedResources` at the configured level of each resource.
pub record Commit : Type 0 where
  pub cpu : ℕ → ℕ
  pub gpu : ℕ → ℕ
  pub memory : ℕ → ℕ
  pub storage : ℕ → ℕ

-- The getters read a nil resource as nothing.
abbrev quantity : Option ℕ → ℕ
quantity none = 0
quantity (some n) = n

abbrev commit_unit : Commit → ResourceUnit → ResourceUnit
commit_unit commit u = record u {
  cpu = some (commit.cpu (quantity u.cpu));
  gpu = some (commit.gpu (quantity u.gpu));
  memory = some (commit.memory (quantity u.memory));
  storage = map commit.storage u.storage;
}

unfoldable pub resources_to_commit : Commit → ResourceGroup → ResourceGroup
resources_to_commit commit g = record g { units = map (commit_unit commit) g.units }

module _ {I : Type 0} (commit : Commit) (adjust : I → Reservation → I × Bool) where
  unfoldable pub update_ips : State I → State I
  update_ips s =
      if s.ip_client
      then (if s.checking
          then record s { reserve_open = false }
          else record s { reserve_open = false; timer = false; checking = true })
      else if not s.reserve_open && elim s.inventory [ none ↦ false | some _ ↦ true ]
      then record s { reserve_open = true }
      else s

  -- The capacity is asked for last; a reservation that does not fit leaves the list as it was.
  unfoldable pub admit : State I → Reservation → State I × Response
  admit s r = elim s.inventory [
    | none ↦ (s, panicked)
    | some inv ↦
        let (after, fits) = adjust inv r in
        if fits
        then (record s { inventory = some after; reservations = s.reservations ++ r ∷ [] }, value r)
        else (record s { inventory = some after }, failed insufficient_capacity)
  ]

  unfoldable pub handle_request : State I → OrderId → ResourceGroup → State I × Response
  handle_request s order resources =
      let r = new_reservation order (resources_to_commit commit resources) in
      let tee = tee_type_from_attributes resources.attributes in
      let reserved = count_reserved_ips s.reservations 0 in
      let available = available_leased_ips s.ip_available s.ip_in_use reserved in
      if r.endpoint_quantity == 0
      then admit s (record r { ips_confirmed = true; tee_type = tee })
      else if not s.ip_client
      then (s, failed no_leased_ips_available)
      else if ltb available r.endpoint_quantity
      then (s, failed insufficient_ips)
      else admit s (record r { tee_type = tee })

  unfoldable pub lookup : State I → OrderId → Text → Response
  lookup s order name = elim (find (has_order_name order name) s.reservations) [
    | none ↦ failed reservation_not_found
    | some r ↦ value r
  ]

  unfoldable pub unreserve : State I → OrderId → State I × Response
  unreserve s order = elim (take_out (has_order order) s.reservations) [
    | none ↦ (s, failed reservation_not_found)
    | some found ↦
        let t = record s { reservations = found.1 } in
        (
          if found.0.allocated
              then record t {
                available_external_ports =
                    add_ports s.available_external_ports (reservation_count_endpoints found.0);
              }
              else t,
          value found.0,
        )
  ]

  -- A changed status puts the present inventory back into the channel of updates, if that is empty.
  unfoldable pub on_deployment : State I → OrderId → Text → Bool → State I
  on_deployment s order name deployed =
      let (rs, (ports, changed)) =
        mark_allocated order name deployed s.reservations s.available_external_ports in
      let t = record s { reservations = rs; available_external_ports = ports } in
      update_ips
        (if changed then elim s.invup [ none ↦ record t { invup = s.currinv } | some _ ↦ t ] else t)

  -- The reservations that are not allocated are charged to the new inventory; one that no longer fits
  -- is passed over.
  unfoldable pub readjust : I → List Reservation → I
  readjust inv [] = inv
  readjust inv (r ∷ rs) = if r.allocated then readjust inv rs else readjust (adjust inv r).0 rs

  unfoldable pub on_inventory : State I → I → State I
  on_inventory s inv =
      let t = update_ips (record s { invup = none; currinv = some inv; inventory = some inv }) in
      record t { inventory = some (readjust inv s.reservations) }

  unfoldable pub on_check : State I → Option ((ℕ × ℕ) × List OrderId) → State I
  on_check s none = record s { checking = false; timer = true; reserve_open = true }
  on_check s (some (usage, confirmed)) = record s {
    checking = false;
    timer = true;
    reserve_open = true;
    ip_available = usage.0;
    ip_in_use = usage.1;
    reservations = confirm_all confirmed s.reservations;
  }

  -- One turn of the loop, in which a value that is not waited on stays on its channel.
  unfoldable pub step : State I → Event I → State I
  step s (cluster_deployment order name deployed) = on_deployment s order name deployed
  step s timer_fired = if s.timer then update_ips (record s { timer = false }) else s
  step s (reserve_request order resources) =
      if s.reserve_open then (handle_request s order resources).0 else s
  step s (lookup_request order name) = s
  step s (unreserve_request order) = (unreserve s order).0
  step s (inventory_result none) = s
  step s (inventory_result (some inv)) = record s { invup = some inv }
  step s inventory_update = elim s.invup [ none ↦ s | some queued ↦ on_inventory s queued ]
  step s (check_result r) = if s.checking then on_check s r else s

  unfoldable pub run : State I → List (Event I) → State I
  run s [] = s
  run s (e ∷ es) = run (step s e) es

  -- The call ahead of the loop. A service that shuts down takes no request.
  unfoldable pub reserve : Bool → State I → OrderId → ResourceGroup → State I × Response
  reserve shutting_down s order resources = elim (check_units 0 resources.units) [
    | some e ↦ (s, failed e)
    | none ↦ if shutting_down then (s, failed not_running) else handle_request s order resources
  ]
