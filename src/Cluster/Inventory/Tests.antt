-- ===== src/Cluster/Inventory/Tests.antt =====
-- The inventory service with one reservation: it is made, allocated, and given back; and the turn that
-- opens the requests of a provider with an IP operator before there is an inventory.
use rezerve.Base.{
  ℕ, ◌-◌, ◌≡◌, refl, Bool, true, false, List, [], ◌∷◌, none, some, bytes, arith, ltb, if◌then◌else◌,
}
use rezerve.Bidengine.Ids.{OrderId}
use rezerve.Cluster.Inventory.{
  leased_ip, random_port, ResourceUnit, ResourceGroup, Reservation, tee_cpu, State, Event, value,
  panicked, cluster_deployment, reserve_request, inventory_result, inventory_update, check_result,
  new_reservation, get_endpoint_quantity, accum_units, accum_endpoints, tee_type_from_attributes,
  parse_tee_type, count_reserved_ips, available_leased_ips, reservation_count_endpoints, unit_ports,
  random_ports,
}
use rezerve.Cluster.Inventory.Loop.{
  Commit, mark_allocated, confirm_all, resources_to_commit, update_ips, admit, handle_request,
  on_deployment, readjust, on_inventory, on_check, step, run,
}
use rezerve.Cluster.Inventory.Ports.{Balanced, ports_add_up}
use rezerve.Cluster.Inventory.Requests.{Answer, handle_request-Answer}

abbrev order_id : OrderId
order_id = record { group = record { owner = bytes "a"; dseq = 7; gseq = 1 }; oseq = 1 }

abbrev unit : ResourceUnit
unit = record {
  cpu = some 100;
  gpu = some 0;
  memory = some 64;
  storage = 1 ∷ [];
  endpoints =
      record { kind = random_port; sequence_number = 0 }
      ∷ record { kind = leased_ip; sequence_number = 1 }
      ∷ record { kind = leased_ip; sequence_number = 1 }
      ∷ [];
}

abbrev group : ResourceGroup
group = record {
  name = bytes "w";
  attributes = (bytes "tee/type", bytes "cpu") ∷ [];
  units = unit ∷ [];
}

abbrev as_asked : Commit
as_asked = record { cpu = λ n. n; gpu = λ n. n; memory = λ n. n; storage = λ n. n }

-- An inventory that counts how many more reservations fit.
abbrev counted : ℕ → Reservation → ℕ × Bool
counted n r = if ltb 0 n then (n - 1, true) else (n, false)

abbrev booted : Bool → State ℕ
booted client = record {
  ip_client = client;
  inventory = none;
  currinv = none;
  invup = none;
  reservations = [];
  ip_available = 0;
  ip_in_use = 0;
  reserve_open = false;
  checking = false;
  timer = false;
  available_external_ports = 10;
}

abbrev life : List (Event ℕ)
life =
    inventory_result (some 2)
    ∷ inventory_update
    ∷ check_result (some ((1, 0), []))
    ∷ reserve_request order_id group
    ∷ cluster_deployment order_id (bytes "w") true
    ∷ []

life_ports : (run as_asked counted (booted true) life).available_external_ports ≡ 9
unfolding run step on_inventory readjust update_ips on_check confirm_all handle_request admit
    new_reservation resources_to_commit get_endpoint_quantity accum_units accum_endpoints
    tee_type_from_attributes parse_tee_type count_reserved_ips available_leased_ips on_deployment
    mark_allocated reservation_count_endpoints unit_ports random_ports
life_ports = refl

ports_add_up_example : Balanced 10 (run as_asked counted (booted true) life)
ports_add_up_example = ports_add_up as_asked counted 10 (booted true) life refl tt

-- With room for a reservation.
abbrev stocked : State ℕ
stocked = record (booted true) {
  inventory = some 2;
  ip_available = 3;
  ip_in_use = 1;
  reserve_open = true;
}

abbrev made : Reservation
made = record {
  order = order_id;
  resources = group;
  endpoint_quantity = 1;
  allocated = false;
  ips_confirmed = false;
  tee_type = tee_cpu;
}

handle_request-Answer_example :
    Answer stocked order_id (handle_request as_asked counted stocked order_id group)
handle_request-Answer_example =
    handle_request-Answer as_asked counted stocked order_id group (omega arith)

made_request : (handle_request as_asked counted stocked order_id group).1 ≡ value made
unfolding handle_request admit new_reservation resources_to_commit get_endpoint_quantity accum_units
    accum_endpoints tee_type_from_attributes parse_tee_type count_reserved_ips available_leased_ips
made_request = refl

abbrev known : List (Event ℕ)
known = inventory_result (some 2) ∷ inventory_update ∷ []

-- A deployment's event starts a check of the IPs, whose answer opens the requests, before any
-- inventory has come in.
panics_with_ip_operator :
    (handle_request as_asked counted
      (run as_asked counted
        (booted true)
        (cluster_deployment order_id (bytes "w") true ∷ check_result (some ((5, 0), [])) ∷ []))
      order_id
      group).1
    ≡ panicked
unfolding run step update_ips on_check confirm_all handle_request admit new_reservation
    resources_to_commit get_endpoint_quantity accum_units accum_endpoints count_reserved_ips
    available_leased_ips on_deployment mark_allocated
panics_with_ip_operator = refl
