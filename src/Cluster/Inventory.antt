-- ===== src/Cluster/Inventory.antt =====
-- provider/cluster/inventory.go and reservation.go: the inventory service's reservations, its external
-- ports and leased IPs, and one turn of its loop; provider/cluster/util/endpoint_quantity.go.
pub mod Loop
pub mod Ports
pub mod Ips
pub mod Requests
pub mod Ready
mod Tests
use rezerve.Base.{
  ℕ, zero, suc, ◌+◌, ◌-◌, ◌%◌, ◌≡◌, Bool, true, false, not, ◌&&◌, ◌||◌, List, [], ◌∷◌, ◌++◌, Option,
  none, some, Text, bytes, ◌==◌, nat_eq, list_eq, if◌then◌else◌, ltb, leb, any, map, length, Result,
  ok, err,
}
use rezerve.Bidengine.Ids.{OrderId, group_eq, order_eq}

pub data EndpointKind : Type 0 where
  shared_http random_port leased_ip : EndpointKind

pub record Endpoint : Type 0 where
  pub kind : EndpointKind
  pub sequence_number : ℕ

-- A resource unit; a nil resource is `none`. The storage is the volumes' quantities.
pub record ResourceUnit : Type 0 where
  pub cpu : Option ℕ
  pub gpu : Option ℕ
  pub memory : Option ℕ
  pub storage : List ℕ
  pub endpoints : List Endpoint

-- A resource group: the name, the attributes of its placement requirements, and its units.
pub record ResourceGroup : Type 0 where
  pub name : Text
  pub attributes : List (Text × Text)
  pub units : List ResourceUnit

pub data TeeType : Type 0 where
  tee_none tee_cpu tee_cpu_gpu : TeeType

-- The resources and parameters that `Adjust` stores in a reservation are not read by the service.
pub record Reservation : Type 0 where
  pub order : OrderId
  pub resources : ResourceGroup
  pub endpoint_quantity : ℕ
  pub allocated : Bool
  pub ips_confirmed : Bool
  pub tee_type : TeeType

abbrev pub two_64 : ℕ
two_64 = 18_446_744_073_709_551_616

abbrev is_leased_ip : EndpointKind → Bool
is_leased_ip leased_ip = true
is_leased_ip _ = false

abbrev is_random_port : EndpointKind → Bool
is_random_port random_port = true
is_random_port _ = false

-- The sequence numbers of the leased IPs, each once: the keys of the map that the code fills.
accum_endpoints : List Endpoint → List ℕ → List ℕ
accum_endpoints [] accum = accum
accum_endpoints (e ∷ es) accum =
    let n = e.sequence_number in
    let add = accum_endpoints es (n ∷ accum) in
    let skip = accum_endpoints es accum in
    if is_leased_ip e.kind then (if any (λ k. k == n) accum then skip else add) else skip

accum_units : List ResourceUnit → List ℕ → List ℕ
unfolding accum_endpoints
accum_units [] accum = accum
accum_units (u ∷ us) accum = accum_units us (accum_endpoints u.endpoints accum)

pub get_endpoint_quantity : ResourceGroup → ℕ
unfolding accum_units
get_endpoint_quantity g = length (accum_units g.units [])

pub new_reservation : OrderId → ResourceGroup → Reservation
unfolding get_endpoint_quantity
new_reservation order resources = record {
  order = order;
  resources = resources;
  endpoint_quantity = get_endpoint_quantity resources;
  allocated = false;
  ips_confirmed = false;
  tee_type = tee_none;
}

random_ports : List Endpoint → ℕ
random_ports [] = 0
random_ports (e ∷ es) = if is_random_port e.kind then suc (random_ports es) else random_ports es

unit_ports : List ResourceUnit → ℕ
unfolding random_ports
unit_ports [] = 0
unit_ports (u ∷ us) = random_ports u.endpoints + unit_ports us

pub reservation_count_endpoints : Reservation → ℕ
unfolding unit_ports
reservation_count_endpoints r = unit_ports r.resources.units % two_64

parse_tee_type : Text → Option TeeType
parse_tee_type s =
    if s == []
    then some tee_none
    else if s == bytes "cpu"
    then some tee_cpu
    else if s == bytes "cpu-gpu"
    then some tee_cpu_gpu
    else none

pub tee_type_from_attributes : List (Text × Text) → TeeType
unfolding parse_tee_type
tee_type_from_attributes [] = tee_none
tee_type_from_attributes (kv ∷ rest) =
    let next = tee_type_from_attributes rest in
    if kv.0 == bytes "tee/type"
    then elim (parse_tee_type kv.1) [ none ↦ next | some t ↦ t ]
    else next

-- `uint` sums wrap around.
pub count_reserved_ips : List Reservation → ℕ → ℕ
count_reserved_ips [] reserved = reserved
count_reserved_ips (entry ∷ rest) reserved =
    let skip = count_reserved_ips rest reserved in
    let add = count_reserved_ips rest ((reserved + entry.endpoint_quantity) % two_64) in
    if not entry.ips_confirmed then add else skip

pub available_leased_ips : ℕ → ℕ → ℕ → ℕ
available_leased_ips total in_use reserved =
    if leb total in_use
    then 0
    else let available = total - in_use in
      if leb available reserved then 0 else available - reserved

pub data Error : Type 0 where
  invalid_resource : ℕ → Error
  no_leased_ips_available insufficient_ips insufficient_capacity : Error
  reservation_not_found not_running : Error

-- What the caller gets; `panicked` is a nil inventory dereferenced by the loop.
pub data Response : Type 0 where
  value : Reservation → Response
  failed : Error → Response
  panicked : Response

-- The service's state. A channel of the loop that is nil is `false`; `ip_client` says whether an IP
-- operator is configured.
pub record State (I : Type 0) : Type 0 where
  pub ip_client : Bool
  pub inventory : Option I
  pub currinv : Option I
  pub invup : Option I
  pub reservations : List Reservation
  pub ip_available : ℕ
  pub ip_in_use : ℕ
  pub reserve_open : Bool
  pub checking : Bool
  pub timer : Bool
  pub available_external_ports : ℕ

pub data Event (I : Type 0) : Type 0 where
  -- The order, the group's name, and whether the deployment's status is `deployed`.
  cluster_deployment : OrderId → Text → Bool → Event I
  timer_fired : Event I
  reserve_request : OrderId → ResourceGroup → Event I
  lookup_request : OrderId → Text → Event I
  unreserve_request : OrderId → Event I
  inventory_result : Option I → Event I
  inventory_update : Event I
  -- The usage and the confirmed orders, or an error.
  check_result : Option ((ℕ × ℕ) × List OrderId) → Event I

-- The check of `inventoryService.reserve`, ahead of the loop.
pub check_units : ℕ → List ResourceUnit → Option Error
check_units idx [] = none
check_units idx (u ∷ us) =
    let rest = check_units (suc idx) us in
    elim u.cpu [
      | none ↦ some (invalid_resource idx)
      | some _ ↦ elim u.gpu [
        | none ↦ some (invalid_resource idx)
        | some _ ↦ elim u.memory [ none ↦ some (invalid_resource idx) | some _ ↦ rest ]
      ]
    ]
