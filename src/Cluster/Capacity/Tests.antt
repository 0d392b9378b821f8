-- ===== src/Cluster/Capacity/Tests.antt =====
-- Two nodes with a GPU of another model each, and a replica that any model serves.
use rezerve.Base.{
  ℕ, ◌+◌, ◌-◌, ◌≡◌, refl, Bool, true, false, List, [], ◌∷◌, Option, none, some, Text, bytes, arith,
  leb, nat_eq, list_eq, ◌==◌, if◌then◌else◌, Result, ok, err, Dict, lookup, to_lower,
}
use rezerve.Cluster.Capacity.{
  insufficient_capacity, Resources, Inventory, replicas, place, place_all, adjust,
}
use rezerve.Cluster.Capacity.Conserved.{Adjusted}
use rezerve.Cluster.Capacity.Node.{
  Attributes, Pair, GpuModelAttributes, Node, Storage, Request, Rules, resource_interconnect_group,
  try_adjust_cpu, try_adjust_interconnect, gpu_matches, take_gpu, gpu_loop, try_adjust_gpu,
}
use rezerve.Cluster.Capacity.Fit.{
  take_storage, take_volume, take_sidecar, take_memory, take_gpus, try_adjust, placement,
}
use rezerve.Cluster.Capacity.Takes.{Allocates}
use rezerve.Cluster.Capacity.Demand.{cpu_measure, gpu_measure, adjust_takes_demand}

abbrev sub_nlz : Pair → ℕ → Option Pair
sub_nlz p v =
    if leb (p.allocated + v) p.allocatable
    then some (record p { allocated = p.allocated + v })
    else none

abbrev parse_gpu : Attributes → Option (Dict Text (Dict Text (Option GpuModelAttributes)))
parse_gpu [] = none
parse_gpu ((key, val) ∷ more) =
    if key == bytes "vendor/nvidia/model/*"
    then some ((bytes "nvidia", (bytes "*", none) ∷ []) ∷ [])
    else if key == bytes "vendor/nvidia/model/a100"
    then some ((bytes "nvidia", (bytes "a100", none) ∷ []) ∷ [])
    else none

abbrev rules : Rules
rules = record {
  sub_nlz = sub_nlz;
  available = λ p. p.allocatable - p.allocated;
  parse_gpu_attributes = parse_gpu;
  parse_storage_attributes = λ a. some (false, []);
  filter_gpu_interface = λ t. t;
  required_fabric = [];
  is_cc = false;
  tee_runtime_class = [];
  is_with_gpu = λ t. false;
  is_storage_class_supported = λ caps class. false;
  is_valid_label_value = λ t. true;
}

abbrev all_of : ℕ → Pair
all_of n = record { allocatable = n; allocated = 0 }

abbrev node : Text → ℕ → Node
node model memory = record {
  cpu_arch = [];
  cpu = all_of 4000;
  gpu_info =
      record { vendor = bytes "nvidia"; name = model; interface = []; memory_size = [] } ∷ [];
  gpu = all_of 1;
  gpu_interconnect = all_of 0;
  memory = all_of memory;
  ephemeral_storage = all_of 100;
  capabilities = record {
    interconnect_fabric = [];
    interconnect_resource_name = [];
    storage_classes = [];
  };
}

abbrev replica : Request
replica = record {
  cpu = 1000;
  cpu_attributes = [];
  gpu = 1;
  gpu_attributes = (bytes "vendor/nvidia/model/*", bytes "true") ∷ [];
  memory = 50;
  storage = (10, []) ∷ [];
}

abbrev services : List (Resources Request)
services = record { id = 1; count = 1; resources = replica } ∷ []

abbrev cluster : List Node → Inventory Node Storage
cluster nodes = record { nodes = nodes; storage = [] }

sub_nlz-Allocates : Allocates rules
sub_nlz-Allocates p v p' e = ground (arith, e)

adjust_takes_demand_example :
    Adjusted
      (placement rules)
      (cpu_measure rules)
      false
      services
      (cluster (node (bytes "h100") 80 ∷ []))
      (adjust (placement rules) false services (cluster (node (bytes "h100") 80 ∷ [])))
    × Adjusted
        (placement rules)
        (gpu_measure rules)
        false
        services
        (cluster (node (bytes "h100") 80 ∷ []))
        (adjust (placement rules) false services (cluster (node (bytes "h100") 80 ∷ [])))
adjust_takes_demand_example =
    adjust_takes_demand rules sub_nlz-Allocates false services
      (cluster (node (bytes "h100") 80 ∷ []))

abbrev is_ok {ℓ κ} : {E : Type ℓ} {A : Type κ} → Result E A → Bool
is_ok (ok a) = true
is_ok (err e) = false

fits_alone :
    is_ok (adjust (placement rules) false services (cluster (node (bytes "h100") 80 ∷ []))).1 ≡ true
unfolding adjust place_all place replicas placement try_adjust take_gpus take_memory take_sidecar
    take_storage take_volume resource_interconnect_group try_adjust_cpu try_adjust_interconnect
    try_adjust_gpu gpu_loop gpu_matches take_gpu lookup to_lower
fits_alone = refl

-- The node before it has the GPU and too little memory; its model replaces the one that was asked for.
not_after_another :
    (adjust
      (placement rules)
      false
      services
      (cluster (node (bytes "a100") 20 ∷ node (bytes "h100") 80 ∷ []))).1
    ≡ err insufficient_capacity
unfolding adjust place_all place replicas placement try_adjust take_gpus take_memory take_sidecar
    take_storage take_volume resource_interconnect_group try_adjust_cpu try_adjust_interconnect
    try_adjust_gpu gpu_loop gpu_matches take_gpu lookup to_lower
not_after_another = refl
