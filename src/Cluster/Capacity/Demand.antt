-- ===== src/Cluster/Capacity/Demand.antt =====
-- What an adjustment takes from the nodes: `adjust` with `tryAdjust`.
use rezerve.Base.{
  ℕ, ◌+◌, ◌≡◌, refl, Bool, not, ◌&&◌, List, Option, none, some, Text, arith, if-both, nat_eq,
  list_eq,
}
use rezerve.Cluster.Capacity.{
  placed, try_next_node, no_cluster_resources, Resources, Inventory, adjust,
}
use rezerve.Cluster.Capacity.Conserved.{Measure, Attempted, Fits, Adjusted, adjust-Adjusted}
use rezerve.Cluster.Capacity.Node.{
  Pair, Node, Storage, Claims, Request, Rules, resource_interconnect_group, group_or_empty, is_some,
  interconnect_caps_suitable, is_claimed, try_adjust_cpu, try_adjust_interconnect,
}
use rezerve.Cluster.Capacity.Fit.{Trial, take_gpus, try_adjust, placement}
use rezerve.Cluster.Capacity.Takes.{room, Allocates, takes_room, Uses, sidecar_cpu, take_gpus-Uses}

module _ (w : Rules) where
  try_adjust_cpu_lem :
      Allocates w
      → (n : Node) (r : Request) (cpu : Pair) → try_adjust_cpu w n r ≡ some cpu
      → room n.cpu ≡ room cpu + r.cpu
  unfolding try_adjust_cpu
  try_adjust_cpu_lem law n r cpu e = takes_room w law n.cpu r.cpu cpu (ground (arith, e))

  try_adjust-Uses :
      Allocates w
      → (first : Request) (idx : ℕ) (n : Node) (s : Storage) (claims : Claims) (r : Request)
      → Uses w (r.cpu + sidecar_cpu w) r.gpu n r (try_adjust w first idx n s claims r)
  unfolding try_adjust
  try_adjust-Uses law first idx n s claims r =
      let group = group_or_empty (resource_interconnect_group first.gpu_attributes) in
      let required = is_some (resource_interconnect_group first.gpu_attributes) in
      if-both (Uses w (r.cpu + sidecar_cpu w) r.gpu n r) (is_claimed group idx claims) (refl, refl)
        (if-both (Uses w (r.cpu + sidecar_cpu w) r.gpu n r)
          (required && not (interconnect_caps_suitable n.capabilities w.required_fabric))
          (refl, refl) (with_cpu (try_adjust_cpu w n r) (try_adjust_cpu_lem law n r)))
    where
      taken :
          (cpu pair : Pair) (t : Trial w)
          → room n.cpu ≡ room cpu + r.cpu
          → Uses w (sidecar_cpu w) r.gpu (record n { cpu = cpu; gpu_interconnect = pair }) r t
          → Uses w (r.cpu + sidecar_cpu w) r.gpu n r t
      taken cpu pair (r', placed n' s' claims' params) h (a, b, x, y) =
          (a, b, omega (arith, h, x), y)
      taken cpu pair (r', try_next_node) h (a, b) = (a, b)
      taken cpu pair (r', no_cluster_resources) h (a, b) = (a, b)

      with_interconnect :
          (cpu : Pair)
          → room n.cpu ≡ room cpu + r.cpu
          → (o : Option (Pair × Option (ℕ × Text × Text)))
          → Uses w (r.cpu + sidecar_cpu w) r.gpu n r (elim o [
            | none ↦ (r, try_next_node)
            | some (pair, interconnect) ↦
                take_gpus w
                  (group_or_empty (resource_interconnect_group first.gpu_attributes))
                  idx
                  claims
                  r
                  (record n { cpu = cpu; gpu_interconnect = pair })
                  s
                  interconnect
          ])
      with_interconnect cpu h none = (refl, refl)
      with_interconnect cpu h (some (pair, interconnect)) =
          let group = group_or_empty (resource_interconnect_group first.gpu_attributes) in
          let n' = record n { cpu = cpu; gpu_interconnect = pair } in
          taken cpu pair (take_gpus w group idx claims r n' s interconnect) h
            (take_gpus-Uses w law group idx claims r n' s interconnect)

      with_cpu :
          (o : Option Pair)
          → ((cpu : Pair) → o ≡ some cpu → room n.cpu ≡ room cpu + r.cpu)
          → Uses w (r.cpu + sidecar_cpu w) r.gpu n r (elim o [
            | none ↦ (r, try_next_node)
            | some cpu ↦
                elim (try_adjust_interconnect w
                  (is_some (resource_interconnect_group first.gpu_attributes))
                  n
                  r) [
                    | none ↦ (r, try_next_node)
                    | some (pair, interconnect) ↦
                        take_gpus w
                          (group_or_empty (resource_interconnect_group first.gpu_attributes))
                          idx
                          claims
                          r
                          (record n { cpu = cpu; gpu_interconnect = pair })
                          s
                          interconnect
                  ]
          ])
      with_cpu none h = (refl, refl)
      with_cpu (some cpu) h = with_interconnect cpu (h cpu refl) (
          try_adjust_interconnect w (is_some (resource_interconnect_group first.gpu_attributes)) n
            r)

  -- The free CPU, with what a replica and its sidecar ask for.
  abbrev pub cpu_measure : Measure Node Storage Request
  cpu_measure = record {
    node_free = λ n. room n.cpu;
    storage_free = λ s. 0;
    demand = λ r. r.cpu + sidecar_cpu w;
  }

  -- The free GPUs.
  abbrev pub gpu_measure : Measure Node Storage Request
  gpu_measure = record { node_free = λ n. room n.gpu; storage_free = λ s. 0; demand = λ r. r.gpu }

  cpu_fits : Allocates w → Fits (placement w) cpu_measure
  unfolding placement
  cpu_fits law first idx n s claims r =
      fits (try_adjust w first idx n s claims r) (try_adjust-Uses law first idx n s claims r)
    where
      fits :
          (t : Trial w)
          → Uses w (r.cpu + sidecar_cpu w) r.gpu n r t
          → Attempted (placement w) cpu_measure n s r t
      fits (r', placed n' s' claims' params) (a, b, x, y) = (omega (arith, a), omega (arith, x))
      fits (r', try_next_node) (a, b) = omega (arith, a)
      fits (r', no_cluster_resources) (a, b) = omega (arith, a)

  gpu_fits : Allocates w → Fits (placement w) gpu_measure
  unfolding placement
  gpu_fits law first idx n s claims r =
      fits (try_adjust w first idx n s claims r) (try_adjust-Uses law first idx n s claims r)
    where
      fits :
          (t : Trial w)
          → Uses w (r.cpu + sidecar_cpu w) r.gpu n r t
          → Attempted (placement w) gpu_measure n s r t
      fits (r', placed n' s' claims' params) (a, b, x, y) = (b, omega (arith, y))
      fits (r', try_next_node) (a, b) = b
      fits (r', no_cluster_resources) (a, b) = b

  -- An adjustment that succeeds takes from the nodes the CPU that all the replicas ask for, with
  -- that of their sidecars, no more and no less, and there was as much; the same holds of the GPUs. A
  -- dry run takes nothing, and an adjustment that fails leaves the inventory as it was.
  pub adjust_takes_demand :
      Allocates w
      → (dry_run : Bool) (us : List (Resources Request)) (inv : Inventory Node Storage)
      → Adjusted (placement w) cpu_measure dry_run us inv (adjust (placement w) dry_run us inv)
        × Adjusted (placement w) gpu_measure dry_run us inv (adjust (placement w) dry_run us inv)
  adjust_takes_demand law dry_run us inv = (
    adjust-Adjusted (placement w) cpu_measure (cpu_fits law) dry_run us inv,
    adjust-Adjusted (placement w) gpu_measure (gpu_fits law) dry_run us inv,
  )
