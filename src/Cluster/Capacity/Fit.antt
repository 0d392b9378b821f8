-- ===== src/Cluster/Capacity/Fit.antt =====
-- provider/cluster/kube/operators/clients/inventory/inventory.go: `tryAdjust`, the attempt to place a
-- replica on a node.
use rezerve.Base.{
  ℕ, Bool, true, false, not, ◌&&◌, List, [], ◌∷◌, Option, none, some, Text, bytes, if◌then◌else◌,
  nat_beq, nat_eq, list_eq, ◌==◌,
}
use rezerve.Cluster.Capacity.{Tried, placed, try_next_node, no_cluster_resources, Placement}
use rezerve.Cluster.Capacity.Node.{
  Attributes, Pair, Capabilities, Node, Storage, Claims, Request, SchedulerParams, Rules,
  resource_interconnect_group, group_or_empty, is_some, interconnect_caps_suitable, is_claimed,
  claim, try_adjust_cpu, try_adjust_interconnect, try_adjust_gpu,
}

-- How the storage of a replica does: what is left of the node's memory and ephemeral storage and of
-- the cluster's storage.
pub data Stored : Type 0 where
  stored : Pair → Pair → Storage → Stored
  node_lacks cluster_lacks : Stored

abbrev pub sidecar_cpu_limit_millicores : ℕ
sidecar_cpu_limit_millicores = 100

abbrev pub sidecar_memory_limit_bytes : ℕ
sidecar_memory_limit_bytes = 67_108_864

abbrev pub sidecar_gpu_memory_limit_bytes : ℕ
sidecar_gpu_memory_limit_bytes = 134_217_728

module _ (w : Rules) where
  -- The first class of the name; `some none` where it has too little, `none` where there is no class.
  unfoldable pub take_class : Text → ℕ → Storage → Option (Option Storage)
  take_class name size [] = none
  take_class name size ((class, pair) ∷ more) =
      let rest = take_class name size more in
      if class == name
      then elim (w.sub_nlz pair size) [
        | none ↦ some none
        | some pair' ↦ some (some ((class, pair') ∷ more))
      ]
      else elim rest [
        | none ↦ none
        | some none ↦ some none
        | some (some more') ↦ some (some ((class, pair) ∷ more'))
      ]

  -- One volume: memory, ephemeral storage, or a class of the cluster that the node supports.
  unfoldable pub take_volume : Capabilities → ℕ × Attributes → Pair → Pair → Storage → Stored
  unfolding take_class
  take_volume caps (size, attributes) memory ephemeral classes =
      elim (w.parse_storage_attributes attributes) [
        | none ↦ cluster_lacks
        | some (persistent, class) ↦
            if not persistent
            then (if class == bytes "ram"
                then elim (w.sub_nlz memory size) [
                  | none ↦ node_lacks
                  | some memory' ↦ stored memory' ephemeral classes
                ]
                else elim (w.sub_nlz ephemeral size) [
                  | none ↦ node_lacks
                  | some ephemeral' ↦ stored memory ephemeral' classes
                ])
            else if not (w.is_storage_class_supported caps class)
            then node_lacks
            else elim (take_class class size classes) [
              | some (some classes') ↦ stored memory ephemeral classes'
              | _ ↦ cluster_lacks
            ]
      ]

  unfoldable pub take_storage :
      Capabilities → List (ℕ × Attributes) → Pair → Pair → Storage → Stored
  unfolding take_volume
  take_storage caps [] memory ephemeral classes = stored memory ephemeral classes
  take_storage caps (v ∷ vs) memory ephemeral classes =
      elim (take_volume caps v memory ephemeral classes) [
        | node_lacks ↦ node_lacks
        | cluster_lacks ↦ cluster_lacks
        | stored memory' ephemeral' classes' ↦ take_storage caps vs memory' ephemeral' classes'
      ]

  abbrev pub Trial : Type 0
  Trial = Request × Tried Node Storage Claims (Option SchedulerParams)

  abbrev pub is_plain : SchedulerParams → Bool
  is_plain sparams =
      (sparams.runtime_class == [])
      && not (is_some sparams.gpu)
      && not (is_some sparams.interconnect)

  abbrev pub commit_node : Text → ℕ → Claims → Request → Node → Storage → SchedulerParams → Trial
  commit_node group idx claims r n s sparams =
      (r, placed n s (claim group idx claims) (if is_plain sparams then none else some sparams))

  abbrev pub sidecar_memory : Text → ℕ
  sidecar_memory class =
      if w.is_with_gpu class then sidecar_gpu_memory_limit_bytes else sidecar_memory_limit_bytes

  abbrev pub set_runtime_class : SchedulerParams → SchedulerParams
  set_runtime_class sparams =
      if sparams.runtime_class == []
      then record sparams { runtime_class = w.tee_runtime_class }
      else sparams

  -- The CPU and the memory of a confidential replica's sidecar.
  unfoldable pub take_confidential :
      Text → ℕ → Claims → Request → Node → Storage → SchedulerParams → Trial
  take_confidential group idx claims r n s sparams =
      elim (w.sub_nlz n.cpu sidecar_cpu_limit_millicores) [
        | none ↦ (r, try_next_node)
        | some cpu ↦ elim (w.sub_nlz n.memory (sidecar_memory sparams.runtime_class)) [
          | none ↦ (r, try_next_node)
          | some memory ↦
              commit_node group idx claims r (record n { cpu = cpu; memory = memory }) s sparams
        ]
      ]

  unfoldable pub take_sidecar :
      Text → ℕ → Claims → Request → Node → Storage → SchedulerParams → Trial
  unfolding take_confidential
  take_sidecar group idx claims r n s sparams =
      if not w.is_cc
      then commit_node group idx claims r n s sparams
      else take_confidential group idx claims r n s (set_runtime_class sparams)

  -- What follows the GPU: memory and storage, with the node less what was taken so far.
  unfoldable pub take_memory :
      Text → ℕ → Claims → Request → Node → Storage → SchedulerParams → Trial
  unfolding take_storage take_sidecar
  take_memory group idx claims r n s sparams = elim (w.sub_nlz n.memory r.memory) [
    | none ↦ (r, try_next_node)
    | some memory ↦ elim (take_storage n.capabilities r.storage memory n.ephemeral_storage s) [
      | node_lacks ↦ (r, try_next_node)
      | cluster_lacks ↦ (r, no_cluster_resources)
      | stored memory' ephemeral s' ↦
          take_sidecar group idx claims r
            (record n { memory = memory'; ephemeral_storage = ephemeral }) s' sparams
    ]
  ]

  abbrev pub runtime_class : Option (Text × Text) → Text
  runtime_class none = []
  runtime_class (some (vendor, model)) =
      if w.is_cc
      then w.tee_runtime_class
      else if vendor == bytes "nvidia"
      then bytes "nvidia"
      else []

  -- What follows the search for GPUs.
  abbrev pub with_gpus :
      Text
      → ℕ
      → Claims
      → Node
      → Storage
      → Option (ℕ × Text × Text)
      → Request × Option (Pair × Option (Text × Text))
      → Trial
  with_gpus group idx claims n s interconnect (r, none) = (r, try_next_node)
  with_gpus group idx claims n s interconnect (r, some (gpu, model)) =
      take_memory group idx claims r (record n { gpu = gpu }) s
        (record { runtime_class = runtime_class model; gpu = model; interconnect = interconnect })

  unfoldable pub take_gpus :
      Text → ℕ → Claims → Request → Node → Storage → Option (ℕ × Text × Text) → Trial
  unfolding try_adjust_gpu take_memory
  take_gpus group idx claims r n s interconnect =
      with_gpus group idx claims n s interconnect (try_adjust_gpu w n r)

  -- `tryAdjust`, with the opt-in and the group read from the resources as they were at first.
  unfoldable pub try_adjust : Request → ℕ → Node → Storage → Claims → Request → Trial
  unfolding resource_interconnect_group interconnect_caps_suitable try_adjust_cpu
      try_adjust_interconnect take_gpus
  try_adjust first idx n s claims r =
      let group = resource_interconnect_group first.gpu_attributes in
      let required = is_some group in
      if is_claimed (group_or_empty group) idx claims
      then (r, try_next_node)
      else if required && not (interconnect_caps_suitable n.capabilities w.required_fabric)
      then (r, try_next_node)
      else elim (try_adjust_cpu w n r) [
        | none ↦ (r, try_next_node)
        | some cpu ↦ elim (try_adjust_interconnect w required n r) [
          | none ↦ (r, try_next_node)
          | some (pair, interconnect) ↦
              take_gpus (group_or_empty group) idx claims r
                (record n { cpu = cpu; gpu_interconnect = pair }) s interconnect
        ]
      ]

abbrev same_attributes : Attributes → Attributes → Bool
same_attributes [] [] = true
same_attributes ((a, b) ∷ xs) ((c, d) ∷ ys) = (a == c) && (b == d) && same_attributes xs ys
same_attributes _ _ = false

abbrev same_pair : Option (Text × Text) → Option (Text × Text) → Bool
same_pair none none = true
same_pair (some (a, b)) (some (c, d)) = (a == c) && (b == d)
same_pair _ _ = false

abbrev same_interconnect : Option (ℕ × Text × Text) → Option (ℕ × Text × Text) → Bool
same_interconnect none none = true
same_interconnect (some (i, a, b)) (some (j, c, d)) = nat_beq i j && (a == c) && (b == d)
same_interconnect _ _ = false

-- Parameters with the map's entry; an entry that is not there is nil.
abbrev pub same_params : Option SchedulerParams → Option (Option SchedulerParams) → Bool
same_params none none = true
same_params none (some none) = true
same_params (some a) (some (some b)) =
    (a.runtime_class == b.runtime_class)
    && same_pair a.gpu b.gpu
    && same_interconnect a.interconnect b.interconnect
same_params _ _ = false

-- What `Adjust` is given. Of a replica's resources only the attributes of its GPU are ever changed.
unfoldable pub placement : Rules → Placement Node Storage Claims (Option SchedulerParams) Request
unfolding try_adjust
placement w = record {
  try_adjust = try_adjust w;
  no_claims = [];
  same_resources = λ r r'. same_attributes r.gpu_attributes r'.gpu_attributes;
  same_params = same_params;
  is_valid_group = λ r. elim (resource_interconnect_group r.gpu_attributes) [
    | none ↦ true
    | some group ↦ w.is_valid_label_value group
  ];
}
