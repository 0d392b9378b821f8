-- ===== src/Cluster/Capacity/Node.antt =====
-- provider/cluster/kube/operators/clients/inventory: a node and a request, and the adjustment of the CPU,
-- the GPUs and their interconnect (inventory.go, interconnect.go). The quantities of a node are those of its sanitized copy.
use rezerve.Base.{
  ℕ, ◌-◌, Bool, true, false, not, ◌&&◌, ◌||◌, List, [], ◌∷◌, ◌++◌, Option, none, some, Text, bytes,
  if◌then◌else◌, nat_beq, nat_eq, list_eq, ◌==◌, Dict, lookup, insert, contains, to_lower,
}

abbrev pub Attributes : Type 0
Attributes = List (Text × Text)

pub record Pair : Type 0 where
  pub allocatable : ℕ
  pub allocated : ℕ

pub record GpuInfo : Type 0 where
  pub vendor : Text
  pub name : Text
  pub interface : Text
  pub memory_size : Text

pub record Capabilities : Type 0 where
  pub interconnect_fabric : Text
  pub interconnect_resource_name : Text
  pub storage_classes : List Text

-- `cpu_arch` is that of the first CPU's info, the empty text where there is none.
pub record Node : Type 0 where
  pub cpu_arch : Text
  pub cpu : Pair
  pub gpu_info : List GpuInfo
  pub gpu : Pair
  pub gpu_interconnect : Pair
  pub memory : Pair
  pub ephemeral_storage : Pair
  pub capabilities : Capabilities

-- The cluster's storage: classes with their quantities.
abbrev pub Storage : Type 0
Storage = List (Text × Pair)

-- The nodes that the interconnect groups have claimed.
abbrev pub Claims : Type 0
Claims = Dict Text (List ℕ)

-- What one replica of a service asks for; its CPU in thousandths.
pub record Request : Type 0 where
  pub cpu : ℕ
  pub cpu_attributes : Attributes
  pub gpu : ℕ
  pub gpu_attributes : Attributes
  pub memory : ℕ
  pub storage : List (ℕ × Attributes)

-- The attributes of a GPU model that a tenant may ask for; an empty text is not asked for.
pub record GpuModelAttributes : Type 0 where
  pub ram : Text
  pub interface : Text

-- The scheduler's parameters: the runtime class, the GPU's vendor and model, the fabric and the
-- resource name of its interconnect and how many are asked for.
pub record SchedulerParams : Type 0 where
  pub runtime_class : Text
  pub gpu : Option (Text × Text)
  pub interconnect : Option (ℕ × Text × Text)

-- The quantities' operations (`SubNLZ` also where it is of thousandths), the parsers of attributes, and
-- what the call is given: the fabric that is required, whether there is a TEE, and its runtime class.
pub record Rules : Type 0 where
  pub sub_nlz : Pair → ℕ → Option Pair
  pub available : Pair → ℕ
  pub parse_gpu_attributes : Attributes → Option (Dict Text (Dict Text (Option GpuModelAttributes)))
  pub parse_storage_attributes : Attributes → Option (Bool × Text)
  pub filter_gpu_interface : Text → Text
  pub required_fabric : Text
  pub is_cc : Bool
  pub tee_runtime_class : Text
  pub is_with_gpu : Text → Bool
  pub is_storage_class_supported : Capabilities → Text → Bool
  pub is_valid_label_value : Text → Bool

unfoldable pub resource_interconnect_group : Attributes → Option Text
resource_interconnect_group [] = none
resource_interconnect_group ((key, val) ∷ more) =
    let rest = resource_interconnect_group more in
    if key == bytes "interconnect/group" then some val else rest

abbrev pub group_or_empty : Option Text → Text
group_or_empty none = []
group_or_empty (some g) = g

abbrev pub is_some {ℓ} : {A : Type ℓ} → Option A → Bool
is_some none = false
is_some (some x) = true

unfoldable pub interconnect_caps_suitable : Capabilities → Text → Bool
interconnect_caps_suitable caps fabric =
    not ((caps.interconnect_fabric == []) || (caps.interconnect_resource_name == []))
    && ((fabric == []) || (caps.interconnect_fabric == fabric))

abbrev pub nodes_of : Option (List ℕ) → List ℕ
nodes_of none = []
nodes_of (some ns) = ns

abbrev pub is_claimed : Text → ℕ → Claims → Bool
is_claimed group idx claims = not (group == []) && contains idx (nodes_of (lookup group claims))

abbrev pub claim : Text → ℕ → Claims → Claims
claim group idx claims =
    if group == [] then claims else insert group (idx ∷ nodes_of (lookup group claims)) claims

abbrev pub exists_or_wildcard :
    Dict Text (Option GpuModelAttributes) → Text → Option (Option GpuModelAttributes)
exists_or_wildcard models name = elim (lookup name models) [
  | some attr ↦ some attr
  | none ↦ lookup (bytes "*") models
]

abbrev pub is_empty {ℓ} : {A : Type ℓ} → List A → Bool
is_empty [] = true
is_empty (x ∷ xs) = false

-- The architecture that the attributes ask for, after those before; no other attribute is known.
parse_cpu_attributes : Text → Attributes → Option Text
parse_cpu_attributes arch [] = some arch
parse_cpu_attributes arch ((key, val) ∷ more) =
    let rest = parse_cpu_attributes val more in
    if (key == bytes "arch") && ((val == bytes "amd64") || (val == bytes "arm64"))
    then rest
    else none

module _ (w : Rules) where
  unfoldable pub try_adjust_cpu : Node → Request → Option Pair
  unfolding parse_cpu_attributes
  try_adjust_cpu n r =
      elim (if is_empty r.cpu_attributes
        then some []
        else parse_cpu_attributes [] r.cpu_attributes) [
          | none ↦ none
          | some arch ↦
              let requested = if arch == [] then bytes "amd64" else arch in
              if not (n.cpu_arch == []) && not (n.cpu_arch == requested)
              then none
              else w.sub_nlz n.cpu r.cpu
        ]

  -- The interconnect of a GPU for each unit, where the resource asks for one.
  unfoldable pub try_adjust_interconnect :
      Bool → Node → Request → Option (Pair × Option (ℕ × Text × Text))
  try_adjust_interconnect required n r =
      if not required
      then some (n.gpu_interconnect, none)
      else if not (interconnect_caps_suitable n.capabilities w.required_fabric)
      then none
      else elim (w.sub_nlz n.gpu_interconnect r.gpu) [
        | none ↦ none
        | some pair ↦ some (
          pair,
          some (
            r.gpu, n.capabilities.interconnect_resource_name, n.capabilities.interconnect_fabric,
          ),
        )
      ]

  -- Whether a GPU is one that is asked for, with what was asked.
  unfoldable pub gpu_matches :
      Dict Text (Dict Text (Option GpuModelAttributes))
      → GpuInfo
      → Option (Option GpuModelAttributes)
  gpu_matches attrs info = elim (lookup info.vendor attrs) [
    | none ↦ none
    | some models ↦ elim (exists_or_wildcard models info.name) [
      | none ↦ none
      | some none ↦ some none
      | some (some attr) ↦
          if not (attr.ram == []) && not (attr.ram == info.memory_size)
          then none
          else if not (attr.interface == [])
              && not (attr.interface == w.filter_gpu_interface info.interface)
          then none
          else some (some attr)
    ]
  ]

  abbrev pub gpu_key : GpuInfo → Option GpuModelAttributes → Text
  gpu_key info asked =
      let key = bytes "vendor/" ++ to_lower info.vendor ++ bytes "/model/" ++ info.name in
      elim asked [
        | none ↦ key
        | some attr ↦
            key
            ++ (if attr.ram == [] then [] else bytes "/ram/" ++ attr.ram)
            ++ (if attr.interface == [] then [] else bytes "/interface/" ++ attr.interface)
      ]

  -- The end of the search: the GPUs are taken and the attributes replaced, or there are too few.
  unfoldable pub take_gpu :
      Pair
      → Request
      → GpuInfo
      → Option GpuModelAttributes
      → Request × Option (Pair × Option (Text × Text))
  take_gpu pair r info asked = elim (w.sub_nlz pair r.gpu) [
    | none ↦ (r, none)
    | some pair' ↦ (
      record r { gpu_attributes = (gpu_key info asked, bytes "true") ∷ [] },
      some (pair', some (to_lower info.vendor, info.name)),
    )
  ]

  -- The search for as many GPUs that match as are `left`.
  unfoldable pub gpu_loop :
      Dict Text (Dict Text (Option GpuModelAttributes))
      → Pair
      → Request
      → ℕ
      → List GpuInfo
      → Request × Option (Pair × Option (Text × Text))
  unfolding gpu_matches take_gpu
  gpu_loop attrs pair r left [] = (r, none)
  gpu_loop attrs pair r left (info ∷ more) = elim (gpu_matches attrs info) [
    | none ↦ gpu_loop attrs pair r left more
    | some asked ↦ elim (nat_beq left 1) [
      | true ↦ take_gpu pair r info asked
      | false ↦ gpu_loop attrs pair r (left - 1) more
    ]
  ]

  unfoldable pub try_adjust_gpu : Node → Request → Request × Option (Pair × Option (Text × Text))
  unfolding gpu_loop
  try_adjust_gpu n r =
      if nat_beq r.gpu 0
      then (r, some (n.gpu, none))
      else if nat_beq (w.available n.gpu) 0
      then (r, none)
      else elim (w.parse_gpu_attributes r.gpu_attributes) [
        | none ↦ (r, none)
        | some attrs ↦ gpu_loop attrs n.gpu r r.gpu n.gpu_info
      ]
