-- ===== src/Cluster/Capacity.antt =====
-- provider/cluster/kube/operators/clients/inventory/inventory.go: `Adjust`, which places the replicas
-- of a reservation on the nodes. `tryAdjust`, the attempt to place one, is an argument.
pub mod Conserved
pub mod Node
pub mod Fit
pub mod Takes
pub mod Demand
mod Tests
use rezerve.Base.{
  ℕ, zero, suc, ◌+◌, ◌≡◌, Bool, true, false, not, ◌&&◌, List, [], ◌∷◌, ◌++◌, Option, none, some,
  Text, if◌then◌else◌, nat_beq, nat_eq, Result, ok, err, all, Dict, lookup, insert,
}

pub data Error : Type 0 where
  insufficient_capacity group_resource_mismatch invalid_interconnect_group : Error

-- A service's resources, with its replicas.
pub record Resources (R : Type 0) : Type 0 where
  pub id : ℕ
  pub count : ℕ
  pub resources : R

-- What an attempt to place a replica comes to: the node and the storage with what it takes, the
-- claims of the interconnect groups and the scheduler's parameters; another node may serve; or none.
pub data Tried (Node Storage Claims Params : Type 0) : Type 0 where
  placed : Node → Storage → Claims → Params → Tried Node Storage Claims Params
  try_next_node no_cluster_resources : Tried Node Storage Claims Params

-- The clone that an adjustment works on.
pub record Inventory (Node Storage : Type 0) : Type 0 where
  pub nodes : List Node
  pub storage : Storage

-- `tryAdjust` of the resources as they were at first, on the node with the index, of the resources as
-- they are adjusted by now, which it may adjust further also when it fails; and what is compared.
pub record Placement (Node Storage Claims Params R : Type 0) : Type 0 where
  pub try_adjust : R → ℕ → Node → Storage → Claims → R → R × Tried Node Storage Claims Params
  pub no_claims : Claims
  pub same_resources : R → R → Bool
  pub same_params : Params → Option Params → Bool
  pub is_valid_group : R → Bool

-- How the replicas of a service do on one node.
pub data Walk (Node Storage Claims Params R : Type 0) : Type 0 where
  filled : Node → Storage → Claims → R → Dict ℕ Params → Walk Node Storage Claims Params R
  goes_next : Node → Storage → Claims → R → Dict ℕ Params → ℕ → Walk Node Storage Claims Params R
  breaks : Error → Walk Node Storage Claims Params R

module _ {Node Storage Claims Params R : Type 0} (p : Placement Node Storage Claims Params R) where
  -- The loop over the replicas that are left, on one node. `first`: none was placed before this node,
  -- so `adjusted` itself is adjusted, else a copy, which must come out as the first one did.
  pub replicas :
      Bool
      → Resources R
      → ℕ
      → ℕ
      → Node
      → Storage
      → Claims
      → R
      → R
      → Dict ℕ Params
      → Walk Node Storage Claims Params R
  replicas first u idx zero n s c local adjusted params =
      filled n s c (if first then local else adjusted) params
  replicas first u idx (suc k) n s c local adjusted params =
      let (res, tried) = p.try_adjust u.resources idx n s c local in
      elim tried [
        | no_cluster_resources ↦ breaks insufficient_capacity
        | try_next_node ↦ goes_next n s c (if first then res else adjusted) params (suc k)
        | placed n' s' c' sparams ↦ elim first [
          | true ↦ replicas true u idx k n' s' c' res adjusted (insert u.id sparams params)
          | false ↦
              elim (p.same_resources res adjusted && p.same_params sparams (lookup u.id params)) [
                | false ↦ breaks group_resource_mismatch
                | true ↦ replicas false u idx k n' s' c' res adjusted params
              ]
        ]
      ]

  -- What is left of the inventory, with the resources as adjusted and the cluster parameters.
  abbrev pub Outcome : Type 0
  Outcome = Result Error (List Node × Storage × Claims × R × Dict ℕ Params)

  abbrev pub with_node : Node → Outcome → Outcome
  with_node n (err e) = err e
  with_node n (ok (ns, s, c, res, params)) = ok (n ∷ ns, s, c, res, params)

  -- `rest` goes on with the next node.
  abbrev pub walk_on :
      List Node
      → (Storage → Claims → R → Dict ℕ Params → ℕ → Outcome)
      → Walk Node Storage Claims Params R
      → Outcome
  walk_on ns rest (filled n s c res params) = ok (n ∷ ns, s, c, res, params)
  walk_on ns rest (breaks e) = err e
  walk_on ns rest (goes_next n s c res params k) = with_node n (rest s c res params k)

  -- The nodes from an index on, for the replicas of a service that are left.
  pub place : Resources R → ℕ → ℕ → List Node → Storage → Claims → R → Dict ℕ Params → Outcome
  unfolding replicas
  place u idx k [] s c adjusted params = err insufficient_capacity
  place u idx k (n ∷ ns) s c adjusted params =
      walk_on ns (λ s' c' res params' k'. place u (suc idx) k' ns s' c' res params')
        (replicas (nat_beq u.count k) u idx k n s c adjusted adjusted params)

  abbrev pub AllOutcome : Type 0
  AllOutcome = Result Error (List Node × Storage × Claims × List (Resources R) × Dict ℕ Params)

  abbrev pub adjusted_first : Resources R → List (Resources R) → Outcome → AllOutcome
  adjusted_first u done (err e) = err e
  adjusted_first u done (ok (ns, s, c, res, params)) =
      ok (ns, s, c, record u { resources = res } ∷ done, params)

  abbrev pub also_placed :
      Resources R
      → (List Node → Storage → Claims → Dict ℕ Params → Outcome)
      → AllOutcome
      → AllOutcome
  also_placed u rest (err e) = err e
  also_placed u rest (ok (ns, s, c, done, params)) = adjusted_first u done (rest ns s c params)

  -- The services one after the other, the last one first, each from the first node on.
  pub place_all : List (Resources R) → List Node → Storage → Claims → Dict ℕ Params → AllOutcome
  unfolding place
  place_all [] ns s c params = ok (ns, s, c, [], params)
  place_all (u ∷ us) ns s c params =
      also_placed u (λ ns' s' c' params'. place u 0 u.count ns' s' c' u.resources params')
        (place_all us ns s c params)

  -- The end of an adjustment: the clone is kept, unless this is a dry run.
  abbrev pub commit :
      Bool
      → Inventory Node Storage
      → AllOutcome
      → Inventory Node Storage × Result Error (List (Resources R) × Dict ℕ Params)
  commit dry_run inv (err e) = (inv, err e)
  commit dry_run inv (ok (ns, s, c, done, params)) =
      (if dry_run then inv else record { nodes = ns; storage = s }, ok (done, params))

  -- The reservation's resources as they are adjusted, and its cluster parameters.
  pub adjust :
      Bool
      → List (Resources R)
      → Inventory Node Storage
      → Inventory Node Storage × Result Error (List (Resources R) × Dict ℕ Params)
  unfolding place_all
  adjust dry_run us inv =
      if not (all (λ u. p.is_valid_group u.resources) us)
      then (inv, err invalid_interconnect_group)
      else commit dry_run inv (place_all us inv.nodes inv.storage p.no_claims [])
