-- ===== src/Cluster/Capacity/Takes.antt =====
-- What an attempt to place a replica takes from its node.
use rezerve.Base.{
  ℕ, ◌+◌, ◌-◌, ◌≤◌, ◌≡◌, refl, ◌∙◌, Bool, true, false, not, List, [], ◌∷◌, Option, none, some, Text,
  arith, if◌then◌else◌, if-both, if-cases, nat_beq, nat_eq, list_eq, Dict, Option-cases, Bool-cases,
  ◌⊎◌, inl, inr,
}
use rezerve.Cluster.Capacity.{placed, try_next_node, no_cluster_resources}
use rezerve.Cluster.Capacity.Node.{
  Pair, GpuInfo, GpuModelAttributes, Node, Storage, Claims, Request, SchedulerParams, Rules,
  gpu_matches, take_gpu, gpu_loop, try_adjust_gpu,
}
use rezerve.Cluster.Capacity.Fit.{
  Stored, stored, node_lacks, cluster_lacks, take_storage, Trial, commit_node, sidecar_memory,
  set_runtime_class, sidecar_cpu_limit_millicores, take_confidential, take_sidecar, take_memory,
  runtime_class, with_gpus, take_gpus,
}

-- What is not allocated.
abbrev pub room : Pair → ℕ
room p = p.allocatable - p.allocated

module _ (w : Rules) where
  -- `SubNLZ` allocates what is asked for, and only where there is room for it.
  abbrev pub Allocates : Type 0
  Allocates =
      (p : Pair) (v : ℕ) (p' : Pair)
      → w.sub_nlz p v ≡ some p'
      → (p'.allocatable ≡ p.allocatable)
        × (p'.allocated ≡ p.allocated + v)
        × (p'.allocated ≤ p'.allocatable)

  pub takes_room :
      Allocates → (p : Pair) (v : ℕ) (p' : Pair) → w.sub_nlz p v ≡ some p' → room p ≡ room p' + v
  takes_room law p v p' e = let (a, b, c) = law p v p' e in omega (arith, a, b, c)

  -- The amounts of CPU and GPUs stay as they are, and a placed replica takes so much.
  abbrev pub Uses : ℕ → ℕ → Node → Request → Trial w → Type 0
  Uses c g n r (r', placed n' s' claims params) =
      (r'.cpu ≡ r.cpu)
      × (r'.gpu ≡ r.gpu)
      × (room n.cpu ≡ room n'.cpu + c)
      × (room n.gpu ≡ room n'.gpu + g)
  Uses c g n r (r', _) = (r'.cpu ≡ r.cpu) × (r'.gpu ≡ r.gpu)

  -- The CPU of a sidecar.
  abbrev pub sidecar_cpu : ℕ
  sidecar_cpu = if w.is_cc then sidecar_cpu_limit_millicores else 0

  take_confidential-Uses :
      Allocates
      → (group : Text) (idx : ℕ) (claims : Claims) (r : Request) (n : Node) (s : Storage)
        (sparams : SchedulerParams)
      → Uses sidecar_cpu_limit_millicores 0 n r (take_confidential w group idx claims r n s sparams)
  unfolding take_confidential
  take_confidential-Uses law group idx claims r n s sparams =
      elim (Option-cases (w.sub_nlz n.cpu sidecar_cpu_limit_millicores)) [
        | inl e ↦ rw (take_confidential, e) (refl, refl)
        | inr (cpu, e) ↦
            elim (Option-cases (w.sub_nlz n.memory (sidecar_memory w sparams.runtime_class))) [
              | inl e' ↦ rw (take_confidential, e, e') (refl, refl)
              | inr (memory, e') ↦
                  rw (take_confidential, e, e')
                    (
                      refl,
                      refl,
                      takes_room law n.cpu sidecar_cpu_limit_millicores cpu e,
                      omega arith,
                    )
            ]
      ]

  take_sidecar-Uses :
      Allocates
      → (group : Text) (idx : ℕ) (claims : Claims) (r : Request) (n : Node) (s : Storage)
        (sparams : SchedulerParams)
      → Uses sidecar_cpu 0 n r (take_sidecar w group idx claims r n s sparams)
  unfolding take_sidecar
  take_sidecar-Uses law group idx claims r n s sparams = in_case w.is_cc
    where
      in_case :
          (b : Bool)
          → Uses (if b then sidecar_cpu_limit_millicores else 0) 0 n r (
              if not b
              then commit_node w group idx claims r n s sparams
              else take_confidential w group idx claims r n s (set_runtime_class w sparams))
      in_case true = take_confidential-Uses law group idx claims r n s (set_runtime_class w sparams)
      in_case false = (refl, refl, omega arith, omega arith)

  Stored-cases :
      (t : Stored)
      → (t ≡ node_lacks)
        ⊎ (t ≡ cluster_lacks)
        ⊎ ((m : Pair) × (e : Pair) × (s : Storage) × (t ≡ stored m e s))
  Stored-cases node_lacks = inl refl
  Stored-cases cluster_lacks = inr (inl refl)
  Stored-cases (stored m e s) = inr (inr (m, e, s, refl))

  take_memory-Uses :
      Allocates
      → (group : Text) (idx : ℕ) (claims : Claims) (r : Request) (n : Node) (s : Storage)
        (sparams : SchedulerParams)
      → Uses sidecar_cpu 0 n r (take_memory w group idx claims r n s sparams)
  unfolding take_memory
  take_memory-Uses law group idx claims r n s sparams =
      elim (Option-cases (w.sub_nlz n.memory r.memory)) [
        | inl e ↦ rw (take_memory, e) (refl, refl)
        | inr (memory, e) ↦
            elim (Stored-cases
              (take_storage w n.capabilities r.storage memory n.ephemeral_storage s)) [
                | inl e' ↦ rw (take_memory, e, e') (refl, refl)
                | inr (inl e') ↦ rw (take_memory, e, e') (refl, refl)
                | inr (inr (memory', ephemeral, s', e')) ↦
                    rw (take_memory, e, e')
                      (take_sidecar-Uses law group idx claims r
                        (record n { memory = memory'; ephemeral_storage = ephemeral }) s' sparams)
              ]
      ]

  -- The search for GPUs takes as many as are asked for, and changes the attributes at most.
  abbrev Searched : Pair → Request → Request × Option (Pair × Option (Text × Text)) → Type 0
  Searched pair r (r', none) = (r'.cpu ≡ r.cpu) × (r'.gpu ≡ r.gpu)
  Searched pair r (r', some (pair', model)) =
      (r'.cpu ≡ r.cpu) × (r'.gpu ≡ r.gpu) × (room pair ≡ room pair' + r.gpu)

  take_gpu-Searched :
      Allocates
      → (pair : Pair) (r : Request) (info : GpuInfo) (asked : Option GpuModelAttributes)
      → Searched pair r (take_gpu w pair r info asked)
  unfolding take_gpu
  take_gpu-Searched law pair r info asked = elim (Option-cases (w.sub_nlz pair r.gpu)) [
    | inl e ↦ rw (take_gpu, e) (refl, refl)
    | inr (pair', e) ↦ rw (take_gpu, e) (refl, refl, takes_room law pair r.gpu pair' e)
  ]

  gpu_loop-Searched :
      Allocates
      → (attrs : Dict Text (Dict Text (Option GpuModelAttributes))) (pair : Pair) (r : Request)
        (left : ℕ) (infos : List GpuInfo)
      → Searched pair r (gpu_loop w attrs pair r left infos)
  unfolding gpu_loop
  gpu_loop-Searched law attrs pair r left [] = (refl, refl)
  gpu_loop-Searched law attrs pair r left (info ∷ more) =
      elim (Option-cases (gpu_matches w attrs info)) [
        | inl e ↦ rw (gpu_loop, e) (gpu_loop-Searched law attrs pair r left more)
        | inr (asked, e) ↦ elim (Bool-cases (nat_beq left 1)) [
          | inl last ↦ rw (gpu_loop, e, last) (take_gpu-Searched law pair r info asked)
          | inr some_left ↦
              rw (gpu_loop, e, some_left) (gpu_loop-Searched law attrs pair r (left - 1) more)
        ]
      ]

  try_adjust_gpu-Searched :
      Allocates → (n : Node) (r : Request) → Searched n.gpu r (try_adjust_gpu w n r)
  unfolding try_adjust_gpu
  try_adjust_gpu-Searched law n r =
      if-cases (Searched n.gpu r) (nat_beq r.gpu 0) (λ zero. (refl, refl, ground (arith, zero)))
        (λ _.
          if-both (Searched n.gpu r) (nat_beq (w.available n.gpu) 0) (refl, refl)
            (parsed (w.parse_gpu_attributes r.gpu_attributes)))
    where
      parsed :
          (o : Option (Dict Text (Dict Text (Option GpuModelAttributes))))
          → Searched n.gpu r
              (elim o [ none ↦ (r, none) | some attrs ↦ gpu_loop w attrs n.gpu r r.gpu n.gpu_info ])
      parsed none = (refl, refl)
      parsed (some attrs) = gpu_loop-Searched law attrs n.gpu r r.gpu n.gpu_info

  pub take_gpus-Uses :
      Allocates
      → (group : Text) (idx : ℕ) (claims : Claims) (r : Request) (n : Node) (s : Storage)
        (interconnect : Option (ℕ × Text × Text))
      → Uses sidecar_cpu r.gpu n r (take_gpus w group idx claims r n s interconnect)
  unfolding take_gpus
  take_gpus-Uses law group idx claims r n s interconnect =
      found (try_adjust_gpu w n r) (try_adjust_gpu-Searched law n r)
    where
      goes_on :
          (r' : Request) (n' : Node) (t : Trial w)
          → r'.cpu ≡ r.cpu
          → r'.gpu ≡ r.gpu
          → room n.gpu ≡ room n'.gpu + r.gpu
          → n'.cpu ≡ n.cpu
          → Uses sidecar_cpu 0 n' r' t
          → Uses sidecar_cpu r.gpu n r t
      goes_on r' n' (r'', placed n'' s'' claims' params) a b g same (a', b', x, y) =
          (a' ∙ a, b' ∙ b, rw same at x, omega (arith, g, y))
      goes_on r' n' (r'', try_next_node) a b g same (a', b') = (a' ∙ a, b' ∙ b)
      goes_on r' n' (r'', no_cluster_resources) a b g same (a', b') = (a' ∙ a, b' ∙ b)

      found :
          (x : Request × Option (Pair × Option (Text × Text)))
          → Searched n.gpu r x
          → Uses sidecar_cpu r.gpu n r (with_gpus w group idx claims n s interconnect x)
      found (r', none) (a, b) = (a, b)
      found (r', some (gpu, model)) (a, b, g) =
          let sparams : SchedulerParams = record {
            runtime_class = runtime_class w model;
            gpu = model;
            interconnect = interconnect;
          } in
          goes_on r' (record n { gpu = gpu })
            (take_memory w group idx claims r' (record n { gpu = gpu }) s sparams) a b g refl
            (take_memory-Uses law group idx claims r' (record n { gpu = gpu }) s sparams)
