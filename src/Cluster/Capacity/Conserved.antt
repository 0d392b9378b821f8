-- ===== src/Cluster/Capacity/Conserved.antt =====
-- What an adjustment takes from the nodes and the storage.
use rezerve.Base.{
  ℕ, zero, suc, ◌+◌, ◌≤◌, ◌≡◌, refl, ◌∙◌, Bool, true, false, not, ◌&&◌, List, [], ◌∷◌, arith,
  if◌then◌else◌, nat_beq, nat_eq, Result, ok, err, all, Dict, lookup, insert, Bool-cases, if-both,
  ◌⊎◌, inl, inr,
}
use rezerve.Cluster.Capacity.{
  Error, Resources, Tried, placed, try_next_node, no_cluster_resources, Inventory, Placement, Walk,
  filled, goes_next, breaks, replicas, Outcome, AllOutcome, with_node, walk_on, adjusted_first,
  also_placed, place, place_all, commit, adjust,
}

abbrev pub times : ℕ → ℕ → ℕ
times zero d = 0
times (suc k) d = d + times k d

-- A measure of what is free on a node and in the storage, and of what a replica asks for.
pub record Measure (Node Storage R : Type 0) : Type 0 where
  pub node_free : Node → ℕ
  pub storage_free : Storage → ℕ
  pub demand : R → ℕ

Tried-cases :
    {Node Storage Claims Params : Type 0} (t : Tried Node Storage Claims Params)
    → (t ≡ no_cluster_resources)
      ⊎ (t ≡ try_next_node)
      ⊎ ((n : Node) × (s : Storage) × (c : Claims) × (sp : Params) × (t ≡ placed n s c sp))
Tried-cases no_cluster_resources = inl refl
Tried-cases try_next_node = inr (inl refl)
Tried-cases (placed n s c sp) = inr (inr (n, s, c, sp, refl))

module _ {Node Storage Claims Params R : Type 0} (p : Placement Node Storage Claims Params R)
    (m : Measure Node Storage R) where
  abbrev pub Attempted : Node → Storage → R → R × Tried Node Storage Claims Params → Type 0
  Attempted n s r (r', placed n' s' c' params) =
      (m.demand r' ≡ m.demand r)
      × (m.node_free n + m.storage_free s ≡ m.node_free n' + m.storage_free s' + m.demand r)
  Attempted n s r (r', _) = m.demand r' ≡ m.demand r

  -- An attempt changes no demand, and one that succeeds takes what is asked for.
  abbrev pub Fits : Type 0
  Fits =
      (u : R) (idx : ℕ) (n : Node) (s : Storage) (c : Claims) (r : R)
      → Attempted n s r (p.try_adjust u idx n s c r)

  -- What the replicas on one node have taken, `k` of them or all but those that are left.
  abbrev Took : ℕ → ℕ → ℕ → Walk Node Storage Claims Params R → Type 0
  Took d k before (filled n s c res params) =
      (m.demand res ≡ d) × (before ≡ m.node_free n + m.storage_free s + times k d)
  Took d k before (goes_next n s c res params left) =
      (m.demand res ≡ d) × (before + times left d ≡ m.node_free n + m.storage_free s + times k d)
  Took d k before (breaks e) = Unit

  Took-more :
      (d k before after : ℕ) (w : Walk Node Storage Claims Params R)
      → before ≡ after + d
      → Took d k after w
      → Took d (suc k) before w
  Took-more d k before after (filled n s c res params) e (same, h) = (same, omega (arith, e, h))
  Took-more d k before after (goes_next n s c res params left) e (same, h) =
      (same, omega (arith, e, h))
  Took-more d k before after (breaks x) e h = tt

  replicas-Took :
      Fits
      → (first : Bool) (u : Resources R) (idx d k : ℕ) (n : Node) (s : Storage) (c : Claims)
        (local adjusted : R) (params : Dict ℕ Params)
      → m.demand local ≡ d
      → m.demand adjusted ≡ d
      → Took d k
          (m.node_free n + m.storage_free s)
          (replicas p first u idx k n s c local adjusted params)
  unfolding replicas
  replicas-Took fits true u idx d zero n s c local adjusted params a b = (a, omega arith)
  replicas-Took fits false u idx d zero n s c local adjusted params a b = (b, omega arith)
  replicas-Took fits true u idx d (suc k) n s c local adjusted params a b =
      let x = p.try_adjust u.resources idx n s c local in
      let fit : Attempted n s local x = fits u.resources idx n s c local in
      elim (Tried-cases x.1) [
        | inl e ↦ rw (replicas, e) tt
        | inr (inl e) ↦
            let same : m.demand x.0 ≡ d = rw e at fit ∙ a in rw (replicas, e) (same, refl)
        | inr (inr (n', s', c', sp, e)) ↦
            let (same, took) = (rw e at fit) in
            let more =
              Took-more d k (m.node_free n + m.storage_free s)
                (m.node_free n' + m.storage_free s') in
            rw (replicas, e)
              (more (replicas p true u idx k n' s' c' x.0 adjusted (insert u.id sp params))
                (omega (arith, took, a))
                (replicas-Took fits true u idx d k n' s' c' x.0 adjusted (insert u.id sp params)
                  (same ∙ a) b))
      ]
  replicas-Took fits false u idx d (suc k) n s c local adjusted params a b =
      let x = p.try_adjust u.resources idx n s c local in
      let fit : Attempted n s local x = fits u.resources idx n s c local in
      elim (Tried-cases x.1) [
        | inl e ↦ rw (replicas, e) tt
        | inr (inl e) ↦ let same : m.demand x.0 ≡ d = rw e at fit ∙ a in rw (replicas, e) (b, refl)
        | inr (inr (n', s', c', sp, e)) ↦
            let (same, took) = (rw e at fit) in
            let more =
              Took-more d k (m.node_free n + m.storage_free s)
                (m.node_free n' + m.storage_free s') in
            elim (Bool-cases
              (p.same_resources x.0 adjusted && p.same_params sp (lookup u.id params))) [
                | inr differ ↦ rw (replicas, e, differ) tt
                | inl agree ↦
                    rw (replicas, e, agree)
                      (more (replicas p false u idx k n' s' c' x.0 adjusted params)
                        (omega (arith, took, a))
                        (replicas-Took fits false u idx d k n' s' c' x.0 adjusted params (same ∙ a)
                          b))
              ]
      ]

  abbrev pub nodes_free : List Node → ℕ
  nodes_free [] = 0
  nodes_free (n ∷ ns) = m.node_free n + nodes_free ns

  -- A service whose replicas left are `k` was placed.
  abbrev Placed : ℕ → ℕ → ℕ → Outcome p → Type 0
  Placed d k before (err e) = Unit
  Placed d k before (ok (ns, s, c, res, params)) =
      (m.demand res ≡ d) × (before ≡ nodes_free ns + m.storage_free s + times k d)

  walk_on-Placed :
      (d k : ℕ) (n : Node) (ns : List Node) (s : Storage)
      → (rest : Storage → Claims → R → Dict ℕ Params → ℕ → Outcome p)
      → ((s : Storage) (c : Claims) (r : R) (params : Dict ℕ Params) (left : ℕ)
          → m.demand r ≡ d
          → Placed d left (nodes_free ns + m.storage_free s) (rest s c r params left))
      → (w : Walk Node Storage Claims Params R) → Took d k (m.node_free n + m.storage_free s) w
      → Placed d k (nodes_free (n ∷ ns) + m.storage_free s) (walk_on p ns rest w)
  walk_on-Placed d k n ns s rest ih (filled n' s' c' res params) (same, h) =
      (same, omega (arith, h))
  walk_on-Placed d k n ns s rest ih (breaks e) h = tt
  walk_on-Placed d k n ns s rest ih (goes_next n' s' c' res params left) (same, h) =
      placed_later (rest s' c' res params left) (ih s' c' res params left same)
    where
      placed_later :
          (o : Outcome p)
          → Placed d left (nodes_free ns + m.storage_free s') o
          → Placed d k (nodes_free (n ∷ ns) + m.storage_free s) (with_node p n' o)
      placed_later (err e) q = tt
      placed_later (ok (ns', s'', c'', res', params')) (same', q) = (same', omega (arith, h, q))

  place-Placed :
      Fits
      → (u : Resources R) (idx d k : ℕ) (ns : List Node) (s : Storage) (c : Claims) (adjusted : R)
        (params : Dict ℕ Params)
      → m.demand adjusted ≡ d
      → Placed d k (nodes_free ns + m.storage_free s) (place p u idx k ns s c adjusted params)
  unfolding place
  place-Placed fits u idx d k [] s c adjusted params a = tt
  place-Placed fits u idx d k (n ∷ ns) s c adjusted params a =
      walk_on-Placed d k n ns s
        (λ s' c' r params' left. place p u (suc idx) left ns s' c' r params')
        (λ s' c' r params' left h. place-Placed fits u (suc idx) d left ns s' c' r params' h)
        (replicas p (nat_beq u.count k) u idx k n s c adjusted adjusted params)
        (replicas-Took fits (nat_beq u.count k) u idx d k n s c adjusted adjusted params a a)

  -- What all the replicas of a reservation ask for.
  abbrev pub demanded : List (Resources R) → ℕ
  demanded [] = 0
  demanded (u ∷ us) = times u.count (m.demand u.resources) + demanded us

  abbrev AllPlaced : List (Resources R) → ℕ → AllOutcome p → Type 0
  AllPlaced us before (err e) = Unit
  AllPlaced us before (ok (ns, s, c, done, params)) =
      (demanded done ≡ demanded us) × (before ≡ nodes_free ns + m.storage_free s + demanded us)

  adjusted_first-AllPlaced :
      (u : Resources R) (us done : List (Resources R)) (before after : ℕ) (o : Outcome p)
      → demanded done ≡ demanded us
      → before ≡ after + demanded us
      → Placed (m.demand u.resources) u.count after o
      → AllPlaced (u ∷ us) before (adjusted_first p u done o)
  adjusted_first-AllPlaced u us done before after (err e) a b h = tt
  adjusted_first-AllPlaced u us done before after (ok (ns, s, c, res, params)) a b (same, h) =
      (rw same (omega (arith, a)), omega (arith, b, h))

  also_placed-AllPlaced :
      (u : Resources R) (us : List (Resources R)) (before : ℕ)
      (rest : List Node → Storage → Claims → Dict ℕ Params → Outcome p)
      → ((ns : List Node) (s : Storage) (c : Claims) (params : Dict ℕ Params)
          → Placed
              (m.demand u.resources)
              u.count
              (nodes_free ns + m.storage_free s)
              (rest ns s c params))
      → (o : AllOutcome p) → AllPlaced us before o
      → AllPlaced (u ∷ us) before (also_placed p u rest o)
  also_placed-AllPlaced u us before rest each (err e) h = tt
  also_placed-AllPlaced u us before rest each (ok (ns, s, c, done, params)) (a, b) =
      adjusted_first-AllPlaced u us done before (nodes_free ns + m.storage_free s)
        (rest ns s c params) a b (each ns s c params)

  place_all-AllPlaced :
      Fits
      → (us : List (Resources R)) (ns : List Node) (s : Storage) (c : Claims)
        (params : Dict ℕ Params)
      → AllPlaced us (nodes_free ns + m.storage_free s) (place_all p us ns s c params)
  unfolding place_all
  place_all-AllPlaced fits [] ns s c params = (refl, omega arith)
  place_all-AllPlaced fits (u ∷ us) ns s c params =
      also_placed-AllPlaced u us (nodes_free ns + m.storage_free s)
        (λ ns' s' c' params'. place p u 0 u.count ns' s' c' u.resources params')
        (λ ns' s' c' params'.
          place-Placed fits u 0 (m.demand u.resources) u.count ns' s' c' u.resources params' refl)
        (place_all p us ns s c params) (place_all-AllPlaced fits us ns s c params)

  abbrev pub free : Inventory Node Storage → ℕ
  free inv = nodes_free inv.nodes + m.storage_free inv.storage

  -- What an adjustment does to the inventory.
  abbrev pub Adjusted :
      Bool
      → List (Resources R)
      → Inventory Node Storage
      → Inventory Node Storage × Result Error (List (Resources R) × Dict ℕ Params)
      → Type 0
  Adjusted dry_run us inv (inv', err e) = inv' ≡ inv
  Adjusted dry_run us inv (inv', ok (done, params)) =
      (demanded done ≡ demanded us)
      × (demanded us ≤ free inv)
      × (free inv ≡ free inv' + (if dry_run then 0 else demanded us))

  -- Where an attempt takes what a replica asks for, an adjustment takes what all the replicas of the
  -- reservation ask for, no more and no less, and there was as much; a dry run takes nothing, and an
  -- adjustment that fails leaves the inventory as it was.
  pub adjust-Adjusted :
      Fits
      → (dry_run : Bool) (us : List (Resources R)) (inv : Inventory Node Storage)
      → Adjusted dry_run us inv (adjust p dry_run us inv)
  unfolding adjust
  adjust-Adjusted fits dry_run us inv =
      if-both (Adjusted dry_run us inv) (not (all (λ u. p.is_valid_group u.resources) us)) refl (
        committed dry_run (place_all p us inv.nodes inv.storage p.no_claims [])
          (place_all-AllPlaced fits us inv.nodes inv.storage p.no_claims []))
    where
      committed :
          (dry_run : Bool) (o : AllOutcome p)
          → AllPlaced us (free inv) o
          → Adjusted dry_run us inv (commit p dry_run inv o)
      committed dry_run (err e) h = refl
      committed true (ok (ns, s, c, done, params)) (a, b) = (a, omega (arith, b), omega arith)
      committed false (ok (ns, s, c, done, params)) (a, b) = (a, omega (arith, b), omega (arith, b))
