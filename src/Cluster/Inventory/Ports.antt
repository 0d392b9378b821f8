-- ===== src/Cluster/Inventory/Ports.antt =====
-- The external ports: what is free and what the allocated reservations hold is the configured quantity.
use rezerve.Base.{
  ℕ, ◌+◌, ◌%◌, ◌<◌, ◌≡◌, refl, ap, ◌∙◌, inl, inr, Bool, true, false, not, ◌&&◌, List, [], ◌∷◌, ◌++◌,
  Option, none, some, arith, Text, ◌==◌, nat_eq, list_eq, if◌then◌else◌, ltb, Bool-cases,
  Option-cases, if-both, if-cases, All,
}
use rezerve.Bidengine.Ids.{OrderId, group_eq, order_eq}
use rezerve.Cluster.Inventory.{
  ResourceGroup, Reservation, two_64, new_reservation, reservation_count_endpoints, State, Event,
  Response, tee_type_from_attributes, count_reserved_ips, available_leased_ips, cluster_deployment,
  timer_fired, reserve_request, lookup_request, unreserve_request, inventory_result,
  inventory_update, check_result,
}
use rezerve.Cluster.Inventory.Loop.{
  Commit, add_ports, sub_ports, take_out, has_order, has_order_name, mark_allocated, confirm,
  confirm_all, bool_eqb, admit, handle_request, unreserve, on_deployment, on_inventory, on_check,
  step, run, resources_to_commit, update_ips,
}

-- The ports of the allocated reservations.
abbrev pub total : List Reservation → ℕ
total [] = 0
total (r ∷ rs) = (if r.allocated then reservation_count_endpoints r else 0) + total rs

count_bound : (r : Reservation) → reservation_count_endpoints r < two_64
unfolding reservation_count_endpoints
count_bound r = omega arith

abbrev SameMod : ℕ → ℕ → Type 0
SameMod a b = a % two_64 ≡ b % two_64

count-allocated :
    (r : Reservation) (b : Bool)
    → reservation_count_endpoints (record r { allocated = b }) ≡ reservation_count_endpoints r
unfolding reservation_count_endpoints
count-allocated r b = refl

add_ports_back : (p c t : ℕ) → SameMod (add_ports p c + t) (p + (c + t))
add_ports_back p c t = omega arith

sub_ports_out : (p c t : ℕ) → c < two_64 → SameMod (sub_ports p c + (c + t)) (p + t)
sub_ports_out p c t h = omega (arith, h)

-- A reservation whose status changes moves its ports between the two sides.
moved :
    (was deployed : Bool) (c ports t : ℕ)
    → c < two_64
    → bool_eqb was deployed ≡ false
    → SameMod
        ((if deployed then sub_ports ports c else add_ports ports c)
          + ((if deployed then c else 0) + t))
        (ports + ((if was then c else 0) + t))
moved true true c ports t small h = absurd (ground (arith, h))
moved true false c ports t small h = omega arith
moved false true c ports t small h = omega (arith, small)
moved false false c ports t small h = absurd (ground (arith, h))

mark_allocated-total :
    (order : OrderId) (name : Text) (deployed : Bool) (rs : List Reservation) (ports : ℕ)
    → let (next, (after, changed)) = mark_allocated order name deployed rs ports in
      SameMod (after + total next) (ports + total rs)
unfolding mark_allocated
mark_allocated-total order name deployed [] ports = refl
mark_allocated-total order name deployed (r ∷ rs) ports =
    elim (Bool-cases (not (has_order_name order name r))) [
      | inl other ↦ rw other (omega (arith, mark_allocated-total order name deployed rs ports))
      | inr this ↦ elim (Bool-cases (bool_eqb r.allocated deployed)) [
        | inl same ↦
            let equal : deployed ≡ r.allocated = ground (arith, same) in
            rw (this, same, count-allocated r deployed, equal) refl
        | inr changed ↦
            rw (this, changed, count-allocated r deployed)
              (moved r.allocated deployed (reservation_count_endpoints r) ports (total rs)
                (count_bound r) changed)
      ]
    ]

confirm-total : (o : OrderId) (rs : List Reservation) → total (confirm o rs) ≡ total rs
unfolding confirm reservation_count_endpoints
confirm-total o [] = refl
confirm-total o (r ∷ rs) = elim (Bool-cases (r.order == o)) [
  | inl h ↦ rw h refl
  | inr h ↦ rw (h, confirm-total o rs) refl
]

confirm_all-total :
    (os : List OrderId) (rs : List Reservation) → total (confirm_all os rs) ≡ total rs
unfolding confirm_all
confirm_all-total [] rs = refl
confirm_all-total (o ∷ os) rs = confirm_all-total os (confirm o rs) ∙ confirm-total o rs

total_snoc :
    (rs : List Reservation) (r : Reservation)
    → r.allocated ≡ false
    → total (rs ++ r ∷ []) ≡ total rs
total_snoc [] r h = rw h refl
total_snoc (x ∷ rs) r h =
    ap (λ t. (if x.allocated then reservation_count_endpoints x else 0) + t) (total_snoc rs r h)

abbrev held : Reservation → ℕ
held r = if r.allocated then reservation_count_endpoints r else 0

-- What is taken out and what is left make up the list.
abbrev Parts : List Reservation → Option (Reservation × List Reservation) → Type 0
Parts rs none = Unit
Parts rs (some found) = total rs ≡ held found.0 + total found.1

take_out-Parts : (p : Reservation → Bool) (rs : List Reservation) → Parts rs (take_out p rs)
unfolding take_out
take_out-Parts p [] = tt
take_out-Parts p (x ∷ rs) = elim (Bool-cases (p x)) [
  | inl h ↦ rw h refl
  | inr h ↦ elim (Option-cases (take_out p rs)) [
    | inl none_left ↦ rw (h, none_left) tt
    | inr (found, e) ↦
        let parts : total rs ≡ held found.0 + total found.1 = rw e at (take_out-Parts p rs) in
        rw (h, e) (omega (arith, parts))
  ]
]

-- The free ports and those of the allocated reservations make up the configured quantity, as the
-- 64-bit word that it is.
abbrev pub Balanced : {I : Type 0} → ℕ → State I → Type 0
Balanced quantity s = SameMod (s.available_external_ports + total s.reservations) quantity

module _ {I : Type 0} (commit : Commit) (adjust : I → Reservation → I × Bool) (quantity : ℕ) where
  update_ips-Balanced :
      (s : State I) → Balanced quantity s → Balanced quantity (update_ips commit adjust s)
  unfolding update_ips
  update_ips-Balanced s b =
      if-both (Balanced quantity) s.ip_client (if-both (Balanced quantity) s.checking b b) (
        if-both (Balanced quantity)
          (not s.reserve_open && elim s.inventory [ none ↦ false | some _ ↦ true ]) b b)

  admit-Balanced :
      (s : State I) (r : Reservation)
      → r.allocated ≡ false
      → Balanced quantity s
      → Balanced quantity (admit commit adjust s r).0
  unfolding admit
  admit-Balanced s r h b = elim (Option-cases s.inventory) [
    | inl e ↦ rw e b
    | inr (inv, e) ↦ elim (Bool-cases (adjust inv r).1) [
      | inl fits ↦ rw (e, fits, total_snoc s.reservations r h) b
      | inr full ↦ rw (e, full) b
    ]
  ]

  handle_request-Balanced :
      (s : State I) (order : OrderId) (resources : ResourceGroup)
      → Balanced quantity s
      → Balanced quantity (handle_request commit adjust s order resources).0
  unfolding handle_request new_reservation
  handle_request-Balanced s order resources b =
      let r = new_reservation order (resources_to_commit commit resources) in
      let available =
        available_leased_ips s.ip_available s.ip_in_use (count_reserved_ips s.reservations 0) in
      let tee = tee_type_from_attributes resources.attributes in
      if-both (λ (x : State I × Response). Balanced quantity x.0) (r.endpoint_quantity == 0)
        (admit-Balanced s (record r { ips_confirmed = true; tee_type = tee }) refl b)
        (if-both (λ (x : State I × Response). Balanced quantity x.0) (not s.ip_client) b
          (if-both (λ (x : State I × Response). Balanced quantity x.0)
            (ltb available r.endpoint_quantity) b
            (admit-Balanced s (record r { tee_type = tee }) refl b)))

  unreserve-Balanced :
      (s : State I) (order : OrderId)
      → Balanced quantity s
      → Balanced quantity (unreserve commit adjust s order).0
  unfolding unreserve
  unreserve-Balanced s order b = elim (Option-cases (take_out (has_order order) s.reservations)) [
    | inl e ↦ rw (unreserve, e) b
    | inr (found, e) ↦
        let parts : total s.reservations ≡ held found.0 + total found.1 =
          rw e at (take_out-Parts (has_order order) s.reservations) in
        let c = reservation_count_endpoints found.0 in
        rw (unreserve, e)
          (if-cases (Balanced quantity) found.0.allocated
            (λ a. omega (arith, b, parts, ap (λ x. if x then c else 0) a))
            (λ a. omega (arith, b, parts, ap (λ x. if x then c else 0) a)))
  ]

  queue :
      (t u : State I) (o : Option I)
      → Balanced quantity t
      → Balanced quantity u
      → Balanced quantity (elim o as (λ x. State I) [ none ↦ t | some _ ↦ u ])
  queue t u none b c = b
  queue t u (some inv) b c = c

  on_deployment-Balanced :
      (s : State I) (order : OrderId) (name : Text) (deployed : Bool)
      → Balanced quantity s
      → Balanced quantity (on_deployment commit adjust s order name deployed)
  unfolding on_deployment
  on_deployment-Balanced s order name deployed b =
      let (rs, (ports, changed)) =
        mark_allocated order name deployed s.reservations s.available_external_ports in
      let t : State I = record s { reservations = rs; available_external_ports = ports } in
      let after : Balanced quantity t =
        mark_allocated-total order name deployed s.reservations s.available_external_ports ∙ b in
      update_ips-Balanced
        (if changed then elim s.invup [ none ↦ record t { invup = s.currinv } | some _ ↦ t ] else t)
        (if-both (Balanced quantity) changed
          (queue (record t { invup = s.currinv }) t s.invup after after) after)

  on_inventory-Balanced :
      (s : State I) (inv : I)
      → Balanced quantity s
      → Balanced quantity (on_inventory commit adjust s inv)
  unfolding on_inventory
  on_inventory-Balanced s inv b =
      update_ips-Balanced (record s { invup = none; currinv = some inv; inventory = some inv }) b

  step-Balanced :
      (s : State I) (e : Event I) → Balanced quantity s → Balanced quantity (step commit adjust s e)
  unfolding step on_check
  step-Balanced s (cluster_deployment order name deployed) b =
      on_deployment-Balanced s order name deployed b
  step-Balanced s timer_fired b =
      if-both (Balanced quantity) s.timer (update_ips-Balanced (record s { timer = false }) b) b
  step-Balanced s (reserve_request order resources) b =
      if-both (Balanced quantity) s.reserve_open (handle_request-Balanced s order resources b) b
  step-Balanced s (lookup_request order name) b = b
  step-Balanced s (unreserve_request order) b = unreserve-Balanced s order b
  step-Balanced s (inventory_result none) b = b
  step-Balanced s (inventory_result (some inv)) b = b
  step-Balanced s inventory_update b =
      elim s.invup
        as (λ o.
          Balanced quantity
            (elim o as (λ x. State I) [ none ↦ s | some inv ↦ on_inventory commit adjust s inv ])) [
              | none ↦ b
              | some inv ↦ on_inventory-Balanced s inv b
            ]
  step-Balanced s (check_result none) b = if-both (Balanced quantity) s.checking b b
  step-Balanced s (check_result (some (usage, confirmed))) b =
      if-both (Balanced quantity) s.checking (rw (confirm_all-total confirmed s.reservations) b) b

  run-Balanced :
      (s : State I) (es : List (Event I))
      → Balanced quantity s
      → Balanced quantity (run commit adjust s es)
  unfolding run
  run-Balanced s [] b = b
  run-Balanced s (e ∷ es) b = run-Balanced (step commit adjust s e) es (step-Balanced s e b)

  fresh-total : (rs : List Reservation) → All (λ r. r.allocated ≡ false) rs → total rs ≡ 0
  fresh-total [] h = refl
  fresh-total (r ∷ rs) (h, hs) =
      omega (arith, fresh-total rs hs, ap (λ b. if b then reservation_count_endpoints r else 0) h)

  -- Whatever happens to a service that starts with its configured quantity of ports and with no
  -- reservation marked as allocated, the free ports and those of the allocated reservations make up
  -- that quantity, as 64-bit words.
  pub ports_add_up :
      (s : State I) (es : List (Event I))
      → s.available_external_ports ≡ quantity
      → All (λ r. r.allocated ≡ false) s.reservations
      → Balanced quantity (run commit adjust s es)
  ports_add_up s es q fresh = run-Balanced s es (omega (arith, q, fresh-total s.reservations fresh))
