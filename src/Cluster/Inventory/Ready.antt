-- ===== src/Cluster/Inventory/Ready.antt =====
-- When requests for reservations are taken: without an IP operator, only once an inventory is known.
use rezerve.Base.{
  ◌<◌, ◌≡◌, ◌≢◌, refl, ap, subst, Bool, true, false, not, ◌&&◌, List, [], ◌∷◌, ◌++◌, Option, none,
  some, arith, Text, ◌==◌, nat_eq, if◌then◌else◌, if-both, if-cases, ltb,
}
use rezerve.Bidengine.Ids.{OrderId}
use rezerve.Cluster.Inventory.{
  ResourceGroup, Reservation, two_64, State, Event, Response, value, failed, panicked,
  insufficient_capacity, reservation_not_found, reservation_count_endpoints, cluster_deployment,
  timer_fired, reserve_request, lookup_request, unreserve_request, inventory_result,
  inventory_update, check_result, new_reservation, tee_type_from_attributes, count_reserved_ips,
  available_leased_ips,
}
use rezerve.Cluster.Inventory.Loop.{
  Commit, has_order, take_out, mark_allocated, update_ips, admit, handle_request, unreserve,
  on_deployment, on_inventory, step, run, add_ports, resources_to_commit,
}
use rezerve.Cluster.Inventory.Requests.{Answer, handle_request-Answer}

abbrev known : {I : Type 0} → Option I → Bool
known none = false
known (some inv) = true

-- No IP operator is asked, and the channel of requests is open only with an inventory.
abbrev Ready : {I : Type 0} → State I → Type 0
Ready s =
    (s.ip_client ≡ false)
    × (s.checking ≡ false)
    × (s.ip_available < two_64)
    × (s.reserve_open ≡ true → known s.inventory ≡ true)

module _ {I : Type 0} (commit : Commit) (adjust : I → Reservation → I × Bool) where
  update_ips-Ready : (s : State I) → Ready s → Ready (update_ips commit adjust s)
  unfolding update_ips
  update_ips-Ready s (bare, idle, small, open_known) =
      if-cases Ready s.ip_client (λ client. absurd (ground (arith, bare, client)))
        (λ _.
          if-cases Ready (not s.reserve_open && elim s.inventory [ none ↦ false | some _ ↦ true ])
            (λ opens. (bare, idle, small, λ _. ground (arith, opens)))
            (λ _. (bare, idle, small, open_known)))

  admit-Ready : (s : State I) (r : Reservation) → Ready s → Ready (admit commit adjust s r).0
  unfolding admit
  admit-Ready s r (bare, idle, small, open_known) =
      (elim s.inventory
          as (λ o.
            s.inventory ≡ o
            → Ready
                (elim o as (λ x. State I × Response) [
                  | none ↦ (s, panicked)
                  | some inv ↦
                      let (after, fits) = adjust inv r in
                      if fits
                      then (
                        record s {
                          inventory = some after;
                          reservations = s.reservations ++ r ∷ [];
                        },
                        value r,
                      )
                      else (record s { inventory = some after }, failed insufficient_capacity)
                ]).0) [
                  | none ↦ λ e. (bare, idle, small, open_known)
                  | some inv ↦ λ e.
                      if-both (λ (x : State I × Response). Ready x.0) (adjust inv r).1
                        (bare, idle, small, λ _. refl) (bare, idle, small, λ _. refl)
                ])
        refl

  handle_request-Ready :
      (s : State I) (order : OrderId) (resources : ResourceGroup)
      → Ready s
      → Ready (handle_request commit adjust s order resources).0
  unfolding handle_request
  handle_request-Ready s order resources h =
      let r = new_reservation order (resources_to_commit commit resources) in
      let available =
        available_leased_ips s.ip_available s.ip_in_use (count_reserved_ips s.reservations 0) in
      let tee = tee_type_from_attributes resources.attributes in
      if-both (λ (x : State I × Response). Ready x.0) (r.endpoint_quantity == 0)
        (admit-Ready s (record r { ips_confirmed = true; tee_type = tee }) h)
        (if-both (λ (x : State I × Response). Ready x.0) (not s.ip_client) h
          (if-both (λ (x : State I × Response). Ready x.0) (ltb available r.endpoint_quantity) h
            (admit-Ready s (record r { tee_type = tee }) h)))

  unreserve-Ready :
      (s : State I) (order : OrderId) → Ready s → Ready (unreserve commit adjust s order).0
  unfolding unreserve
  unreserve-Ready s order h =
      elim (take_out (has_order order) s.reservations)
        as (λ o.
          Ready
            (elim o as (λ x. State I × Response) [
              | none ↦ (s, failed reservation_not_found)
              | some found ↦
                  let t = record s { reservations = found.1 } in
                  (
                    if found.0.allocated
                        then record t {
                          available_external_ports =
                              add_ports s.available_external_ports
                                (reservation_count_endpoints found.0);
                        }
                        else t,
                    value found.0,
                  )
            ]).0) [ none ↦ h | some found ↦ if-both Ready found.0.allocated h h ]

  on_deployment-Ready :
      (s : State I) (order : OrderId) (name : Text) (deployed : Bool)
      → Ready s
      → Ready (on_deployment commit adjust s order name deployed)
  unfolding on_deployment
  on_deployment-Ready s order name deployed h =
      let (rs, (ports, changed)) =
        mark_allocated order name deployed s.reservations s.available_external_ports in
      let t : State I = record s { reservations = rs; available_external_ports = ports } in
      update_ips-Ready
        (if changed then elim s.invup [ none ↦ record t { invup = s.currinv } | some _ ↦ t ] else t)
        (if-both Ready changed
          (elim s.invup
            as (λ o.
              Ready
                (elim o as (λ x. State I) [ none ↦ record t { invup = s.currinv } | some _ ↦ t ])) [
                  | none ↦ h
                  | some _ ↦ h
                ])
          h)

  on_inventory-Ready : (s : State I) (inv : I) → Ready s → Ready (on_inventory commit adjust s inv)
  unfolding on_inventory
  on_inventory-Ready s inv (bare, idle, small, open_known) =
      let (b, i, l, k) =
        update_ips-Ready (record s { invup = none; currinv = some inv; inventory = some inv })
          (bare, idle, small, λ _. refl) in
      (b, i, l, λ _. refl)

  step-Ready : (s : State I) (e : Event I) → Ready s → Ready (step commit adjust s e)
  unfolding step
  step-Ready s (cluster_deployment order name deployed) h =
      on_deployment-Ready s order name deployed h
  step-Ready s timer_fired h =
      if-both Ready s.timer (update_ips-Ready (record s { timer = false }) h) h
  step-Ready s (reserve_request order resources) h =
      if-both Ready s.reserve_open (handle_request-Ready s order resources h) h
  step-Ready s (lookup_request order name) h = h
  step-Ready s (unreserve_request order) h = unreserve-Ready s order h
  step-Ready s (inventory_result none) h = h
  step-Ready s (inventory_result (some inv)) h = h
  step-Ready s inventory_update h =
      elim s.invup
        as (λ o.
          Ready
            (elim o as (λ x. State I) [ none ↦ s | some inv ↦ on_inventory commit adjust s inv ])) [
              | none ↦ h
              | some inv ↦ on_inventory-Ready s inv h
            ]
  step-Ready s (check_result r) h =
      if-cases Ready s.checking (λ busy. absurd (ground (arith, h.1, busy))) (λ _. h)

  run-Ready : (s : State I) (es : List (Event I)) → Ready s → Ready (run commit adjust s es)
  unfolding run
  run-Ready s [] h = h
  run-Ready s (e ∷ es) h = run-Ready (step commit adjust s e) es (step-Ready s e h)

  -- Without an IP operator, a request for a reservation that the loop takes never meets a nil
  -- inventory: from a start at which nothing is awaited and the channel of requests is shut, whatever
  -- happens, no request that is let in is answered by a panic.
  pub requests_meet_an_inventory :
      (s : State I) (es : List (Event I)) (order : OrderId) (resources : ResourceGroup)
      → s.ip_client ≡ false
      → s.checking ≡ false
      → s.reserve_open ≡ false
      → s.ip_available < two_64
      → (run commit adjust s es).reserve_open ≡ true
      → (handle_request commit adjust (run commit adjust s es) order resources).1 ≢ panicked
  requests_meet_an_inventory s es order resources bare idle shut small taken panics =
      let t = run commit adjust s es in
      let ready = run-Ready s es (bare, idle, small, λ o. absurd (ground (arith, o, shut))) in
      let answer =
        subst (λ a. Answer t order ((handle_request commit adjust t order resources).0, a)) panics
          (handle_request-Answer commit adjust t order resources ready.2) in
      absurd (ground (arith, ready.3 taken, ap known answer.1))
