-- ===== src/Cluster/Inventory/Requests.antt =====
-- What a request for a reservation gets, on every branch, and what giving it back undoes.
use rezerve.Base.{
  ◌+◌, ◌<◌, ◌≤◌, ◌≡◌, refl, sym, ap, ◌∙◌, ◌⊎◌, inl, inr, Bool, true, false, not, List, [], ◌∷◌,
  ◌++◌, none, some, arith, ◌==◌, ==_iff, ==_self, nat_eq, list_eq, if◌then◌else◌, if-cases, if-both,
  subst, ltb, All,
}
use rezerve.Bidengine.Ids.{OrderId, group_eq, order_eq}
use rezerve.Cluster.Inventory.{
  ResourceGroup, Reservation, two_64, new_reservation, State, Response, value, failed, panicked,
  insufficient_capacity, tee_type_from_attributes, count_reserved_ips, available_leased_ips,
}
use rezerve.Cluster.Inventory.Ips.{count-fits}
use rezerve.Cluster.Inventory.Loop.{
  Commit, take_out, has_order, admit, handle_request, unreserve, resources_to_commit,
}

-- A reservation that is made stands at the end of the list, pending, for that order, and with it the
-- IPs in use and reserved are no more than there are; a refusal leaves the list as it was; neither
-- touches the external ports; and the loop panics on a nil inventory only.
abbrev pub Answer : {I : Type 0} → State I → OrderId → State I × Response → Type 0
Answer s order (t, value r) =
    (t.reservations ≡ s.reservations ++ r ∷ [])
    × (t.available_external_ports ≡ s.available_external_ports)
    × (r.order ≡ order)
    × (r.allocated ≡ false)
    × ((r.endpoint_quantity ≡ 0)
        ⊎ (t.ip_in_use + count_reserved_ips t.reservations 0 ≤ t.ip_available))
Answer s order (t, failed e) =
    (t.reservations ≡ s.reservations) × (t.available_external_ports ≡ s.available_external_ports)
Answer s order (t, panicked) = (t ≡ s) × (s.inventory ≡ none)

module _ {I : Type 0} (commit : Commit) (adjust : I → Reservation → I × Bool) where
  admit-Answer :
      (s : State I) (order : OrderId) (r : Reservation)
      → r.order ≡ order
      → r.allocated ≡ false
      → (r.endpoint_quantity ≡ 0)
        ⊎ (s.ip_in_use + count_reserved_ips (s.reservations ++ r ∷ []) 0 ≤ s.ip_available)
      → Answer s order (admit commit adjust s r)
  unfolding admit
  admit-Answer s order r same pending fits =
      (elim s.inventory
          as (λ o.
            s.inventory ≡ o
            → Answer s order (elim o as (λ x. State I × Response) [
              | none ↦ (s, panicked)
              | some inv ↦
                  let (after, fits) = adjust inv r in
                  if fits
                  then (
                    record s { inventory = some after; reservations = s.reservations ++ r ∷ [] },
                    value r,
                  )
                  else (record s { inventory = some after }, failed insufficient_capacity)
            ])) [
              | none ↦ λ e. (refl, e)
              | some inv ↦ λ e.
                  if-both (Answer s order) (adjust inv r).1 (refl, refl, same, pending, fits)
                    (refl, refl)
            ])
        refl

  -- Every answer to a request for a reservation, with fewer than 2^64 IPs available.
  pub handle_request-Answer :
      (s : State I) (order : OrderId) (resources : ResourceGroup)
      → s.ip_available < two_64
      → Answer s order (handle_request commit adjust s order resources)
  unfolding handle_request new_reservation
  handle_request-Answer s order resources small =
      let r = new_reservation order (resources_to_commit commit resources) in
      let available =
        available_leased_ips s.ip_available s.ip_in_use (count_reserved_ips s.reservations 0) in
      let tee = tee_type_from_attributes resources.attributes in
      if-cases (Answer s order) (r.endpoint_quantity == 0)
        (λ free.
          admit-Answer s order (record r { ips_confirmed = true; tee_type = tee }) refl refl
            (inl (ground (arith, free, ==_iff r.endpoint_quantity 0))))
        (λ leased.
          if-cases (Answer s order) (not s.ip_client) (λ bare. (refl, refl))
            (λ client.
              if-cases (Answer s order) (ltb available r.endpoint_quantity) (λ few. (refl, refl))
                (λ enough.
                  admit-Answer s order (record r { tee_type = tee }) refl refl
                    (inr (
                      count-fits s.reservations (record r { tee_type = tee }) s.ip_available
                        s.ip_in_use small (ground (arith, leased, ==_iff r.endpoint_quantity 0))
                        refl enough)))))

take_out_snoc :
    (p : Reservation → Bool) (rs : List Reservation) (r : Reservation)
    → All (λ x. p x ≡ false) rs
    → p r ≡ true
    → take_out p (rs ++ r ∷ []) ≡ some (r, rs)
unfolding take_out
take_out_snoc p [] r h k = rw k refl
take_out_snoc p (x ∷ rs) r (h, hs) k = rw (h, take_out_snoc p rs r hs k) refl

module _ {I : Type 0} (commit : Commit) (adjust : I → Reservation → I × Bool) where
  unreserve_last :
      (t : State I) (rs : List Reservation) (r : Reservation)
      → t.reservations ≡ rs ++ r ∷ []
      → All (λ x. has_order r.order x ≡ false) rs
      → r.allocated ≡ false
      → ((unreserve commit adjust t r.order).0.reservations ≡ rs)
        × ((unreserve commit adjust t r.order).0.available_external_ports
            ≡ t.available_external_ports)
        × ((unreserve commit adjust t r.order).1 ≡ value r)
  unfolding unreserve
  unreserve_last t rs r e others pending =
      let found : take_out (has_order r.order) t.reservations ≡ some (r, rs) =
        ap (take_out (has_order r.order)) e
        ∙ take_out_snoc (has_order r.order) rs r others (==_self r.order) in
      rw (unreserve, found, pending) (refl, refl, refl)

  -- A reservation that was made and is given back at once, with no other one of its order: it comes
  -- back to the caller, and the list and the external ports are what they were.
  pub unreserve-handle_request :
      (s : State I) (order : OrderId) (resources : ResourceGroup) (r : Reservation)
      → s.ip_available < two_64
      → All (λ x. has_order order x ≡ false) s.reservations
      → (handle_request commit adjust s order resources).1 ≡ value r
      → let t = (handle_request commit adjust s order resources).0 in
        ((unreserve commit adjust t order).0.reservations ≡ s.reservations)
        × ((unreserve commit adjust t order).0.available_external_ports
            ≡ s.available_external_ports)
        × ((unreserve commit adjust t order).1 ≡ value r)
  unreserve-handle_request s order resources r small others made =
      let t = (handle_request commit adjust s order resources).0 in
      let (last, ports, same, pending, ips) : Answer s order (t, value r) =
        subst (λ a. Answer s order (t, a)) made
          (handle_request-Answer commit adjust s order resources small) in
      let none_of =
        subst (λ o. All (λ x. has_order o x ≡ false) s.reservations) (sym same) others in
      let (list, left, back) = unreserve_last t s.reservations r last none_of pending in
      subst
        (λ o.
          ((unreserve commit adjust t o).0.reservations ≡ s.reservations)
          × ((unreserve commit adjust t o).0.available_external_ports ≡ s.available_external_ports)
          × ((unreserve commit adjust t o).1 ≡ value r))
        same (list, left ∙ ports, back)
