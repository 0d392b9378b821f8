-- ===== src/Cluster/Service/Held.antt =====
-- The reservations behind the managers of provider/cluster/service.go.
use rezerve.Base.{
  some-cases, remove_alive, ℕ, ◌≡◌, refl, sym, Bool, true, false, ◌&&◌, List, [], ◌∷◌, Option, none,
  some, arith, ◌==◌, ==_iff, nat_eq, list_eq, if-both, if-cases, Bool-cases, lookup, delete,
  lookup-insert, lookup-delete, After, After_end, loop_inv, Text, All, if◌then◌else◌, inl, inr,
}
use rezerve.Bidengine.Ids.{BidId, bid_eq, order_eq}
use rezerve.Cluster.Service.{
  Effect, create, unreserve, Event, context_done, shutdown, status_asked, other_event,
  manifest_received, lease_closed, lease_reclaim_started, signalled, inventory_update, manager_done,
  check_deployment, State, new_manager, adopt, start, on_manifest_received, teardown_lease,
  on_reclaim_started, publish, on_manager_done, is_enabled, step, run,
}

-- Whether a lease has got a manager since its order was last given back.
abbrev pub in_use : BidId → List Effect → Bool
in_use k [] = false
in_use k (create j n is_new ∷ l) = let rest = in_use k l in if j == k then true else rest
in_use k (unreserve o ∷ l) = let rest = in_use k l in if o == k.order then false else rest
in_use k (_ ∷ l) = in_use k l

abbrev pub has_manager : Option ℕ → Bool
has_manager none = false
has_manager (some n) = true

-- A lease of the provider has a manager exactly when its order was not given back since.
abbrev pub Held : Text → State → Type 0
Held own s = (k : BidId) → k.provider ≡ own → has_manager (lookup k s.managers) ≡ in_use k s.log

-- Only the provider's own leases get a manifest and have a manager.
abbrev pub is_own : Text → Event → Bool
is_own own (manifest_received k has_group found taken) = k.provider == own
is_own own (manager_done k n taken) = k.provider == own
is_own own _ = true

new_manager-Held :
    (own : Text) (k : BidId) (is_new : Bool) (s : State)
    → Held own s
    → Held own (new_manager k is_new s)
unfolding new_manager
new_manager-Held own k is_new s h j o =
    ground (arith, lookup-insert k j s.created s.managers, h j o, ==_iff k j)

on_manifest_received-Held :
    (own : Text) (k : BidId) (has_group found taken : Bool) (s : State)
    → Held own s
    → Held own (on_manifest_received k has_group found taken s)
unfolding on_manifest_received
on_manifest_received-Held own k has_group found taken s h =
    if-both (Held own) (has_group && found)
      (some-cases (Held own) (lookup k s.managers) (λ n there. h)
        (λ free.
          let made = new_manager-Held own k true s h in
          if-both (Held own) (taken && s.ctx_done) made made))
      h

-- Own leases of one order are one lease.
same_order :
    (own : Text) (k j : BidId) → k.provider ≡ own → j.provider ≡ own → k.order ≡ j.order → k ≡ j
same_order own k j a b e = cc (a, b, e)

teardown_lease-Held :
    (own : Text) (k : BidId) (s : State) → Held own s → Held own (teardown_lease own k s)
unfolding teardown_lease
teardown_lease-Held own k s h =
    some-cases (Held own) (lookup k s.managers) (λ n there. h)
      (λ free.
        if-cases (Held own) (k.provider == own)
          (λ mine j o. elim (Bool-cases (k.order == j.order)) [
            | inl same ↦
                let k_is_j : k ≡ j =
                  same_order own k j ((==_iff k.provider own).0 mine) o
                    ((==_iff k.order j.order).0 same) in
                rw (same, sym k_is_j, free) refl
            | inr other ↦ rw other (h j o)
          ])
          (λ other. h))

on_manager_done-Held :
    (own : Text) (k : BidId) (n : ℕ) (taken : Bool) (s : State)
    → k.provider ≡ own
    → Held own s
    → Held own (on_manager_done k n taken s)
unfolding on_manager_done
on_manager_done-Held own k n taken s mine h =
    let gone : Held own (record s {
      managers = delete k s.managers;
      alive = remove_alive k n s.alive;
      log = unreserve k.order ∷ s.log;
    }) =
      λ j o. elim (Bool-cases (k.order == j.order)) [
        | inl same ↦
            let k_is_j : k ≡ j = same_order own k j mine o ((==_iff k.order j.order).0 same) in
            ground (arith, same, lookup-delete k j s.managers, ==_iff k j, k_is_j)
        | inr other ↦
            ground (
              arith,
              other,
              lookup-delete k j s.managers,
              ==_iff k j,
              ==_iff k.order j.order,
              h j o,
            )
      ] in
    if-both (Held own) (taken && s.ctx_done) gone gone

on_reclaim_started-Held :
    (own : Text) (k : BidId) (s : State) → Held own s → Held own (on_reclaim_started k s)
unfolding on_reclaim_started
on_reclaim_started-Held own k s h =
    some-cases (Held own) (lookup k s.managers) (λ n there. h) (λ free. h)

publish-Held : (own : Text) (b : Bool) (s : State) → Held own s → Held own (publish b s)
unfolding publish
publish-Held own b s h = if-both (Held own) b h h

step-Held :
    (own : Text) (s : State) (ev : Event)
    → is_own own ev ≡ true
    → Held own s
    → After (Held own) (Held own) (step own s ev)
unfolding step
step-Held own s context_done may h = h
step-Held own s shutdown may h = h
step-Held own s (manifest_received k g f t) may h = on_manifest_received-Held own k g f t s h
step-Held own s (lease_closed k) may h = teardown_lease-Held own k _ h
step-Held own s (lease_reclaim_started k) may h = on_reclaim_started-Held own k s h
step-Held own s other_event may h = h
step-Held own s status_asked may h = h
step-Held own s (signalled b) may h = publish-Held own b _ h
step-Held own s (inventory_update b) may h = publish-Held own b _ h
step-Held own s (manager_done k n taken) may h =
    on_manager_done-Held own k n taken s ((==_iff k.provider own).0 may) h
step-Held own s (check_deployment req) may h = h

adopt-Held : (own : Text) (ks : List BidId) (s : State) → Held own s → Held own (adopt ks s)
unfolding adopt
adopt-Held own [] s h = h
adopt-Held own (k ∷ ks) s h = adopt-Held own ks _ (new_manager-Held own k false s h)

-- Where only own leases get a manifest or have a manager that ends: at any time an own lease has a
-- manager exactly when its reservation was not given back since the lease last got one. So none is
-- given back under a manager, and none is kept once its manager is gone.
pub reservation_kept_under_manager :
    (own : Text) (deployments : List BidId) (evs : List Event)
    → All (λ ev. is_own own ev ≡ true) evs
    → Held own (run own deployments evs).0
unfolding run start lookup
reservation_kept_under_manager own deployments evs mine =
    After_end (Held own) (run own deployments evs) (
      loop_inv is_enabled (step own) (Held own) (Held own) (is_own own)
        (λ s ev may on h. step-Held own s ev may h) (start deployments) evs mine
        (adopt-Held own deployments _ (λ k o. refl)))
