-- ===== src/Cluster/Service/Tests.antt =====
-- A deployment that is adopted, a lease that comes, and one that is closed before its manifest.
use rezerve.Base.{
  remove_alive, ℕ, ◌≡◌, refl, true, false, List, [], ◌∷◌, Text, bytes, nat_eq, list_eq, lookup,
  insert, delete, loop, contains,
}
use rezerve.Bidengine.Ids.{OrderId, BidId, bid_eq}
use rezerve.Cluster.Service.{
  create, unreserve, remove_funds_monitor, teardown, update, Event, manifest_received, lease_closed,
  manager_done, new_manager, adopt, start, on_manifest_received, teardown_lease, on_manager_done,
  step, run,
}
use rezerve.Cluster.Service.Managed.{Managed, Distinct, one_manager_per_lease}
use rezerve.Cluster.Service.Held.{Held, reservation_kept_under_manager}

abbrev own : Text
own = bytes "p"

abbrev order : ℕ → OrderId
order n = record { group = record { owner = bytes "o"; dseq = n; gseq = 1 }; oseq = 1 }

abbrev lease : ℕ → BidId
lease n = record { order = order n; provider = own }

abbrev arrivals : List Event
arrivals =
    manifest_received (lease 2) true true false
    ∷ manifest_received (lease 2) true true false
    ∷ lease_closed (lease 1)
    ∷ lease_closed (lease 3)
    ∷ manager_done (lease 1) 0 false
    ∷ []

Distinct-one : Distinct (lease 1 ∷ [])
unfolding contains
Distinct-one = (refl, tt)

one_manager_per_lease_example : Managed (run own (lease 1 ∷ []) arrivals).0
one_manager_per_lease_example = one_manager_per_lease own (lease 1 ∷ []) arrivals Distinct-one

reservation_kept_under_manager_example : Held own (run own (lease 1 ∷ []) arrivals).0
reservation_kept_under_manager_example =
    reservation_kept_under_manager own (lease 1 ∷ []) arrivals
      (refl, (refl, (refl, (refl, (refl, tt)))))

arrivals_log :
    (run own (lease 1 ∷ []) arrivals).0.log
    ≡ unreserve (order 1)
      ∷ unreserve (order 3)
      ∷ remove_funds_monitor (lease 3)
      ∷ teardown 0
      ∷ remove_funds_monitor (lease 1)
      ∷ update 1
      ∷ create (lease 2) 1 true
      ∷ create (lease 1) 0 false
      ∷ []
unfolding run loop step start adopt new_manager on_manifest_received teardown_lease on_manager_done
    remove_alive lookup insert delete
arrivals_log = refl
