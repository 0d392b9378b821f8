-- ===== src/Manifest/Service/Tests.antt =====
-- A lease whose manifest comes, and one that is won after its manifest.
use rezerve.Base.{
  ◌≡◌, refl, true, false, List, [], ◌∷◌, bytes, nat_eq, list_eq, lookup, insert, delete, loop,
  remove_alive, After,
}
use rezerve.Bidengine.Ids.{BidId}
use rezerve.Manifest.Service.{
  DeploymentId, create_manager, create_watchdog, manager_lease, manager_manifest, stop_watchdog,
  Config, Event, lease_won, manifest_request, watchdog_done, start, ensure_manager, ensure_watchdog,
  handle_lease, maybe_remove_watchdog, on_manifest_request, on_watchdog_done, step, run,
}
use rezerve.Manifest.Service.Kept.{Paired, one_manager_and_watchdog}
use rezerve.Manifest.Service.Guarded.{Quiet, manifest_stops_watchdog}
use rezerve.Manifest.Watchdog
use rezerve.Manifest.Watchdog.{closes_once_or_stops}

abbrev config : Config
config = record { own = bytes "p"; manifest_timeout = 300 }

abbrev lease : BidId
lease = record {
  order = record { group = record { owner = bytes "o"; dseq = 5; gseq = 1 }; oseq = 1 };
  provider = bytes "p";
}

abbrev deployment : DeploymentId
deployment = record { owner = bytes "o"; dseq = 5 }

abbrev arrivals : List Event
arrivals =
    lease_won lease
    ∷ manifest_request deployment false
    ∷ watchdog_done deployment 0
    ∷ lease_won lease
    ∷ []

one_manager_and_watchdog_example : Paired (run config arrivals).0
one_manager_and_watchdog_example = one_manager_and_watchdog config arrivals

manifest_stops_watchdog_example : Quiet (run config arrivals).0
manifest_stops_watchdog_example = manifest_stops_watchdog config arrivals

-- The second lease gets a watchdog although its deployment has its manifest.
arrivals_log :
    (run config arrivals).0.log
    ≡ manager_lease 1 lease
      ∷ create_watchdog deployment 2
      ∷ manager_manifest deployment 1
      ∷ stop_watchdog 0
      ∷ manager_lease 1 lease
      ∷ create_manager deployment 1
      ∷ create_watchdog deployment 0
      ∷ []
unfolding run loop step start handle_lease ensure_watchdog ensure_manager on_manifest_request
    maybe_remove_watchdog on_watchdog_done lookup insert delete remove_alive
arrivals_log = refl

-- A lease won while its deployment's watchdog is still stopping gets none.
unguarded_log :
    (run config (lease_won lease ∷ manifest_request deployment false ∷ lease_won lease ∷ [])).0.log
    ≡ manager_lease 1 lease
      ∷ manager_manifest deployment 1
      ∷ stop_watchdog 0
      ∷ manager_lease 1 lease
      ∷ create_manager deployment 1
      ∷ create_watchdog deployment 0
      ∷ []
unfolding run loop step start handle_lease ensure_watchdog ensure_manager on_manifest_request
    maybe_remove_watchdog lookup insert
unguarded_log = refl

abbrev late_stop : List Watchdog.Event
late_stop = Watchdog.timeout ∷ Watchdog.shutdown_request ∷ Watchdog.close_finished true ∷ []

closes_once_or_stops_example : After Watchdog.Waits Watchdog.Over (Watchdog.run late_stop)
closes_once_or_stops_example = closes_once_or_stops late_stop
