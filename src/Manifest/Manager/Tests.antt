-- ===== src/Manifest/Manager/Tests.antt =====
-- Two uploads of one deployment, the second with a proxy buffer over its limit.
use rezerve.Base.{ℕ, ◌≡◌, ◌≢◌, refl, true, false, List, [], ◌∷◌, none, some, bytes, ok, stops, loop}
use rezerve.Bidengine.Ids.{BidId}
use rezerve.Manifest.Proxy.{
  Group, OverLimit, validate_proxy_buffer_limits, check_services, check_expose, over_limit,
  all_hostnames_of_manifest_group, all_expose_hosts,
}
use rezerve.Manifest.Manager.{
  Error, Fetched, received, answered, manifest_received, Checks, start, maybe_fetch_data,
  maybe_schedule_stop, answer_all, fill_all_requests, validate_request,
  check_hostnames_for_manifest, gather_hostnames, group_hostnames, no_host, screen, screen_all,
  publish_all, validate_requests, emit_manifest, emit_received_events, Event, lease_won,
  lease_removed, manifest_request, version_update, fetch_result, on_manifest, on_fetch_result, step,
  run, finish,
}
use rezerve.Manifest.Manager.Answers.{times_received, times_settled, every_upload_settled}
use rezerve.Manifest.Manager.Stored.{Limited, manifests_within_limits}
use rezerve.Manifest.Manager.Timer.{never_ends_by_itself}

abbrev lease_id : BidId
lease_id = record {
  order = record { group = record { owner = bytes "tenant"; dseq = 7; gseq = 1 }; oseq = 1 };
  provider = bytes "provider";
}

abbrev web : ℕ → List Group
web size =
    record {
      name = bytes "west";
      services =
          record {
            name = bytes "web";
            expose =
                record {
                  is_ingress = true;
                  hosts = bytes "a.example" ∷ [];
                  proxy = some (record {
                    buffer_size = size;
                    buffers_number = 8;
                    buffers_size = 4096;
                    busy_buffers_size = 8192;
                  });
                }
                ∷ [];
          }
          ∷ [];
    }
    ∷ []

-- Every check of other code passes.
abbrev passes : Checks
passes = record {
  expired = λ r. false;
  expires = λ r. false;
  validate = λ g. none;
  version = λ g. ok (bytes "v1");
  check_against_deployment = λ g. none;
  owner_address = none;
  can_reserve_hostnames = λ hosts. none;
  require_host = true;
}

abbrev fetched : Fetched
fetched = record {
  hash = bytes "v1";
  leases = record { lease_id = lease_id; group_name = bytes "west" } ∷ [];
}

abbrev uploads : List Event
uploads =
    lease_won false
    ∷ manifest_request (record { id = 1; manifest = web 4096 }) false passes
    ∷ manifest_request (record { id = 2; manifest = web 999_999 }) false passes
    ∷ fetch_result (ok fetched) passes
    ∷ []

uploads_log :
    (run start uploads).0.log
    ≡ answered 1 none
      ∷ manifest_received lease_id (web 4096)
      ∷ answered 2 (some (Error.over_limit (bytes "web") OverLimit.buffer_size))
      ∷ received 2
      ∷ received 1
      ∷ []
unfolding run loop step start on_manifest on_fetch_result maybe_fetch_data maybe_schedule_stop
    validate_requests screen screen_all validate_request check_hostnames_for_manifest
    gather_hostnames group_hostnames no_host emit_received_events emit_manifest publish_all
    answer_all fill_all_requests validate_proxy_buffer_limits check_services check_expose over_limit
    all_hostnames_of_manifest_group all_expose_hosts
uploads_log = refl

every_upload_settled_example :
    times_received 1 (finish (run start uploads).0).log
    ≡ times_settled 1 (finish (run start uploads).0).log
every_upload_settled_example = every_upload_settled 1 uploads

manifests_within_limits_example : Limited (run start uploads).0
manifests_within_limits_example = manifests_within_limits uploads

-- All leases gone, and no manifest left.
never_ends_by_itself_example :
    (run start (lease_won false ∷ lease_removed ∷ version_update (bytes "v2") ∷ [])).1 ≢ stops
never_ends_by_itself_example =
    never_ends_by_itself (lease_won false ∷ lease_removed ∷ version_update (bytes "v2") ∷ [])
      (refl, (refl, (refl, tt)))
