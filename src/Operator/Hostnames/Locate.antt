-- ===== src/Operator/Hostnames/Locate.antt =====
-- provider/operator/hostname/operator.go: `locateServiceFromManifest` and `buildDirective`.
use rezerve.Base.{
  ℕ, Bool, false, ◌&&◌, List, [], ◌∷◌, Option, none, some, Text, ◌==◌, nat_eq, list_eq,
  if◌then◌else◌, bytes,
}
use rezerve.Bidengine.Ids.{BidId, bid_eq}

pub record HttpOptions : Type 0 where
  pub max_body_size : ℕ
  pub read_timeout : ℕ
  pub send_timeout : ℕ
  pub next_timeout : ℕ
  pub next_tries : ℕ
  pub next_cases : List Text
  pub proxy_buffering_disable : Bool
  pub proxy_buffer_size : ℕ
  pub proxy_buffers_number : ℕ
  pub proxy_buffers_size : ℕ
  pub proxy_busy_buffers_size : ℕ
  pub proxy_connect_timeout : ℕ

pub record ServiceExpose : Type 0 where
  pub port : ℕ
  pub external_port : ℕ
  pub is_global : Bool
  pub http_options : HttpOptions

pub record ManifestService : Type 0 where
  pub name : Text
  pub count : ℕ
  pub expose : List ServiceExpose

-- The missing resources of Kubernetes and of the operator, and any other error.
pub data HostnameFailure : Type 0 where
  kube_not_found expected_resource_not_found other_failure : Text → HostnameFailure

pub record ResourceEvent : Type 0 where
  pub hostname : Text
  pub lease : BidId
  pub service : Text
  pub external_port : ℕ

pub record ConnectDirective : Type 0 where
  pub event : ResourceEvent
  pub options : HttpOptions

-- The first service of the name; none has no replicas.
unfoldable pub select_service : Text → List ManifestService → Option ManifestService
select_service name [] = none
select_service name (s ∷ ss) =
    let rest = select_service name ss in
    if s.name == name then if s.count == 0 then none else some s else rest

-- The first global endpoint that the port selects; `external` gives an endpoint's external port by its
-- two ports.
unfoldable pub select_expose : (ℕ → ℕ → ℕ) → ℕ → List ServiceExpose → Option ServiceExpose
select_expose external port [] = none
select_expose external port (e ∷ es) =
    let rest = select_expose external port es in
    if e.is_global && (port == external e.port e.external_port)
    then if e.port == 0 then none else some e
    else rest

-- What is read of the manifest: an error, that there is none, or its services.
pub data ManifestAnswer : Type 0 where
  manifest_failed : HostnameFailure → ManifestAnswer
  manifest_missing : ManifestAnswer
  manifest_found : List ManifestService → ManifestAnswer

pub data Located : Type 0 where
  located : ServiceExpose → Located
  unlocated : HostnameFailure → Located

unfoldable pub locate_service_from_manifest : (ℕ → ℕ → ℕ) → ManifestAnswer → ResourceEvent → Located
unfolding select_service select_expose
locate_service_from_manifest external (manifest_failed e) ev = unlocated e
locate_service_from_manifest external manifest_missing ev =
    unlocated (expected_resource_not_found (bytes "manifest"))
locate_service_from_manifest external (manifest_found services) ev =
    elim (select_service ev.service services) [
      | none ↦ unlocated (expected_resource_not_found (bytes "service"))
      | some s ↦ elim (select_expose external ev.external_port s.expose) [
        | none ↦ unlocated (expected_resource_not_found (bytes "service expose"))
        | some e ↦ located e
      ]
    ]

abbrev pub default_options : HttpOptions
default_options = record {
  max_body_size = 1_048_576;
  read_timeout = 60_000;
  send_timeout = 60_000;
  next_timeout = 60_000;
  next_tries = 3;
  next_cases = bytes "error" ∷ bytes "timeout" ∷ [];
  proxy_buffering_disable = false;
  proxy_buffer_size = 0;
  proxy_buffers_number = 0;
  proxy_buffers_size = 0;
  proxy_busy_buffers_size = 0;
  proxy_connect_timeout = 0;
}

-- An earlier manifest has no options.
abbrev pub build_directive : ResourceEvent → ServiceExpose → ConnectDirective
build_directive ev e = record {
  event = ev;
  options = if e.http_options.max_body_size == 0 then default_options else e.http_options;
}
