-- ===== src/Manifest/Manager.antt =====
-- provider/manifest/manager.go: the manager of one deployment's manifests. The chain's answers, the
-- checks of the manifest's own type and the hostname service are parameters; what the manager sends is
-- a log, newest first.
pub mod Answers
pub mod Stored
pub mod Timer
pub mod Waiting
mod Tests
use rezerve.Base.{
  ℕ, ◌≡◌, Bool, true, false, not, ◌&&◌, ◌||◌, List, [], ◌∷◌, ◌++◌, Option, none, some, Text, ◌==◌,
  nat_eq, list_eq, if◌then◌else◌, any, map, Result, ok, err, Next, goes_on, stops, loop,
}
use rezerve.Bidengine.Ids.{BidId}
use rezerve.Manifest.Proxy.{
  OverLimit, Group, Service, validate_proxy_buffer_limits, all_hostnames_of_manifest_group,
}

pub data Error : Type 0 where
  -- Of a check of the manifest or a query, which is passed on.
  passed_on : Text → Error
  invalid_manifest : Text → Error
  over_limit : Text → OverLimit → Error
  context_error manifest_version no_lease_for_deployment manifest_rejected not_running : Error

-- An upload: which one it is, and its manifest.
pub record Request : Type 0 where
  pub id : ℕ
  pub manifest : List Group

pub record Lease : Type 0 where
  pub lease_id : BidId
  pub group_name : Text

-- The chain's answer about the deployment: its hash, and its active leases.
pub record Fetched : Type 0 where
  pub hash : Text
  pub leases : List Lease

pub data Effect : Type 0 where
  received dropped : ℕ → Effect
  answered : ℕ → Option Error → Effect
  manifest_received : BidId → List Group → Effect

pub record State : Type 0 where
  pub runch : Bool
  pub requests : List Request
  pub pending_requests : List Request
  pub manifests : List (List Group)
  pub versions : List Text
  pub hash : Text
  pub local_leases : List Lease
  pub fetched : Bool
  pub stoptimer : Bool
  pub log : List Effect

-- What other code answers. `expired` and `expires` are the request's context at the two places where
-- it is looked at.
pub record Checks : Type 0 where
  pub expired : Request → Bool
  pub expires : Request → Bool
  pub validate : List Group → Option Text
  pub version : List Group → Result Text Text
  pub check_against_deployment : List Group → Option Text
  pub owner_address : Option Text
  pub can_reserve_hostnames : List Text → Option Text
  pub require_host : Bool

abbrev pub emit : Effect → State → State
emit e s = record s { log = e ∷ s.log }

pub start : State
start = record {
  runch = false;
  requests = [];
  pending_requests = [];
  manifests = [];
  versions = [];
  hash = [];
  local_leases = [];
  fetched = false;
  stoptimer = false;
  log = [];
}

abbrev pub clear_fetched : State → State
clear_fetched s = record s { fetched = false; hash = []; local_leases = [] }

-- `stale`: the cached answer is older than it may be.
pub maybe_fetch_data : Bool → State → State
maybe_fetch_data stale s =
    if s.runch
    then s
    else if not s.fetched || stale
    then record (clear_fetched s) { runch = true }
    else s

abbrev is_empty {ℓ} : {A : Type ℓ} → List A → Bool
is_empty [] = true
is_empty (x ∷ xs) = false

-- A timer that is set is stopped (without the receive from its channel), or set anew.
pub maybe_schedule_stop : State → State
maybe_schedule_stop s =
    if not (is_empty s.local_leases) || not (is_empty s.manifests)
    then (if s.stoptimer then record s { stoptimer = false } else s)
    else (if s.stoptimer then record s { stoptimer = true } else s)

-- An answer to each request, one after the other.
pub answer_all : Option Error → List Request → List Effect → List Effect
answer_all e [] l = l
answer_all e (r ∷ rs) l = answer_all e rs (answered r.id e ∷ l)

pub fill_all_requests : Error → State → State
unfolding answer_all
fill_all_requests e s = record s {
  log = answer_all (some e) s.requests (answer_all (some e) s.pending_requests s.log);
  pending_requests = [];
  requests = [];
}

-- The first service of a group with an ingress and no host.
no_host : List Service → Bool
no_host [] = false
no_host (s ∷ ss) = any (λ e. e.is_ingress && is_empty e.hosts) s.expose || no_host ss

-- The hostnames of a group, once for each lease that names it, or its rejection.
group_hostnames : Checks → Group → List Text → Result Error (List Text)
unfolding no_host
group_hostnames c g [] = ok []
group_hostnames c g (name ∷ names) =
    let rest = group_hostnames c g names in
    if not (name == g.name)
    then rest
    else if c.require_host && no_host g.services
    then err manifest_rejected
    else elim rest [
      | err e ↦ err e
      | ok hosts ↦ ok (all_hostnames_of_manifest_group g.services ++ hosts)
    ]

gather_hostnames : Checks → List Text → List Group → Result Error (List Text)
unfolding group_hostnames
gather_hostnames c names [] = ok []
gather_hostnames c names (g ∷ gs) =
    let rest = gather_hostnames c names gs in
    elim (group_hostnames c g names) [
      | err e ↦ err e
      | ok hosts ↦ elim rest [ err e ↦ err e | ok more ↦ ok (hosts ++ more) ]
    ]

check_hostnames_for_manifest : Checks → List Text → List Group → Option Error
unfolding gather_hostnames
check_hostnames_for_manifest c names gs = elim c.owner_address [
  | some e ↦ some (passed_on e)
  | none ↦ elim (gather_hostnames c names gs) [
    | err e ↦ some e
    | ok hosts ↦ elim (c.can_reserve_hostnames hosts) [ none ↦ none | some e ↦ some (passed_on e) ]
  ]
]

abbrev pub last_or : Text → List Text → Text
last_or t [] = t
last_or t (v ∷ vs) = last_or v vs

pub validate_request : Checks → State → Request → Option Error
unfolding check_hostnames_for_manifest
validate_request c s r = if c.expires r then some context_error else elim (c.validate r.manifest) [
  | some e ↦ some (invalid_manifest e)
  | none ↦ elim (validate_proxy_buffer_limits r.manifest) [
    | some (service, field) ↦ some (over_limit service field)
    | none ↦ elim (c.version r.manifest) [
      | err e ↦ some (passed_on e)
      | ok version ↦
          if not (version == last_or s.hash s.versions)
          then some manifest_version
          else elim (c.check_against_deployment r.manifest) [
            | some e ↦ some (passed_on e)
            | none ↦
                check_hostnames_for_manifest c (map (λ l. l.group_name) s.local_leases) r.manifest
          ]
    ]
  ]
]

-- What becomes of a request: one whose context is done is passed over, without an answer.
pub data Screened : Type 0 where
  skipped accepted : Screened
  refused : Error → Screened

pub screen : Checks → State → Request → Screened
screen c s r =
    if c.expired r
    then skipped
    else elim (validate_request c s r) [ none ↦ accepted | some e ↦ refused e ]

-- What is sent for a request, and whether it is kept.
abbrev pub settle : Screened → Request → List Effect → List Effect
settle skipped r l = dropped r.id ∷ l
settle (refused e) r l = answered r.id (some e) ∷ l
settle accepted r l = l

abbrev pub keep_accepted : Screened → Request → List Request → List Request
keep_accepted accepted r kept = r ∷ kept
keep_accepted _ r kept = kept

-- The requests that are accepted, and the log.
pub screen_all : Checks → State → List Request → List Effect → List Request × List Effect
screen_all c s [] l = ([], l)
screen_all c s (r ∷ rs) l =
    let (kept, log) = screen_all c s rs (settle (screen c s r) r l) in
    (keep_accepted (screen c s r) r kept, log)

-- `manifests[0]`, if there is one.
abbrev pub first_manifest : List Request → List (List Group)
first_manifest [] = []
first_manifest (r ∷ rs) = r.manifest ∷ []

pub validate_requests : Checks → State → State
unfolding screen_all
validate_requests c s =
    if not s.fetched || is_empty s.requests
    then s
    else let (kept, log) = screen_all c s s.requests s.log in
      record s {
        log = log;
        pending_requests = s.pending_requests ++ kept;
        requests = [];
        manifests = s.manifests ++ first_manifest kept;
      }

abbrev pub last_manifest : List Group → List (List Group) → List Group
last_manifest g [] = g
last_manifest g (h ∷ hs) = last_manifest h hs

pub publish_all : List Group → List Lease → List Effect → List Effect
publish_all latest [] l = l
publish_all latest (x ∷ xs) l = publish_all latest xs (manifest_received x.lease_id latest ∷ l)

-- What is published when there is a manifest: the latest, for each lease.
pub emit_manifest : List Group → State → State
unfolding publish_all answer_all
emit_manifest latest s = record s {
  log = answer_all none s.pending_requests (publish_all latest s.local_leases s.log);
  pending_requests = [];
}

-- The rest of `emitReceivedEvents` for a deployment that is known, with its manifests.
abbrev pub emitted : List (List Group) → State → State
emitted [] s = s
emitted (m ∷ ms) s =
    if is_empty s.local_leases
    then fill_all_requests no_lease_for_deployment s
    else emit_manifest (last_manifest m ms) s

pub emit_received_events : State → State
unfolding emit_manifest fill_all_requests
emit_received_events s = if not s.fetched then s else emitted s.manifests s

pub data Event : Type 0 where
  shutdown stop_timer lease_removed : Event
  lease_won : Bool → Event
  manifest_request : Request → Bool → Checks → Event
  version_update : Text → Event
  fetch_result : Result Text Fetched → Checks → Event

abbrev pub is_enabled : State → Event → Bool
is_enabled s stop_timer = s.stoptimer
is_enabled s (fetch_result r c) = s.runch
is_enabled s e = true

abbrev pub on_requests : Checks → State → State
on_requests c s = emit_received_events (validate_requests c s)

pub on_manifest : Request → Bool → Checks → State → State
unfolding maybe_schedule_stop maybe_fetch_data
on_manifest r stale c s =
    let t = maybe_fetch_data stale (
      maybe_schedule_stop
        (record (emit (received r.id) s) { requests = s.requests ++ (r ∷ []) })) in
    if t.runch then t else on_requests c t

pub on_fetch_result : Result Text Fetched → Checks → State → State
unfolding maybe_schedule_stop fill_all_requests
on_fetch_result (err e) c s = fill_all_requests (passed_on e) (record s { runch = false })
on_fetch_result (ok f) c s = maybe_schedule_stop (
    on_requests c
      (record s { runch = false; fetched = true; hash = f.hash; local_leases = f.leases }))

-- One turn of the loop.
pub step : State → Event → State × Next
unfolding maybe_schedule_stop maybe_fetch_data
step s shutdown = (s, stops)
step s stop_timer = (s, stops)
step s (lease_won stale) = (maybe_fetch_data stale (maybe_schedule_stop (clear_fetched s)), goes_on)
step s lease_removed = (maybe_schedule_stop (clear_fetched s), goes_on)
step s (manifest_request r stale c) = (on_manifest r stale c s, goes_on)
step s (version_update v) =
    (clear_fetched (record s { versions = s.versions ++ (v ∷ []) }), goes_on)
step s (fetch_result r c) = (on_fetch_result r c s, goes_on)

pub run : State → List Event → State × Next
run = loop is_enabled step

-- What follows the loop.
pub finish : State → State
unfolding fill_all_requests
finish s = fill_all_requests not_running s
