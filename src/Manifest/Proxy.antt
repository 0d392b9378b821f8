-- ===== src/Manifest/Proxy.antt =====
-- provider/manifest/proxy_limits.go and parse.go: the caps on a manifest's proxy buffers, and its
-- hostnames. The manifest's types are the chain's; these are the fields that the provider reads.
use rezerve.Base.{
  ℕ, ◌≤◌, ◌≡◌, Bool, List, [], ◌∷◌, ◌++◌, Option, none, some, arith, Text, if◌then◌else◌, ltb, All,
  Option-cases, inl, inr,
}

pub record ProxyOptions : Type 0 where
  pub buffer_size : ℕ
  pub buffers_number : ℕ
  pub buffers_size : ℕ
  pub busy_buffers_size : ℕ

pub record Expose : Type 0 where
  pub is_ingress : Bool
  pub hosts : List Text
  pub proxy : Option ProxyOptions

pub record Service : Type 0 where
  pub name : Text
  pub expose : List Expose

pub record Group : Type 0 where
  pub name : Text
  pub services : List Service

abbrev pub max_proxy_buffer_size : ℕ
max_proxy_buffer_size = 131_072

abbrev pub max_proxy_buffers_number : ℕ
max_proxy_buffers_number = 16

abbrev pub max_proxy_buffers_size : ℕ
max_proxy_buffers_size = 131_072

abbrev pub max_proxy_busy_buffers_size : ℕ
max_proxy_busy_buffers_size = 262_144

-- The field that is over its limit.
pub data OverLimit : Type 0 where
  buffer_size buffers_number buffers_size busy_buffers_size : OverLimit

-- An endpoint with no proxy options is passed over.
unfoldable pub over_limit : Option ProxyOptions → Option OverLimit
over_limit none = none
over_limit (some p) =
    if ltb max_proxy_buffer_size p.buffer_size
    then some OverLimit.buffer_size
    else if ltb max_proxy_buffers_number p.buffers_number
    then some OverLimit.buffers_number
    else if ltb max_proxy_buffers_size p.buffers_size
    then some OverLimit.buffers_size
    else if ltb max_proxy_busy_buffers_size p.busy_buffers_size
    then some OverLimit.busy_buffers_size
    else none

-- The loops leave at the first field over its limit, with the service's name.
unfoldable pub check_expose : Text → List Expose → Option (Text × OverLimit)
check_expose service [] = none
check_expose service (e ∷ es) =
    let rest = check_expose service es in
    elim (over_limit e.proxy) [ none ↦ rest | some field ↦ some (service, field) ]

unfoldable pub check_services : List Service → Option (Text × OverLimit)
unfolding check_expose
check_services [] = none
check_services (s ∷ ss) =
    let rest = check_services ss in
    elim (check_expose s.name s.expose) [ none ↦ rest | some e ↦ some e ]

unfoldable pub validate_proxy_buffer_limits : List Group → Option (Text × OverLimit)
unfolding check_services
validate_proxy_buffer_limits [] = none
validate_proxy_buffer_limits (g ∷ gs) =
    let rest = validate_proxy_buffer_limits gs in
    elim (check_services g.services) [ none ↦ rest | some e ↦ some e ]

-- A proxy's options within the provider's limits; no proxy is.
abbrev pub ProxyWithin : Option ProxyOptions → Type 0
ProxyWithin none = Unit
ProxyWithin (some p) =
    (p.buffer_size ≤ max_proxy_buffer_size)
    × (p.buffers_number ≤ max_proxy_buffers_number)
    × (p.buffers_size ≤ max_proxy_buffers_size)
    × (p.busy_buffers_size ≤ max_proxy_busy_buffers_size)

abbrev pub WithinLimits : List Group → Type 0
WithinLimits = All (λ g. All (λ s. All (λ e. ProxyWithin e.proxy) s.expose) g.services)

over_limit-within : (o : Option ProxyOptions) → over_limit o ≡ none → ProxyWithin o
unfolding over_limit
over_limit-within none h = tt
over_limit-within (some p) h = ground arith

check_expose-within :
    (service : Text) (es : List Expose)
    → check_expose service es ≡ none
    → All (λ e. ProxyWithin e.proxy) es
unfolding check_expose
check_expose-within service [] h = tt
check_expose-within service (e ∷ es) h = elim (Option-cases (over_limit e.proxy)) [
  | inl k ↦
      (over_limit-within e.proxy k, check_expose-within service es (rw (check_expose, k) at h))
  | inr (x, k) ↦ absurd (ground (arith, k, h))
]

check_services-within :
    (ss : List Service)
    → check_services ss ≡ none
    → All (λ s. All (λ e. ProxyWithin e.proxy) s.expose) ss
unfolding check_services
check_services-within [] h = tt
check_services-within (s ∷ ss) h = elim (Option-cases (check_expose s.name s.expose)) [
  | inl e ↦ (
    check_expose-within s.name s.expose e,
    check_services-within ss (rw (check_services, e) at h),
  )
  | inr (x, e) ↦ absurd (ground (arith, e, h))
]

pub validate-WithinLimits :
    (gs : List Group) → validate_proxy_buffer_limits gs ≡ none → WithinLimits gs
unfolding validate_proxy_buffer_limits
validate-WithinLimits [] h = tt
validate-WithinLimits (g ∷ gs) h = elim (Option-cases (check_services g.services)) [
  | inl e ↦ (
    check_services-within g.services e,
    validate-WithinLimits gs (rw (validate_proxy_buffer_limits, e) at h),
  )
  | inr (x, e) ↦ absurd (ground (arith, e, h))
]

unfoldable pub all_expose_hosts : List Expose → List Text
all_expose_hosts [] = []
all_expose_hosts (e ∷ es) = e.hosts ++ all_expose_hosts es

unfoldable pub all_hostnames_of_manifest_group : List Service → List Text
unfolding all_expose_hosts
all_hostnames_of_manifest_group [] = []
all_hostnames_of_manifest_group (s ∷ ss) =
    all_expose_hosts s.expose ++ all_hostnames_of_manifest_group ss
