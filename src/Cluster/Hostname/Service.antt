-- ===== src/Cluster/Hostname/Service.antt =====
-- The hostname service of provider/cluster/hostname.go: its blocked names, its requests, and the
-- loop that serves them one at a time. `parse_owner` stands for the bech32 decoding of a lease's
-- owner, which is not in the repository.
pub mod Blocking
pub mod Isolation
pub mod Casing
use rezerve.Base.{
  ℕ, Bool, true, false, List, [], ◌∷◌, Option, none, some, Text, Result, ok, err, ◌>>=◌, Eq, ◌==◌,
  nat_eq, list_eq, if◌then◌else◌, map, to_lower, has_suffix, Dict, insert, contains,
}
use rezerve.Cluster.Hostname.{
  HostnameId, HostnameError, in_use, blocked, blocked_domain, bad_owner, not_running, cancelled,
  Store, prepare_hostnames_impl, reserve_hostnames_impl, can_reserve_hostnames_impl,
  release_hostnames_impl,
}

pub record LeaseId : Type 0 where
  pub owner : Text
  pub dseq : ℕ
  pub gseq : ℕ
  pub oseq : ℕ
  pub provider : Text

pub record Service (Address : Type 0) : Type 0 where
  pub in_use : Store Address
  pub blocked_hostnames : List Text
  pub blocked_domains : List Text

-- const HostnameSeparator
abbrev pub hostname_separator : ℕ
hostname_separator = b'.'

-- The loop of `newHostnameService` over the configured names.
split_blocked : List Text → List Text × List Text
split_blocked [] = ([], [])
split_blocked ([] ∷ rest) = let (hosts, domains) = split_blocked rest in ([] ∷ hosts, domains)
split_blocked ((c ∷ name) ∷ rest) =
    let (hosts, domains) = split_blocked rest in
    if c == hostname_separator
    then (name ∷ hosts, (c ∷ name) ∷ domains)
    else ((c ∷ name) ∷ hosts, domains)

-- How the two `select` statements of a request end: the reply is read; the request is served and
-- the caller leaves before the reply; the request is not taken.
pub data Wait : Type 0 where
  served reply_cancelled reply_shutdown send_cancelled send_shutdown : Wait

in_blocked_domain : List Text → Text → Bool
in_blocked_domain [] h = false
in_blocked_domain (d ∷ ds) h =
    let rest = in_blocked_domain ds h in if has_suffix h d then true else rest

-- What the caller gets for a reply that is ready.
answer {ℓ} : {A : Type ℓ} → Wait → Result HostnameError A → Result HostnameError A
answer served r = r
answer reply_cancelled r = err cancelled
answer reply_shutdown r = err not_running
answer send_cancelled r = err cancelled
answer send_shutdown r = err not_running

-- Whether the loop of `run` takes the request.
taken : Wait → Bool
taken send_cancelled = false
taken send_shutdown = false
taken _ = true

module _ {Address : Type 0} where
  -- `isHostnameBlocked`
  pub is_hostname_blocked : Service Address → Text → Option HostnameError
  unfolding in_blocked_domain
  is_hostname_blocked hs h =
      if contains h hs.blocked_hostnames
      then some (blocked h)
      else if in_blocked_domain hs.blocked_domains h
      then some (blocked_domain h)
      else none

  -- The loop that checks every requested name, in lower case.
  first_blocked : Service Address → List Text → Option HostnameError
  first_blocked hs [] = none
  first_blocked hs (h ∷ rest) =
      let later = first_blocked hs rest in
      elim (is_hostname_blocked hs h) [ none ↦ later | some x ↦ some x ]

module _ {Address : Type 0} ⦃ae : Eq Address⦄ where
  -- `running` says that the request is taken before the service shuts down.
  pub can_reserve_hostnames :
      Bool → Service Address → List Text → Address → Result HostnameError (Unit {0})
  unfolding first_blocked
  can_reserve_hostnames running hs hostnames owner =
      let names = map to_lower hostnames in
      elim (first_blocked hs names) [
        | some x ↦ err x
        | none ↦
            if running
            then elim (can_reserve_hostnames_impl hs.in_use names owner) [
              | none ↦ ok tt
              | some e ↦ err e
            ]
            else err not_running
      ]

module _ {Address : Type 0} ⦃ae : Eq Address⦄ (parse_owner : Text → Option Address) where
  unfoldable pub hostname_id_from_lease : LeaseId → Result HostnameError (HostnameId Address)
  hostname_id_from_lease lease = elim (parse_owner lease.owner) [
    | none ↦ err bad_owner
    | some a ↦ ok (record { owner = a; dseq = lease.dseq; gseq = lease.gseq })
  ]

  -- The loop of `newHostnameService` over the hostnames in use at the start.
  load_in_use : List (Text × LeaseId) → Result HostnameError (Store Address)
  load_in_use [] = ok []
  load_in_use ((h, lease) ∷ rest) = do
    hid ← hostname_id_from_lease lease
    store ← load_in_use rest
    ok (insert h hid store)

  unfoldable pub new_hostname_service :
      List Text → List (Text × LeaseId) → Result HostnameError (Service Address)
  unfolding split_blocked load_in_use
  new_hostname_service names initial = do
    store ← load_in_use initial
    ok (record {
      in_use = store;
      blocked_hostnames = (split_blocked names).0;
      blocked_domains = (split_blocked names).1;
    })

  pub reserve_hostnames :
      Wait
      → Service Address
      → List Text
      → LeaseId
      → Service Address × Result HostnameError (List Text)
  unfolding first_blocked answer taken
  reserve_hostnames wait hs hostnames lease =
      let names = map to_lower hostnames in
      elim (first_blocked hs names) [
        | some x ↦ (hs, err x)
        | none ↦ elim (hostname_id_from_lease lease) [
          | err x ↦ (hs, err x)
          | ok hid ↦
              let (store, r) = reserve_hostnames_impl hs.in_use names hid in
              (if taken wait then record hs { in_use = store } else hs, answer wait r)
        ]
      ]

  pub release_hostnames :
      Bool → Service Address → LeaseId → Service Address × Result HostnameError (Unit {0})
  release_hostnames running hs lease = elim (hostname_id_from_lease lease) [
    | err x ↦ (hs, err x)
    | ok hid ↦
        (if running then record hs { in_use = release_hostnames_impl hs.in_use hid } else hs, ok tt)
  ]

  -- The names stand as they are sent: nothing lowers their case here.
  pub prepare_hostnames_for_transfer :
      Wait
      → Service Address
      → List Text
      → LeaseId
      → Service Address × Result HostnameError (Unit {0})
  unfolding answer taken
  prepare_hostnames_for_transfer wait hs hostnames lease = elim (hostname_id_from_lease lease) [
    | err x ↦ (hs, err x)
    | ok hid ↦
        let (store, x) = prepare_hostnames_impl hs.in_use hostnames hid in
        (
          if taken wait then record hs { in_use = store } else hs,
          answer wait (elim x [ none ↦ ok tt | some e ↦ err e ]),
        )
  ]
