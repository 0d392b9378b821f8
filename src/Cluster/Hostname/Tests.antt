-- ===== src/Cluster/Hostname/Tests.antt =====
-- Two owners, alice and bob, and the theorems at their requests. An address is its text here.
use rezerve.Base.{
  ℕ, ◌≡◌, refl, ◌≢◌, true, [], ◌∷◌, none, some, arith, Text, bytes, ok, nat_eq, list_eq, to_lower,
  lookup, contains, delete, delete_all, insert,
}
use rezerve.Cluster.Hostname.{HostnameId, equals, Store, reserve_hostnames_impl}
use rezerve.Cluster.Hostname.Reserve.{reserve_lem}
use rezerve.Cluster.Hostname.Service.{
  LeaseId, Service, served, hostname_id_from_lease, new_hostname_service, is_hostname_blocked,
}
use rezerve.Cluster.Hostname.Service.Blocking.{uppercase_entries_never_block}
use rezerve.Cluster.Hostname.Service.Isolation.{reserves, releases, serve_all, owner_isolation}

abbrev alice : Text
alice = bytes "alice"

abbrev bob : Text
bob = bytes "bob"

abbrev id_of : Text → ℕ → HostnameId Text
id_of owner dseq = record { owner = owner; dseq = dseq; gseq = 1 }

abbrev lease_for : Text → ℕ → LeaseId
lease_for owner dseq = record {
  owner = owner;
  dseq = dseq;
  gseq = 1;
  oseq = 1;
  provider = bytes "prov";
}

abbrev site : Text
site = bytes "a.com"

abbrev shop : Text
shop = bytes "b.com"

abbrev held : Store Text
held = (site, id_of alice 1) ∷ (shop, id_of alice 2) ∷ []

reserve_test :
    reserve_hostnames_impl held (site ∷ bytes "c.com" ∷ []) (id_of alice 2)
    ≡ ((site, id_of alice 1) ∷ (bytes "c.com", id_of alice 2) ∷ [], ok (site ∷ []))
unfolding reserve_hostnames_impl lookup contains equals delete_all delete insert
reserve_test = refl

reserve_lem_example :
    (lookup site (reserve_hostnames_impl held (site ∷ []) (id_of alice 2)).0 ≡ some (id_of alice 1))
    × (contains site (site ∷ []) ≡ true)
unfolding reserve_hostnames_impl lookup contains equals
reserve_lem_example = reserve_lem held (site ∷ []) (id_of alice 2) _ _ (refl, (refl, tt)) refl site

abbrev service : Service Text
service = record {
  in_use = (site, id_of alice 1) ∷ [];
  blocked_hostnames = bytes "bad.org" ∷ [];
  blocked_domains = bytes ".bad.org" ∷ [];
}

service_made :
    new_hostname_service some (bytes ".bad.org" ∷ []) ((site, lease_for alice 1) ∷ []) ≡ ok service
unfolding new_hostname_service hostname_id_from_lease insert
service_made = refl

abbrev shouting : Service Text
shouting = record { in_use = []; blocked_hostnames = bytes "Bad.org" ∷ []; blocked_domains = [] }

uppercase_entries_never_block_example :
    is_hostname_blocked shouting (to_lower (bytes "Bad.org")) ≡ none
unfolding new_hostname_service
uppercase_entries_never_block_example =
    uppercase_entries_never_block some (bytes "Bad.org" ∷ []) [] shouting refl refl
      (bytes "Bad.org")

owner_isolation_example :
    lookup site
      (serve_all some (serve_all some service []) (
        reserves served (site ∷ []) (lease_for bob 7)
        ∷ releases true (lease_for bob 7)
        ∷ [])).in_use
    ≡ some (id_of alice 1)
unfolding lookup serve_all
owner_isolation_example =
    owner_isolation some (bytes ".bad.org" ∷ []) ((site, lease_for alice 1) ∷ []) service []
      (reserves served (site ∷ []) (lease_for bob 7) ∷ releases true (lease_for bob 7) ∷ [])
      (id_of alice 1) site service_made refl ((λ e. not_alice e), ((λ e. not_alice e), tt))
  where
    not_alice : some bob ≢ some alice
    not_alice e = absurd (ground (arith, e))
