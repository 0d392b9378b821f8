-- ===== src/Cluster/Hostname/Service/Casing.antt =====
-- Letters in upper case: a reservation lowers them, a transfer does not.
use rezerve.Base.{
  ◌≡◌, refl, true, List, [], ◌∷◌, Option, none, some, arith, Text, ok, Eq, nat_eq, list_eq, all,
  any, is_upper, lookup,
}
use rezerve.Cluster.Hostname.{HostnameId, Store, to_change, prepare_hostnames_impl}
use rezerve.Cluster.Hostname.Service.{
  LeaseId, Service, served, hostname_id_from_lease, prepare_hostnames_for_transfer,
}

module _ {Address : Type 0} ⦃ae : Eq Address⦄ where
  -- Every name in the map is in lower case, as reservations leave it.
  abbrev pub IsLower : Store Address → Type 0
  IsLower store = (j : Text) → any is_upper j ≡ true → lookup j store ≡ none

  to_change_upper :
      (store : Store Address) (hs : List Text) (hid : HostnameId Address)
      → IsLower store
      → all (any is_upper) hs ≡ true
      → to_change store hs hid ≡ ok []
  unfolding to_change
  to_change_upper store [] hid low u = refl
  to_change_upper store (h ∷ hs) hid low u = ground (arith, low h, to_change_upper store hs hid low)

  -- A transfer of hostnames that are written with an upper-case letter is reported as done, and
  -- moves nothing, since the map holds them in lower case.
  pub transfer_of_uppercase_moves_nothing :
      (parse_owner : Text → Option Address) (hs : Service Address) (hostnames : List Text)
      (lease : LeaseId) (a : Address)
      → IsLower hs.in_use
      → all (any is_upper) hostnames ≡ true
      → parse_owner lease.owner ≡ some a
      → prepare_hostnames_for_transfer parse_owner served hs hostnames lease ≡ (hs, ok tt)
  unfolding prepare_hostnames_for_transfer hostname_id_from_lease prepare_hostnames_impl
  transfer_of_uppercase_moves_nothing parse_owner hs hostnames lease a low upper parsed = ground (
    arith,
    parsed,
    to_change_upper hs.in_use hostnames (record { owner = a; dseq = lease.dseq; gseq = lease.gseq })
        low upper,
  )
