-- ===== src/Cluster/Hostname/Service/Isolation.antt =====
-- The service over any sequence of requests: the hostnames of an owner who asks nothing stay.
use rezerve.Base.{
  ◌≡◌, sym, ap, subst, ◌∙◌, ◌⊎◌, inl, inr, ◌≢◌, Bool, List, [], ◌∷◌, Option, some, arith, Text, ok,
  Eq, nat_eq, list_eq, map, All, to_lower, lookup, Unique, insert-Unique, Result-cases,
  Option-cases, Bool-cases,
}
use rezerve.Cluster.Hostname.{
  HostnameId, Store, equals_iff, prepare_hostnames_impl, reserve_hostnames_impl,
  release_hostnames_impl,
}
use rezerve.Cluster.Hostname.Reserve.{reserve-Unique, reserve_keeps}
use rezerve.Cluster.Hostname.Transfer.{prepare-Unique, prepare_keeps, release_lem, release-Unique}
use rezerve.Cluster.Hostname.Service.{
  LeaseId, Service, Wait, taken, first_blocked, hostname_id_from_lease, load_in_use,
  new_hostname_service, reserve_hostnames, release_hostnames, prepare_hostnames_for_transfer,
}

-- One turn of the loop of `run` that can change the map.
pub data Request : Type 0 where
  reserves : Wait → List Text → LeaseId → Request
  prepares : Wait → List Text → LeaseId → Request
  releases : Bool → LeaseId → Request

abbrev pub lease_of : Request → LeaseId
lease_of (reserves wait names lease) = lease
lease_of (prepares wait names lease) = lease
lease_of (releases running lease) = lease

module _ {Address : Type 0} ⦃ae : Eq Address⦄ (parse_owner : Text → Option Address) where
  pub serve : Service Address → Request → Service Address
  serve hs (reserves wait names lease) = (reserve_hostnames parse_owner wait hs names lease).0
  serve hs (prepares wait names lease) =
      (prepare_hostnames_for_transfer parse_owner wait hs names lease).0
  serve hs (releases running lease) = (release_hostnames parse_owner running hs lease).0

  unfoldable pub serve_all : Service Address → List Request → Service Address
  serve_all hs [] = hs
  serve_all hs (r ∷ rs) = serve_all (serve hs r) rs

  load_in_use-Unique :
      (initial : List (Text × LeaseId)) (store : Store Address)
      → load_in_use parse_owner initial ≡ ok store
      → Unique store
  unfolding load_in_use
  load_in_use-Unique [] store e =
      let same : ◌≡◌ {A = Store Address} [] store = ground (arith, e) in subst Unique same tt
  load_in_use-Unique ((h, lease) ∷ rest) store e =
      elim (Result-cases (hostname_id_from_lease parse_owner lease)) [
        | inl (hid, parsed) ↦ elim (Result-cases (load_in_use parse_owner rest)) [
          | inl (m, loaded) ↦
              subst Unique (ground (arith, parsed, loaded))
                (insert-Unique h hid m (load_in_use-Unique rest m loaded))
          | inr (x, failed) ↦ absurd (ground (arith, parsed, failed))
        ]
        | inr (x, failed) ↦ absurd (ground (arith, failed))
      ]

  -- The change of the map that a request asks for.
  abbrev change : Request → HostnameId Address → Store Address → Store Address
  change (reserves wait names lease) hid store =
      (reserve_hostnames_impl store (map to_lower names) hid).0
  change (prepares wait names lease) hid store = (prepare_hostnames_impl store names hid).0
  change (releases running lease) hid store = release_hostnames_impl store hid

  abbrev Served : Service Address → Request → Type 0
  Served hs r =
      ((serve hs r).in_use ≡ hs.in_use)
      ⊎ ((hid : HostnameId Address) × (parse_owner (lease_of r).owner ≡ some hid.owner)
          × ((serve hs r).in_use ≡ change r hid hs.in_use))

  id_owner :
      (lease : LeaseId) (hid : HostnameId Address)
      → hostname_id_from_lease parse_owner lease ≡ ok hid
      → parse_owner lease.owner ≡ some hid.owner
  unfolding hostname_id_from_lease
  id_owner lease hid e = ground arith

  serve-Served : (hs : Service Address) (r : Request) → Served hs r
  unfolding serve reserve_hostnames prepare_hostnames_for_transfer release_hostnames
  serve-Served hs (reserves wait names lease) =
      elim (Option-cases (first_blocked hs (map to_lower names))) [
        | inr (x, hit) ↦ inl (ground (arith, hit))
        | inl free ↦ elim (Result-cases (hostname_id_from_lease parse_owner lease)) [
          | inr (x, bad) ↦ inl (ground (arith, free, bad))
          | inl (hid, parsed) ↦ elim (Bool-cases (taken wait)) [
            | inl t ↦ inr (hid, id_owner lease hid parsed, ground (arith, free, parsed, t))
            | inr t ↦ inl (ground (arith, free, parsed, t))
          ]
        ]
      ]
  serve-Served hs (prepares wait names lease) =
      elim (Result-cases (hostname_id_from_lease parse_owner lease)) [
        | inr (x, bad) ↦ inl (ground (arith, bad))
        | inl (hid, parsed) ↦ elim (Bool-cases (taken wait)) [
          | inl t ↦ inr (hid, id_owner lease hid parsed, ground (arith, parsed, t))
          | inr t ↦ inl (ground (arith, parsed, t))
        ]
      ]
  serve-Served hs (releases running lease) =
      elim (Result-cases (hostname_id_from_lease parse_owner lease)) [
        | inr (x, bad) ↦ inl (ground (arith, bad))
        | inl (hid, parsed) ↦ elim (Bool-cases running) [
          | inl t ↦ inr (hid, id_owner lease hid parsed, ground (arith, parsed, t))
          | inr t ↦ inl (ground (arith, parsed, t))
        ]
      ]

  change-Unique :
      (r : Request) (hid : HostnameId Address) (store : Store Address)
      → Unique store
      → Unique (change r hid store)
  change-Unique (reserves wait names lease) hid store u =
      reserve-Unique store (map to_lower names) hid u
  change-Unique (prepares wait names lease) hid store u = prepare-Unique store names hid u
  change-Unique (releases running lease) hid store u = release-Unique store hid u

  change_keeps :
      (r : Request) (hid e : HostnameId Address) (store : Store Address) (j : Text)
      → Unique store
      → lookup j store ≡ some e
      → e.owner ≢ hid.owner
      → lookup j (change r hid store) ≡ some e
  change_keeps (reserves wait names lease) hid e store j u p n =
      reserve_keeps store (map to_lower names) hid e j u p n
  change_keeps (prepares wait names lease) hid e store j u p n =
      prepare_keeps store names hid e j p n
  change_keeps (releases running lease) hid e store j u p n =
      ground (arith, release_lem store hid j u, equals_iff e hid)

  serve-Unique :
      (hs : Service Address) (r : Request) → Unique hs.in_use → Unique (serve hs r).in_use
  serve-Unique hs r u = elim (serve-Served hs r) [
    | inl same ↦ subst Unique (sym same) u
    | inr (hid, parsed, done) ↦ subst Unique (sym done) (change-Unique r hid hs.in_use u)
  ]

  serve_keeps :
      (hs : Service Address) (r : Request) (e : HostnameId Address) (j : Text)
      → Unique hs.in_use
      → lookup j hs.in_use ≡ some e
      → parse_owner (lease_of r).owner ≢ some e.owner
      → lookup j (serve hs r).in_use ≡ some e
  serve_keeps hs r e j u p n = elim (serve-Served hs r) [
    | inl same ↦ rw same p
    | inr (hid, parsed, done) ↦
        rw done (change_keeps r hid e hs.in_use j u p (λ q. n (parsed ∙ ap some (sym q))))
  ]

  serve_all-Unique :
      (hs : Service Address) (rs : List Request)
      → Unique hs.in_use
      → Unique (serve_all hs rs).in_use
  unfolding serve_all
  serve_all-Unique hs [] u = u
  serve_all-Unique hs (r ∷ rs) u = serve_all-Unique (serve hs r) rs (serve-Unique hs r u)

  made-Unique :
      (entries : List Text) (initial : List (Text × LeaseId)) (hs : Service Address)
      → new_hostname_service parse_owner entries initial ≡ ok hs
      → Unique hs.in_use
  unfolding new_hostname_service
  made-Unique entries initial hs made = elim (Result-cases (load_in_use parse_owner initial)) [
    | inl (store, loaded) ↦
        subst Unique (ground (arith, loaded)) (load_in_use-Unique initial store loaded)
    | inr (x, failed) ↦ absurd (ground (arith, failed))
  ]

  serve_all_keeps :
      (hs : Service Address) (rs : List Request) (e : HostnameId Address) (j : Text)
      → Unique hs.in_use
      → lookup j hs.in_use ≡ some e
      → All (λ r. parse_owner (lease_of r).owner ≢ some e.owner) rs
      → lookup j (serve_all hs rs).in_use ≡ some e
  unfolding serve_all
  serve_all_keeps hs [] e j u p n = p
  serve_all_keeps hs (r ∷ rs) e j u p n =
      serve_all_keeps (serve hs r) rs e j (serve-Unique hs r u) (serve_keeps hs r e j u p n.0) n.1

  -- From the start of the service on, whatever the other owners reserve, transfer or release, and
  -- however their calls end, a hostname stays with the deployment that holds it.
  pub owner_isolation :
      (entries : List Text) (initial : List (Text × LeaseId)) (hs : Service Address)
      (before after : List Request) (e : HostnameId Address) (j : Text)
      → new_hostname_service parse_owner entries initial ≡ ok hs
      → lookup j (serve_all hs before).in_use ≡ some e
      → All (λ r. parse_owner (lease_of r).owner ≢ some e.owner) after
      → lookup j (serve_all (serve_all hs before) after).in_use ≡ some e
  owner_isolation entries initial hs before after e j made held others =
      serve_all_keeps (serve_all hs before) after e j
        (serve_all-Unique hs before (made-Unique entries initial hs made)) held others
