-- ===== src/Cluster/Hostname/Transfer.antt =====
-- Moving hostnames between deployments of one owner: `prepareHostnamesImpl`, then a reservation.
use rezerve.Base.{
  ◌≡◌, refl, inl, inr, Bool, true, false, ◌&&◌, List, [], ◌∷◌, Option, none, some, arith, Text, ok,
  Eq, ==_iff, nat_eq, list_eq, if◌then◌else◌, any, any-false, nil_of_contains, lookup, ◌≢◌,
  delete_all-Unique, lookup-delete_all, lookup-insert, insert, insert-Unique, Unique, contains,
  Result-cases, subst,
}
use rezerve.Cluster.Hostname.{
  HostnameId, HostnameError, equals_iff, Store, to_change, assign, held_by, release_hostnames_impl,
  prepare_hostnames_impl, reserve_hostnames_impl,
}
use rezerve.Cluster.Hostname.Reserve.{is_own, is_foreign, reserve_lem, can_reserve-reserve}

module _ {Address : Type 0} ⦃ae : Eq Address⦄ where
  abbrev pub is_held : Option (HostnameId Address) → Bool
  is_held none = false
  is_held (some e) = true

  contains-to_change :
      (store : Store Address) (hs : List Text) (hid : HostnameId Address) (names : List Text)
      → to_change store hs hid ≡ ok names
      → (j : Text) → contains j names ≡ (contains j hs && is_held (lookup j store))
  unfolding to_change contains
  contains-to_change store [] hid names e j = ground arith
  contains-to_change store (h ∷ hs) hid names e j = elim (Result-cases (to_change store hs hid)) [
    | inl (ns, s) ↦ ground (arith, s, ==_iff h j, contains-to_change store hs hid ns s j)
    | inr (x, s) ↦ ground (arith, s, ==_iff h j)
  ]

  to_change_own :
      (store : Store Address) (hs : List Text) (hid : HostnameId Address) (names : List Text)
      (j : Text) (e : HostnameId Address)
      → to_change store hs hid ≡ ok names
      → lookup j store ≡ some e
      → e.owner ≢ hid.owner
      → contains j names ≡ false
  unfolding to_change contains
  to_change_own store [] hid names j e s p n = ground arith
  to_change_own store (h ∷ hs) hid names j e s p n = elim (Result-cases (to_change store hs hid)) [
    | inl (ns, t) ↦
        ground
          (arith, t, ==_iff h j, ==_iff e.owner hid.owner, to_change_own store hs hid ns j e t p n)
    | inr (x, t) ↦ ground (arith, t)
  ]

  contains-held_by :
      (store : Store Address) (hid : HostnameId Address) (j : Text)
      → Unique store
      → contains j (held_by store hid) ≡ is_own hid (lookup j store)
  unfolding held_by contains lookup
  contains-held_by [] hid j u = refl
  contains-held_by ((h, e) ∷ m) hid j u = ground (arith, ==_iff h j, contains-held_by m hid j u.1)

  lookup-assign :
      (hs : List Text) (hid : HostnameId Address) (store : Store Address) (j : Text)
      → lookup j (assign hs hid store) ≡ (if contains j hs then some hid else lookup j store)
  unfolding assign contains
  lookup-assign [] hid store j = refl
  lookup-assign (h ∷ hs) hid store j =
      ground (arith, lookup-assign hs hid (insert h hid store) j, lookup-insert h j hid store)

  assign-Unique :
      (hs : List Text) (hid : HostnameId Address) (store : Store Address)
      → Unique store
      → Unique (assign hs hid store)
  unfolding assign
  assign-Unique [] hid store u = u
  assign-Unique (h ∷ hs) hid store u =
      assign-Unique hs hid (insert h hid store) (insert-Unique h hid store u)

  -- A transfer that is granted hands over exactly the requested names that are held at all.
  pub prepare_lem :
      (store : Store Address) (hostnames : List Text) (hid : HostnameId Address)
      (store' : Store Address)
      → prepare_hostnames_impl store hostnames hid ≡ (store', none)
      → (j : Text)
      → lookup j store'
        ≡ (if contains j hostnames && is_held (lookup j store) then some hid else lookup j store)
  unfolding prepare_hostnames_impl
  prepare_lem store hostnames hid store' e j = elim (Result-cases (to_change store hostnames hid)) [
    | inl (names, s) ↦ ground (
      arith,
      s,
      contains-to_change store hostnames hid names s j,
      lookup-assign names hid store j,
    )
    | inr (x, s) ↦ absurd (ground (arith, s))
  ]

  pub prepare-Unique :
      (store : Store Address) (hostnames : List Text) (hid : HostnameId Address)
      → Unique store
      → Unique (prepare_hostnames_impl store hostnames hid).0
  unfolding prepare_hostnames_impl
  prepare-Unique store hostnames hid u = elim (Result-cases (to_change store hostnames hid)) [
    | inl (names, s) ↦ rw (s, prepare_hostnames_impl) (assign-Unique names hid store u)
    | inr (x, s) ↦ rw (s, prepare_hostnames_impl) u
  ]

  -- Once a transfer is granted, the reservation of the same names by the same deployment succeeds,
  -- withholds nothing, and leaves every one of them with that deployment.
  pub reserve-prepare :
      (store : Store Address) (hostnames : List Text) (hid : HostnameId Address)
      (store' : Store Address)
      → Unique store
      → prepare_hostnames_impl store hostnames hid ≡ (store', none)
      → (store'' : Store Address) × (reserve_hostnames_impl store' hostnames hid ≡ (store'', ok []))
        × ((j : Text) → contains j hostnames ≡ true → lookup j store'' ≡ some hid)
  reserve-prepare store hostnames hid store' u prepared =
      let moved = prepare_lem store hostnames hid store' prepared in
      let free : any (λ h. is_foreign hid.owner (lookup h store')) hostnames ≡ false =
        any-false _ hostnames (λ h m. ground (arith, moved h, ==_iff hid.owner hid.owner)) in
      let checked = can_reserve-reserve store' hostnames hid in
      let (w, done) = checked.1 (checked.0.1 free) in
      let result = reserve_hostnames_impl store' hostnames hid in
      let spec =
        reserve_lem store' hostnames hid result.0 w
          (subst (λ (r : Store Address × Option HostnameError). Unique r.0) prepared
            (prepare-Unique store hostnames hid u))
          (ground (arith, done)) in
      let none_kept =
        nil_of_contains w (λ j. ground (arith, moved j, (spec j).1, equals_iff hid hid)) in
      (
        result.0,
        ground (arith, done, none_kept),
        λ j m. ground (arith, moved j, (spec j).0, equals_iff hid hid),
      )

  -- A release takes away exactly the deployment's own names.
  pub release_lem :
      (store : Store Address) (hid : HostnameId Address) (j : Text)
      → Unique store
      → lookup j (release_hostnames_impl store hid)
        ≡ (if is_own hid (lookup j store) then none else lookup j store)
  unfolding release_hostnames_impl
  release_lem store hid j u =
      ground (arith, contains-held_by store hid j u, lookup-delete_all (held_by store hid) j store)

  pub release-Unique :
      (store : Store Address) (hid : HostnameId Address)
      → Unique store
      → Unique (release_hostnames_impl store hid)
  unfolding release_hostnames_impl
  release-Unique store hid u = delete_all-Unique (held_by store hid) store u

  -- No transfer changes an entry of another owner.
  pub prepare_keeps :
      (store : Store Address) (hostnames : List Text) (hid e : HostnameId Address) (j : Text)
      → lookup j store ≡ some e
      → e.owner ≢ hid.owner
      → lookup j (prepare_hostnames_impl store hostnames hid).0 ≡ some e
  unfolding prepare_hostnames_impl
  prepare_keeps store hostnames hid e j present foreign =
      elim (Result-cases (to_change store hostnames hid)) [
        | inl (names, s) ↦ ground (
          arith,
          s,
          to_change_own store hostnames hid names j e s,
          lookup-assign names hid store j,
        )
        | inr (x, s) ↦ ground (arith, s)
      ]
