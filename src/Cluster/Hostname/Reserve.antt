-- ===== src/Cluster/Hostname/Reserve.antt =====
-- What a reservation does to the map of hostnames, name by name.
use rezerve.Base.{
  ◌≡◌, refl, inl, inr, Bool, false, not, ◌&&◌, ◌||◌, List, [], ◌∷◌, ◌++◌, Option, none, some, arith,
  Text, ok, err, Eq, ◌==◌, ==_iff, nat_eq, list_eq, if◌then◌else◌, any, lookup, lookup-insert,
  insert, Unique, lookup-delete_all, contains, contains-append, Result-cases, Bool-cases, ◌≢◌,
  insert-Unique, delete_all-Unique, Option-cases, ◌↔◌,
}
use rezerve.Cluster.Hostname.{
  HostnameId, HostnameError, equals, equals_iff, Store, scan, stale, mark, reserve_hostnames_impl,
  can_reserve_hostnames_impl,
}

module _ {Address : Type 0} ⦃ae : Eq Address⦄ where
  -- The entry is this deployment's own.
  abbrev pub is_own : HostnameId Address → Option (HostnameId Address) → Bool
  is_own hid none = false
  is_own hid (some e) = equals e hid

  -- The entry is another deployment's.
  abbrev pub is_other : HostnameId Address → Option (HostnameId Address) → Bool
  is_other hid none = false
  is_other hid (some e) = not (equals e hid)

  -- The entry is another owner's.
  abbrev pub is_foreign : Address → Option (HostnameId Address) → Bool
  is_foreign owner none = false
  is_foreign owner (some e) = not (e.owner == owner)

  -- The specification of a reservation for one name, from its entry before.
  abbrev pub reserved :
      HostnameId Address → Bool → Option (HostnameId Address) → Option (HostnameId Address)
  reserved hid requested old =
      if requested
      then (if is_other hid old then old else some hid)
      else (if is_own hid old then none else old)

  scan_rest :
      (store : Store Address) (h : Text) (hs : List Text) (hid : HostnameId Address)
      (acc w : List Text)
      → scan store (h ∷ hs) hid acc ≡ ok w
      → scan store hs hid (if is_other hid (lookup h store) then acc ++ h ∷ [] else acc) ≡ ok w
  unfolding scan
  scan_rest store h hs hid acc w e = ground arith

  scan_withheld :
      (store : Store Address) (hs : List Text) (hid : HostnameId Address) (acc w : List Text)
      → scan store hs hid acc ≡ ok w
      → (j : Text)
      → contains j w ≡ (contains j acc || (contains j hs && is_other hid (lookup j store)))
  unfolding contains
  scan_withheld store [] hid acc w e j = unfold scan in ground arith
  scan_withheld store (h ∷ hs) hid acc w e j =
      let rest = scan_withheld store hs hid _ w (scan_rest store h hs hid acc w e) j in
      ground (arith, ==_iff h j, rest, contains-append j acc h)

  lookup-mark :
      (hs w : List Text) (hid : HostnameId Address) (store : Store Address) (j : Text)
      → lookup j (mark hs w hid store)
        ≡ (if contains j hs && not (contains j w) then some hid else lookup j store)
  unfolding mark contains
  lookup-mark [] w hid store j = refl
  lookup-mark (h ∷ hs) w hid store j = ground (
    arith,
    ==_iff h j,
    lookup-mark hs w hid (insert h hid store) j,
    lookup-mark hs w hid store j,
    lookup-insert h j hid store,
  )

  contains-stale :
      (store : Store Address) (req : List Text) (hid : HostnameId Address) (j : Text)
      → Unique store
      → contains j (stale store req hid) ≡ (not (contains j req) && is_own hid (lookup j store))
  unfolding stale contains lookup
  contains-stale [] req hid j u = ground arith
  contains-stale ((h, e) ∷ m) req hid j u =
      ground (arith, ==_iff h j, contains-stale m req hid j u.1)

  -- A reservation that succeeds gives the requested names that no other deployment of the owner
  -- holds, takes away this deployment's other names, leaves all else, and withholds exactly the
  -- requested names that another deployment holds.
  pub reserve_lem :
      (store : Store Address) (hostnames : List Text) (hid : HostnameId Address)
      (store' : Store Address) (withheld : List Text)
      → Unique store
      → reserve_hostnames_impl store hostnames hid ≡ (store', ok withheld)
      → (j : Text)
      → (lookup j store' ≡ reserved hid (contains j hostnames) (lookup j store))
        × (contains j withheld ≡ (contains j hostnames && is_other hid (lookup j store)))
  unfolding reserve_hostnames_impl contains
  reserve_lem store hostnames hid store' withheld u e j =
      elim (Result-cases (scan store hostnames hid [])) [
        | inl (w, s) ↦
            let same : w ≡ withheld = ground (arith, s) in
            let found = scan_withheld store hostnames hid [] w s j in
            ground (
              arith,
              s,
              found,
              contains-stale store hostnames hid j u,
              lookup-mark hostnames w hid store j,
              lookup-delete_all (stale store hostnames hid) j (mark hostnames w hid store),
            )
        | inr (x, s) ↦ absurd (ground (arith, s))
      ]

  can_reserve-any :
      (store : Store Address) (hs : List Text) (owner : Address)
      → (can_reserve_hostnames_impl store hs owner ≡ none)
        ↔ (any (λ h. is_foreign owner (lookup h store)) hs ≡ false)
  unfolding can_reserve_hostnames_impl
  can_reserve-any store [] owner = ground arith
  can_reserve-any store (h ∷ hs) owner = ground (arith, can_reserve-any store hs owner)

  scan_free :
      (store : Store Address) (hs : List Text) (hid : HostnameId Address) (acc : List Text)
      → can_reserve_hostnames_impl store hs hid.owner ≡ none
      → (w : List Text) × (scan store hs hid acc ≡ ok w)
  unfolding can_reserve_hostnames_impl scan
  scan_free store [] hid acc free = (acc, refl)
  scan_free store (h ∷ hs) hid acc free = elim (Option-cases (lookup h store)) [
    | inl absent ↦ let (w, s) = scan_free store hs hid acc (ground arith) in (w, ground arith)
    | inr (x, present) ↦
        let (w, s) =
          scan_free store hs hid (if equals x hid then acc else acc ++ h ∷ []) (ground arith) in
        (w, ground arith)
  ]

  scan_taken :
      (store : Store Address) (hs : List Text) (hid : HostnameId Address) (acc : List Text)
      (x : HostnameError)
      → can_reserve_hostnames_impl store hs hid.owner ≡ some x
      → scan store hs hid acc ≡ err x
  unfolding can_reserve_hostnames_impl scan
  scan_taken store [] hid acc x taken = cc
  scan_taken store (h ∷ hs) hid acc x taken = elim (Option-cases (lookup h store)) [
    | inl absent ↦ ground (arith, scan_taken store hs hid acc x)
    | inr (y, present) ↦
        ground (arith, scan_taken store hs hid (if equals y hid then acc else acc ++ h ∷ []) x)
  ]

  -- The check that a bid makes and the reservation agree: the check passes exactly when no
  -- requested name is another owner's; then the reservation succeeds, and otherwise it fails with
  -- the same error and changes nothing.
  pub can_reserve-reserve :
      (store : Store Address) (hostnames : List Text) (hid : HostnameId Address)
      → let check = can_reserve_hostnames_impl store hostnames hid.owner in
        let run = reserve_hostnames_impl store hostnames hid in
        ((check ≡ none) ↔ (any (λ h. is_foreign hid.owner (lookup h store)) hostnames ≡ false))
        × (check ≡ none → (w : List Text) × (run.1 ≡ ok w))
        × ((x : HostnameError) → check ≡ some x → run ≡ (store, err x))
  unfolding reserve_hostnames_impl
  can_reserve-reserve store hostnames hid = (
    can_reserve-any store hostnames hid.owner,
    λ free. (let (w, s) = scan_free store hostnames hid [] free in (w, ground (arith, s))),
    λ x taken. ground (arith, scan_taken store hostnames hid [] x taken),
  )

  mark-Unique :
      (hs w : List Text) (hid : HostnameId Address) (store : Store Address)
      → Unique store
      → Unique (mark hs w hid store)
  unfolding mark
  mark-Unique [] w hid store u = u
  mark-Unique (h ∷ hs) w hid store u = elim (Bool-cases (contains h w)) [
    | inl kept ↦ rw kept (mark-Unique hs w hid store u)
    | inr given ↦ rw given (mark-Unique hs w hid (insert h hid store) (insert-Unique h hid store u))
  ]

  pub reserve-Unique :
      (store : Store Address) (hostnames : List Text) (hid : HostnameId Address)
      → Unique store
      → Unique (reserve_hostnames_impl store hostnames hid).0
  unfolding reserve_hostnames_impl
  reserve-Unique store hostnames hid u = elim (Result-cases (scan store hostnames hid [])) [
    | inl (w, s) ↦
        rw (s, reserve_hostnames_impl)
          (delete_all-Unique (stale store hostnames hid) (mark hostnames w hid store)
            (mark-Unique hostnames w hid store u))
    | inr (x, s) ↦ rw (s, reserve_hostnames_impl) u
  ]

  -- No reservation changes an entry of another owner.
  pub reserve_keeps :
      (store : Store Address) (hostnames : List Text) (hid e : HostnameId Address) (j : Text)
      → Unique store
      → lookup j store ≡ some e
      → e.owner ≢ hid.owner
      → lookup j (reserve_hostnames_impl store hostnames hid).0 ≡ some e
  reserve_keeps store hostnames hid e j u present foreign =
      let run = reserve_hostnames_impl store hostnames hid in
      let checked = can_reserve-reserve store hostnames hid in
      elim (Option-cases (can_reserve_hostnames_impl store hostnames hid.owner)) [
        | inl free ↦
            let (w, done) = checked.1 free in
            let spec = reserve_lem store hostnames hid run.0 w u (ground (arith, done)) j in
            ground (arith, spec, equals_iff e hid)
        | inr (x, refused) ↦ ground (arith, checked.2 x refused)
      ]
