-- ===== src/Cluster/Hostname.antt =====
-- provider/cluster/hostname.go: which deployment of which owner holds a hostname. The map is a
-- `Dict`; the channels that carry a result are the function's result, since each is a buffered
-- channel that the caller waits on. Addresses are a parameter with their `Equals`.
pub mod Reserve
pub mod Transfer
pub mod Service
mod Tests
use rezerve.Base.{
  ℕ, ◌≡◌, Bool, true, not, ◌&&◌, List, [], ◌∷◌, ◌++◌, Option, none, some, arith, Text, Result, ok,
  err, Eq, ◌==◌, ==_iff, nat_eq, list_eq, ◌↔◌, if◌then◌else◌, Dict, lookup, insert, delete_all,
  contains,
}

pub record HostnameId (Address : Type 0) : Type 0 where
  pub owner : Address
  pub dseq : ℕ
  pub gseq : ℕ

-- ErrHostnameNotAllowed, by the message that wraps it, and the service's other errors.
pub data HostnameError : Type 0 where
  in_use : Text → HostnameError
  blocked : Text → HostnameError
  blocked_domain : Text → HostnameError
  bad_owner : HostnameError
  cancelled : HostnameError
  not_running : HostnameError

abbrev pub Store : Type 0 → Type 0
Store Address = Dict Text (HostnameId Address)

module _ {Address : Type 0} ⦃ae : Eq Address⦄ where
  pub equals : HostnameId Address → HostnameId Address → Bool
  equals a b = (a.gseq == b.gseq) && (a.dseq == b.dseq) && (a.owner == b.owner)

  pub equals_iff : (a b : HostnameId Address) → (equals a b ≡ true) ↔ (a ≡ b)
  unfolding equals
  equals_iff a b = ground (arith, ==_iff a.owner b.owner)

  -- The first loop of `prepareHostnamesImpl`: the names to swap over, or the name in use.
  to_change : Store Address → List Text → HostnameId Address → Result HostnameError (List Text)
  to_change store [] hid = ok []
  to_change store (h ∷ hs) hid =
      let rest = to_change store hs hid in
      elim (lookup h store) [
        | none ↦ rest
        | some e ↦
            if e.owner == hid.owner
            then elim rest [ ok names ↦ ok (h ∷ names) | err x ↦ err x ]
            else err (in_use h)
      ]

  -- `for _, hostname := range toChange { store[hostname] = hID }`
  assign : List Text → HostnameId Address → Store Address → Store Address
  assign [] hid store = store
  assign (h ∷ hs) hid store = assign hs hid (insert h hid store)

  pub prepare_hostnames_impl :
      Store Address → List Text → HostnameId Address → Store Address × Option HostnameError
  unfolding to_change assign
  prepare_hostnames_impl store hostnames hid = elim (to_change store hostnames hid) [
    | ok names ↦ (assign names hid store, none)
    | err x ↦ (store, some x)
  ]

  -- The first loop of `reserveHostnamesImpl`; the last argument holds `withheldHostnames` so far.
  scan :
      Store Address → List Text → HostnameId Address → List Text → Result HostnameError (List Text)
  scan store [] hid withheld = ok withheld
  scan store (h ∷ hs) hid withheld = elim (lookup h store) [
    | none ↦ scan store hs hid withheld
    | some e ↦
        let rest = scan store hs hid (if equals e hid then withheld else withheld ++ h ∷ []) in
        if e.owner == hid.owner then rest else err (in_use h)
  ]

  -- The loop over the store: this deployment's names that are no longer asked for.
  stale : Store Address → List Text → HostnameId Address → List Text
  stale [] requested hid = []
  stale ((h, e) ∷ m) requested hid =
      let rest = stale m requested hid in
      if contains h requested then rest else if equals e hid then h ∷ rest else rest

  -- The loop that marks every name in use that is not withheld.
  mark : List Text → List Text → HostnameId Address → Store Address → Store Address
  mark [] withheld hid store = store
  mark (h ∷ hs) withheld hid store =
      mark hs withheld hid (if contains h withheld then store else insert h hid store)

  pub reserve_hostnames_impl :
      Store Address
      → List Text
      → HostnameId Address
      → Store Address × Result HostnameError (List Text)
  unfolding scan stale mark
  reserve_hostnames_impl store hostnames hid = elim (scan store hostnames hid []) [
    | ok withheld ↦
        (delete_all (stale store hostnames hid) (mark hostnames withheld hid store), ok withheld)
    | err x ↦ (store, err x)
  ]

  pub can_reserve_hostnames_impl : Store Address → List Text → Address → Option HostnameError
  can_reserve_hostnames_impl store [] owner = none
  can_reserve_hostnames_impl store (h ∷ hs) owner =
      let rest = can_reserve_hostnames_impl store hs owner in
      elim (lookup h store) [
        | none ↦ rest
        | some e ↦ if e.owner == owner then rest else some (in_use h)
      ]

  -- The names that `releaseHostnamesImpl` deletes.
  held_by : Store Address → HostnameId Address → List Text
  held_by [] hid = []
  held_by ((h, e) ∷ m) hid = let rest = held_by m hid in if equals e hid then h ∷ rest else rest

  pub release_hostnames_impl : Store Address → HostnameId Address → Store Address
  unfolding held_by
  release_hostnames_impl store hid = delete_all (held_by store hid) store
