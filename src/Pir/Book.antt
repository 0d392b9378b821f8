-- ===== src/Pir/Book.antt =====
-- provider/gateway/pir/lease.go: the lease book and who may enter a lease. The package's state is
-- a record: the environment's file name, the file as the JSON decoder sees it, the map in memory,
-- and what a write leaves behind when it fails. The package's mutex makes each call one step.
pub mod View
pub mod Bearers
pub mod History
mod Tests
use rezerve.Base.{
  ℕ, ◌+◌, ◌≡◌, Bool, true, false, not, ◌&&◌, ◌||◌, List, [], ◌∷◌, Option, none, some, Text, bytes,
  ◌==◌, nat_eq, list_eq, if◌then◌else◌, lower_byte, Dict, lookup, insert, length,
}

pub record LeaseRec : Type 0 where
  pub bearer : Text
  pub session : Text
  pub is_open : Bool
  pub container : Text
  pub host_port : ℕ
  pub name : Text

-- The value that a Go map gives for a missing key.
abbrev pub zero_rec : LeaseRec
zero_rec = record {
  bearer = [];
  session = [];
  is_open = false;
  container = [];
  host_port = 0;
  name = [];
}

abbrev pub Leases : Type 0
Leases = Dict Text LeaseRec

-- PIR_LEASE_BOOK_FILE's content: it cannot be read, is empty, does not decode, or decodes.
pub data File : Type 0 where
  unread blank garbage : File
  holds : Leases → File

pub record State : Type 0 where
  pub lease_path : Text
  pub file : File
  pub book : Option Leases
  -- What the file holds after a write that fails; `none` if writes succeed.
  pub fault : Option File

pub data Error : Type 0 where
  not_exist write_failed : Error

abbrev decode : File → Leases
decode (holds m) = m
decode unread = []
decode blank = []
decode garbage = []

abbrev or_empty : Option Leases → Leases
or_empty none = []
or_empty (some m) = m

unfoldable pub load_book : State → Leases
load_book s = if s.lease_path == [] then or_empty s.book else decode s.file

unfoldable pub save_book : State → Leases → State × Option Error
save_book s m =
    let t = record s { book = some m } in
    if s.lease_path == [] then (t, none) else elim s.fault [
      | none ↦ (record t { file = holds m }, none)
      | some left ↦ (record t { file = left }, some write_failed)
    ]

-- stringsLower
unfoldable pub strings_lower : Text → Text
strings_lower [] = []
strings_lower (c ∷ s) = lower_byte c ∷ strings_lower s

pub accept_bid : State → Text → Text → State × Option Error
accept_bid s lease_id bearer = save_book s (
    insert lease_id (record zero_rec { bearer = strings_lower bearer; is_open = true })
      (load_book s))

pub open_session : State → Text → Text → State × Option Error
open_session s lease_id session_bearer = elim (lookup lease_id (load_book s)) [
  | none ↦ (s, some not_exist)
  | some rec ↦
      if not rec.is_open
      then (s, some not_exist)
      else save_book s
          (insert lease_id (record rec { session = strings_lower session_bearer }) (load_book s))
]

unfoldable pub close_lease : State → Text → State × Option Error
close_lease s lease_id = elim (lookup lease_id (load_book s)) [
  | none ↦ save_book s (load_book s)
  | some rec ↦
      save_book s (insert lease_id (record rec { is_open = false; session = [] }) (load_book s))
]

pub data Verdict : Type 0 where
  unknown closed unauthorized granted : Verdict

pub access_lease : State → Text → Text → Verdict
access_lease s lease_id bearer = elim (lookup lease_id (load_book s)) [
  | none ↦ unknown
  | some rec ↦
      let b = strings_lower bearer in
      if not rec.is_open
      then closed
      else if (rec.bearer == b) || (not (rec.session == []) && (rec.session == b))
      then granted
      else unauthorized
]

-- The set of bearers of the open leases, as a list.
collect_bearers : Leases → List Text
collect_bearers [] = []
collect_bearers ((id, rec) ∷ m) =
    let rest = collect_bearers m in
    let with_session =
      if rec.is_open && (length rec.session == 64) then rec.session ∷ rest else rest in
    if rec.is_open && (length rec.bearer == 64) then rec.bearer ∷ with_session else with_session

pub open_bearers : State → List Text
unfolding collect_bearers
open_bearers s = collect_bearers (load_book s)
