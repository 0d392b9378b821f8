-- ===== src/Pir/Book/View.antt =====
-- The lease book as the market sees it: for each lease, absent, closed, or open to its bearers.
-- Every operation is a change of one lease, whether the book is kept in memory or in a file.
use rezerve.Base.{
  ◌≡◌, inl, inr, false, not, ◌&&◌, ◌||◌, [], Option, none, some, arith, ap, ◌∙◌, Text, ◌==◌, ==_iff,
  nat_eq, list_eq, if◌then◌else◌, lookup, lookup-insert, insert, Option-cases, Bool-cases,
}
use rezerve.Pir.Book.{
  LeaseRec, Leases, State, Error, load_book, save_book, strings_lower, accept_bid, open_session,
  close_lease, Verdict, unknown, closed, unauthorized, granted, access_lease,
}

-- A lease as `AccessLease` sees it; the session bearer is empty where there is none.
pub data Lease : Type 0 where
  absent shut : Lease
  opened : Text → Text → Lease

abbrev pub lease_of : Option LeaseRec → Lease
lease_of none = absent
lease_of (some r) = if r.is_open then opened r.bearer r.session else shut

unfoldable pub view : State → Text → Lease
view s id = lease_of (lookup id (load_book s))

-- The specification of access, from the lease alone.
abbrev pub admits : Lease → Text → Verdict
admits absent b = unknown
admits shut b = closed
admits (opened bearer session) b =
    if (bearer == b) || (not (session == []) && (session == b)) then granted else unauthorized

pub data Op : Type 0 where
  accept : Text → Text → Op
  session : Text → Text → Op
  close : Text → Op

unfoldable pub run_op : State → Op → State × Option Error
run_op s (accept id b) = accept_bid s id b
run_op s (session id b) = open_session s id b
run_op s (close id) = close_lease s id

-- The specification of an operation that succeeds, for the lease with a given id.
abbrev pub apply : Op → Text → Lease → Lease
apply (accept id b) j l = if id == j then opened (strings_lower b) [] else l
apply (session id b) j absent = absent
apply (session id b) j shut = shut
apply (session id b) j (opened bearer old) =
    if id == j then opened bearer (strings_lower b) else opened bearer old
apply (close id) j absent = absent
apply (close id) j shut = shut
apply (close id) j (opened bearer old) = if id == j then shut else opened bearer old

-- What was saved is what is loaded, in memory and in the file.
pub load-save : (s t : State) (m : Leases) → save_book s m ≡ (t, none) → load_book t ≡ m
unfolding load_book save_book
load-save s t m e = ground arith

pub view-insert :
    (s t : State) (id : Text) (r : LeaseRec)
    → save_book s (insert id r (load_book s)) ≡ (t, none)
    → (j : Text) → view t j ≡ (if id == j then lease_of (some r) else view s j)
unfolding view
view-insert s t id r e j =
    ground (arith, load-save s t (insert id r (load_book s)) e, lookup-insert id j r (load_book s))

-- `AccessLease` answers from the view alone.
pub access-view :
    (s : State) (id b : Text) → access_lease s id b ≡ admits (view s id) (strings_lower b)
unfolding access_lease view
access-view s id b = ground arith

open_session-view :
    (s t : State) (id b : Text)
    → open_session s id b ≡ (t, none)
    → (j : Text) → view t j ≡ apply (session id b) j (view s j)
unfolding open_session
open_session-view s t id b e j = elim (Option-cases (lookup id (load_book s))) [
  | inl none_there ↦ absurd (ground (arith, none_there))
  | inr (r, found) ↦ elim (Bool-cases r.is_open) [
    | inl is ↦
        let saved =
          view-insert s t id (record r { session = strings_lower b }) (ground (arith, found, is))
            j in
        unfold view in ground (arith, found, is, saved, ==_iff id j)
    | inr not_open ↦ absurd (ground (arith, found, not_open))
  ]
]

close_lease-view :
    (s t : State) (id : Text)
    → close_lease s id ≡ (t, none)
    → (j : Text) → view t j ≡ apply (close id) j (view s j)
unfolding close_lease
close_lease-view s t id e j = elim (Option-cases (lookup id (load_book s))) [
  | inl none_there ↦
      let same = load-save s t (load_book s) (ground (arith, none_there)) in
      unfold view in ground (arith, none_there, same, ==_iff id j)
  | inr (r, found) ↦
      let saved =
        view-insert s t id (record r { is_open = false; session = [] }) (ground (arith, found)) j in
      unfold view in ground (arith, found, saved, ==_iff id j)
]

op_view :
    (s t : State) (op : Op)
    → run_op s op ≡ (t, none)
    → (j : Text) → view t j ≡ apply op j (view s j)
unfolding run_op
op_view s t (accept id b) e j = unfold accept_bid in view-insert s t id _ e j
op_view s t (session id b) e j = open_session-view s t id b e j
op_view s t (close id) e j = close_lease-view s t id e j

-- An operation that reports no error changes the market's view by its specification, lease by
-- lease, whether the book stands in memory or in the file; and `AccessLease` answers from the view.
pub run_op-view :
    (s t : State) (op : Op)
    → run_op s op ≡ (t, none)
    → (j b : Text)
    → (view t j ≡ apply op j (view s j))
      × (access_lease t j b ≡ admits (apply op j (view s j)) (strings_lower b))
run_op-view s t op e j b =
    let changed = op_view s t op e j in
    (changed, access-view t j b ∙ ap (λ l. admits l (strings_lower b)) changed)
