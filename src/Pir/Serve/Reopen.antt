-- ===== src/Pir/Serve/Reopen.antt =====
-- A closed lease beside the whole market: accepted bids, sessions, closes, and the containers that
-- `ServeLease` enters once docker runs them, which it does some time after it accepted the bid.
use rezerve.Base.{
  ℕ, ◌≡◌, ◌∙◌, inl, inr, ◌≢◌, Bool, false, true, List, [], ◌∷◌, none, arith, Text, ◌==◌, ==_iff,
  nat_eq, list_eq, any, insert, lookup, if◌then◌else◌,
}
use rezerve.Pir.Book.{
  LeaseRec, State, load_book, save_book, strings_lower, closed, granted, access_lease,
}
use rezerve.Pir.Book.View.{
  absent, shut, opened, view, Op, close, run_op, run_op-view, access-view, view-insert,
}
use rezerve.Pir.Book.History.{
  accepts, op_Sound, step_view, shut_stays, close_shuts, close_fine, save_fine,
}
use rezerve.Pir.Serve.{record_container, zero_or}

-- A write of the lease book: an operation of the market, or the entry of a container with its lease,
-- bearer, id, port and name.
pub data Write : Type 0 where
  op : Op → Write
  enter : Text → Text → Text → ℕ → Text → Write

pub run_write : State → Write → State
run_write s (op o) = (run_op s o).0
run_write s (enter lease_id bearer id port name) = record_container s lease_id bearer id port name

pub run_writes : State → List Write → State
unfolding run_write
run_writes s [] = s
run_writes s (w ∷ ws) = run_writes (run_write s w) ws

-- The write opens the lease.
abbrev pub opens : Text → Write → Bool
opens j (op o) = accepts j o
opens j (enter lease_id bearer id port name) = lease_id == j

record_fault :
    (s : State) (lease_id bearer id : Text) (port : ℕ) (name : Text)
    → s.fault ≡ none
    → (record_container s lease_id bearer id port name).fault ≡ none
unfolding record_container save_book
record_fault s lease_id bearer id port name w = ground arith

pub record_view :
    (s : State) (lease_id bearer id : Text) (port : ℕ) (name j : Text)
    → s.fault ≡ none
    → view (record_container s lease_id bearer id port name) j ≡ (
        if lease_id == j
        then opened (strings_lower bearer) (zero_or (lookup lease_id (load_book s))).session
        else view s j)
unfolding record_container
record_view s lease_id bearer id port name j w =
    let r : LeaseRec = record (zero_or (lookup lease_id (load_book s))) {
      bearer = strings_lower bearer;
      is_open = true;
      container = id;
      host_port = port;
      name = name;
    } in
    view-insert s (save_book s (insert lease_id r (load_book s))).0 lease_id r
      (ground (arith, save_fine s lease_id r w)) j

run_shut :
    (s : State) (ws : List Write) (j : Text)
    → s.fault ≡ none
    → any (opens j) ws ≡ false
    → view s j ≡ shut
    → ((run_writes s ws).fault ≡ none) × (view (run_writes s ws) j ≡ shut)
unfolding run_writes run_write
run_shut s [] j w quiet e = (w, e)
run_shut s (op o ∷ ws) j w quiet e =
    run_shut (run_op s o).0 ws j (op_Sound s o w).0 (ground arith) (elim (step_view s o j w) [
      | inl changed ↦ changed ∙ shut_stays o j (view s j) (ground arith) e
      | inr same ↦ same ∙ e
    ])
run_shut s (enter lease_id bearer id port name ∷ ws) j w quiet e =
    run_shut (record_container s lease_id bearer id port name) ws j
      (record_fault s lease_id bearer id port name w) (ground arith)
      (ground (arith, record_view s lease_id bearer id port name j w))

-- Where writes succeed, a lease that is closed denies every bearer, whatever is written to the book
-- after that, until a bid on it is accepted or a container entered for it. A container that is
-- entered opens it again to its bearer, though no bid was accepted after the close.
pub closed_until_container :
    (s : State) (lease_id : Text) (later : List Write) (anyone bearer id : Text) (port : ℕ)
    (name : Text)
    → s.fault ≡ none
    → view s lease_id ≢ absent
    → any (opens lease_id) later ≡ false
    → (access_lease (run_writes (run_op s (close lease_id)).0 later) lease_id anyone ≡ closed)
      × (access_lease
            (record_container
              (run_writes (run_op s (close lease_id)).0 later)
              lease_id
              bearer
              id
              port
              name)
            lease_id
            bearer
          ≡ granted)
closed_until_container s lease_id later anyone bearer id port name w known quiet =
    let t = (run_op s (close lease_id)).0 in
    let now =
      (run_op-view s t (close lease_id) (ground (arith, close_fine s lease_id w)) lease_id []).0
      ∙ close_shuts lease_id (view s lease_id) known in
    let (fine, after) = run_shut t later lease_id (op_Sound s (close lease_id) w).0 quiet now in
    let u = run_writes t later in
    let v = record_container u lease_id bearer id port name in
    (
      ground (arith, access-view u lease_id anyone, after),
      ground (
        arith,
        access-view v lease_id bearer,
        record_view u lease_id bearer id port name lease_id fine,
        ==_iff lease_id lease_id,
        ==_iff (strings_lower bearer) (strings_lower bearer),
      ),
    )
