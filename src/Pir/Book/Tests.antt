-- ===== src/Pir/Book/Tests.antt =====
-- One lease in memory and in a file, and the theorems at its operations.
use rezerve.Base.{◌≡◌, refl, true, [], ◌∷◌, none, some, Text, bytes, nat_eq, list_eq, insert}
use rezerve.Pir.Book.{
  zero_rec, State, unread, holds, load_book, save_book, strings_lower, accept_bid, access_lease,
}
use rezerve.Pir.Book.View.{view, admits, accept, run_op, apply, run_op-view}

abbrev in_memory : State
in_memory = record { lease_path = []; file = unread; book = none; fault = none }

abbrev in_file : State
in_file = record { lease_path = bytes "book"; file = unread; book = none; fault = none }

abbrev l1 : Text
l1 = bytes "L1"

abbrev key : Text
key = bytes "AB"

abbrev leased : State
leased = record in_file {
  file = holds ((l1, record zero_rec { bearer = bytes "ab"; is_open = true }) ∷ []);
  book = some ((l1, record zero_rec { bearer = bytes "ab"; is_open = true }) ∷ []);
}

accept_test : accept_bid in_file l1 key ≡ (leased, none)
unfolding accept_bid strings_lower load_book save_book insert
accept_test = refl

run_op-view_example :
    (view leased l1 ≡ apply (accept l1 key) l1 (view in_file l1))
    × (access_lease leased l1 key
        ≡ admits (apply (accept l1 key) l1 (view in_file l1)) (strings_lower key))
unfolding run_op accept_bid strings_lower load_book save_book insert
run_op-view_example = run_op-view in_file leased (accept l1 key) refl l1 key
