-- ===== src/Pir/Access/Tests.antt =====
-- A bearer of 64 digits, before and after its lease is closed.
use rezerve.Base.{
  ℕ, zero, suc, true, false, [], ◌∷◌, ◌++◌, none, some, Text, bytes, nat_eq, list_eq,
}
use rezerve.Pir.Book.{LeaseRec, zero_rec, State, unread}
use rezerve.Pir.Access.{AllowList}

abbrev tens : ℕ → Text → Text
tens zero s = s
tens (suc n) s = bytes "0123456789" ++ tens n s

abbrev token : Text
token = tens 6 (bytes "abcd")

abbrev shouted : Text
shouted = tens 6 (bytes "ABCD")

abbrev no_list : AllowList
no_list = record { bearers = []; bearers_file = []; file_content = none }

abbrev entry : LeaseRec
entry = record zero_rec { bearer = token; is_open = true }

abbrev before : State
before = record {
  lease_path = [];
  file = unread;
  book = some ((bytes "L1", entry) ∷ []);
  fault = none;
}

abbrev after : State
after = record before { book = some ((bytes "L1", record entry { is_open = false }) ∷ []) }
