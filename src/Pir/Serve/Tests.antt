-- ===== src/Pir/Serve/Tests.antt =====
-- One lease, served behind an open gate and behind a shut one.
use rezerve.Base.{
  ◌≡◌, refl, ◌↔◌, ◌++◌, true, false, [], ◌∷◌, none, some, Text, bytes, pos, nat_eq, list_eq, all,
  List, lookup,
}
use rezerve.Pir.Book.{zero_rec, State, unread, load_book, closed, granted, access_lease}
use rezerve.Pir.Gate.{Variable, pir_mode, World, no_reply}
use rezerve.Pir.Gate.Inputs.{pir_mode_on}
use rezerve.Pir.Gate.Decide.{pir_allocation_allowed}
use rezerve.Pir.Serve.{
  Answers, serve_lease, lease_container_name, record_container, sanitize, is_name_byte,
}
use rezerve.Pir.Serve.Guard.{serve_opens}
use rezerve.Pir.Serve.Reopen.{Write, op, enter, run_writes, closed_until_container}
use rezerve.Pir.Book.View.{view, accept, session, close, run_op}
use rezerve.Pir.Serve.Names.{Alike, lease_container_name_lem}

abbrev public_market : Variable → Text
public_market _ = []

abbrev private_market : Variable → Text
private_market pir_mode = bytes "1"
private_market _ = []

abbrev world_of : (Variable → Text) → World
world_of env = record {
  getenv = env;
  read_file = λ _. none;
  valid_url = λ _. true;
  post = λ _ _ _. no_reply;
  get = λ _. no_reply;
  encode_query = λ _ _. [];
  unmarshal_match = λ _. none;
  unmarshal_zap1 = λ _. none;
  unmarshal_wrap = λ _. none;
  unmarshal_envelope = λ _. none;
  primitives = record {
    sha256 = λ t. t;
    aead_seal = λ _ _ text _. text;
    aead_open = λ _ _ text _. some text;
    marshal_bid = λ _. [];
    unmarshal_bid = λ _. none;
  };
}

abbrev docker_fails : Answers
docker_fails = record {
  serve_image = [];
  output = bytes "no space";
  started = false;
  serving = false;
}

abbrev fresh : State
fresh = record { lease_path = []; file = unread; book = none; fault = none }

abbrev l1 : Text
l1 = bytes "L1"

abbrev key : Text
key = bytes "ab"

serve_opens_example :
    access_lease
      (serve_lease
        (pir_allocation_allowed (world_of public_market))
        docker_fails
        fresh
        l1
        key
        []
        (pos 0)).0
      l1
      key
    ≡ granted
unfolding pir_mode_on pir_allocation_allowed
serve_opens_example =
    serve_opens (world_of public_market) docker_fails fresh l1 key [] (pos 0) refl refl

abbrev served : State
served = record fresh { book = some ((l1, record zero_rec { bearer = key; is_open = true }) ∷ []) }

lease_container_name_lem_example :
    (all is_name_byte (lease_container_name (bytes "a/1")) ≡ true)
    × ((lease_container_name (bytes "a/1") ≡ bytes "pir-lease-" ++ bytes "a/1")
        ↔ (all is_name_byte (bytes "a/1") ≡ true))
    × ((lease_container_name (bytes "a/1") ≡ lease_container_name (bytes "a.1"))
        ↔ Alike (bytes "a/1") (bytes "a.1"))
lease_container_name_lem_example = lease_container_name_lem (bytes "a/1") (bytes "a.1")

-- Two leases whose containers have one name.
one_name_for_two : lease_container_name (bytes "a/1") ≡ lease_container_name (bytes "a.1")
unfolding lease_container_name sanitize
one_name_for_two = refl

-- Another lease is served, and a session asked for, after the close.
abbrev meanwhile : List Write
meanwhile =
    op (accept (bytes "L2") key)
    ∷ enter (bytes "L2") key (bytes "c2") 18765 []
    ∷ op (session l1 key)
    ∷ []

closed_until_container_example :
    (access_lease (run_writes (run_op served (close l1)).0 meanwhile) l1 key ≡ closed)
    × (access_lease
          (record_container
            (run_writes (run_op served (close l1)).0 meanwhile)
            l1
            key
            (bytes "c1")
            18765
            (bytes "n"))
          l1
          key
        ≡ granted)
closed_until_container_example =
    closed_until_container served l1 meanwhile key key (bytes "c1") 18765 (bytes "n") refl
      (unfold view load_book lookup in λ e. cc) refl
