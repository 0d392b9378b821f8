-- ===== src/Pir/Serve.antt =====
-- provider/gateway/pir/serve.go: serving a lease from a container. What docker answers is an
-- argument, and what docker is told is a list of commands in order.
pub mod Guard
pub mod Names
pub mod Reopen
mod Tests
use rezerve.Base.{
  ℕ, zero, suc, ◌≡◌, Bool, true, false, not, ◌&&◌, ◌||◌, List, [], ◌∷◌, ◌++◌, Option, none, some,
  Text, bytes, Result, ok, err, ℤ, pos, negsuc, ◌==◌, nat_eq, list_eq, if◌then◌else◌, leb,
  trim_space, lookup, insert,
}
use rezerve.Pir.Book.{
  LeaseRec, zero_rec, State, Error, load_book, save_book, strings_lower, accept_bid, close_lease,
}

pub data Docker : Type 0 where
  remove : Text → Docker
  run_container : Text → ℕ → Text → Text → Docker

pub data ServeError : Type 0 where
  denied book_failed run_failed not_serving : ServeError

-- The answers of one call: PIR_SERVE_IMAGE, the combined output of `docker run` with whether it
-- succeeded, and whether the container answers with HTTP 200 before the deadline.
pub record Answers : Type 0 where
  pub serve_image : Text
  pub output : Text
  pub started : Bool
  pub serving : Bool

abbrev default_serve_image : Text
default_serve_image = bytes "python:3.12-alpine"

abbrev pub is_name_byte : ℕ → Bool
is_name_byte c =
    (leb b'a' c && leb c b'z')
    || (leb b'A' c && leb c b'Z')
    || (leb b'0' c && leb c b'9')
    || (c == b'-')

-- The loop of `leaseContainerName`.
unfoldable pub sanitize : Text → Text
sanitize [] = []
sanitize (c ∷ s) = (if is_name_byte c then c else b'-') ∷ sanitize s

unfoldable pub lease_container_name : Text → Text
unfolding sanitize
lease_container_name lease_id = bytes "pir-lease-" ++ sanitize lease_id

abbrev pick_image : Text → Text → Text
pick_image image from_env =
    if not (image == [])
    then image
    else if not (from_env == [])
    then from_env
    else default_serve_image

abbrev pick_port : ℤ → ℕ
pick_port (negsuc n) = 18765
pick_port (pos zero) = 18765
pick_port (pos (suc n)) = suc n

abbrev zero_or : Option LeaseRec → LeaseRec
zero_or none = zero_rec
zero_or (some r) = r

-- The entry that is written once the container runs; a failure to write it is ignored.
unfoldable pub record_container : State → Text → Text → Text → ℕ → Text → State
record_container s lease_id bearer id port name =
    let m = load_book s in
    (save_book s (
      insert lease_id
        (record (zero_or (lookup lease_id m)) {
          bearer = strings_lower bearer;
          is_open = true;
          container = id;
          host_port = port;
          name = name;
        })
        m)).0

-- The first argument is what `pirgate.PirAllocationAllowed` says.
pub serve_lease :
    Bool
    → Answers
    → State
    → Text
    → Text
    → Text
    → ℤ
    → State × List Docker × Result ServeError (Text × ℕ)
unfolding record_container
serve_lease allowed a s lease_id bearer image host_port =
    let name = lease_container_name lease_id in
    let port = pick_port host_port in
    let id = trim_space a.output in
    let start =
      remove name ∷ run_container name port lease_id (pick_image image a.serve_image) ∷ [] in
    if not allowed
    then (s, [], err denied)
    else let (t, failed) = accept_bid s lease_id bearer in
      elim failed [
        | some x ↦ (t, [], err book_failed)
        | none ↦
            let u = record_container t lease_id bearer id port name in
            if not a.started
            then (t, start, err run_failed)
            else if not a.serving
            then (u, start ++ remove name ∷ [], err not_serving)
            else (u, start, ok (id, port))
      ]

pub stop_serve : State → Text → State × List Docker × Option Error
stop_serve s lease_id =
    let own : Text = elim (lookup lease_id (load_book s)) [
      | none ↦ lease_container_name lease_id
      | some r ↦ if r.name == [] then lease_container_name lease_id else r.name
    ] in
    let (t, failed) = close_lease s lease_id in (t, remove own ∷ [], failed)
