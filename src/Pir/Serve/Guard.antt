-- ===== src/Pir/Serve/Guard.antt =====
-- Serving starts only behind the gate, and stopping ends access.
use rezerve.Base.{
  ℕ, ◌≡◌, refl, ◌∙◌, ◌≢◌, true, false, [], ◌∷◌, none, arith, Text, err, ℤ, ==_iff, nat_eq, list_eq,
  lookup, trim_space,
}
use rezerve.Pir.Book.{
  State, load_book, strings_lower, accept_bid, close_lease, granted, closed, access_lease,
}
use rezerve.Pir.Book.View.{
  absent, shut, opened, view, accept, close, run_op, run_op-view, access-view,
}
use rezerve.Pir.Book.History.{accept_fine, close_fine, close_shuts, accept_keeps_fault}
use rezerve.Pir.Serve.Reopen.{record_view}
use rezerve.Pir.Gate.{World}
use rezerve.Pir.Gate.Decide.{pir_allocation_allowed}
use rezerve.Pir.Serve.{
  remove, denied, Answers, lease_container_name, pick_port, record_container, zero_or, serve_lease,
  stop_serve,
}

-- Where the gate denies the allocation, serving a lease touches neither the lease book nor docker.
pub serve-denied :
    (w : World) (a : Answers) (s : State) (lease_id bearer image : Text) (port : ℤ)
    → pir_allocation_allowed w ≡ false
    → serve_lease (pir_allocation_allowed w) a s lease_id bearer image port ≡ (s, [], err denied)
unfolding serve_lease
serve-denied w a s lease_id bearer image port gate = ground (arith, gate)

accepted :
    (s : State) (id bearer : Text)
    → s.fault ≡ none
    → view (accept_bid s id bearer).0 id ≡ opened (strings_lower bearer) []
unfolding run_op
accepted s id bearer w = ground (
  arith,
  run_op-view s (accept_bid s id bearer).0 (accept id bearer)
      (ground (arith, accept_fine s id bearer w)) id [],
  ==_iff id id,
)

recorded :
    (s : State) (lease_id bearer id name : Text) (port : ℕ)
    → s.fault ≡ none
    → (x : Text) × (view (record_container s lease_id bearer id port name) lease_id
        ≡ opened (strings_lower bearer) x)
recorded s lease_id bearer id name port w = (
  (zero_or (lookup lease_id (load_book s))).session,
  record_view s lease_id bearer id port name lease_id w ∙ ground (arith, ==_iff lease_id lease_id),
)

admitted :
    (s : State) (id bearer x : Text)
    → view s id ≡ opened (strings_lower bearer) x
    → access_lease s id bearer ≡ granted
admitted s id bearer x e =
    ground (arith, access-view s id bearer, e, ==_iff (strings_lower bearer) (strings_lower bearer))

-- Past the gate, and with a lease book that can be written, serving a lease opens it to its bearer
-- whatever docker answers: the call also leaves the lease open where it reports that the container
-- did not start or does not serve.
pub serve_opens :
    (w : World) (a : Answers) (s : State) (lease_id bearer image : Text) (port : ℤ)
    → pir_allocation_allowed w ≡ true
    → s.fault ≡ none
    → access_lease
        (serve_lease (pir_allocation_allowed w) a s lease_id bearer image port).0
        lease_id
        bearer
      ≡ granted
unfolding serve_lease
serve_opens w a s lease_id bearer image port gate writes =
    let fine : (accept_bid s lease_id bearer).1 ≡ none =
      unfold run_op in accept_fine s lease_id bearer writes in
    let t = (accept_bid s lease_id bearer).0 in
    let (x, full) =
      recorded t lease_id bearer (trim_space a.output) (lease_container_name lease_id)
        (pick_port port) (accept_keeps_fault s lease_id bearer writes) in
    ground (
      arith,
      gate,
      fine,
      admitted t lease_id bearer [] (accepted s lease_id bearer writes),
      admitted
          (record_container t lease_id bearer (trim_space a.output) (pick_port port)
            (lease_container_name lease_id))
          lease_id bearer x full,
    )

-- Stopping a lease that the book knows denies every bearer and removes one container.
pub stop_closes :
    (s : State) (lease_id bearer : Text)
    → s.fault ≡ none
    → view s lease_id ≢ absent
    → let (t, commands, failed) = stop_serve s lease_id in
      (failed ≡ none)
      × (access_lease t lease_id bearer ≡ closed)
      × ((own : Text) × (commands ≡ remove own ∷ []))
unfolding stop_serve
stop_closes s lease_id bearer writes known =
    let fine : (close_lease s lease_id).1 ≡ none = unfold run_op in close_fine s lease_id writes in
    let t = (close_lease s lease_id).0 in
    let now : view t lease_id ≡ shut =
      (run_op-view s t (close lease_id) (unfold run_op in ground (arith, fine)) lease_id []).0
      ∙ close_shuts lease_id (view s lease_id) known in
    (fine, ground (arith, access-view t lease_id bearer, now), (_, refl))
