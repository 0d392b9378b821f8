-- ===== src/Pir/Book/History.antt =====
-- The lease book over any sequence of operations, where writes to the file succeed.
use rezerve.Base.{
  ◌≡◌, refl, ap, ◌∙◌, ◌⊎◌, inl, inr, ◌≢◌, Bool, false, List, [], ◌∷◌, none, arith, Text, ◌==◌,
  ==_iff, nat_eq, list_eq, any, insert, Bool-cases,
}
use rezerve.Pir.Book.{
  LeaseRec, State, load_book, save_book, strings_lower, accept_bid, open_session, close_lease,
  granted, access_lease,
}
use rezerve.Pir.Book.View.{
  Lease, absent, shut, opened, view, Op, accept, session, close, run_op, apply, run_op-view,
  access-view,
}

pub run_all : State → List Op → State
run_all s [] = s
run_all s (op ∷ ops) = run_all (run_op s op).0 ops

-- The operation opens the lease anew.
abbrev pub accepts : Text → Op → Bool
accepts j (accept id b) = id == j
accepts j (session id b) = false
accepts j (close id) = false

-- The operation closes the lease.
abbrev pub closes : Text → Op → Bool
closes j (accept id b) = false
closes j (session id b) = false
closes j (close id) = id == j

abbrev pub Sound : State → Op → Type 0
Sound s op = ((run_op s op).0.fault ≡ none) × (((run_op s op).1 ≡ none) ⊎ ((run_op s op).0 ≡ s))

pub op_Sound : (s : State) (op : Op) → s.fault ≡ none → Sound s op
unfolding run_op accept_bid open_session close_lease save_book
op_Sound s (accept id b) w = (ground arith, inl (ground arith))
op_Sound s (session id b) w = (ground arith, ground arith)
op_Sound s (close id) w = (ground arith, inl (ground arith))

pub step_view :
    (s : State) (op : Op) (j : Text)
    → s.fault ≡ none
    → (view (run_op s op).0 j ≡ apply op j (view s j)) ⊎ (view (run_op s op).0 j ≡ view s j)
step_view s op j w = elim (op_Sound s op w).1 [
  | inl fine ↦ inl (run_op-view s (run_op s op).0 op (ground (arith, fine)) j []).0
  | inr same ↦ inr (ap (λ (t : State). view t j) same)
]

pub shut_stays :
    (op : Op) (j : Text) (l : Lease) → accepts j op ≡ false → l ≡ shut → apply op j l ≡ shut
shut_stays (accept id b) j l a e = ground arith
shut_stays (session id b) j l a e = ground arith
shut_stays (close id) j l a e = ground arith

pub close_shuts : (id : Text) (l : Lease) → l ≢ absent → apply (close id) id l ≡ shut
close_shuts id absent n = absurd (n refl)
close_shuts id shut n = refl
close_shuts id (opened b x) n = ground (arith, ==_iff id id)

pub close_fine : (s : State) (id : Text) → s.fault ≡ none → (run_op s (close id)).1 ≡ none
unfolding run_op close_lease save_book
close_fine s id w = ground arith

pub accept_fine : (s : State) (id b : Text) → s.fault ≡ none → (run_op s (accept id b)).1 ≡ none
unfolding run_op accept_bid save_book
accept_fine s id b w = ground arith

-- An open lease keeps its bearer under an operation that neither accepts nor closes it.
open_stays :
    (op : Op) (j : Text) (l : Lease) (b x : Text)
    → accepts j op ≡ false
    → closes j op ≡ false
    → l ≡ opened b x
    → (y : Text) × (apply op j l ≡ opened b y)
open_stays (accept id c) j l b x a k e = (x, ground arith)
open_stays (session id c) j l b x a k e = elim (Bool-cases (id == j)) [
  | inl hit ↦ (strings_lower c, ground (arith, hit))
  | inr miss ↦ (x, ground (arith, miss))
]
open_stays (close id) j l b x a k e = (x, ground arith)

open_all :
    (s : State) (ops : List Op) (j b x : Text)
    → s.fault ≡ none
    → any (accepts j) ops ≡ false
    → any (closes j) ops ≡ false
    → view s j ≡ opened b x
    → (y : Text) × (view (run_all s ops) j ≡ opened b y)
unfolding run_all
open_all s [] j b x w a k e = (x, e)
open_all s (op ∷ ops) j b x w a k e = elim (step_view s op j w) [
  | inl changed ↦
      let (y, stays) = open_stays op j (view s j) b x (ground arith) (ground arith) e in
      open_all (run_op s op).0 ops j b y (op_Sound s op w).0 (ground arith) (ground arith)
        (changed ∙ stays)
  | inr same ↦
      open_all (run_op s op).0 ops j b x (op_Sound s op w).0 (ground arith) (ground arith)
        (same ∙ e)
]

pub save_fine :
    (s : State) (id : Text) (r : LeaseRec)
    → s.fault ≡ none
    → (save_book s (insert id r (load_book s))).1 ≡ none
unfolding save_book
save_fine s id r w = ground arith

pub accept_keeps_fault :
    (s : State) (id b : Text) → s.fault ≡ none → (accept_bid s id b).0.fault ≡ none
unfolding accept_bid save_book
accept_keeps_fault s id b w = ground arith

-- The bearer of an accepted bid is admitted for as long as its lease is neither closed nor accepted
-- anew: session bearers come beside it and never in its place.
pub accepted_bearer_admits :
    (s : State) (id bearer : Text) (later : List Op)
    → s.fault ≡ none
    → any (accepts id) later ≡ false
    → any (closes id) later ≡ false
    → access_lease (run_all (run_op s (accept id bearer)).0 later) id bearer ≡ granted
accepted_bearer_admits s id bearer later w quiet kept =
    let t = (run_op s (accept id bearer)).0 in
    let now =
      (run_op-view s t (accept id bearer) (ground (arith, accept_fine s id bearer w)) id []).0 in
    let (session_now, after) =
      open_all t later id (strings_lower bearer) [] (op_Sound s (accept id bearer) w).0 quiet kept
        (ground (arith, now, ==_iff id id)) in
    ground (
      arith,
      access-view (run_all t later) id bearer,
      after,
      ==_iff (strings_lower bearer) (strings_lower bearer),
    )
