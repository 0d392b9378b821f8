-- ===== src/Pir/Book/Bearers.antt =====
-- The bearers of the open leases, entry by entry and lease by lease.
use rezerve.Base.{
  ◌≡◌, refl, subst, sym, inl, inr, Bool, true, false, ◌&&◌, ◌||◌, [], ◌∷◌, none, some, arith, Text,
  ◌==◌, ==_iff, nat_eq, list_eq, any, length, lookup, Unique, insert-Unique, contains, Option-cases,
  Bool-cases,
}
use rezerve.Pir.Book.{
  LeaseRec, Leases, State, load_book, collect_bearers, open_bearers, close_lease,
}
use rezerve.Pir.Book.View.{Lease, opened, absent, shut, view, run_op, close, load-save}

-- The lease is open and the token is its bearer or its session bearer.
abbrev pub enters : Text → Text × LeaseRec → Bool
enters t (id, r) = r.is_open && ((r.bearer == t) || (r.session == t))

contains-collect_bearers :
    (m : Leases) (t : Text) → length t ≡ 64 → contains t (collect_bearers m) ≡ any (enters t) m
unfolding collect_bearers contains
contains-collect_bearers [] t n = refl
contains-collect_bearers ((id, r) ∷ m) t n =
    ground (arith, ==_iff r.bearer t, ==_iff r.session t, contains-collect_bearers m t n)

pub contains-open_bearers :
    (s : State) (t : Text)
    → length t ≡ 64
    → contains t (open_bearers s) ≡ any (enters t) (load_book s)
unfolding open_bearers
contains-open_bearers s t n = contains-collect_bearers (load_book s) t n

-- An entry of a map that passes a test is found under its key.
any-lookup :
    (p : Text × LeaseRec → Bool) (m : Leases)
    → Unique m
    → any p m ≡ true
    → (k : Text) × (r : LeaseRec) × (lookup k m ≡ some r) × (p (k, r) ≡ true)
unfolding lookup
any-lookup p [] u h = absurd (cc)
any-lookup p ((k, r) ∷ m) u h = elim (Bool-cases (p (k, r))) [
  | inl hit ↦ (k, r, ground (arith, ==_iff k k), hit)
  | inr miss ↦
      let (j, q, found, good) = any-lookup p m u.1 (ground (arith, miss)) in
      (j, q, ground (arith, ==_iff k j, found, u.0), good)
]

-- The lease is open to the token.
abbrev pub opens_to : Text → Lease → Bool
opens_to t absent = false
opens_to t shut = false
opens_to t (opened b x) = (b == t) || (x == t)

enters-view :
    (s : State) (t k : Text) (r : LeaseRec)
    → lookup k (load_book s) ≡ some r
    → enters t (k, r) ≡ opens_to t (view s k)
unfolding view
enters-view s t k r e = ground (arith, e)

-- Where no lease is open to a token, no entry of the book is.
pub none_enters :
    (s : State) (t : Text)
    → Unique (load_book s)
    → ((j : Text) → opens_to t (view s j) ≡ false)
    → any (enters t) (load_book s) ≡ false
none_enters s t u shut_off = elim (Bool-cases (any (enters t) (load_book s))) [
  | inr clear ↦ clear
  | inl hit ↦
      let (k, r, found, good) = any-lookup (enters t) (load_book s) u hit in
      ground (arith, enters-view s t k r found, shut_off k, good)
]

pub close-Unique :
    (s s' : State) (id : Text)
    → Unique (load_book s)
    → run_op s (close id) ≡ (s', none)
    → Unique (load_book s')
unfolding run_op close_lease
close-Unique s s' id u run = elim (Option-cases (lookup id (load_book s))) [
  | inl missing ↦ subst Unique (sym (load-save s s' (load_book s) (ground (arith, missing)))) u
  | inr (r, found) ↦
      subst Unique (sym (load-save s s' _ (ground (arith, found))))
        (insert-Unique id (record r { is_open = false; session = [] }) (load_book s) u)
]
