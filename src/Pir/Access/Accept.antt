-- ===== src/Pir/Access/Accept.antt =====
-- What the gateway's acceptance of a token means, and that a closed lease's token is refused.
use rezerve.Base.{
  ◌≡◌, inl, inr, ◌≢◌, ◌↔◌, true, false, ◌||◌, [], none, some, arith, Text, ==_iff, nat_eq, list_eq,
  any, length, Unique, contains, Option-cases,
}
use rezerve.Pir.Book.{State, load_book}
use rezerve.Pir.Book.View.{Lease, opened, absent, shut, view, run_op, close, apply, run_op-view}
use rezerve.Pir.Book.Bearers.{enters, opens_to, contains-open_bearers, none_enters, close-Unique}
use rezerve.Pir.Access.{AllowList, load_env_or_file, hex_tok, accept_bearer}

hex_tok-length : (tok t : Text) → hex_tok tok ≡ some t → length t ≡ 64
unfolding hex_tok
hex_tok-length tok t e = ground arith

-- The gateway accepts a token exactly when it reads as 64 hex digits that are the bearer or the
-- session bearer of a lease that is open, or stand on the allow-list.
pub accept_bearer_iff :
    (s : State) (al : AllowList) (tok : Text)
    → (accept_bearer s al tok ≡ true) ↔ (
        (t : Text) × (hex_tok tok ≡ some t)
        × ((any (enters t) (load_book s) || contains t (load_env_or_file al)) ≡ true))
unfolding accept_bearer
accept_bearer_iff s al tok = (forward, backward)
  where
    forward :
        accept_bearer s al tok ≡ true
        → (t : Text) × (hex_tok tok ≡ some t)
          × ((any (enters t) (load_book s) || contains t (load_env_or_file al)) ≡ true)
    forward e = elim (Option-cases (hex_tok tok)) [
      | inl bad ↦ absurd (ground (arith, bad))
      | inr (t, good) ↦
          (t, good, ground (arith, good, contains-open_bearers s t (hex_tok-length tok t good)))
    ]

    backward :
        ((t : Text) × (hex_tok tok ≡ some t)
          × ((any (enters t) (load_book s) || contains t (load_env_or_file al)) ≡ true))
        → accept_bearer s al tok ≡ true
    backward (t, good, e) =
        ground (arith, good, e, contains-open_bearers s t (hex_tok-length tok t good))

closed_view :
    (l l' : Lease) (id j t : Text)
    → l' ≡ apply (close id) j l
    → (j ≢ id → opens_to t l ≡ false)
    → opens_to t l' ≡ false
closed_view absent l' id j t e o = ground (arith, ==_iff id j)
closed_view shut l' id j t e o = ground (arith, ==_iff id j)
closed_view (opened b x) l' id j t e o = ground (arith, ==_iff id j)

-- After a lease is closed its tokens are refused, unless another lease is open to them or the
-- allow-list has them.
pub closed_bearer_refused :
    (s s' : State) (al : AllowList) (id tok t : Text)
    → Unique (load_book s)
    → run_op s (close id) ≡ (s', none)
    → hex_tok tok ≡ some t
    → ((j : Text) → j ≢ id → opens_to t (view s j) ≡ false)
    → contains t (load_env_or_file al) ≡ false
    → accept_bearer s' al tok ≡ false
unfolding accept_bearer
closed_bearer_refused s s' al id tok t u run good others unlisted = ground (
  arith,
  good,
  unlisted,
  contains-open_bearers s' t (hex_tok-length tok t good),
  none_enters s' t (close-Unique s s' id u run) (λ j.
      closed_view (view s j) (view s' j) id j t (run_op-view s s' (close id) run j []).0
        (others j)),
)
