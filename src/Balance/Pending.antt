-- ===== src/Balance/Pending.antt =====
-- That no monitored lease is forgotten.
use rezerve.Base.{
  ℕ, ◌+◌, some-cases, ◌≡◌, refl, subst, Bool, true, false, ◌&&◌, ◌||◌, List, [], ◌∷◌, Option, none,
  some, arith, ◌==◌, ==_iff, nat_eq, if-both, Bool-cases, inl, inr, lookup, lookup-insert,
  lookup-delete, goes_on, After, After-goes_on, loop_inv, may_any,
}
use rezerve.Bidengine.Ids.{BidId, bid_eq}
use rezerve.Balance.Check.{
  Config, LeaseCheckResponse, RespState, next_check, out_of_funds, scheduled_withdraw,
  do_escrow_check, minute,
}
use rezerve.Balance.Checker.{
  Monitored, Timer, withdraw, State, Event, shutdown, other_event, withdraw_result,
  add_funds_monitor, remove_funds_monitor, timer_fires, check_result, start, timer_func,
  next_withdrawal, on_add, remove_timer, stop_timer, remove_lease, next_timer, on_checked,
  was_scheduled, on_response, remove_check, is_enabled, step, run,
}

abbrev pub is_monitored : Option Monitored → Bool
is_monitored none = false
is_monitored (some m) = true

abbrev pub has_timer : BidId → List Timer → Bool
has_timer k [] = false
has_timer k (t ∷ ts) = (t.lid == k) || has_timer k ts

abbrev pub has_check : BidId → List (BidId × Bool) → Bool
has_check k [] = false
has_check k ((j, b) ∷ l) = (j == k) || has_check k l

-- A lease that is monitored has a timer set or a check under way.
abbrev pub Looked : BidId → State → Type 0
Looked k s =
    is_monitored (lookup k s.leases) ≡ true → (has_timer k s.timers || has_check k s.checks) ≡ true

abbrev pub Remembered : State → Type 0
Remembered s = (k : BidId) → Looked k s

-- Every lease but one.
abbrev Others : BidId → State → Type 0
Others k s = (j : BidId) → (k == j) ≡ false → Looked j s

timer_func-Remembered :
    (due : ℕ) (k : BidId) (b : Bool) (w : Option ℕ) (s : State)
    → Others k s
    → Remembered (timer_func due k b w s)
unfolding timer_func
timer_func-Remembered due k b w s h j known = elim (Bool-cases (k == j)) [
  | inl same ↦ ground (arith, same)
  | inr other ↦ ground (
    arith,
    other,
    known,
    h j other,
    lookup-insert k j (record { tm = some s.created; scheduled_withdraw_at = w }) s.leases,
  )
]

on_add-Remembered :
    (cfg : Config) (now : ℕ) (k : BidId) (is_new : Bool) (check_in : ℕ) (s : State)
    → Remembered s
    → Remembered (on_add cfg now k is_new check_in s)
unfolding on_add
on_add-Remembered cfg now k true check_in s h = λ j known.
    let m : Monitored = record { tm = none; scheduled_withdraw_at = next_withdrawal cfg now } in
    elim (Bool-cases (k == j)) [
      | inl same ↦ ground (arith, same)
      | inr other ↦ ground (arith, other, known, h j, lookup-insert k j m s.leases)
    ]
on_add-Remembered cfg now k false check_in s h =
    timer_func-Remembered (now + check_in) k false (next_withdrawal cfg now) s (λ j other. h j)

has_timer-remove_timer :
    (k : BidId) (n : ℕ) (j : BidId) (ts : List Timer)
    → (k == j) ≡ false
    → has_timer j (remove_timer k n ts) ≡ has_timer j ts
unfolding remove_timer
has_timer-remove_timer k n j [] other = refl
has_timer-remove_timer k n j (t ∷ ts) other =
    ground (arith, other, has_timer-remove_timer k n j ts other, ==_iff t.lid k, ==_iff t.lid j)

has_timer-stop_timer :
    (k : BidId) (o : Option ℕ) (j : BidId) (ts : List Timer)
    → (k == j) ≡ false
    → has_timer j (stop_timer k o ts) ≡ has_timer j ts
unfolding stop_timer
has_timer-stop_timer k none j ts other = refl
has_timer-stop_timer k (some n) j ts other = has_timer-remove_timer k n j ts other

remove_lease-Remembered : (k : BidId) (s : State) → Others k s → Remembered (remove_lease k s)
unfolding remove_lease
remove_lease-Remembered k s h =
    some-cases Remembered (lookup k s.leases)
      (λ m there j known. elim (Bool-cases (k == j)) [
        | inl same ↦ absurd (ground (arith, same, known, lookup-delete k j s.leases))
        | inr other ↦ ground (
          arith,
          other,
          known,
          h j other,
          lookup-delete k j s.leases,
          has_timer-stop_timer k m.tm j s.timers other,
        )
      ])
      (λ gone j known. elim (Bool-cases (k == j)) [
        | inl same ↦ absurd (
            ground (arith, known, subst (λ x. lookup x s.leases ≡ none) ((==_iff k j).0 same) gone))
        | inr other ↦ h j other known
      ])

has_check-remove_check :
    (k : BidId) (b : Bool) (j : BidId) (l : List (BidId × Bool))
    → (k == j) ≡ false
    → has_check j (remove_check k b l) ≡ has_check j l
unfolding remove_check
has_check-remove_check k b j [] other = refl
has_check-remove_check k b j ((i, c) ∷ l) other =
    ground (arith, other, has_check-remove_check k b j l other, ==_iff i k, ==_iff i j)

state-cases :
    (P : State → Type 0) (st : RespState) {x y : State}
    → P x
    → P y
    → P (elim st [ next_check ↦ x | _ ↦ y ])
state-cases P next_check p q = p
state-cases P out_of_funds p q = q
state-cases P scheduled_withdraw p q = q

on_checked-Remembered :
    (cfg : Config) (now : ℕ) (k : BidId) (m : Monitored) (resp : LeaseCheckResponse) (s : State)
    → Others k s
    → Remembered (on_checked cfg now k m resp s)
unfolding on_checked
on_checked-Remembered cfg now k m resp s h =
    let (due, b) = next_timer now resp.check_after m.scheduled_withdraw_at in
    state-cases Remembered resp.state (timer_func-Remembered due k b m.scheduled_withdraw_at s h) (
      timer_func-Remembered (now + resp.check_after) k false _
        (record s { log = withdraw k ∷ s.log }) h)

on_response-Remembered :
    (cfg : Config) (now : ℕ) (k : BidId) (resp : LeaseCheckResponse) (published : Bool) (s : State)
    → Others k s
    → Remembered (on_response cfg now k resp published s)
unfolding on_response
on_response-Remembered cfg now k resp published s h =
    some-cases Remembered (lookup k s.leases)
      (λ m there. if-both Remembered (resp.closed && published) (remove_lease-Remembered k _ h) (
        if-both Remembered (resp.err || resp.closed)
          (timer_func-Remembered (now + minute) k (was_scheduled resp.state) m.scheduled_withdraw_at
            s h)
          (on_checked-Remembered cfg now k m resp s h)))
      (λ gone j known. elim (Bool-cases (k == j)) [
        | inl same ↦ absurd (
            ground (arith, known, subst (λ x. lookup x s.leases ≡ none) ((==_iff k j).0 same) gone))
        | inr other ↦ h j other known
      ])

step-Remembered :
    (cfg : Config) (s : State) (ev : Event)
    → Remembered s
    → After Remembered (λ t. Unit) (step cfg s ev)
unfolding step
step-Remembered cfg s shutdown h = tt
step-Remembered cfg s other_event h = h
step-Remembered cfg s withdraw_result h = h
step-Remembered cfg s (add_funds_monitor now k is_new check_in) h =
    on_add-Remembered cfg now k is_new check_in s h
step-Remembered cfg s (remove_funds_monitor k) h = remove_lease-Remembered k s (λ j other. h j)
step-Remembered cfg s (timer_fires k n b) h = λ j known. elim (Bool-cases (k == j)) [
  | inl same ↦ ground (arith, same)
  | inr other ↦ ground (arith, other, h j known, has_timer-remove_timer k n j s.timers other)
]
step-Remembered cfg s (check_result now k b chain published) h =
    on_response-Remembered cfg now k (do_escrow_check cfg chain k b) published _
      (λ j other known. ground (arith, h j known, has_check-remove_check k b j s.checks other))

-- Whatever arrives, in whatever order, while the loop goes on: every lease that is monitored has a
-- timer that is set or a check under way, so none is forgotten.
pub no_lease_forgotten :
    (cfg : Config) (evs : List Event) → (run cfg evs).1 ≡ goes_on → Remembered (run cfg evs).0
unfolding run start lookup
no_lease_forgotten cfg evs on =
    After-goes_on Remembered (λ t. Unit) (run cfg evs) on
      (loop_inv is_enabled (step cfg) Remembered (λ t. Unit) (λ ev. true)
        (λ s ev may on h. step-Remembered cfg s ev h) start evs (may_any evs)
        (λ k known. absurd (ground (arith, known))))
