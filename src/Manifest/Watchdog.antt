-- ===== src/Manifest/Watchdog.antt =====
-- provider/manifest/watchdog.go: `run`. A channel that is awaited is a flag of the state; what the
-- watchdog broadcasts, and the answer, is a log, newest first.
use rezerve.Base.{
  ◌≡◌, ◌⊎◌, inl, inr, refl, Bool, true, false, List, [], ◌∷◌, arith, Next, goes_on, stops, After,
  loop, loop_inv, may_any, if◌then◌else◌,
}

pub data Effect : Type 0 where
  close_bid : Effect
  close_answered : Bool → Effect

pub data Event : Type 0 where
  timeout shutdown_request : Event
  close_finished : Bool → Event

pub record State : Type 0 where
  pub timer : Bool
  pub shutdownch : Bool
  pub runch : Bool
  pub log : List Effect

unfoldable pub start : State
start = record { timer = true; shutdownch = true; runch = false; log = [] }

abbrev pub is_enabled : State → Event → Bool
is_enabled s timeout = s.timer
is_enabled s shutdown_request = s.shutdownch
is_enabled s (close_finished success) = s.runch

-- The first select, and then a turn of the loop that waits for the broadcast.
unfoldable pub step : State → Event → State × Next
step s timeout = (record s { timer = false; runch = true; log = close_bid ∷ s.log }, goes_on)
step s shutdown_request =
    if s.timer
    then (record s { timer = false; shutdownch = false }, stops)
    else (record s { shutdownch = false }, goes_on)
step s (close_finished success) =
    (record s { runch = false; log = close_answered success ∷ s.log }, stops)

unfoldable pub run : List Event → State × Next
unfolding start
run = loop is_enabled step start

-- It waits with nothing sent, or for the answer to the one close that it sent.
abbrev pub Waits : State → Type 0
Waits s =
    ((s.timer ≡ true) × (s.runch ≡ false) × (s.log ≡ []))
    ⊎ ((s.timer ≡ false) × (s.runch ≡ true) × (s.log ≡ close_bid ∷ []))

-- It was stopped before it sent anything, or its one close was answered.
abbrev pub Over : State → Type 0
Over s = (s.log ≡ []) ⊎ ((ok : Bool) × (s.log ≡ close_answered ok ∷ close_bid ∷ []))

step-Waits :
    (s : State) (ev : Event) → is_enabled s ev ≡ true → Waits s → After Waits Over (step s ev)
unfolding step
step-Waits s timeout on (inl (a, b, c)) = inr (refl, refl, rw c refl)
step-Waits s timeout on (inr (a, b, c)) = absurd (ground (arith, on, a))
step-Waits s shutdown_request on (inl (a, b, c)) = rw a (inl c)
step-Waits s shutdown_request on (inr (a, b, c)) = rw a (inr (refl, b, c))
step-Waits s (close_finished ok) on (inl (a, b, c)) = absurd (ground (arith, on, b))
step-Waits s (close_finished ok) on (inr (a, b, c)) = inr (ok, rw c refl)

-- In whatever order the timeout, the requests to shut down and the answer come: the watchdog ends
-- either stopped with nothing sent, or with the answer to the one close of the bid that it sent,
-- which a shutdown does not cut short. Until then it has sent one close at most.
pub closes_once_or_stops : (evs : List Event) → After Waits Over (run evs)
unfolding run start
closes_once_or_stops evs =
    loop_inv is_enabled step Waits Over (λ ev. true) (λ s ev may on h. step-Waits s ev on h) start
      evs (may_any evs) (inl (refl, refl, refl))
