-- ===== src/Cluster/Manager/Reclaim.antt =====
-- provider/cluster/manager.go: `checkLeaseActive`, the join of `doTeardown`, and when a reclaimed lease
-- is closed.
use rezerve.Base.{
  ℕ, ◌≤◌, ◌≡◌, ◌↔◌, Bool, true, false, List, [], ◌∷◌, Option, none, some, arith, bytes,
  Option-cases, inl, inr, if◌then◌else◌, Result, ok, err, All,
}
use rezerve.Cluster.Manager.{Failure, lease_inactive, failure, Chain, attempt_close, State, reclaim}

-- The lease's state on the chain; `unknown` is any that the code does not name.
pub data LeaseState : Type 0 where
  active closed insufficient_funds unknown : LeaseState
  reclaiming : Option ℕ → LeaseState

module _ {D : Type 0} where
  -- A reclamation that is under way is armed again.
  on_lease : LeaseState → State D → State D × Option Failure
  unfolding reclaim
  on_lease active s = (s, none)
  on_lease (reclaiming none) s = (s, none)
  on_lease (reclaiming (some deadline)) s = (reclaim deadline s, none)
  on_lease closed s = (s, some lease_inactive)
  on_lease insufficient_funds s = (s, some lease_inactive)
  on_lease unknown s = (s, some (failure (bytes "unexpected lease state")))

  -- The answer of the query behind its retries, and whether it is of the lease that was asked for.
  pub check_lease_active : Result Failure (Bool × LeaseState) → State D → State D × Option Failure
  unfolding on_lease
  check_lease_active (err e) s = (s, some e)
  check_lease_active (ok (same, l)) s =
      if same then on_lease l s else (s, some (failure (bytes "different ID")))

-- The results of the activities of a teardown, in the order in which they end.
pub do_teardown : List (Option Failure) → Option Failure
do_teardown [] = none
do_teardown (none ∷ rest) = do_teardown rest
do_teardown (some e ∷ rest) = some e

-- A teardown succeeds only if all that it does has.
pub do_teardown_iff :
    (results : List (Option Failure)) → (do_teardown results ≡ none) ↔ All (λ r. r ≡ none) results
unfolding do_teardown
do_teardown_iff [] = ground arith
do_teardown_iff (none ∷ rest) = ground (arith, do_teardown_iff rest)
do_teardown_iff (some e ∷ rest) = ground arith

-- A close is broadcast exactly when the node is synced and the deadline is not after its block.
abbrev pub IsDue : ℕ → Chain → Type 0
IsDue deadline c = (t : ℕ) × (c.sync_info ≡ some (false, t)) × (deadline ≤ t)

pub attempt_close-IsDue :
    (interval deadline : ℕ) (c : Chain)
    → (attempt_close interval deadline c).0 ≡ true
    → IsDue deadline c
unfolding attempt_close
attempt_close-IsDue interval deadline c sent = elim (Option-cases c.sync_info) [
  | inl e ↦ absurd (ground (arith, e, sent))
  | inr (p, e) ↦ (p.1, ground (arith, e, sent), ground (arith, e, sent))
]
