-- ===== src/Cluster/Service/Managed.antt =====
-- The managers of provider/cluster/service.go: one of each lease, and what the loop leaves at its end.
use rezerve.Base.{
  Mirrored, insert-Mirrored, delete-Mirrored, some-cases, is_alive, remove_alive, ℕ, ◌≡◌, refl,
  Bool, true, false, ◌&&◌, List, [], ◌∷◌, none, arith, ◌==◌, ==_iff, nat_eq, list_eq, All,
  lookup-insert, if-both, length, Dict, lookup, insert, delete, After, After_end, loop_inv, may_any,
  contains, Text,
}
use rezerve.Bidengine.Ids.{BidId, bid_eq}
use rezerve.Cluster.Service.{
  unreserve, Event, context_done, shutdown, status_asked, other_event, manifest_received,
  lease_closed, lease_reclaim_started, signalled, inventory_update, manager_done, check_deployment,
  State, try_signal, new_manager, adopt, start, on_manifest_received, teardown_lease,
  on_reclaim_started, publish, on_manager_done, is_enabled, step, run,
}

-- The service's managers are those that are alive, each lease has one, and the gauge shows how many.
abbrev pub Managed : State → Type 0
Managed s = Mirrored s.managers s.alive × (s.gauge ≡ length s.managers)

-- No lease is named twice.
abbrev pub Distinct : List BidId → Type 0
Distinct [] = Unit
Distinct (k ∷ ks) = (contains k ks ≡ false) × Distinct ks

abbrev Free : Dict BidId ℕ → List BidId → Type 0
Free m = All (λ k. lookup k m ≡ none)

abbrev Known : State → Type 0
Known s = Mirrored s.managers s.alive

new_manager-Known :
    (k : BidId) (is_new : Bool) (s : State)
    → lookup k s.managers ≡ none
    → Known s
    → Known (new_manager k is_new s)
unfolding new_manager
new_manager-Known k is_new s free h = insert-Mirrored k s.created s.managers s.alive free h

try_signal-Known : (taken : Bool) (s : State) → Known s → Known (try_signal taken s)
try_signal-Known taken s h = if-both Known (taken && s.ctx_done) h h

on_manifest_received-Known :
    (k : BidId) (has_group found taken : Bool) (s : State)
    → Known s
    → Known (on_manifest_received k has_group found taken s)
unfolding on_manifest_received
on_manifest_received-Known k has_group found taken s h =
    if-both Known (has_group && found)
      (some-cases Known (lookup k s.managers) (λ n there. h)
        (λ free. try_signal-Known taken (new_manager k true s) (new_manager-Known k true s free h)))
      h

teardown_lease-Known :
    (own : Text) (k : BidId) (s : State) → Known s → Known (teardown_lease own k s)
unfolding teardown_lease
teardown_lease-Known own k s h =
    some-cases Known (lookup k s.managers) (λ n there. h)
      (λ free. if-both Known (k.provider == own) h h)

on_reclaim_started-Known : (k : BidId) (s : State) → Known s → Known (on_reclaim_started k s)
unfolding on_reclaim_started
on_reclaim_started-Known k s h = some-cases Known (lookup k s.managers) (λ n there. h) (λ free. h)

on_manager_done-Known :
    (k : BidId) (n : ℕ) (taken : Bool) (s : State)
    → is_alive k n s.alive ≡ true
    → Known s
    → Known (on_manager_done k n taken s)
unfolding on_manager_done
on_manager_done-Known k n taken s on h =
    try_signal-Known taken
      (record s {
        managers = delete k s.managers;
        alive = remove_alive k n s.alive;
        log = unreserve k.order ∷ s.log;
      })
      (delete-Mirrored k n s.managers s.alive on h)

publish-Managed : (b : Bool) (s : State) → Managed s → Managed (publish b s)
unfolding publish
publish-Managed b s h = if-both Managed b h h

step-Managed :
    (own : Text) (s : State) (ev : Event)
    → is_enabled s ev ≡ true
    → Managed s
    → After Managed Managed (step own s ev)
unfolding step
step-Managed own s context_done on h = h
step-Managed own s shutdown on h = h
step-Managed own s (manifest_received k g f t) on (h, c) =
    (on_manifest_received-Known k g f t s h, refl)
step-Managed own s (lease_closed k) on (h, c) = (teardown_lease-Known own k _ h, refl)
step-Managed own s (lease_reclaim_started k) on (h, c) = (on_reclaim_started-Known k s h, refl)
step-Managed own s other_event on (h, c) = (h, refl)
step-Managed own s status_asked on (h, c) = (h, refl)
step-Managed own s (signalled b) on h = publish-Managed b _ h
step-Managed own s (inventory_update b) on h = publish-Managed b _ h
step-Managed own s (manager_done k n taken) on (h, c) =
    (on_manager_done-Known k n taken s on h, refl)
step-Managed own s (check_deployment req) on (h, c) = (h, refl)

Free-insert :
    (k : BidId) (n : ℕ) (m : Dict BidId ℕ) (ks : List BidId)
    → contains k ks ≡ false
    → Free m ks
    → Free (insert k n m) ks
unfolding contains
Free-insert k n m [] d h = tt
Free-insert k n m (j ∷ ks) d (free, h) = (
  ground (arith, d, lookup-insert k j n m, ==_iff j k, ==_iff k j, free),
  Free-insert k n m ks (ground (arith, d)) h,
)

adopt-Managed :
    (ks : List BidId) (s : State)
    → Distinct ks
    → Free s.managers ks
    → Managed s
    → Managed (adopt ks s)
unfolding adopt new_manager
adopt-Managed [] s d free h = h
adopt-Managed (k ∷ ks) s (once, d) (f, fs) (h, c) =
    adopt-Managed ks _ d (Free-insert k s.created s.managers ks once fs)
      (new_manager-Known k false s f h, refl)

Free-empty : (ks : List BidId) → Free [] ks
unfolding lookup
Free-empty [] = tt
Free-empty (k ∷ ks) = (refl, Free-empty ks)

-- Where the cluster names no lease twice, then whatever arrives, in whatever order: each lease has one
-- manager at most, the managers known are those that are alive, and the gauge shows how many they are.
pub one_manager_per_lease :
    (own : Text) (deployments : List BidId) (evs : List Event)
    → Distinct deployments
    → Managed (run own deployments evs).0
unfolding run start
one_manager_per_lease own deployments evs distinct = After_end Managed (run own deployments evs) (
    loop_inv is_enabled (step own) Managed Managed (λ ev. true)
      (λ s ev may on h. step-Managed own s ev on h) (start deployments) evs (may_any evs)
      (adopt-Managed deployments _ distinct (Free-empty deployments) ((refl, tt), refl)))
