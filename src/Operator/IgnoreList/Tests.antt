-- ===== src/Operator/IgnoreList/Tests.antt =====
-- Three leases, of which one has failed twice.
use rezerve.Base.{
  ℕ, ◌≡◌, refl, true, false, ◌&&◌, List, [], ◌∷◌, bytes, arith, nat_eq, ltb, leb, length, lookup,
  insert, delete, delete_all, contains,
}
use rezerve.Operator.IgnoreList.{
  IgnoreListConfig, add_error, add_extra, is_flagged, select_old, select_excess, prune_excess,
  prune,
}
use rezerve.Operator.IgnoreList.Flags.{Call, Action, adds, prunes, after, failures, flagged_iff}
use rezerve.Operator.IgnoreList.Prune.{Pruned, prune-Pruned}

abbrev config : IgnoreListConfig
config = record { failure_limit = 2; entry_limit = 1; age_limit = 50 }

abbrev failed : ℕ → ℕ → Call ℕ
failed now lease = record {
  now = now;
  lease = lease;
  failure = bytes "timeout";
  extra = bytes "a.example" ∷ [];
}

abbrev history : List (Action ℕ)
history = adds (failed 130 7) ∷ adds (failed 120 9) ∷ adds (failed 110 7) ∷ adds (failed 10 8) ∷ []

-- The prune leaves the lease out, and it fails again.
abbrev pruned_history : List (Action ℕ)
pruned_history = adds (failed 150 7) ∷ prunes 140 ∷ history

flagged_iff_example :
    is_flagged config 7 (after config pruned_history)
    ≡ (ltb 0 (failures config 7 pruned_history) && leb 2 (failures config 7 pruned_history))
flagged_iff_example = flagged_iff config 7 pruned_history (omega arith)

prune-Pruned_example :
    Pruned config 140 (after config history) (prune config 140 (after config history))
unfolding after add_error add_extra insert lookup contains
prune-Pruned_example = prune-Pruned config 140 (after config history) (refl, (refl, (refl, tt)))

-- The old entry goes, and one of the two others.
left_by_prune : length (prune config 140 (after config history)).0 ≡ 1
unfolding after add_error add_extra insert lookup contains prune prune_excess select_old
    select_excess delete delete_all
left_by_prune = refl

-- Lease 7 is flagged, until the prune leaves it out and it has failed only once since.
forgotten :
    (is_flagged config 7 (after config history) ≡ true)
    × (is_flagged config 7 (after config pruned_history) ≡ false)
unfolding after add_error add_extra insert lookup contains prune prune_excess select_old
    select_excess delete delete_all is_flagged
forgotten = (refl, refl)
