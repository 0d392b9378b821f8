-- ===== src/Operator/IgnoreList.antt =====
-- provider/operator/common/ignore_list.go: the leases whose directives fail. The list's map is an
-- association list, whose order stands for the order in which Go ranges over it; times are
-- nanoseconds, and the limits fit an int.
pub mod Prune
pub mod Flags
mod Tests
use rezerve.Base.{
  ℕ, suc, ◌+◌, ◌-◌, ◌%◌, ◌≡◌, Bool, true, false, not, ◌||◌, List, [], ◌∷◌, ◌++◌, Option, none, some,
  Text, if◌then◌else◌, Eq, ◌==◌, list_eq, nat_eq, ltb, leb, length, Dict, lookup, insert,
  delete_all, contains,
}

pub record IgnoreListEntry : Type 0 where
  pub failure_count : ℕ
  pub failed_at : ℕ
  pub last_error : Option Text
  pub extra : List Text

pub record IgnoreListConfig : Type 0 where
  pub failure_limit : ℕ
  pub entry_limit : ℕ
  pub age_limit : ℕ

-- Go's zero value, that a lookup of an absent key gives.
abbrev pub zero_entry : IgnoreListEntry
zero_entry = record { failure_count = 0; failed_at = 0; last_error = none; extra = [] }

abbrev pub entry_or_zero : Option IgnoreListEntry → IgnoreListEntry
entry_or_zero none = zero_entry
entry_or_zero (some entry) = entry

-- A uint's `++`.
abbrev pub increment : ℕ → ℕ
increment n = (n + 1) % 18_446_744_073_709_551_616

-- Adds each text that is not there.
add_extra : List Text → List Text → List Text
add_extra [] extra = extra
add_extra (v ∷ vs) extra = add_extra vs (if contains v extra then extra else extra ++ (v ∷ []))

abbrev pub is_old : IgnoreListConfig → ℕ → IgnoreListEntry → Bool
is_old cfg now entry = ltb (entry.failed_at + cfg.age_limit) now

module _ {K : Type 0} ⦃e : Eq K⦄ where
  pub add_error : ℕ → K → Text → List Text → Dict K IgnoreListEntry → Dict K IgnoreListEntry
  unfolding add_extra
  add_error now k failure extra entries =
      let entry = entry_or_zero (lookup k entries) in
      insert k
        (record {
          failure_count = increment entry.failure_count;
          failed_at = now;
          last_error = some failure;
          extra = add_extra extra entry.extra;
        })
        entries

  pub is_flagged : IgnoreListConfig → K → Dict K IgnoreListEntry → Bool
  is_flagged cfg k entries = elim (lookup k entries) [
    | none ↦ false
    | some entry ↦ leb cfg.failure_limit entry.failure_count
  ]

  pub select_old : IgnoreListConfig → ℕ → Dict K IgnoreListEntry → List K
  select_old cfg now [] = []
  select_old cfg now ((k, entry) ∷ m) =
      let rest = select_old cfg now m in if is_old cfg now entry then k ∷ rest else rest

  -- The loop over a map of `size` entries, of which `chosen` are to be deleted so far.
  pub select_excess : ℕ → ℕ → ℕ → Dict K IgnoreListEntry → List K
  select_excess limit size chosen [] = []
  select_excess limit size chosen ((k, entry) ∷ m) =
      let rest = select_excess limit size (suc chosen) m in
      if leb (size - chosen) limit then [] else k ∷ rest

  abbrev is_cons : List K → Bool
  is_cons [] = false
  is_cons (k ∷ ks) = true

  -- The second half of a prune, of the entries that are left.
  pub prune_excess :
      IgnoreListConfig → Bool → Dict K IgnoreListEntry → Dict K IgnoreListEntry × Bool
  unfolding select_excess
  prune_excess cfg deleted m =
      let excess = select_excess cfg.entry_limit (length m) 0 m in
      (delete_all excess m, deleted || is_cons excess)

  pub prune : IgnoreListConfig → ℕ → Dict K IgnoreListEntry → Dict K IgnoreListEntry × Bool
  unfolding prune_excess select_old
  prune cfg now m =
      if leb (length m) cfg.entry_limit
      then (m, false)
      else let old = select_old cfg now m in prune_excess cfg (is_cons old) (delete_all old m)
