-- ===== src/Operator/IgnoreList/Flags.antt =====
-- When a lease is flagged.
use rezerve.Base.{
  ℕ, suc, ◌<◌, ◌≤◌, ◌≡◌, refl, sym, subst, ◌&&◌, List, [], ◌∷◌, Option, none, some, arith, Eq, ◌==◌,
  ==_iff, if◌then◌else◌, ltb, leb, length, Dict, lookup, lookup-insert, Text, Bool-cases,
  Option-cases, inl, inr, ◌⊎◌, delete_all, lookup-delete_all,
}
use rezerve.Operator.IgnoreList.{
  IgnoreListEntry, IgnoreListConfig, add_error, is_flagged, entry_or_zero, increment, select_old,
  select_excess, prune_excess, prune,
}

-- A call of `AddError`: the time, the lease, and what is kept of the failure.
pub record Call (K : Type 0) : Type 0 where
  pub now : ℕ
  pub lease : K
  pub failure : Text
  pub extra : List Text

-- The count of an entry is that of the failures, and there is an entry if there is a failure.
abbrev Counts : ℕ → Option IgnoreListEntry → Type 0
Counts n none = n ≡ 0
Counts n (some x) = (x.failure_count ≡ n) × (1 ≤ n)

Counts-increment :
    (n : ℕ) (o : Option IgnoreListEntry)
    → suc n < 18_446_744_073_709_551_616
    → Counts n o
    → increment (entry_or_zero o).failure_count ≡ suc n
Counts-increment n none small h = omega arith
Counts-increment n (some x) small h = omega (arith, h.0)

-- What the operator asks of the list: to note a failure, or to prune at a time.
pub data Action (K : Type 0) : Type 0 where
  adds : Call K → Action K
  prunes : ℕ → Action K

module _ {K : Type 0} ⦃e : Eq K⦄ (cfg : IgnoreListConfig) where
  -- The list after the actions, of which the latest stands first.
  unfoldable pub after : List (Action K) → Dict K IgnoreListEntry
  after [] = []
  after (adds c ∷ l) = add_error c.now c.lease c.failure c.extra (after l)
  after (prunes now ∷ l) = (prune cfg now (after l)).0

  -- How often a lease has failed since a prune last left it out, if one did.
  abbrev pub failures : K → List (Action K) → ℕ
  failures k [] = 0
  failures k (adds c ∷ l) = if c.lease == k then suc (failures k l) else failures k l
  failures k (prunes now ∷ l) =
      let before = failures k l in
      elim (lookup k (after (prunes now ∷ l))) [ none ↦ 0 | some x ↦ before ]

  failures-length : (k : K) (l : List (Action K)) → failures k l ≤ length l
  failures-length k [] = omega arith
  failures-length k (adds c ∷ l) = ground (arith, failures-length k l)
  failures-length k (prunes now ∷ l) = ground (arith, failures-length k l)

  prune-lookup :
      (now : ℕ) (k : K) (m : Dict K IgnoreListEntry)
      → (lookup k (prune cfg now m).0 ≡ none) ⊎ (lookup k (prune cfg now m).0 ≡ lookup k m)
  unfolding prune prune_excess
  prune-lookup now k m =
      let old = select_old cfg now m in
      let left = delete_all old m in
      let excess = select_excess cfg.entry_limit (length left) 0 left in
      ground (arith, lookup-delete_all old k m, lookup-delete_all excess k left)

  after-Counts :
      (k : K) (l : List (Action K))
      → length l < 18_446_744_073_709_551_616
      → Counts (failures k l) (lookup k (after l))
  unfolding after add_error lookup
  after-Counts k [] small = refl
  after-Counts k (adds c ∷ l) small =
      let below = after-Counts k l (omega (arith, small)) in
      let bound = failures-length k l in
      rw (lookup-insert c.lease k _ (after l)) (elim (Bool-cases (c.lease == k)) [
        | inl same ↦
            let k' : c.lease ≡ k = (==_iff c.lease k).0 same in
            rw same (
              subst
                  (λ j.
                    increment (entry_or_zero (lookup j (after l))).failure_count
                    ≡ suc (failures k l))
                  (sym k')
                  (Counts-increment (failures k l) (lookup k (after l))
                    (omega (arith, small, bound)) below),
              omega arith,
            )
        | inr other ↦ rw other below
      ])
  after-Counts k (prunes now ∷ l) small =
      let below = after-Counts k l (omega (arith, small)) in
      elim (Option-cases (lookup k (prune cfg now (after l)).0)) [
        | inl gone ↦ ground (arith, gone)
        | inr (x, there) ↦ elim (prune-lookup now k (after l)) [
          | inl gone ↦ absurd (ground (arith, gone, there))
          | inr same ↦ ground (arith, there, same, below)
        ]
      ]

  -- After any failures and prunes, a lease is flagged exactly when it has failed, and at least as
  -- often as the limit allows, since a prune last left it out of the list.
  pub flagged_iff :
      (k : K) (l : List (Action K))
      → length l < 18_446_744_073_709_551_616
      → is_flagged cfg k (after l) ≡ (ltb 0 (failures k l) && leb cfg.failure_limit (failures k l))
  unfolding is_flagged
  flagged_iff k l small = elim (Option-cases (lookup k (after l))) [
    | inl absent ↦ ground (arith, absent, after-Counts k l small)
    | inr (x, found) ↦ ground (arith, found, after-Counts k l small)
  ]
