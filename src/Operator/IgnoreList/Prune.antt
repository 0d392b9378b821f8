-- ===== src/Operator/IgnoreList/Prune.antt =====
-- The bound that a prune keeps.
use rezerve.Base.{
  ℕ, suc, ◌+◌, ◌-◌, ◌≤◌, ◌≡◌, refl, subst, sym, Bool, true, false, List, [], ◌∷◌, none, some, arith,
  Eq, ==_iff, leb, length, Dict, lookup, delete, delete_absent, delete_all, contains, Unique,
  lookup-delete_all, delete_all-Unique, if-cases, inl, inr, ◌⊎◌, All,
}
use rezerve.Operator.IgnoreList.{
  IgnoreListEntry, IgnoreListConfig, is_old, select_old, select_excess, prune_excess, prune,
  is_cons,
}

module _ {K : Type 0} ⦃e : Eq K⦄ where
  -- Deleting the key at the front leaves the rest.
  delete_front :
      {V : Type 0} (k : K) (v : V) (m : Dict K V) → lookup k m ≡ none → delete k ((k, v) ∷ m) ≡ m
  unfolding delete
  delete_front k v m h = ground (arith, ==_iff k k, delete_absent k m h)

  select_excess-length :
      (limit size chosen : ℕ) (m : Dict K IgnoreListEntry)
      → Unique m
      → size ≡ chosen + length m
      → length (delete_all (select_excess limit size chosen m) m) ≤ limit
  unfolding select_excess delete_all
  select_excess-length limit size chosen [] u s = omega arith
  select_excess-length limit size chosen ((k, v) ∷ m) (absent, u) s =
      let below = select_excess-length limit size (suc chosen) m u (omega (arith, s)) in
      if-cases (λ ks. length (delete_all ks ((k, v) ∷ m)) ≤ limit) (leb (size - chosen) limit)
        (λ few. ground (arith, few, s))
        (λ _.
          subst (λ left. length (delete_all (select_excess limit size (suc chosen) m) left) ≤ limit)
            (sym (delete_front k v m absent)) below)

  select_old_lem :
      (cfg : IgnoreListConfig) (now : ℕ) (j : K) (m : Dict K IgnoreListEntry) (x : IgnoreListEntry)
      → lookup j m ≡ some x
      → is_old cfg now x ≡ true
      → contains j (select_old cfg now m) ≡ true
  unfolding lookup select_old contains
  select_old_lem cfg now j [] x h old = absurd (ground (arith, h))
  select_old_lem cfg now j ((k, v) ∷ m) x h old =
      ground (arith, h, old, ==_iff k j, select_old_lem cfg now j m x)

  young :
      (cfg : IgnoreListConfig) (now : ℕ) (j : K) (m : Dict K IgnoreListEntry) (x : IgnoreListEntry)
      → lookup j m ≡ some x
      → contains j (select_old cfg now m) ≡ false
      → is_old cfg now x ≡ false
  young cfg now j m x h chosen = ground (arith, chosen, select_old_lem cfg now j m x h)

  prune_excess-length :
      (cfg : IgnoreListConfig) (deleted : Bool) (m : Dict K IgnoreListEntry)
      → Unique m
      → length (prune_excess cfg deleted m).0 ≤ cfg.entry_limit
  unfolding prune_excess
  prune_excess-length cfg deleted m u =
      select_excess-length cfg.entry_limit (length m) 0 m u (omega arith)

  -- A lookup after the deletion of keys found what it finds before it.
  kept_was_there :
      (ks : List K) (j : K) (m : Dict K IgnoreListEntry) (x : IgnoreListEntry)
      → lookup j (delete_all ks m) ≡ some x
      → (lookup j m ≡ some x) × (contains j ks ≡ false)
  kept_was_there ks j m x h = ground (arith, h, lookup-delete_all ks j m)

  -- What every lookup finds, every entry is.
  All-lookup :
      (P : K × IgnoreListEntry → Type 0) (m : Dict K IgnoreListEntry)
      → Unique m
      → ((j : K) (x : IgnoreListEntry) → lookup j m ≡ some x → P (j, x))
      → All P m
  unfolding lookup
  All-lookup P [] u h = tt
  All-lookup P ((k, v) ∷ m) (absent, u) h = (
    h k v (ground (arith, ==_iff k k)),
    All-lookup P m u (λ j x found. h j x (ground (arith, found, absent, ==_iff k j))),
  )

  abbrev pub Pruned :
      IgnoreListConfig → ℕ → Dict K IgnoreListEntry → Dict K IgnoreListEntry × Bool → Type 0
  Pruned cfg now m (left, deleted) =
      (length left ≤ cfg.entry_limit)
      × All (λ (k, x). lookup k m ≡ some x) left
      × (((left ≡ m) × (deleted ≡ false)) ⊎ All (λ (k, x). is_old cfg now x ≡ false) left)

  lookup_same : (m : Dict K IgnoreListEntry) → Unique m → All (λ (k, x). lookup k m ≡ some x) m
  lookup_same m u = All-lookup (λ (k, x). lookup k m ≡ some x) m u (λ j x h. h)

  prune_excess-Pruned :
      (cfg : IgnoreListConfig) (now : ℕ) (deleted : Bool) (m : Dict K IgnoreListEntry)
      → Unique m
      → Pruned cfg now m (prune_excess cfg deleted (delete_all (select_old cfg now m) m))
  unfolding prune_excess
  prune_excess-Pruned cfg now deleted m u =
      let old = select_old cfg now m in
      let left = delete_all old m in
      let unique = delete_all-Unique old m u in
      let excess = select_excess cfg.entry_limit (length left) 0 left in
      let rest = delete_all-Unique excess left unique in
      (
        prune_excess-length cfg deleted left unique,
        All-lookup (λ (k, x). lookup k m ≡ some x) (delete_all excess left) rest
            (λ j x h. (kept_was_there old j m x (kept_was_there excess j left x h).0).0),
        inr (
            All-lookup (λ (k, x). is_old cfg now x ≡ false) (delete_all excess left) rest
              (λ j x h.
                let (there, chosen) =
                  kept_was_there old j m x (kept_was_there excess j left x h).0 in
                young cfg now j m x there chosen)),
      )

  -- A prune leaves at most as many entries as the limit allows, each of them as it was. It deletes
  -- nothing, or leaves no entry that is past its age.
  pub prune-Pruned :
      (cfg : IgnoreListConfig) (now : ℕ) (m : Dict K IgnoreListEntry)
      → Unique m
      → Pruned cfg now m (prune cfg now m)
  unfolding prune
  prune-Pruned cfg now m u =
      if-cases (Pruned cfg now m) (leb (length m) cfg.entry_limit)
        (λ few. (ground (arith, few), lookup_same m u, inl (refl, refl)))
        (λ _. prune_excess-Pruned cfg now (is_cons (select_old cfg now m)) m u)
