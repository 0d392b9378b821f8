-- ===== src/Base/Registry.antt =====
-- The goroutines that a service keeps in a map: the map beside those that are alive, by key and number.
use Prim.Native.Nat.{ℕ, suc}
use mathlib.Core.Path.{◌≡◌, refl, sym, subst, ap, ◌∙◌}
use mathlib.Core.Logic.{inl, inr}
use mathlib.Core.Bool.{Bool, true, false, ◌&&◌, ◌||◌}
use mathlib.Core.List.{[], ◌∷◌, ◌++◌}
use mathlib.Core.Option.{Option, none, some}
use native.Mathlib.Omega.{arith}
use rezerve.Base.Lists.{length}
use rezerve.Base.Tests.{Eq, ◌==◌, ==_iff, nat_eq, Bool-cases, if◌then◌else◌}
use rezerve.Base.Dicts.{
  Dict, lookup, insert, delete, delete_absent, Unique, insert-Unique, delete-Unique,
}

-- What holds with a value and without one holds of the case.
pub some-cases {ℓ κ ν} :
    {A : Type ν} {S : Type ℓ} (P : S → Type κ) (o : Option A) {f : A → S} {x : S}
    → ((a : A) → o ≡ some a → P (f a))
    → (o ≡ none → P x)
    → P (elim o [ some a ↦ f a | none ↦ x ])
some-cases P none p q = q refl
some-cases P (some n) p q = p n refl

abbrev pub is_some : Option ℕ → Bool
is_some none = false
is_some (some x) = true

module _ {ℓ} {K : Type ℓ} ⦃e : Eq K⦄ where
  abbrev pub is_alive : K → ℕ → Dict K ℕ → Bool
  is_alive k n [] = false
  is_alive k n ((j, i) ∷ m) = ((j == k) && (i == n)) || is_alive k n m

  -- The one that ends is gone.
  unfoldable pub remove_alive : K → ℕ → Dict K ℕ → Dict K ℕ
  remove_alive k n [] = []
  remove_alive k n ((j, i) ∷ m) =
      let rest = remove_alive k n m in if (j == k) && (i == n) then m else (j, i) ∷ rest

  -- The map has those that are alive, and each key one of them.
  abbrev pub Mirrored : Dict K ℕ → Dict K ℕ → Type ℓ
  Mirrored m alive = (m ≡ alive) × Unique m

  insert_absent :
      (k : K) (v : ℕ) (m : Dict K ℕ) → lookup k m ≡ none → insert k v m ≡ m ++ ((k, v) ∷ [])
  unfolding lookup insert
  insert_absent k v [] h = refl
  insert_absent k v ((j, w) ∷ m) h = ground (arith, h, ==_iff j k, insert_absent k v m)

  -- A new one of a key that has none.
  pub insert-Mirrored :
      (k : K) (n : ℕ) (m alive : Dict K ℕ)
      → lookup k m ≡ none
      → Mirrored m alive
      → Mirrored (insert k n m) (alive ++ ((k, n) ∷ []))
  insert-Mirrored k n m alive free (same, u) =
      (insert_absent k n m free ∙ ap (λ l. l ++ ((k, n) ∷ [])) same, insert-Unique k n m u)

  pub alive_found :
      (k : K) (n : ℕ) (m : Dict K ℕ) → is_alive k n m ≡ true → is_some (lookup k m) ≡ true
  unfolding lookup
  alive_found k n [] h = absurd (ground (arith, h))
  alive_found k n ((j, i) ∷ m) h = ground (arith, h, alive_found k n m)

  -- One that is alive is the only one of its key.
  remove_only :
      (k : K) (n : ℕ) (m : Dict K ℕ)
      → Unique m
      → is_alive k n m ≡ true
      → delete k m ≡ remove_alive k n m
  unfolding delete remove_alive
  remove_only k n [] u h = absurd (ground (arith, h))
  remove_only k n ((j, i) ∷ m) (absent, u) h =
      let rest = remove_only k n m u in
      let found = alive_found k n m in
      elim (Bool-cases (j == k)) [
        | inl same ↦
            let none_left : lookup k m ≡ none =
              subst (λ x. lookup x m ≡ none) ((==_iff j k).0 same) absent in
            ground (arith, same, none_left, h, found, delete_absent k m none_left)
        | inr other ↦ ground (arith, other, h, rest)
      ]

  -- The one that ends is dropped from the map.
  pub delete-Mirrored :
      (k : K) (n : ℕ) (m alive : Dict K ℕ)
      → is_alive k n alive ≡ true
      → Mirrored m alive
      → Mirrored (delete k m) (remove_alive k n alive)
  delete-Mirrored k n m alive on (same, u) =
      (ap (delete k) same ∙ remove_only k n alive (subst Unique same u) on, delete-Unique k m u)

  pub length-remove_alive :
      (k : K) (n : ℕ) (m : Dict K ℕ)
      → is_alive k n m ≡ true
      → length m ≡ suc (length (remove_alive k n m))
  unfolding remove_alive
  length-remove_alive k n [] h = absurd (ground (arith, h))
  length-remove_alive k n ((j, i) ∷ m) h = ground (arith, h, length-remove_alive k n m)

  only_alive :
      (k : K) (n : ℕ) (m : Dict K ℕ) → Unique m → is_alive k n m ≡ true → lookup k m ≡ some n
  unfolding lookup
  only_alive k n [] u h = absurd (ground (arith, h))
  only_alive k n ((j, i) ∷ m) (absent, u) h =
      let rest = only_alive k n m u in
      let found = alive_found k n m in
      elim (Bool-cases (j == k)) [
        | inl same ↦
            let none_left : lookup k m ≡ none =
              subst (λ x. lookup x m ≡ none) ((==_iff j k).0 same) absent in
            ground (arith, same, none_left, h, found, ==_iff i n)
        | inr other ↦ ground (arith, other, h, rest)
      ]

  -- The map has one that is alive.
  pub alive-lookup :
      (k : K) (n : ℕ) (m alive : Dict K ℕ)
      → is_alive k n alive ≡ true
      → Mirrored m alive
      → lookup k m ≡ some n
  alive-lookup k n m alive on (same, u) =
      only_alive k n m u (subst (λ l. is_alive k n l ≡ true) (sym same) on)
