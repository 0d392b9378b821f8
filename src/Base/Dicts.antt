-- ===== src/Base/Dicts.antt =====
-- A Go map as an association list. `delete` removes every entry of a key, and `insert` replaces
-- the first, so the laws hold of every list.
use mathlib.Core.Path.{◌≡◌, refl}
use mathlib.Core.Bool.{Bool, true, false, ◌||◌}
use mathlib.Core.List.{List, [], ◌∷◌, ◌++◌}
use mathlib.Core.Option.{Option, none, some}
use native.Mathlib.Omega.{arith}
use rezerve.Base.Lists.{any}
use rezerve.Base.Tests.{Eq, ◌==◌, ==_iff, if◌then◌else◌}

abbrev pub Dict {ℓ κ} : Type ℓ → Type κ → Type (ℓ ⊔ κ)
Dict K V = List (K × V)

unfoldable pub contains {ℓ} : {A : Type ℓ} ⦃e : Eq A⦄ → A → List A → Bool
contains k [] = false
contains k (x ∷ xs) = (x == k) || contains k xs

pub contains-append {ℓ} :
    {A : Type ℓ} ⦃e : Eq A⦄ (j : A) (xs : List A) (h : A)
    → contains j (xs ++ h ∷ []) ≡ (contains j xs || (h == j))
unfolding contains
contains-append j [] h = ground arith
contains-append j (x ∷ xs) h = ground (arith, contains-append j xs h)

-- A test that fails at every member fails of the list.
pub any-false {ℓ} :
    {A : Type ℓ} ⦃e : Eq A⦄ (p : A → Bool) (xs : List A)
    → ((x : A) → contains x xs ≡ true → p x ≡ false)
    → any p xs ≡ false
unfolding contains
any-false p [] h = refl
any-false p (x ∷ xs) h = ground (arith, h x, ==_iff x x, any-false p xs (λ y m. h y (ground arith)))

-- A list with no member is empty.
pub nil_of_contains {ℓ} :
    {A : Type ℓ} ⦃e : Eq A⦄ (xs : List A) → ((x : A) → contains x xs ≡ false) → xs ≡ []
unfolding contains
nil_of_contains [] h = refl
nil_of_contains (x ∷ xs) h = ground (arith, h x, ==_iff x x)

module _ {ℓ κ} {K : Type ℓ} {V : Type κ} ⦃e : Eq K⦄ where
  unfoldable pub lookup : K → Dict K V → Option V
  lookup key [] = none
  lookup key ((name, val) ∷ more) =
      let found = lookup key more in if name == key then some val else found

  unfoldable pub insert : K → V → Dict K V → Dict K V
  insert key val [] = (key, val) ∷ []
  insert key val ((name, old) ∷ more) =
      let rest = insert key val more in
      if name == key then (key, val) ∷ more else (name, old) ∷ rest

  unfoldable pub delete : K → Dict K V → Dict K V
  delete key [] = []
  delete key ((name, old) ∷ more) =
      let rest = delete key more in if name == key then rest else (name, old) ∷ rest

  pub lookup-insert :
      (key other : K) (val : V) (d : Dict K V)
      → lookup other (insert key val d) ≡ (if key == other then some val else lookup other d)
  unfolding insert lookup
  lookup-insert key other val [] = refl
  lookup-insert key other val ((name, old) ∷ d) =
      ground
        (arith, lookup-insert key other val d, ==_iff name other, ==_iff key other, ==_iff name key)

  pub lookup-delete :
      (k j : K) (m : Dict K V) → lookup j (delete k m) ≡ (if k == j then none else lookup j m)
  unfolding lookup delete
  lookup-delete k j [] = ground arith
  lookup-delete k j ((i, w) ∷ m) =
      ground (arith, ==_iff k j, ==_iff i k, ==_iff i j, lookup-delete k j m)

  pub delete_absent : (k : K) (m : Dict K V) → lookup k m ≡ none → delete k m ≡ m
  unfolding lookup delete
  delete_absent k [] h = refl
  delete_absent k ((j, v) ∷ m) h = ground (arith, h, ==_iff j k, delete_absent k m)

  -- Every key stands once, as in a Go map.
  abbrev pub Unique : Dict K V → Type κ
  Unique [] = Unit
  Unique ((k, v) ∷ m) = (lookup k m ≡ none) × Unique m

  pub insert-Unique : (k : K) (v : V) (m : Dict K V) → Unique m → Unique (insert k v m)
  unfolding lookup insert
  insert-Unique k v [] u = (refl, tt)
  insert-Unique k v ((j, w) ∷ m) u =
      ground (arith, ==_iff j k, ==_iff k j, lookup-insert k j v m, insert-Unique k v m u.1)

  pub delete-Unique : (k : K) (m : Dict K V) → Unique m → Unique (delete k m)
  unfolding delete
  delete-Unique k [] u = tt
  delete-Unique k ((j, w) ∷ m) u =
      ground (arith, ==_iff j k, ==_iff k j, lookup-delete k j m, delete-Unique k m u.1)

  -- Deletes the keys one after another.
  unfoldable pub delete_all : List K → Dict K V → Dict K V
  delete_all [] m = m
  delete_all (k ∷ ks) m = delete_all ks (delete k m)

  pub lookup-delete_all :
      (ks : List K) (j : K) (m : Dict K V)
      → lookup j (delete_all ks m) ≡ (if contains j ks then none else lookup j m)
  unfolding delete_all contains
  lookup-delete_all [] j m = refl
  lookup-delete_all (k ∷ ks) j m =
      ground (arith, lookup-delete_all ks j (delete k m), lookup-delete k j m)

  pub delete_all-Unique : (ks : List K) (m : Dict K V) → Unique m → Unique (delete_all ks m)
  unfolding delete_all
  delete_all-Unique [] m u = u
  delete_all-Unique (k ∷ ks) m u = delete_all-Unique ks (delete k m) (delete-Unique k m u)
