-- ===== src/Base/Drains.antt =====
-- The end of a service: it receives those that end until its map is empty.
use Prim.Native.Nat.{ℕ}
use mathlib.Core.Path.{◌≡◌, refl, sym, subst, ap, ◌∙◌}
use mathlib.Core.Logic.{inl, inr}
use mathlib.Core.Bool.{true, false, ◌&&◌}
use mathlib.Core.List.{List, [], ◌∷◌}
use native.Mathlib.Omega.{arith}
use rezerve.Base.Tests.{Eq, ◌==◌, ==_iff, ==_self, nat_eq, Bool-cases, if◌then◌else◌, if-cases}
use rezerve.Base.Dicts.{Dict, lookup, delete, lookup-delete}
use rezerve.Base.Registry.{is_some, is_alive, remove_alive, Mirrored, delete-Mirrored, alive_found}

module _ {K : Type 0} ⦃e : Eq K⦄ where
  -- Only one that is alive ends, and nothing is received once the map is empty.
  unfoldable pub drain_map : List (K × ℕ) → Dict K ℕ → Dict K ℕ → Dict K ℕ × Dict K ℕ
  drain_map [] m alive = (m, alive)
  drain_map (d ∷ ds) [] alive = ([], alive)
  drain_map ((k, i) ∷ ds) (x ∷ m) alive =
      let gone = drain_map ds (delete k (x ∷ m)) (remove_alive k i alive) in
      let rest = drain_map ds (x ∷ m) alive in if is_alive k i alive then gone else rest

  -- Each that is alive ends at some time.
  abbrev pub AllEnd : List (K × ℕ) → Dict K ℕ → Type 0
  AllEnd ds alive = (k : K) (n : ℕ) → is_alive k n alive ≡ true → is_alive k n ds ≡ true

  empty_of_none_alive : (alive : Dict K ℕ) → AllEnd [] alive → alive ≡ []
  empty_of_none_alive [] h = refl
  empty_of_none_alive ((k, n) ∷ m) h =
      absurd (ground (arith, h k n (ground (arith, ==_self k)), ==_self k))

  still_alive :
      (k : K) (i : ℕ) (j : K) (n : ℕ) (alive : Dict K ℕ)
      → is_alive j n (remove_alive k i alive) ≡ true
      → is_alive j n alive ≡ true
  unfolding remove_alive
  still_alive k i j n [] h = absurd (ground (arith, h))
  still_alive k i j n ((l, o) ∷ m) h = ground (arith, h, still_alive k i j n m)

  AllEnd-after :
      (k : K) (i : ℕ) (ds : List (K × ℕ)) (m alive : Dict K ℕ)
      → is_alive k i alive ≡ true
      → Mirrored m alive
      → AllEnd ((k, i) ∷ ds) alive
      → AllEnd ds (remove_alive k i alive)
  AllEnd-after k i ds m alive on h ends j n left =
      let before = still_alive k i j n alive left in
      let (same, u) = delete-Mirrored k i m alive on h in
      let found : is_some (lookup j (delete k m)) ≡ true =
        subst (λ l. is_some (lookup j l) ≡ true) (sym same)
          (alive_found j n (remove_alive k i alive) left) in
      elim (Bool-cases (k == j)) [
        | inl one ↦ absurd (ground (arith, one, found, lookup-delete k j m))
        | inr other ↦ ground (arith, other, ends j n before)
      ]

  AllEnd-without :
      (k : K) (i : ℕ) (ds : List (K × ℕ)) (alive : Dict K ℕ)
      → is_alive k i alive ≡ false
      → AllEnd ((k, i) ∷ ds) alive
      → AllEnd ds alive
  AllEnd-without k i ds alive off ends j n on = elim (Bool-cases ((k == j) && (i == n))) [
    | inl one ↦
        let same_key : k ≡ j = (==_iff k j).0 (ground (arith, one)) in
        let same_number : i ≡ n = (==_iff i n).0 (ground (arith, one)) in
        absurd (
          ground (
            arith,
            on,
            off,
            ap (λ x. is_alive x n alive) same_key,
            ap (λ x. is_alive k x alive) same_number,
          ))
    | inr other ↦ ground (arith, other, ends j n on)
  ]

  -- While those that are alive are those in the map: once each has ended, in whatever order and
  -- whatever else is received, the map is empty and the drain is over.
  pub drain_ends :
      (ds : List (K × ℕ)) (m alive : Dict K ℕ)
      → Mirrored m alive
      → AllEnd ds alive
      → (drain_map ds m alive).0 ≡ []
  unfolding drain_map
  drain_ends [] m alive (same, u) ends = same ∙ empty_of_none_alive alive ends
  drain_ends (d ∷ ds) [] alive h ends = refl
  drain_ends ((k, i) ∷ ds) (x ∷ m) alive h ends =
      if-cases (λ (r : Dict K ℕ × Dict K ℕ). r.0 ≡ []) (is_alive k i alive)
        (λ on.
          drain_ends ds (delete k (x ∷ m)) (remove_alive k i alive)
            (delete-Mirrored k i (x ∷ m) alive on h) (AllEnd-after k i ds (x ∷ m) alive on h ends))
        (λ off. drain_ends ds (x ∷ m) alive h (AllEnd-without k i ds alive off ends))

  -- What is left in the map is what is still alive.
  pub drain-Mirrored :
      (ds : List (K × ℕ)) (m alive : Dict K ℕ)
      → Mirrored m alive
      → Mirrored (drain_map ds m alive).0 (drain_map ds m alive).1
  unfolding drain_map
  drain-Mirrored [] m alive h = h
  drain-Mirrored (d ∷ ds) [] alive h = h
  drain-Mirrored ((k, i) ∷ ds) (x ∷ m) alive h =
      if-cases (λ (r : Dict K ℕ × Dict K ℕ). Mirrored r.0 r.1) (is_alive k i alive)
        (λ on.
          drain-Mirrored ds (delete k (x ∷ m)) (remove_alive k i alive)
            (delete-Mirrored k i (x ∷ m) alive on h))
        (λ off. drain-Mirrored ds (x ∷ m) alive h)
