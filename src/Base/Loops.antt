-- ===== src/Base/Loops.antt =====
-- A `for { select { … } }` loop over the events that arrive, and the rule for what it keeps.
use mathlib.Core.Path.{◌≡◌, refl, sym, subst}
use mathlib.Core.Logic.{◌≢◌, inl, inr}
use mathlib.Core.Bool.{Bool, true, false}
use mathlib.Core.List.{List, [], ◌∷◌}
use native.Mathlib.Omega.{arith}
use rezerve.Base.Tests.{Bool-cases}
use rezerve.Base.Lists.{All}

-- How a turn ends: the loop goes on, it is left, or the program panics.
pub data Next : Type 0 where
  goes_on stops panics : Next

module _ {ℓ} {S : Type ℓ} where
  abbrev pub resume : (S → S × Next) → S × Next → S × Next
  resume rest (s, goes_on) = rest s
  resume rest (s, stops) = (s, stops)
  resume rest (s, panics) = (s, panics)

  -- What holds of a loop that goes on, and what of one that was left; a panic is ruled out.
  abbrev pub After : (S → Type 0) → (S → Type 0) → S × Next → Type 0
  After P Q (s, goes_on) = P s
  After P Q (s, stops) = Q s
  After P Q (s, panics) = ⊥

  resume-After :
      (P Q : S → Type 0) (rest : S → S × Next) (r : S × Next)
      → After P Q r
      → ((t : S) → P t → After P Q (rest t))
      → After P Q (resume rest r)
  resume-After P Q rest (s, goes_on) h keep = keep s h
  resume-After P Q rest (s, stops) h keep = h
  resume-After P Q rest (s, panics) h keep = h

  pub After-map :
      (P Q P' Q' : S → Type 0) (r : S × Next)
      → (P r.0 → P' r.0)
      → (Q r.0 → Q' r.0)
      → After P Q r
      → After P' Q' r
  After-map P Q P' Q' (s, goes_on) f g h = f h
  After-map P Q P' Q' (s, stops) f g h = g h
  After-map P Q P' Q' (s, panics) f g h = h

  pub After-ne-panics : (P Q : S → Type 0) (r : S × Next) → After P Q r → r.1 ≢ panics
  After-ne-panics P Q (s, goes_on) h e = absurd (ground (arith, e))
  After-ne-panics P Q (s, stops) h e = absurd (ground (arith, e))
  After-ne-panics P Q (s, panics) h e = h

  pub After-goes_on : (P Q : S → Type 0) (r : S × Next) → r.1 ≡ goes_on → After P Q r → P r.0
  After-goes_on P Q (s, goes_on) e h = h
  After-goes_on P Q (s, stops) e h = absurd (ground (arith, e))
  After-goes_on P Q (s, panics) e h = absurd h

  pub After-stops : (P Q : S → Type 0) (r : S × Next) → r.1 ≡ stops → After P Q r → Q r.0
  After-stops P Q (s, goes_on) e h = absurd (ground (arith, e))
  After-stops P Q (s, stops) e h = h
  After-stops P Q (s, panics) e h = absurd h

  -- What holds in both cases holds at the end.
  pub After_end : (P : S → Type 0) (r : S × Next) → After P P r → P r.0
  After_end P (s, goes_on) h = h
  After_end P (s, stops) h = h
  After_end P (s, panics) h = absurd h

module _ {ℓ μ} {S : Type ℓ} {E : Type μ} where
  -- A value that is not waited on stays on its channel.
  unfoldable pub loop : (S → E → Bool) → (S → E → S × Next) → S → List E → S × Next
  loop waits turn s [] = (s, goes_on)
  loop waits turn s (e ∷ es) = elim (waits s e) [
    | false ↦ loop waits turn s es
    | true ↦ resume (λ t. loop waits turn t es) (turn s e)
  ]

  -- What each turn keeps at the events that may arrive, the loop keeps.
  pub loop_inv :
      (waits : S → E → Bool) (turn : S → E → S × Next) (P Q : S → Type 0) (may : E → Bool)
      → ((s : S) (e : E) → may e ≡ true → waits s e ≡ true → P s → After P Q (turn s e))
      → (s : S) (es : List E) → All (λ e. may e ≡ true) es
      → P s
      → After P Q (loop waits turn s es)
  unfolding loop
  loop_inv waits turn P Q may keep s [] ok h = h
  loop_inv waits turn P Q may keep s (e ∷ es) (ok, oks) h = elim (Bool-cases (waits s e)) [
    | inr off ↦
        let turned : loop waits turn s (e ∷ es) ≡ loop waits turn s es = rw (loop, off) refl in
        subst (After P Q) (sym turned) (loop_inv waits turn P Q may keep s es oks h)
    | inl on ↦
        let turned : loop waits turn s (e ∷ es) ≡ resume (λ t. loop waits turn t es) (turn s e) =
          rw (loop, on) refl in
        subst (After P Q) (sym turned) (
          resume-After P Q (λ t. loop waits turn t es) (turn s e) (keep s e ok on h)
            (λ t k. loop_inv waits turn P Q may keep t es oks k))
  ]

pub may_any {μ} : {E : Type μ} (es : List E) → All (λ (e : E). ◌≡◌ {A = Bool} true true) es
may_any [] = tt
may_any (e ∷ es) = (refl, may_any es)
