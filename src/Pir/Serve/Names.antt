-- ===== src/Pir/Serve/Names.antt =====
-- The name of a lease's container.
use rezerve.Base.{
  ◌≡◌, refl, ap, sym, ◌∙◌, Bool, true, false, [], ◌∷◌, ◌++◌, ℕ, arith, Text, bytes, nat_eq, all,
  ◌⊎◌, inl, inr, ◌↔◌, if◌then◌else◌,
}
use mathlib.Core.List.{append_cancel_left}
use rezerve.Pir.Serve.{is_name_byte, sanitize, lease_container_name}

-- A byte that a name shows as a dash.
abbrev pub Dashed : ℕ → Type 0
Dashed c = (is_name_byte c ≡ false) ⊎ (c ≡ b'-')

-- Texts of one length, in which each byte is the same or is shown as a dash in both.
abbrev pub Alike : Text → Text → Type 0
Alike [] [] = Unit
Alike [] (d ∷ t) = ⊥
Alike (c ∷ s) [] = ⊥
Alike (c ∷ s) (d ∷ t) = ((c ≡ d) ⊎ (Dashed c × Dashed d)) × Alike s t

sanitize_bytes : (s : Text) → all is_name_byte (sanitize s) ≡ true
unfolding sanitize
sanitize_bytes [] = refl
sanitize_bytes (c ∷ s) = ground (arith, sanitize_bytes s)

cons_iff : (x y : ℕ) (s t : Text) → (x ∷ s ≡ y ∷ t) ↔ ((x ≡ y) × (s ≡ t))
cons_iff x y s t = ground arith

byte_same : (p : Bool) (c : ℕ) → ((if p then c else b'-') ≡ c) ↔ ((p ≡ true) ⊎ (c ≡ b'-'))
byte_same true c = ground arith
byte_same false c = ground arith

sanitize_same_iff : (s : Text) → (sanitize s ≡ s) ↔ (all is_name_byte s ≡ true)
unfolding sanitize
sanitize_same_iff [] = ground arith
sanitize_same_iff (c ∷ s) = ground (
  arith,
  cons_iff (if is_name_byte c then c else b'-') c (sanitize s) s,
  byte_same (is_name_byte c) c,
  sanitize_same_iff s,
)

byte_dash : (p : Bool) (c : ℕ) → (p ≡ false) ⊎ (c ≡ b'-') → (if p then c else b'-') ≡ b'-'
byte_dash true c h = ground (arith, h)
byte_dash false c h = refl

byte_shown :
    (p q : Bool) (c d : ℕ)
    → (if p then c else b'-') ≡ (if q then d else b'-')
    → (c ≡ d) ⊎ ((p ≡ false) ⊎ (c ≡ b'-')) × ((q ≡ false) ⊎ (d ≡ b'-'))
byte_shown true true c d h = inl h
byte_shown true false c d h = inr (inr h, inl refl)
byte_shown false true c d h = inr (inl refl, inr (sym h))
byte_shown false false c d h = inr (inl refl, inl refl)

shown_iff :
    (c d : ℕ)
    → ((if is_name_byte c then c else b'-') ≡ (if is_name_byte d then d else b'-'))
      ↔ ((c ≡ d) ⊎ (Dashed c × Dashed d))
shown_iff c d = (
  byte_shown (is_name_byte c) (is_name_byte d) c d,
  λ h. elim h [
    | inl same ↦ ap (λ x. if is_name_byte x then x else b'-') same
    | inr (one, other) ↦ byte_dash (is_name_byte c) c one ∙ sym (byte_dash (is_name_byte d) d other)
  ],
)

sanitize_iff : (s t : Text) → (sanitize s ≡ sanitize t) ↔ Alike s t
unfolding sanitize
sanitize_iff [] [] = ground arith
sanitize_iff [] (d ∷ t) = ground arith
sanitize_iff (c ∷ s) [] = ground arith
sanitize_iff (c ∷ s) (d ∷ t) = ground (
  arith,
  cons_iff (if is_name_byte c then c else b'-') (if is_name_byte d then d else b'-') (sanitize s)
      (sanitize t),
  shown_iff c d,
  sanitize_iff s t,
)

named_iff : (s t : Text) → (bytes "pir-lease-" ++ s ≡ bytes "pir-lease-" ++ t) ↔ (s ≡ t)
named_iff s t = (append_cancel_left (bytes "pir-lease-") s t, ap (λ u. bytes "pir-lease-" ++ u))

-- A container's name has only letters, digits and dashes. It is the id behind a prefix exactly when
-- the id has only those bytes too. Two ids have one name exactly when they have one length and
-- differ only where both have a dash or a byte that a name cannot have.
pub lease_container_name_lem :
    (a b : Text)
    → (all is_name_byte (lease_container_name a) ≡ true)
      × ((lease_container_name a ≡ bytes "pir-lease-" ++ a) ↔ (all is_name_byte a ≡ true))
      × ((lease_container_name a ≡ lease_container_name b) ↔ Alike a b)
unfolding lease_container_name
lease_container_name_lem a b =
    let (same, same') = named_iff (sanitize a) a in
    let (one, one') = named_iff (sanitize a) (sanitize b) in
    let (clean, clean') = sanitize_same_iff a in
    let (alike, alike') = sanitize_iff a b in
    (
      sanitize_bytes a,
      (λ h. clean (same h), λ h. same' (clean' h)),
      (λ h. alike (one h), λ h. one' (alike' h)),
    )
