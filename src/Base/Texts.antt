-- ===== src/Base/Texts.antt =====
-- Go strings as their lists of bytes, with the ASCII behaviour of package strings.
use Prim.Native.Nat.{ℕ, ◌+◌}
use Prim.Native.Char.{code}
use Prim.Native.String.{String}
use mathlib.Core.Path.{◌≡◌, refl}
use mathlib.Core.Bool.{Bool, true, false, ◌&&◌, ◌||◌}
use mathlib.Core.List.{List, [], ◌∷◌, reverse}
use native.Mathlib.Omega.{arith}
use rezerve.Base.Tests.{leb, ◌==◌, nat_eq, if◌then◌else◌, list_beq}

abbrev pub Text : Type 0
Text = List ℕ

-- The bytes of an ASCII literal.
abbrev pub bytes : String → Text
bytes String.[] = []
bytes (String.◌∷◌ c s) = code c ∷ bytes s

abbrev pub is_upper : ℕ → Bool
is_upper c = leb b'A' c && leb c b'Z'

abbrev pub lower_byte : ℕ → ℕ
lower_byte c = if is_upper c then c + 32 else c

-- strings.ToLower on ASCII bytes.
unfoldable pub to_lower : Text → Text
to_lower [] = []
to_lower (c ∷ s) = lower_byte c ∷ to_lower s

pub to_lower_idem : (s : Text) → to_lower (to_lower s) ≡ to_lower s
unfolding to_lower
to_lower_idem [] = refl
to_lower_idem (c ∷ s) = ground (arith, to_lower_idem s)

abbrev pub is_space : ℕ → Bool
is_space c = (leb 9 c && leb c 13) || (c == 32)

unfoldable pub trim_left : Text → Text
trim_left [] = []
trim_left (c ∷ s) = let rest = trim_left s in if is_space c then rest else c ∷ s

-- strings.TrimSpace on ASCII bytes.
unfoldable pub trim_space : Text → Text
unfolding trim_left
trim_space s = reverse (trim_left (reverse (trim_left s)))

-- strings.TrimPrefix, by recursion on the prefix; `whole` is what a mismatch gives back.
unfoldable pub trim_prefix_from : Text → Text → Text → Text
trim_prefix_from [] s whole = s
trim_prefix_from (p ∷ ps) [] whole = whole
trim_prefix_from (p ∷ ps) (c ∷ s) whole =
    let rest = trim_prefix_from ps s whole in if p == c then rest else whole

unfoldable pub trim_prefix : Text → Text → Text
unfolding trim_prefix_from
trim_prefix p s = trim_prefix_from p s s

-- strings.HasSuffix: some tail of the text is the suffix.
unfoldable pub has_suffix : Text → Text → Bool
has_suffix [] suffix = list_beq [] suffix
has_suffix (c ∷ s) suffix = list_beq (c ∷ s) suffix || has_suffix s suffix

-- strings.HasPrefix
unfoldable pub has_prefix : Text → Text → Bool
has_prefix [] s = true
has_prefix (p ∷ ps) [] = false
has_prefix (p ∷ ps) (c ∷ s) = (p == c) && has_prefix ps s
