-- ===== src/Pir/Hex.antt =====
-- encoding/hex and encoding/binary as provider/pirgate uses them.
use mathlib.Core.List.{reverse, reverse-cons, reverse-reverse}
use native.Mathlib.Nat.{pow-suc}
use rezerve.Base.{
  ℕ, zero, suc, ◌+◌, ◌-◌, ◌*◌, ◌/◌, ◌%◌, ◌^◌, ◌<◌, ◌≡◌, refl, ap, Bool, true, ◌&&◌, ◌||◌, List, [],
  ◌∷◌, ◌++◌, Option, none, some, arith, Text, nat_eq, list_eq, if◌then◌else◌, leb, ltb, all, All,
  length, to_lower, trim_left, trim_space, trim_prefix, bytes,
}

abbrev pub hex_digit : ℕ → ℕ
hex_digit d = if ltb d 10 then b'0' + d else b'a' + (d - 10)

-- hex.EncodeToString
unfoldable pub hex_encode : Text → Text
hex_encode [] = []
hex_encode (b ∷ s) = hex_digit (b / 16) ∷ hex_digit (b % 16) ∷ hex_encode s

abbrev pub hex_value : ℕ → Option ℕ
hex_value c =
    if leb b'0' c && leb c b'9'
    then some (c - b'0')
    else if leb b'a' c && leb c b'f'
    then some (c - b'a' + 10)
    else if leb b'A' c && leb c b'F'
    then some (c - b'A' + 10)
    else none

abbrev byte_of : Option ℕ → Option ℕ → Option Text → Option Text
byte_of (some h) (some l) (some s) = some ((h * 16 + l) ∷ s)
byte_of (some h) (some l) none = none
byte_of (some h) none s = none
byte_of none l s = none

-- hex.DecodeString
unfoldable pub hex_decode : Text → Option Text
hex_decode [] = some []
hex_decode (c ∷ []) = none
hex_decode (c ∷ d ∷ s) = byte_of (hex_value c) (hex_value d) (hex_decode s)

abbrev pub is_hex_digit : ℕ → Bool
is_hex_digit c = (leb b'0' c && leb c b'9') || (leb b'a' c && leb c b'f')

abbrev pub IsByte : ℕ → Type 0
IsByte b = b < 256

hex_value-digit : (d : ℕ) → d < 16 → hex_value (hex_digit d) ≡ some d
hex_value-digit d h = ground arith

hex_digit-is_hex : (d : ℕ) → d < 16 → is_hex_digit (hex_digit d) ≡ true
hex_digit-is_hex d h = ground arith

pub hex_decode-encode : (s : Text) → All IsByte s → hex_decode (hex_encode s) ≡ some s
unfolding hex_encode hex_decode
hex_decode-encode [] h = refl
hex_decode-encode (b ∷ s) h =
    rw
      (
        hex_value-digit (b / 16) (omega arith),
        hex_value-digit (b % 16) (omega arith),
        hex_decode-encode s h.1,
      )
      (ap some (ap (λ (x : ℕ). x ∷ s) (omega arith)))

pub length-hex_encode : (s : Text) → length (hex_encode s) ≡ 2 * length s
unfolding hex_encode
length-hex_encode [] = refl
length-hex_encode (b ∷ s) = omega (arith, length-hex_encode s)

pub all-hex_encode : (s : Text) → All IsByte s → all is_hex_digit (hex_encode s) ≡ true
unfolding hex_encode
all-hex_encode [] h = refl
all-hex_encode (b ∷ s) h =
    rw (hex_digit-is_hex (b / 16) (omega arith), hex_digit-is_hex (b % 16) (omega arith))
      (all-hex_encode s h.1)

-- Hex digits are neither spaces nor upper case, so the clean-up of an input leaves them alone.
pub to_lower-hex : (s : Text) → all is_hex_digit s ≡ true → to_lower s ≡ s
unfolding to_lower
to_lower-hex [] h = refl
to_lower-hex (c ∷ s) h = ground (arith, to_lower-hex s)

trim_left-hex : (s : Text) → all is_hex_digit s ≡ true → trim_left s ≡ s
unfolding trim_left
trim_left-hex [] h = refl
trim_left-hex (c ∷ s) h = ground arith

all-append {ℓ} :
    {A : Type ℓ} (p : A → Bool) (xs ys : List A)
    → all p xs ≡ true
    → all p ys ≡ true
    → all p (xs ++ ys) ≡ true
all-append p [] ys h k = k
all-append p (x ∷ xs) ys h k = ground (arith, all-append p xs ys)

all-reverse {ℓ} :
    {A : Type ℓ} (p : A → Bool) (xs : List A) → all p xs ≡ true → all p (reverse xs) ≡ true
all-reverse p [] h = refl
all-reverse p (x ∷ xs) h =
    rw (reverse-cons x xs) (
      all-append p (reverse xs) (x ∷ []) (all-reverse p xs (ground (arith, h))) (ground (arith, h)))

pub trim_space-hex : (s : Text) → all is_hex_digit s ≡ true → trim_space s ≡ s
unfolding trim_space
trim_space-hex s h =
    rw (trim_left-hex s h, trim_left-hex (reverse s) (all-reverse is_hex_digit s h))
      (reverse-reverse s)

abbrev pub prefix_0x : Text
prefix_0x = bytes "0x"

pub trim_prefix-hex : (s : Text) → all is_hex_digit s ≡ true → trim_prefix prefix_0x s ≡ s
unfolding trim_prefix
trim_prefix-hex [] h = refl
trim_prefix-hex (c ∷ []) h = ground arith
trim_prefix-hex (c ∷ d ∷ s) h = ground arith

-- binary.LittleEndian.PutUint64 of a length, as its `k` bytes.
unfoldable pub le_bytes : ℕ → ℕ → Text
le_bytes zero n = []
le_bytes (suc k) n = n % 256 ∷ le_bytes k (n / 256)

pub length-le_bytes : (k n : ℕ) → length (le_bytes k n) ≡ k
unfolding le_bytes
length-le_bytes zero n = refl
length-le_bytes (suc k) n = ap suc (length-le_bytes k (n / 256))

-- The bytes determine a number that fits in them.
pub le_bytes-injective :
    (k m n : ℕ) → m < 256 ^ k → n < 256 ^ k → le_bytes k m ≡ le_bytes k n → m ≡ n
unfolding le_bytes
le_bytes-injective zero m n hm hn e = omega arith
le_bytes-injective (suc k) m n hm hn e =
    let low : m % 256 ≡ n % 256 = cc in
    let high : le_bytes k (m / 256) ≡ le_bytes k (n / 256) = cc in
    let rest =
      le_bytes-injective k (m / 256) (n / 256) (omega (arith, pow-suc 256 k))
        (omega (arith, pow-suc 256 k)) high in
    omega (arith, low, rest)
