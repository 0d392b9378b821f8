-- ===== src/Pir/Envelope/Keys.antt =====
-- Keys and nonces in hex.
use rezerve.Base.{
  ◌≡◌, some, arith, Text, ok, ==_iff, [], nat_eq, list_eq, All, length, to_lower, trim_space,
  trim_prefix,
}
use rezerve.Pir.Hex.{
  IsByte, hex_encode, hex_decode, hex_decode-encode, length-hex_encode, all-hex_encode,
  to_lower-hex, trim_space-hex, trim_prefix-hex, prefix_0x,
}
use rezerve.Pir.Envelope.{parse_key32, parse_nonce16}

cleaned :
    (k : Text)
    → All IsByte k
    → hex_decode (trim_prefix prefix_0x (to_lower (trim_space (hex_encode k)))) ≡ some k
cleaned k h =
    let digits = all-hex_encode k h in
    rw
      (
        trim_space-hex (hex_encode k) digits,
        to_lower-hex (hex_encode k) digits,
        trim_prefix-hex (hex_encode k) digits,
      )
      (hex_decode-encode k h)

-- A key of 32 bytes and a nonce of 16 bytes are read back from their hex forms.
pub parse-hex_encode :
    (k n : Text)
    → All IsByte k
    → All IsByte n
    → length k ≡ 32
    → length n ≡ 16
    → (parse_key32 (hex_encode k) ≡ ok k) × (parse_nonce16 (hex_encode n) ≡ ok n)
unfolding parse_key32 parse_nonce16
parse-hex_encode k n hk hn lk ln = (
  rw (cleaned k hk, parse_key32) (ground (arith, lk)),
  ground (
    arith,
    cleaned n hn,
    ln,
    trim_space-hex (hex_encode n) (all-hex_encode n hn),
    length-hex_encode n,
    ==_iff (hex_encode n) [],
  ),
)
