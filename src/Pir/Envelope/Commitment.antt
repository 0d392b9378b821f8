-- ===== src/Pir/Envelope/Commitment.antt =====
-- The commitment that stands on-chain binds the whole envelope.
use rezerve.Base.{
  ◌^◌, ◌<◌, ◌≡◌, refl, ap, ◌≢◌, ◌⊎◌, inl, inr, true, List, [], ◌∷◌, ◌++◌, arith, Text, ◌==◌, ==_iff,
  nat_eq, list_eq, all, All, length, append-injective, length-append, Bool-cases,
}
use rezerve.Pir.Hex.{
  IsByte, is_hex_digit, length-hex_encode, all-hex_encode, length-le_bytes, le_bytes-injective,
}
use rezerve.Pir.Envelope.{
  Envelope, Primitives, bid_commit_tag, le64, hash_parts, hash_input, tagged_hash, commitment,
  commitment_hex,
}

-- The length of a Go slice is a 64-bit number.
abbrev pub Fits : Text → Type 0
Fits t = length t < 256 ^ 8

-- What is hashed determines the parts: each stands behind its length, so that no two lists of parts
-- are written alike.
hash_parts-injective :
    (ps qs : List Text) → All Fits ps → All Fits qs → hash_parts ps ≡ hash_parts qs → ps ≡ qs
unfolding hash_parts
hash_parts-injective [] [] fp fq e = refl
hash_parts-injective [] (q ∷ qs) fp fq e = absurd (
    omega (
      arith,
      ap length e,
      length-append (le64 (length q)) (q ++ hash_parts qs),
      length-le_bytes 8 (length q),
    ))
hash_parts-injective (p ∷ ps) [] fp fq e = absurd (
    omega (
      arith,
      ap length e,
      length-append (le64 (length p)) (p ++ hash_parts ps),
      length-le_bytes 8 (length p),
    ))
hash_parts-injective (p ∷ ps) (q ∷ qs) fp fq e =
    let (lengths, texts) =
      append-injective (le64 (length p)) (le64 (length q)) (p ++ hash_parts ps) (q ++ hash_parts qs)
        (omega (arith, length-le_bytes 8 (length p), length-le_bytes 8 (length q))) e in
    let same_length = le_bytes-injective 8 (length p) (length q) fp.0 fq.0 lengths in
    let (same, rest) = append-injective p q (hash_parts ps) (hash_parts qs) same_length texts in
    cc (same, hash_parts-injective ps qs fp.1 fq.1 rest)

pub hash_input-injective :
    (tag : Text) (ps qs : List Text)
    → All Fits ps
    → All Fits qs
    → hash_input tag ps ≡ hash_input tag qs
    → ps ≡ qs
unfolding hash_input
hash_input-injective tag ps qs fp fq e =
    let (_, rest) = append-injective tag tag _ _ refl e in
    hash_parts-injective ps qs fp fq (cc (rest))

abbrev pub fields : Envelope → List Text
fields e = e.ask_id ∷ e.nonce ∷ e.ciphertext ∷ e.mac ∷ []

module _ (p : Primitives) where
  -- Two envelopes with the same commitment are the same envelope, or show a collision of SHA-256.
  pub commitment_binding :
      (e f : Envelope)
      → All Fits (fields e)
      → All Fits (fields f)
      → commitment p e ≡ commitment p f
      → (e ≡ f) ⊎ ((x y : Text) × (x ≢ y) × (p.sha256 x ≡ p.sha256 y))
  unfolding commitment tagged_hash
  commitment_binding e f fe ff same =
      let x = hash_input bid_commit_tag (fields e) in
      let y = hash_input bid_commit_tag (fields f) in
      elim (Bool-cases (x == y)) [
        | inl equal ↦
            let parts =
              hash_input-injective bid_commit_tag (fields e) (fields f) fe ff
                ((==_iff x y).0 equal) in
            inl (ground (arith, parts))
        | inr different ↦ inr (x, y, (λ q. ground (arith, different, ==_iff x y, q)), same)
      ]

-- The documented form of a SHA-256 digest.
pub record Digests (p : Primitives) : Type 0 where
  pub bytes_of : (t : Text) → All IsByte (p.sha256 t)
  pub size_of : (t : Text) → length (p.sha256 t) ≡ 32

-- The commitment in hex is 64 hex digits.
pub commitment_hex_digits :
    (p : Primitives) (e : Envelope)
    → Digests p
    → (length (commitment_hex p e) ≡ 64) × (all is_hex_digit (commitment_hex p e) ≡ true)
unfolding commitment_hex commitment tagged_hash
commitment_hex_digits p e d =
    let x = hash_input bid_commit_tag (fields e) in
    (
      omega (arith, length-hex_encode (p.sha256 x), d.size_of x),
      all-hex_encode (p.sha256 x) (d.bytes_of x),
    )
