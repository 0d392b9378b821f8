-- ===== src/Pir/Envelope.antt =====
-- provider/pirgate/envelope.go: the sealed bid, its commitment, and its keys. The hash and the
-- AEAD of golang.org/x/crypto, the JSON codec of the plaintext and the random source are a
-- parameter; a byte string is its list of bytes.
pub mod Sealing
pub mod Commitment
pub mod Keys
mod Tests
use rezerve.Base.{
  ℕ, zero, suc, ◌+◌, ◌-◌, ◌%◌, ◌≡◌, Bool, true, false, ◌||◌, List, [], ◌∷◌, ◌++◌, Option, none,
  some, Text, bytes, Result, ok, err, ◌==◌, nat_eq, list_eq, if◌then◌else◌, ltb, all, length, take,
  drop, to_lower, trim_space, trim_prefix,
}
use rezerve.Pir.Hex.{hex_encode, hex_decode, le_bytes, prefix_0x}

pub record Envelope : Type 0 where
  pub ask_id : Text
  pub nonce : Text
  pub ciphertext : Text
  pub mac : Text

pub record PlaintextBid : Type 0 where
  pub ask_id : Text
  pub bidder_identity : Text
  pub price_uakt : ℕ
  pub provider_endpoint : Text

-- What the package takes from elsewhere: SHA-256, ChaCha20-Poly1305 (key, nonce, text, additional
-- data), and encoding/json on a plaintext bid.
pub record Primitives : Type 0 where
  pub sha256 : Text → Text
  pub aead_seal : Text → Text → Text → Text → Text
  pub aead_open : Text → Text → Text → Text → Option Text
  pub marshal_bid : PlaintextBid → Text
  pub unmarshal_bid : Text → Option PlaintextBid

pub data EnvelopeError : Type 0 where
  empty_bid rand_failed aead_short truncated chacha_auth bad_json bad_key bad_nonce : EnvelopeError

abbrev pub bid_commit_tag : Text
bid_commit_tag = bytes "bid-commit-v1"

-- `binary.LittleEndian.PutUint64(ln[:], uint64(len(p)))`
abbrev pub le64 : ℕ → Text
le64 n = le_bytes 8 n

-- What the loop of `taggedHash` writes for the parts.
pub hash_parts : List Text → Text
hash_parts [] = []
hash_parts (p ∷ ps) = le64 (length p) ++ (p ++ hash_parts ps)

pub hash_input : Text → List Text → Text
hash_input tag parts = tag ++ (length tag % 256 ∷ hash_parts parts)

pub aead_aad : Text → Text → Text
aead_aad ask_id nonce = le64 (length ask_id) ++ (ask_id ++ nonce)

abbrev zeros : ℕ → Text
zeros zero = []
zeros (suc n) = 0 ∷ zeros n

-- `nonce == ([16]byte{})`
abbrev is_zero_nonce : Text → Bool
is_zero_nonce n = n == zeros 16

-- ParseKey32: 32 bytes in hex, with an optional 0x.
pub parse_key32 : Text → Result EnvelopeError Text
parse_key32 s = elim (hex_decode (trim_prefix prefix_0x (to_lower (trim_space s)))) [
  | none ↦ err bad_key
  | some b ↦ if length b == 32 then ok b else err bad_key
]

-- ParseNonce16: an empty text gives sixteen zero bytes.
pub parse_nonce16 : Text → Result EnvelopeError Text
parse_nonce16 s =
    if trim_space s == []
    then ok (zeros 16)
    else elim (hex_decode (trim_prefix prefix_0x (to_lower (trim_space s)))) [
      | none ↦ err bad_nonce
      | some b ↦ if length b == 16 then ok b else err bad_nonce
    ]

module _ (p : Primitives) where
  pub tagged_hash : Text → List Text → Text
  tagged_hash tag parts = p.sha256 (hash_input tag parts)

  pub commitment : Envelope → Text
  unfolding tagged_hash
  commitment e = tagged_hash bid_commit_tag (e.ask_id ∷ e.nonce ∷ e.ciphertext ∷ e.mac ∷ [])

  pub commitment_hex : Envelope → Text
  commitment_hex e = hex_encode (commitment e)

  -- The part of `SealEnvelope` from the nonce on.
  seal_with : PlaintextBid → Text → Text → Result EnvelopeError Envelope
  seal_with bid key nonce =
      let sealed =
        p.aead_seal key (take 12 nonce) (p.marshal_bid bid) (aead_aad bid.ask_id nonce) in
      if ltb (length sealed) 16
      then err aead_short
      else ok (record {
        ask_id = bid.ask_id;
        nonce = nonce;
        ciphertext = take (length sealed - 16) sealed;
        mac = drop (length sealed - 16) sealed ++ zeros 16;
      })

  -- `fresh` is what `rand.Read` gives; it is read only for the zero nonce.
  pub seal_envelope : PlaintextBid → Text → Text → Option Text → Result EnvelopeError Envelope
  unfolding seal_with
  seal_envelope bid key nonce fresh =
      if (bid.bidder_identity == []) || (bid.price_uakt == 0)
      then err empty_bid
      else if is_zero_nonce nonce
      then elim fresh [ none ↦ err rand_failed | some n ↦ seal_with bid key n ]
      else seal_with bid key nonce

  pub open_envelope : Envelope → Text → Result EnvelopeError PlaintextBid
  open_envelope e key =
      if ltb (length e.nonce) 12 || (e.ciphertext == []) || ltb (length e.mac) 16
      then err truncated
      else elim (p.aead_open key (take 12 e.nonce) (e.ciphertext ++ take 16 e.mac)
          (aead_aad e.ask_id e.nonce)) [
            | none ↦ err chacha_auth
            | some plain ↦ elim (p.unmarshal_bid plain) [ none ↦ err bad_json | some bid ↦ ok bid ]
          ]
