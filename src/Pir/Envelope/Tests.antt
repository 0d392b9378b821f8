-- ===== src/Pir/Envelope/Tests.antt =====
-- A toy cipher in place of the AEAD, and the theorems at one bid.
use rezerve.Base.{
  ℕ, ◌-◌, ◌≡◌, refl, ap, ◌≢◌, ◌⊎◌, [], ◌∷◌, ◌++◌, Option, none, some, arith, Text, bytes, ok,
  nat_eq, list_eq, length, take, drop, take_append, drop_append, length-append,
}
use rezerve.Pir.Envelope.{Envelope, PlaintextBid, Primitives, seal_envelope, open_envelope}
use rezerve.Pir.Envelope.Sealing.{Laws, open-seal}
use rezerve.Pir.Envelope.Commitment.{commitment_binding}

abbrev the_bid : PlaintextBid
the_bid = record {
  ask_id = bytes "ask-1";
  bidder_identity = bytes "prov";
  price_uakt = 7;
  provider_endpoint = bytes "p:1";
}

-- The plaintext with its tag of zeros; the bid with its lengths in front.
abbrev toy_tag : Text
toy_tag = 0 ∷ 0 ∷ 0 ∷ 0 ∷ 0 ∷ 0 ∷ 0 ∷ 0 ∷ 0 ∷ 0 ∷ 0 ∷ 0 ∷ 0 ∷ 0 ∷ 0 ∷ 0 ∷ []

abbrev toy_marshal : PlaintextBid → Text
toy_marshal b =
    length b.ask_id
    ∷ length b.bidder_identity
    ∷ b.price_uakt
    ∷ (b.ask_id ++ (b.bidder_identity ++ b.provider_endpoint))

abbrev toy_fields : ℕ → ℕ → ℕ → Text → PlaintextBid
toy_fields n m price r = record {
  ask_id = take n r;
  bidder_identity = take m (drop n r);
  price_uakt = price;
  provider_endpoint = drop m (drop n r);
}

abbrev toy_unmarshal : Text → Option PlaintextBid
toy_unmarshal (n ∷ m ∷ price ∷ r) = some (toy_fields n m price r)
toy_unmarshal _ = none

abbrev toy : Primitives
toy = record {
  sha256 = λ x. x;
  aead_seal = λ key nonce text aad. text ++ toy_tag;
  aead_open = λ key nonce sealed aad. some (take (length sealed - 16) sealed);
  marshal_bid = toy_marshal;
  unmarshal_bid = toy_unmarshal;
}

toy_opens : (text : Text) → take (length (text ++ toy_tag) - 16) (text ++ toy_tag) ≡ text
toy_opens text =
    take_append (length (text ++ toy_tag) - 16) text toy_tag
      (omega (arith, length-append text toy_tag))

toy_decodes : (b : PlaintextBid) → toy_unmarshal (toy_marshal b) ≡ some b
toy_decodes b =
    let tail = b.bidder_identity ++ b.provider_endpoint in
    let first = take_append (length b.ask_id) b.ask_id tail refl in
    let rest = drop_append (length b.ask_id) b.ask_id tail refl in
    let second =
      take_append (length b.bidder_identity) b.bidder_identity b.provider_endpoint refl in
    let third = drop_append (length b.bidder_identity) b.bidder_identity b.provider_endpoint refl in
    rw (first, rest, second, third)

toy-Laws : Laws toy
toy-Laws = record {
  opens = λ key nonce text aad. ap some (toy_opens text);
  tagged = λ key nonce text aad. length-append text toy_tag;
  decodes = toy_decodes;
  not_empty = λ b. (omega arith);
}

abbrev sixteen : Text
sixteen = 1 ∷ 2 ∷ 3 ∷ 4 ∷ 5 ∷ 6 ∷ 7 ∷ 8 ∷ 9 ∷ 10 ∷ 11 ∷ 12 ∷ 13 ∷ 14 ∷ 15 ∷ 16 ∷ []

open-seal_example :
    (e : Envelope) × (seal_envelope toy the_bid sixteen toy_tag (some sixteen) ≡ ok e)
    × (open_envelope toy e sixteen ≡ ok the_bid)
open-seal_example = open-seal toy toy-Laws the_bid sixteen toy_tag sixteen refl refl refl refl

abbrev one_envelope : Envelope
one_envelope = record { ask_id = bytes "a"; nonce = sixteen; ciphertext = 9 ∷ []; mac = sixteen }

commitment_binding_example :
    (one_envelope ≡ one_envelope) ⊎ ((x y : Text) × (x ≢ y) × (toy.sha256 x ≡ toy.sha256 y))
commitment_binding_example =
    commitment_binding toy one_envelope one_envelope (omega arith) (omega arith) refl

abbrev thirty_two : Text
thirty_two = sixteen ++ sixteen
