-- ===== src/Pir/Envelope/Sealing.antt =====
-- Sealing a bid and opening it again.
use rezerve.Base.{
  ◌+◌, ◌-◌, ◌≤◌, ◌<◌, ◌≡◌, ap, ◌∙◌, inl, inr, false, [], ◌++◌, some, arith, Text, ok, ◌==◌, ==_iff,
  nat_eq, list_eq, length, take, drop, take-append-drop, length-take, length-drop, take_append,
  length-append, Bool-cases,
}
use rezerve.Pir.Envelope.{
  Envelope, PlaintextBid, Primitives, zeros, is_zero_nonce, aead_aad, seal_with, seal_envelope,
  open_envelope,
}

-- The documented behaviour of the AEAD and of the JSON codec: what was sealed opens under the same
-- key, nonce and data; the tag takes sixteen bytes; a bid that was encoded decodes, and its text is
-- not empty.
pub record Laws (p : Primitives) : Type 0 where
  pub opens :
      (key nonce text aad : Text)
      → p.aead_open key nonce (p.aead_seal key nonce text aad) aad ≡ some text
  pub tagged :
      (key nonce text aad : Text) → length (p.aead_seal key nonce text aad) ≡ length text + 16
  pub decodes : (bid : PlaintextBid) → p.unmarshal_bid (p.marshal_bid bid) ≡ some bid
  pub not_empty : (bid : PlaintextBid) → 0 < length (p.marshal_bid bid)

abbrev sealed_envelope : PlaintextBid → Text → Text → Envelope
sealed_envelope bid nonce sealed = record {
  ask_id = bid.ask_id;
  nonce = nonce;
  ciphertext = take (length sealed - 16) sealed;
  mac = drop (length sealed - 16) sealed ++ zeros 16;
}

-- The ciphertext and the first sixteen bytes of the stored tag are what was sealed.
rejoin :
    (sealed : Text)
    → 16 ≤ length sealed
    → take (length sealed - 16) sealed ++ take 16 (drop (length sealed - 16) sealed ++ zeros 16)
      ≡ sealed
rejoin sealed h =
    ap (◌++◌ (take (length sealed - 16) sealed)) (
      take_append 16 (drop (length sealed - 16) sealed) (zeros 16)
        (omega (arith, length-drop (length sealed - 16) sealed)))
    ∙ take-append-drop (length sealed - 16) sealed

module _ (p : Primitives) (laws : Laws p) where
  open_sealed :
      (bid : PlaintextBid) (key nonce sealed : Text)
      → length nonce ≡ 16
      → 16 < length sealed
      → p.aead_open key (take 12 nonce) sealed (aead_aad bid.ask_id nonce)
        ≡ some (p.marshal_bid bid)
      → open_envelope p (sealed_envelope bid nonce sealed) key ≡ ok bid
  unfolding open_envelope
  open_sealed bid key nonce sealed n long opened =
      let whole = rejoin sealed (omega arith) in
      let cut = length-take (length sealed - 16) sealed (omega arith) in
      let tag = length-drop (length sealed - 16) sealed in
      rw whole (
        ground (
          arith,
          cut,
          tag,
          opened,
          laws.decodes bid,
          length-append (drop (length sealed - 16) sealed) (zeros 16),
          ==_iff (take (length sealed - 16) sealed) [],
        ))

  open-seal_with :
      (bid : PlaintextBid) (key nonce : Text)
      → length nonce ≡ 16
      → (e : Envelope) × (seal_with p bid key nonce ≡ ok e) × (open_envelope p e key ≡ ok bid)
  unfolding seal_with
  open-seal_with bid key nonce n =
      let sealed =
        p.aead_seal key (take 12 nonce) (p.marshal_bid bid) (aead_aad bid.ask_id nonce) in
      let long = laws.tagged key (take 12 nonce) (p.marshal_bid bid) (aead_aad bid.ask_id nonce) in
      let some_text = laws.not_empty bid in
      (
        sealed_envelope bid nonce sealed,
        ground (arith, long),
        open_sealed bid key nonce sealed n (omega (arith, long, some_text))
            (laws.opens key (take 12 nonce) (p.marshal_bid bid) (aead_aad bid.ask_id nonce)),
      )

  -- A bid with a bidder and a price is always sealed, also under the zero nonce, which draws a
  -- fresh one; and the holder of the session key opens the envelope to the same bid.
  pub open-seal :
      (bid : PlaintextBid) (key nonce fresh : Text)
      → (bid.bidder_identity == []) ≡ false
      → (bid.price_uakt == 0) ≡ false
      → length nonce ≡ 16
      → length fresh ≡ 16
      → (e : Envelope) × (seal_envelope p bid key nonce (some fresh) ≡ ok e)
        × (open_envelope p e key ≡ ok bid)
  unfolding seal_envelope
  open-seal bid key nonce fresh bidder price n m = elim (Bool-cases (is_zero_nonce nonce)) [
    | inl zero_nonce ↦
        let (e, made, opened) = open-seal_with bid key fresh m in
        (e, ground (arith, bidder, price, zero_nonce, made), opened)
    | inr given ↦
        let (e, made, opened) = open-seal_with bid key nonce n in
        (e, ground (arith, bidder, price, given, made), opened)
  ]
