-- ===== src/Pir/Gate/Allow.antt =====
-- What must hold before the provider allocates for a private market.
use rezerve.Base.{
  ◌≡◌, refl, ◌⊎◌, inl, inr, true, false, [], none, some, arith, Text, ok, ◌==◌, ==_iff, nat_eq,
  list_eq, all, length, Result-cases,
}
use rezerve.Pir.Hex.{is_hex_digit}
use rezerve.Pir.Envelope.{Envelope, PlaintextBid, parse_key32, commitment_hex, open_envelope}
use rezerve.Pir.Envelope.Commitment.{Digests, commitment_hex_digits}
use rezerve.Pir.Gate.{
  Variable, pir_ask_commit, pir_ask_commit_file, pir_bid_commit, pir_bid_commit_file,
  pir_session_key, pir_require_envelope, World, one,
}
use rezerve.Pir.Gate.Query.{query_match, zap1_accepted}
use rezerve.Pir.Gate.Inputs.{
  pir_mode_on, hex64, load_envelope_from_env, or_blank, session_opens, resolve_ask_bid,
}
use rezerve.Pir.Gate.Decide.{match_url, match_passes, pir_allocation_allowed}

-- A commitment as it stands on-chain.
pub record IsCommitment (t : Text) : Type 0 where
  pub digits : length t ≡ 64
  pub hex : all is_hex_digit t ≡ true

-- The session key, where one is set, opens the envelope.
abbrev pub Opens : World → Envelope → Type 0
Opens w e =
    (w.getenv pir_session_key == []) ≡ false
    → (key : Text) × (bid : PlaintextBid) × (parse_key32 (w.getenv pir_session_key) ≡ ok key)
      × (open_envelope w.primitives e key ≡ ok bid)

-- The bid's commitment is the one configured, or that of an envelope which agrees with it and which
-- the session key, where one is set, opens.
abbrev pub BidFrom : World → Text → Type 0
BidFrom w bid =
    ((load_envelope_from_env w ≡ ok none) × (hex64 w pir_bid_commit pir_bid_commit_file ≡ some bid))
    ⊎ ((e : Envelope) × (load_envelope_from_env w ≡ ok (some e))
        × (bid ≡ commitment_hex w.primitives e)
        × ((hex64 w pir_bid_commit pir_bid_commit_file ≡ none)
            ⊎ (hex64 w pir_bid_commit pir_bid_commit_file ≡ some bid))
        × Opens w e)

pub record Granted (w : World) (ask bid : Text) : Type 0 where
  pub ask_read : hex64 w pir_ask_commit pir_ask_commit_file ≡ some ask
  pub ask_commitment : IsCommitment ask
  pub bid_from : BidFrom w bid
  pub bid_commitment : IsCommitment bid
  pub matched : (match_url w == []) ≡ false → query_match w (match_url w) ask bid ≡ ok true
  pub enveloped :
      (w.getenv pir_require_envelope == one) ≡ true
      → ((match_url w == []) ≡ false) × ((e : Envelope) × (load_envelope_from_env w ≡ ok (some e)))
  pub zap1 : zap1_accepted w ≡ ok true

hex64-IsCommitment :
    (w : World) (raw file : Variable) (t : Text) → hex64 w raw file ≡ some t → IsCommitment t
unfolding hex64
hex64-IsCommitment w raw file t e = record { digits = ground arith; hex = ground arith }

session_opens-Opens : (w : World) (e : Envelope) → session_opens w e ≡ true → Opens w e
unfolding session_opens
session_opens-Opens w e h set = elim (Result-cases (parse_key32 (w.getenv pir_session_key))) [
  | inr (x, bad) ↦ absurd (ground (arith, bad))
  | inl (key, good) ↦ elim (Result-cases (open_envelope w.primitives e key)) [
    | inr (x, shut) ↦ absurd (ground (arith, good, shut))
    | inl (bid, opened) ↦ (key, bid, good, opened)
  ]
]

-- What a resolution that succeeds has read.
abbrev Read : World → Text → Text → Type 0
Read w ask bid =
    (hex64 w pir_ask_commit pir_ask_commit_file ≡ some ask)
    × BidFrom w bid
    × ((w.getenv pir_require_envelope == one) ≡ true
        → (e : Envelope) × (load_envelope_from_env w ≡ ok (some e)))

resolve-Read :
    (w : World) (ask bid : Text)
    → (resolve_ask_bid w).ask ≡ ask
    → (resolve_ask_bid w).bid ≡ bid
    → (resolve_ask_bid w).is_ok ≡ true
    → Read w ask bid
unfolding resolve_ask_bid
resolve-Read w ask bid ea eb h = elim (Result-cases (load_envelope_from_env w)) [
  | inr (x, bad) ↦ absurd (ground (arith, bad))
  | inl (none, bare) ↦ (
    ground (arith, bare),
    inl (bare, ground (arith, bare)),
    λ required. absurd (ground (arith, bare, required)),
  )
  | inl (some e, sealed) ↦ (
    ground (arith, sealed),
    inr (
      e,
      sealed,
      ground (arith, sealed),
      ground (
        arith,
        sealed,
        ==_iff (or_blank (hex64 w pir_bid_commit pir_bid_commit_file))
            (commitment_hex w.primitives e),
      ),
      session_opens-Opens w e (ground (arith, sealed)),
    ),
    λ _. (e, sealed),
  )
]

bid-IsCommitment :
    (w : World) (bid : Text) → Digests w.primitives → BidFrom w bid → IsCommitment bid
bid-IsCommitment w bid d (inl (_, read)) =
    hex64-IsCommitment w pir_bid_commit pir_bid_commit_file bid read
bid-IsCommitment w bid d (inr (e, _, same, _, _)) =
    let digits = commitment_hex_digits w.primitives e d in
    record { digits = rw same digits.0; hex = rw same digits.1 }

-- In private-market mode the provider allocates only if the ask's and the bid's commitments are
-- 64 hex digits, the bid's agrees with the sealed envelope wherever there is one and the session
-- key, where one is set, opens it, the match query, where its URL is set, answers that the two
-- match, an envelope is there and the URL set where one is required, and the ZAP1 report, where
-- required, accepts.
pub allowed-Granted :
    (w : World)
    → Digests w.primitives
    → pir_mode_on w ≡ true
    → pir_allocation_allowed w ≡ true
    → Granted w (resolve_ask_bid w).ask (resolve_ask_bid w).bid
unfolding pir_allocation_allowed match_passes
allowed-Granted w d mode allowed =
    let r = resolve_ask_bid w in
    let read = resolve-Read w r.ask r.bid refl refl (ground arith) in
    record {
      ask_read = read.0;
      ask_commitment = hex64-IsCommitment w pir_ask_commit pir_ask_commit_file r.ask read.0;
      bid_from = read.1;
      bid_commitment = bid-IsCommitment w r.bid d read.1;
      matched = λ set. ground arith;
      enveloped = λ required. (ground arith, read.2 required);
      zap1 = ground arith;
    }
