-- ===== src/Pir/Gate/Inputs.antt =====
-- What provider/pirgate reads from the environment: the mode, the commitments, the envelope.
use rezerve.Base.{
  Bool, true, false, not, ◌&&◌, ◌||◌, [], Option, none, some, Text, Result, ok, err, ◌==◌, nat_eq,
  list_eq, if◌then◌else◌, all, length, to_lower, trim_space, trim_prefix,
}
use rezerve.Pir.Hex.{is_hex_digit, prefix_0x}
use rezerve.Pir.Envelope.{Envelope, parse_key32, commitment_hex, open_envelope}
use rezerve.Pir.Gate.{
  Variable, pir_require_commit, pir_mode, pir_ask_commit, pir_ask_commit_file, pir_bid_commit,
  pir_bid_commit_file, pir_bid_envelope, pir_bid_envelope_file, pir_session_key,
  pir_require_envelope, World, one, GateError, envelope_file, empty_envelope, bad_envelope,
  not_envelope,
}

unfoldable pub pir_mode_on : World → Bool
pir_mode_on w = (w.getenv pir_require_commit == one) || (w.getenv pir_mode == one)

abbrev clean_hex : Text → Text
clean_hex raw = trim_prefix prefix_0x (to_lower (trim_space raw))

-- The text that `hex64` judges: the file's where it can be read, and else the variable's.
hex64_source : World → Variable → Variable → Text
hex64_source w raw file =
    let path = w.getenv file in
    if path == []
    then clean_hex (w.getenv raw)
    else elim (w.read_file path) [ some b ↦ clean_hex b | none ↦ clean_hex (w.getenv raw) ]

unfoldable pub hex64 : World → Variable → Variable → Option Text
unfolding hex64_source
hex64 w raw file =
    let s = hex64_source w raw file in
    if length s == 64 then (if all is_hex_digit s then some s else none) else none

-- ParseEnvelope
pub parse_envelope : World → Text → Result GateError Envelope
parse_envelope w text =
    let raw = trim_space text in
    if raw == []
    then err empty_envelope
    else let plain : Result GateError Envelope = elim (w.unmarshal_envelope raw) [
      | none ↦ err bad_envelope
      | some e ↦ if (e.ask_id == []) || (e.ciphertext == []) then err not_envelope else ok e
    ] in
      elim (w.unmarshal_wrap raw) [
        | none ↦ plain
        | some none ↦ plain
        | some (some e) ↦ if e.ask_id == [] then plain else ok e
      ]

unfoldable pub load_envelope_from_env : World → Result GateError (Option Envelope)
unfolding parse_envelope
load_envelope_from_env w =
    let read : Text → Result GateError (Option Envelope) = λ raw.
      if raw == []
      then ok none
      else elim (parse_envelope w raw) [ ok e ↦ ok (some e) | err x ↦ err x ] in
    let path = w.getenv pir_bid_envelope_file in
    if path == []
    then read (trim_space (w.getenv pir_bid_envelope))
    else elim (w.read_file path) [ none ↦ err envelope_file | some b ↦ read (trim_space b) ]

-- The four results of `resolveAskBid`.
pub record Resolved : Type 0 where
  pub ask : Text
  pub bid : Text
  pub env_loaded : Bool
  pub is_ok : Bool

abbrev pub or_blank : Option Text → Text
or_blank none = []
or_blank (some t) = t

abbrev present {ℓ} : {A : Type ℓ} → Option A → Bool
present none = false
present (some a) = true

-- `PIR_SESSION_KEY`, where it is set, opens the envelope.
unfoldable pub session_opens : World → Envelope → Bool
session_opens w e =
    let ks = w.getenv pir_session_key in
    if ks == [] then true else elim (parse_key32 ks) [
      | err x ↦ false
      | ok key ↦ elim (open_envelope w.primitives e key) [ err x ↦ false | ok b ↦ true ]
    ]

unfoldable pub resolve_ask_bid : World → Resolved
unfolding session_opens
resolve_ask_bid w =
    let ask = hex64 w pir_ask_commit pir_ask_commit_file in
    let bid = hex64 w pir_bid_commit pir_bid_commit_file in
    elim (load_envelope_from_env w) [
      | err x ↦ record { ask = []; bid = []; env_loaded = false; is_ok = false }
      | ok none ↦
          let required = w.getenv pir_require_envelope == one in
          record {
            ask = or_blank ask;
            bid = or_blank bid;
            env_loaded = false;
            is_ok = if required then false else present ask && present bid;
          }
      | ok (some e) ↦
          let derived = commitment_hex w.primitives e in
          let clash = present bid && not (or_blank bid == derived) in
          record {
            ask = or_blank ask;
            bid = derived;
            env_loaded = true;
            is_ok = if clash then false else if session_opens w e then present ask else false;
          }
    ]
