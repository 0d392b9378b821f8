-- ===== src/Pir/Gate.antt =====
-- provider/pirgate/gate.go: whether the provider may allocate for a private market. The process's
-- environment, its files, the HTTP endpoints and the JSON decoders are one record, `World`; a
-- request is answered by the record's functions.
pub mod Query
pub mod Inputs
pub mod Decide
pub mod Allow
pub mod Match
mod Tests
use rezerve.Base.{
  ℕ, ◌≡◌, Bool, true, false, not, ◌&&◌, ◌||◌, List, [], ◌∷◌, ◌++◌, Option, none, some, Text, bytes,
  Result, ok, err, ◌==◌, nat_eq, list_eq, if◌then◌else◌, leb, ltb, all, length, to_lower,
  trim_space, trim_prefix, has_prefix, has_suffix,
}
use rezerve.Pir.Hex.{is_hex_digit, prefix_0x}
use rezerve.Pir.Envelope.{
  Envelope, Primitives, EnvelopeError, parse_key32, commitment_hex, open_envelope,
}

-- The environment variables of the gate.
pub data Variable : Type 0 where
  pir_require_commit pir_mode pir_ask_commit pir_ask_commit_file : Variable
  pir_bid_commit pir_bid_commit_file pir_bid_envelope pir_bid_envelope_file : Variable
  pir_session_key pir_require_envelope pir_commit_match_url : Variable
  pir_zap1_require pir_zap1_accept_url pir_zap1_accept_file : Variable

-- An exchange over HTTP: no answer, or a status with the body if it could be read.
pub data Reply : Type 0 where
  no_reply : Reply
  reply : ℕ → Option Text → Reply

-- A decoded match response: the field, the nested field if `data` is present, and whether the text
-- has the key `matches` at all.
pub record MatchResp : Type 0 where
  pub matches : Bool
  pub nested : Option Bool
  pub has_matches : Bool

pub record Zap1Accept : Type 0 where
  pub accepted : Bool
  pub matches : Bool
  pub zap1_matches : Bool
  pub zap1_halo2_accepted : Bool
  pub zap1_halo2_stored : Bool

pub record World : Type 0 where
  pub getenv : Variable → Text
  pub read_file : Text → Option Text
  -- `http.NewRequest` accepts the endpoint; the answer to a POST of the query, and to a GET.
  pub valid_url : Text → Bool
  pub post : Text → Text → Text → Reply
  pub get : Text → Reply
  -- The path-escaped base64 form of a match query.
  pub encode_query : Text → Text → Text
  pub unmarshal_match : Text → Option MatchResp
  pub unmarshal_zap1 : Text → Option Zap1Accept
  pub unmarshal_wrap : Text → Option (Option Envelope)
  pub unmarshal_envelope : Text → Option Envelope
  pub primitives : Primitives

pub data GateError : Type 0 where
  bad_request match_json lcd_get lcd_read lcd_json match_failed : GateError
  zap1_unset zap1_get zap1_read zap1_file : GateError
  envelope_file empty_envelope bad_envelope not_envelope : GateError

abbrev pub one : Text
one = bytes "1"
