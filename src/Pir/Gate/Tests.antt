-- ===== src/Pir/Gate/Tests.antt =====
-- A provider in private-market mode with two commitments, and the store that matches them.
use rezerve.Base.{
  ℕ, zero, suc, refl, true, false, [], ◌∷◌, none, some, arith, Text, bytes, nat_eq, list_eq,
  trim_space, trim_prefix, to_lower,
}
use rezerve.Pir.Envelope.{Primitives}
use rezerve.Pir.Envelope.Commitment.{Digests}
use rezerve.Pir.Gate.{Variable, pir_mode, pir_ask_commit, pir_bid_commit, World, no_reply}
use rezerve.Pir.Gate.Query.{zap1_accepted}
use rezerve.Pir.Gate.Inputs.{pir_mode_on, hex64, resolve_ask_bid, load_envelope_from_env}
use rezerve.Pir.Gate.Decide.{pir_allocation_allowed, match_passes}
use rezerve.Pir.Gate.Allow.{Granted, allowed-Granted}
use rezerve.Pir.Gate.Match.{CommitStore, Request, Decoders}

abbrev repeated : ℕ → Text
repeated zero = []
repeated (suc n) = b'a' ∷ repeated n

abbrev settings : Variable → Text
settings pir_mode = bytes "1"
settings pir_ask_commit = repeated 64
settings pir_bid_commit = repeated 64
settings _ = []

abbrev digest : Text
digest = repeated 32

abbrev toy : Primitives
toy = record {
  sha256 = λ _. digest;
  aead_seal = λ _ _ text _. text;
  aead_open = λ _ _ text _. some text;
  marshal_bid = λ _. [];
  unmarshal_bid = λ _. none;
}

abbrev world : World
world = record {
  getenv = settings;
  read_file = λ _. none;
  valid_url = λ _. true;
  post = λ _ _ _. no_reply;
  get = λ _. no_reply;
  encode_query = λ _ _. [];
  unmarshal_match = λ _. none;
  unmarshal_zap1 = λ _. none;
  unmarshal_wrap = λ _. none;
  unmarshal_envelope = λ _. none;
  primitives = toy;
}

toy-Digests : Digests toy
toy-Digests = record { bytes_of = λ _. (omega arith); size_of = λ _. refl }

allowed-Granted_example : Granted world (resolve_ask_bid world).ask (resolve_ask_bid world).bid
unfolding pir_mode_on pir_allocation_allowed resolve_ask_bid load_envelope_from_env hex64
    match_passes zap1_accepted trim_space trim_prefix to_lower
allowed-Granted_example = allowed-Granted world toy-Digests refl refl

abbrev decoders : Decoders
decoders = record {
  unmarshal_req = λ _. none;
  unmarshal_wrap = λ _. none;
  unmarshal_exec = λ raw. some (some (raw, raw));
  path_unescape = λ t. t;
  base64 = [];
}

abbrev request_to : Text → Request
request_to path = record {
  is_get = false;
  path = path;
  ask_commitment = [];
  bid_commitment = [];
  query = [];
  body = some (bytes "aa");
}

abbrev empty_store : CommitStore
empty_store = record { ask = []; bid = [] }
