-- ===== src/Pir/Gate/Match.antt =====
-- provider/pirgate/match.go: the local commitment store and its HTTP surface. A request is a
-- record of what the handlers read of it; the decoders of encoding/json, net/url and
-- encoding/base64 are a parameter.
pub mod Laws
use mathlib.Core.List.{reverse}
use rezerve.Base.{
  ℕ, ◌≡◌, Bool, true, false, not, ◌&&◌, ◌||◌, List, [], ◌∷◌, Option, none, some, Text, bytes, ◌==◌,
  nat_eq, list_eq, if◌then◌else◌, trim_space, trim_prefix, has_prefix,
}

pub record CommitStore : Type 0 where
  pub ask : Text
  pub bid : Text

pub record Request : Type 0 where
  pub is_get : Bool
  pub path : Text
  pub ask_commitment : Text
  pub bid_commitment : Text
  pub query : Text
  -- The first 65536 bytes of the body, if it could be read.
  pub body : Option Text

pub data Response : Type 0 where
  matches : Bool → Response
  ok_true body_error not_found : Response

pub record Decoders : Type 0 where
  -- A match request, one under the key `match`, and one under `post_commitments` if present.
  pub unmarshal_req : Text → Option (Text × Text)
  pub unmarshal_wrap : Text → Option (Text × Text)
  pub unmarshal_exec : Text → Option (Option (Text × Text))
  pub path_unescape : Text → Text
  pub base64 : List (Text → Option Text)

pub post : CommitStore → Text → Text → CommitStore
post s ask bid = record { ask = ask; bid = bid }

pub match : CommitStore → Text → Text → Bool
match s ask bid = not (s.ask == []) && (not (s.bid == []) && ((s.ask == ask) && (s.bid == bid)))

module _ (d : Decoders) where
  decode_wrapped : Text → Text × Text
  decode_wrapped raw = elim (d.unmarshal_wrap raw) [ some p ↦ p | none ↦ ([], []) ]

  decode_match_body : Text → Text × Text
  unfolding decode_wrapped
  decode_match_body raw = elim (d.unmarshal_req raw) [
    | none ↦ decode_wrapped raw
    | some p ↦ if not (p.0 == []) || not (p.1 == []) then p else decode_wrapped raw
  ]

  first_decoded : List (Text → Option Text) → Text → Text
  first_decoded [] enc = enc
  first_decoded (dec ∷ rest) enc =
      let later = first_decoded rest enc in elim (dec enc) [ some raw ↦ raw | none ↦ later ]

  decode_b64_query : Text → Text
  unfolding first_decoded
  decode_b64_query enc = first_decoded d.base64 (trim_space (d.path_unescape enc))

  write_match : CommitStore → Text × Text → CommitStore × Response
  write_match s p = (s, matches (match s p.0 p.1))

  match_body : CommitStore → Request → CommitStore × Response
  unfolding decode_match_body write_match
  match_body s r = elim r.body [
    | none ↦ (s, body_error)
    | some raw ↦ write_match s (decode_match_body raw)
  ]

  handle_match : CommitStore → Request → CommitStore × Response
  unfolding match_body decode_b64_query
  handle_match s r =
      let none_given = (r.ask_commitment == []) && (r.bid_commitment == []) in
      let p : Text × Text =
        if none_given && not (r.query == [])
        then decode_match_body (decode_b64_query r.query)
        else (r.ask_commitment, r.bid_commitment) in
      if r.is_get && (not (p.0 == []) || not (p.1 == [])) then write_match s p else match_body s r

  trim_slashes_left : Text → Text
  trim_slashes_left [] = []
  trim_slashes_left (c ∷ t) = let rest = trim_slashes_left t in if c == b'/' then rest else c ∷ t

  -- strings.Trim(enc, "/")
  trim_slashes : Text → Text
  unfolding trim_slashes_left
  trim_slashes t = reverse (trim_slashes_left (reverse (trim_slashes_left t)))

  handle_smart : CommitStore → Request → CommitStore × Response
  unfolding handle_match trim_slashes
  handle_smart s r =
      let enc = trim_slashes (trim_prefix (bytes "/smart/") r.path) in
      if enc == []
      then handle_match s r
      else write_match s (decode_match_body (decode_b64_query enc))

  handle_execute : CommitStore → Request → CommitStore × Response
  handle_execute s r =
      let plain : Text → CommitStore × Response = λ raw. elim (d.unmarshal_req raw) [
        | some m ↦ (post s m.0 m.1, ok_true)
        | none ↦ (s, ok_true)
      ] in
      elim r.body [
        | none ↦ (s, body_error)
        | some raw ↦ elim (d.unmarshal_exec raw) [
          | some (some p) ↦ (post s p.0 p.1, ok_true)
          | some none ↦ plain raw
          | none ↦ plain raw
        ]
      ]

  -- The routes of the mux, most specific first.
  pub serve : CommitStore → Request → CommitStore × Response
  unfolding handle_match handle_smart handle_execute
  serve s r =
      if r.path == bytes "/health"
      then (s, ok_true)
      else if (r.path == bytes "/match") || (r.path == bytes "/query")
      then handle_match s r
      else if (r.path == bytes "/smart") || has_prefix (bytes "/smart/") r.path
      then handle_smart s r
      else if r.path == bytes "/execute"
      then handle_execute s r
      else if not (r.path == bytes "/")
      then (s, not_found)
      else if r.is_get
      then (s, ok_true)
      else handle_match s r

  pub serve_all : CommitStore → List Request → CommitStore
  serve_all s [] = s
  serve_all s (r ∷ rs) = serve_all (serve s r).0 rs
