-- ===== src/Pir/Gate/Query.antt =====
-- The match query and the ZAP1 report of provider/pirgate/gate.go.
use rezerve.Base.{
  Bool, true, false, not, ◌&&◌, ◌||◌, [], ◌∷◌, ◌++◌, Option, none, some, Text, bytes, Result, ok,
  err, ◌==◌, nat_eq, list_eq, if◌then◌else◌, leb, ltb, has_prefix, has_suffix,
}
use rezerve.Pir.Gate.{
  pir_zap1_require, pir_zap1_accept_url, pir_zap1_accept_file, no_reply, reply, World, one,
  GateError, bad_request, match_json, lcd_get, lcd_read, lcd_json, match_failed, zap1_unset,
  zap1_get, zap1_read, zap1_file,
}

-- The last occurrence of "/smart/": the text up to its end.
unfoldable pub cut_smart : Text → Option Text
cut_smart [] = none
cut_smart (c ∷ s) = elim (cut_smart s) [
  | some t ↦ some (c ∷ t)
  | none ↦ if has_prefix (bytes "/smart/") (c ∷ s) then some (bytes "/smart/") else none
]

-- parseMatchJSON
parse_match_json : World → Text → Option Bool
parse_match_json w raw = elim (w.unmarshal_match raw) [
  | none ↦ none
  | some m ↦ elim m.nested [
    | some b ↦ some b
    | none ↦ if m.has_matches then some m.matches else none
  ]
]

-- lcdSmartURL; the empty text stands for "no such URL".
lcd_smart_url : World → Text → Text → Text → Text
lcd_smart_url w url ask bid = elim (cut_smart url) [
  | some base ↦ base ++ w.encode_query ask bid
  | none ↦ if has_suffix url (bytes "/smart") then url ++ (b'/' ∷ w.encode_query ask bid) else []
]

-- The POST of `queryMatch`: its verdict, its error, or nothing, and then the GET is tried.
post_match : World → Text → Text → Text → Option (Result GateError Bool)
unfolding parse_match_json
post_match w endpoint ask bid = elim (w.post endpoint ask bid) [
  | no_reply ↦ none
  | reply status none ↦ if leb 200 status && ltb status 300 then some (err match_json) else none
  | reply status (some raw) ↦ elim (parse_match_json w raw) [
    | some matches ↦ some (ok matches)
    | none ↦ if leb 200 status && ltb status 300 then some (err match_json) else none
  ]
]

get_match : World → Text → Result GateError Bool
unfolding parse_match_json
get_match w url = elim (w.get url) [
  | no_reply ↦ err lcd_get
  | reply status none ↦ err lcd_read
  | reply status (some raw) ↦ elim (parse_match_json w raw) [
    | none ↦ err lcd_json
    | some matches ↦ ok matches
  ]
]

pub query_match : World → Text → Text → Text → Result GateError Bool
unfolding post_match get_match lcd_smart_url
query_match w endpoint ask bid =
    if not (w.valid_url endpoint) then err bad_request else elim (post_match w endpoint ask bid) [
      | some verdict ↦ verdict
      | none ↦
          let url = lcd_smart_url w endpoint ask bid in
          if url == [] then err match_failed else get_match w url
    ]

-- zap1JSONOk
zap1_json_ok : World → Text → Bool
zap1_json_ok w raw = elim (w.unmarshal_zap1 raw) [
  | none ↦ false
  | some z ↦ z.zap1_halo2_accepted || z.zap1_matches || z.matches || z.accepted
]

unfoldable pub zap1_accepted : World → Result GateError Bool
unfolding zap1_json_ok
zap1_accepted w =
    if not (w.getenv pir_zap1_require == one)
    then ok true
    else if not (w.getenv pir_zap1_accept_url == [])
    then elim (w.get (w.getenv pir_zap1_accept_url)) [
      | no_reply ↦ err zap1_get
      | reply status none ↦ err zap1_read
      | reply status (some raw) ↦ ok (zap1_json_ok w raw)
    ]
    else if w.getenv pir_zap1_accept_file == []
    then err zap1_unset
    else elim (w.read_file (w.getenv pir_zap1_accept_file)) [
      | none ↦ err zap1_file
      | some raw ↦ ok (zap1_json_ok w raw)
    ]
