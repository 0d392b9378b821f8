-- ===== src/Pir/Gate/Decide.antt =====
-- The decisions of provider/pirgate/gate.go.
use rezerve.Base.{
  Bool, true, false, not, ◌&&◌, [], Text, ok, err, ◌==◌, nat_eq, list_eq, if◌then◌else◌, trim_space,
}
use rezerve.Pir.Gate.{pir_require_envelope, pir_commit_match_url, World, one}
use rezerve.Pir.Gate.Query.{query_match, zap1_accepted}
use rezerve.Pir.Gate.Inputs.{pir_mode_on, resolve_ask_bid}

abbrev pub match_url : World → Text
match_url w = trim_space (w.getenv pir_commit_match_url)

-- LiveCommitMatches
pub live_commit_matches : World → Bool
live_commit_matches w =
    let r = resolve_ask_bid w in
    if match_url w == []
    then false
    else if not r.is_ok
    then false
    else elim (query_match w (match_url w) r.ask r.bid) [ ok m ↦ m | err x ↦ false ]

-- The query, where the URL is set.
unfoldable pub match_passes : World → Text → Text → Bool
match_passes w ask bid =
    if match_url w == []
    then true
    else elim (query_match w (match_url w) ask bid) [ ok m ↦ m | err x ↦ false ]

-- PirAllocationAllowed
unfoldable pub pir_allocation_allowed : World → Bool
unfolding match_passes
pir_allocation_allowed w =
    let r = resolve_ask_bid w in
    if not (pir_mode_on w)
    then true
    else if not r.is_ok
    then false
    else if (w.getenv pir_require_envelope == one) && (match_url w == [])
    then false
    else if not (match_passes w r.ask r.bid)
    then false
    else elim (zap1_accepted w) [ ok z ↦ z | err x ↦ false ]
