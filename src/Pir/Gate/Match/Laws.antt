-- ===== src/Pir/Gate/Match/Laws.antt =====
-- What the store answers over any sequence of requests.
use rezerve.Base.{
  ◌≡◌, refl, ap, ◌∙◌, ◌↔◌, ◌≢◌, true, false, not, List, [], ◌∷◌, some, arith, Text, bytes, ◌==◌,
  ==_iff, nat_eq, list_eq, has_prefix, all,
}
use rezerve.Pir.Gate.Match.{
  CommitStore, Request, Decoders, post, match, serve, serve_all, handle_execute,
}

module _ (d : Decoders) where
  execute_only :
      (s : CommitStore) (r : Request) → (r.path == bytes "/execute") ≡ false → (serve d s r).0 ≡ s
  unfolding serve
  execute_only s r e = ground arith

  others_keep :
      (s : CommitStore) (rs : List Request)
      → all (λ (r : Request). not (r.path == bytes "/execute")) rs ≡ true
      → serve_all d s rs ≡ s
  unfolding serve_all
  others_keep s [] h = refl
  others_keep s (r ∷ rs) h =
      let same = execute_only s r (ground arith) in
      ap (λ (t : CommitStore). serve_all d t rs) same ∙ others_keep s rs (ground arith)

  posted :
      (s : CommitStore) (exec : Request) (raw ask bid : Text)
      → (exec.path == bytes "/execute") ≡ true
      → exec.body ≡ some raw
      → d.unmarshal_exec raw ≡ some (some (ask, bid))
      → (serve d s exec).0 ≡ record { ask = ask; bid = bid }
  unfolding serve post has_prefix
  posted s exec raw ask bid path body decoded =
      let whole = (==_iff exec.path (bytes "/execute")).0 path in
      rw (whole, serve, handle_execute) (ground (arith, body, decoded))

  -- After two commitments are posted to /execute, and whatever other requests are served then,
  -- exactly that pair matches; if either of the two is empty nothing does.
  pub posted_pair_matches :
      (s : CommitStore) (exec : Request) (raw ask bid : Text) (rs : List Request)
      → (exec.path == bytes "/execute") ≡ true
      → exec.body ≡ some raw
      → d.unmarshal_exec raw ≡ some (some (ask, bid))
      → all (λ (r : Request). not (r.path == bytes "/execute")) rs ≡ true
      → (a b : Text)
      → (match (serve_all d (serve d s exec).0 rs) a b ≡ true)
        ↔ ((ask ≢ []) × (bid ≢ []) × (a ≡ ask) × (b ≡ bid))
  unfolding match
  posted_pair_matches s exec raw ask bid rs path body decoded h a b =
      rw (others_keep (serve d s exec).0 rs h, posted s exec raw ask bid path body decoded)
        (ground (arith, ==_iff ask [], ==_iff bid [], ==_iff ask a, ==_iff bid b))
