-- ===== src/Bidengine/Tests.antt =====
-- The checks behind a bid at a concrete group.
use rezerve.Base.{
  ℕ, ◌≤◌, ◌≡◌, ◌↔◌, refl, Bool, true, false, List, [], ◌∷◌, Option, some, Text, bytes, All,
}
use rezerve.Bidengine.Should.{Group, gather, should_bid, signatures_met, Signed, should_bid_iff}

abbrev group : Group
group = record { volumes = 1 ∷ 2 ∷ []; all_of = bytes "aud" ∷ []; any_of = bytes "aud" ∷ [] }

-- Signatures are numbers here; the auditor's is 5 and the provider's own 1.
abbrev auditor_of : Text → Option (List ℕ)
auditor_of a = some (5 ∷ [])

abbrev two_or_more : Group → List ℕ → Bool
two_or_more g (x ∷ y ∷ l) = true
two_or_more g l = false

bids_on_group :
    should_bid ℕ ℕ true
      (λ g. true)
      (λ g. true)
      (some 3)
      (λ g a. true)
      2
      auditor_of
      1
      two_or_more
      (λ g. true)
      group
    ≡ some true
unfolding should_bid signatures_met gather
bids_on_group = refl

should_bid_iff_example :
    (should_bid ℕ ℕ true
        (λ g. true)
        (λ g. true)
        (some 3)
        (λ g a. true)
        2
        auditor_of
        1
        two_or_more
        (λ g. true)
        group
      ≡ some true)
    ↔ ((true ≡ true)
        × (true ≡ true)
        × (true ≡ true)
        × (true ≡ true)
        × All (λ n. n ≤ 2) (1 ∷ 2 ∷ [])
        × Signed ℕ ℕ true
            (λ g. true)
            (λ g. true)
            (some 3)
            (λ g a. true)
            2
            auditor_of
            1
            two_or_more
            (λ g. true)
            group
        × (true ≡ true))
should_bid_iff_example =
    should_bid_iff ℕ ℕ true (λ g. true) (λ g. true) (some 3) (λ g a. true) 2 auditor_of 1
      two_or_more (λ g. true) group
