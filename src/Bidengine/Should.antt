-- ===== src/Bidengine/Should.antt =====
-- provider/bidengine/order.go: `order.shouldBid`. What the chain's types and the provider's attribute
-- service answer is a parameter; the guards and their order are the code's.
use mathlib.Core.List.{append_assoc, append-nil}
use rezerve.Base.{
  ℕ, suc, ◌≤◌, ◌≡◌, ◌↔◌, inl, inr, Bool, true, false, not, refl, ap, sym, ◌≢◌, ◌∙◌, subst, ==_iff,
  Bool-cases, ◌⊎◌, List, [], ◌∷◌, Option, none, some, arith, Text, ◌==◌, nat_eq, list_eq,
  if◌then◌else◌, length, any, All, ltb, ◌++◌, ◌+◌, zero, Option-cases,
}

-- What the checks read of the group, the provider and the gate.
pub record Group : Type 0 where
  -- The number of volumes of each of the group's resource units.
  pub volumes : List ℕ
  pub all_of : List Text
  pub any_of : List Text

-- Those that are not among the ones had before.
abbrev minus : List Text → List Text → List Text
minus gotten [] = []
minus gotten (a ∷ more) =
    let rest = minus gotten more in if any (λ g. g == a) gotten then rest else a ∷ rest

-- Each text where it first occurs.
abbrev pub distinct : List Text → List Text
distinct [] = []
distinct (a ∷ more) = a ∷ minus (a ∷ []) (distinct more)

minus_cons :
    (a : Text) (gotten xs : List Text) → minus gotten (minus (a ∷ []) xs) ≡ minus (a ∷ gotten) xs
minus_cons a gotten [] = refl
minus_cons a gotten (x ∷ xs) = elim (Bool-cases (a == x)) [
  | inl same ↦ rw same (minus_cons a gotten xs)
  | inr other ↦ rw other (ground (arith, minus_cons a gotten xs))
]

minus_seen :
    (a : Text) (gotten xs : List Text)
    → any (λ g. g == a) gotten ≡ true
    → minus (a ∷ gotten) xs ≡ minus gotten xs
minus_seen a gotten [] seen = refl
minus_seen a gotten (x ∷ xs) seen = elim (Bool-cases (a == x)) [
  | inl same ↦
      rw (same, subst (λ y. any (λ g. g == y) gotten ≡ true) ((==_iff a x).0 same) seen)
        (minus_seen a gotten xs seen)
  | inr other ↦ rw other (ground (arith, minus_seen a gotten xs seen))
]

minus_nothing : (xs : List Text) → minus [] xs ≡ xs
minus_nothing [] = refl
minus_nothing (x ∷ xs) = ap (λ l. x ∷ l) (minus_nothing xs)

-- Whether any text is in the two lists, as their lengths tell.
none_or_some :
    (xs ys : List Text)
    → ((xs ++ ys ≡ []) × (length xs + length ys ≡ 0))
      ⊎ ((xs ++ ys ≢ []) × ((n : ℕ) × (length xs + length ys ≡ suc n)))
none_or_some [] [] = inl (refl, refl)
none_or_some [] (y ∷ ys) = inr (ground arith, (length ys, omega arith))
none_or_some (x ∷ xs) ys = inr (ground arith, (length xs + length ys, omega arith))

module _ (Signatures : Type 0) (Attributes : Type 0) (pir_allocation_allowed : Bool)
    -- `GroupSpec.MatchAttributes` on the provider's attributes, `cfg.Attributes.SubsetOf`.
    (match_attributes subset_of : Group → Bool) (get_attributes : Option Attributes)
    (match_resources_requirements : Group → Attributes → Bool) (max_group_volumes : ℕ)
    (get_auditor_attribute_signatures : Text → Option (List Signatures))
    (own_attributes : Signatures) (match_requirements : Group → List Signatures → Bool)
    (validate_basic : Group → Bool) where
  -- The loop over the auditors, each asked once; `none` is an error.
  unfoldable pub gather : List Text → List Text → List Signatures → Option (List Signatures)
  gather [] gotten acc = some acc
  gather (auditor ∷ rest) gotten acc =
      let skip = gather rest gotten acc in
      let ask : Option (List Signatures) = elim (get_auditor_attribute_signatures auditor) [
        | none ↦ none
        | some result ↦ gather rest (auditor ∷ gotten) (acc ++ result)
      ] in
      if any (λ g. g == auditor) gotten then skip else ask

  unfoldable pub signatures_met : Group → Option Bool
  unfolding gather
  signatures_met group = elim (length group.all_of + length group.any_of) [
    | zero ↦ some true
    | suc n ↦ elim (gather (group.all_of ++ group.any_of) [] (own_attributes ∷ [])) [
      | none ↦ none
      | some provided ↦ some (match_requirements group provided)
    ]
  ]

  -- `none` is an error.
  unfoldable pub should_bid : Group → Option Bool
  unfolding signatures_met
  should_bid group =
      if not pir_allocation_allowed
      then some false
      else if not (match_attributes group)
      then some false
      else if not (subset_of group)
      then some false
      else elim get_attributes [
        | none ↦ none
        | some attr ↦
            if not (match_resources_requirements group attr)
            then some false
            else if any (λ n. ltb max_group_volumes n) group.volumes
            then some false
            else elim (signatures_met group) [
              | none ↦ none
              | some met ↦ if not met then some false else some (validate_basic group)
            ]
      ]

  -- Every unit of the group keeps to the bound on volumes.
  abbrev pub VolumesWithin : Group → Type 0
  VolumesWithin group = All (λ n. n ≤ max_group_volumes) group.volumes

  -- The attributes were had, and the group's resources match them.
  abbrev pub ResourcesMatch : Group → Option Attributes → Type 0
  ResourcesMatch group none = ⊥
  ResourcesMatch group (some attr) = match_resources_requirements group attr ≡ true

  volumes_iff :
      (ns : List ℕ)
      → (any (λ n. ltb max_group_volumes n) ns ≡ false) ↔ All (λ n. n ≤ max_group_volumes) ns
  volumes_iff [] = ground arith
  volumes_iff (n ∷ ns) = ground (arith, volumes_iff ns)

  -- The signatures that the auditors have, each asked once, in their order.
  abbrev pub Collected : List Text → List Signatures → Type 0
  Collected [] ps = ps ≡ []
  Collected (a ∷ more) ps =
      (r : List Signatures) × (rest : List Signatures) × (get_auditor_attribute_signatures a
        ≡ some r)
      × Collected more rest
      × (ps ≡ r ++ rest)

  -- The group asks for no auditor, or every auditor that it names answers and what they have matches
  -- it together with the provider's own attributes.
  abbrev pub Signed : Group → Type 0
  Signed group =
      (group.all_of ++ group.any_of ≡ [])
      ⊎ (ps : List Signatures) × Collected (distinct (group.all_of ++ group.any_of)) ps
        × (match_requirements group (own_attributes ∷ ps) ≡ true)

  gather-Collected :
      (auditors gotten : List Text) (acc qs : List Signatures)
      → gather auditors gotten acc ≡ some qs
      → (ps : List Signatures) × Collected (minus gotten (distinct auditors)) ps × (qs ≡ acc ++ ps)
  unfolding gather
  gather-Collected [] gotten acc qs h = ([], refl, ground (arith, h, append-nil acc))
  gather-Collected (a ∷ more) gotten acc qs h = elim (Bool-cases (any (λ g. g == a) gotten)) [
    | inl seen ↦
        rw (seen, minus_cons a gotten (distinct more), minus_seen a gotten (distinct more) seen)
          (gather-Collected more gotten acc qs (rw seen at h))
    | inr new ↦ elim (Option-cases (get_auditor_attribute_signatures a)) [
      | inl fails ↦ absurd (ground (arith, new, fails, h))
      | inr (r, answers) ↦
          let (ps, collected, same) =
            gather-Collected more (a ∷ gotten) (acc ++ r) qs (rw (new, answers) at h) in
          rw (new, minus_cons a gotten (distinct more))
            (r ++ ps, (r, ps, answers, collected, refl), same ∙ append_assoc acc r ps)
    ]
  ]

  Collected-gather :
      (auditors gotten : List Text) (acc ps : List Signatures)
      → Collected (minus gotten (distinct auditors)) ps
      → gather auditors gotten acc ≡ some (acc ++ ps)
  unfolding gather
  Collected-gather [] gotten acc ps h = rw h (ap some (sym (append-nil acc)))
  Collected-gather (a ∷ more) gotten acc ps h = elim (Bool-cases (any (λ g. g == a) gotten)) [
    | inl seen ↦ rw seen (
        Collected-gather more gotten acc ps (
          rw (seen, minus_cons a gotten (distinct more), minus_seen a gotten (distinct more) seen)
            at h))
    | inr new ↦
        let (r, rest, answers, collected, same) =
          (rw (new, minus_cons a gotten (distinct more)) at h) in
        rw (new, answers)
          (Collected-gather more (a ∷ gotten) (acc ++ r) rest collected
            ∙ ap some (append_assoc acc r rest ∙ ap (λ l. acc ++ l) (sym same)))
  ]

  gathered_signed :
      (group : Group)
      → (elim (gather (group.all_of ++ group.any_of) [] (own_attributes ∷ [])) [
        | none ↦ none
        | some provided ↦ some (match_requirements group provided)
      ])
        ≡ some true
      → (ps : List Signatures) × Collected (distinct (group.all_of ++ group.any_of)) ps
        × (match_requirements group (own_attributes ∷ ps) ≡ true)
  gathered_signed group h =
      let auditors = group.all_of ++ group.any_of in
      elim (Option-cases (gather auditors [] (own_attributes ∷ []))) [
        | inl fails ↦ absurd (ground (arith, fails, h))
        | inr (provided, e) ↦
            let (ps, collected, same) =
              gather-Collected auditors [] (own_attributes ∷ []) provided e in
            (ps, rw (minus_nothing (distinct auditors)) at collected, ground (arith, e, h, same))
      ]

  signatures_met-Signed : (group : Group) → (signatures_met group ≡ some true) ↔ Signed group
  unfolding signatures_met
  signatures_met-Signed group = elim (none_or_some group.all_of group.any_of) [
    | inl (nobody, zeros) ↦ rw (signatures_met, zeros) (λ _. inl nobody, λ _. refl)
    | inr (somebody, (n, counted)) ↦
        rw (signatures_met, counted)
          (
            λ h. inr (gathered_signed group h),
            λ signed. elim signed [
              | inl nobody ↦ absurd (somebody nobody)
              | inr (ps, collected, matched) ↦
                  rw
                    (Collected-gather (group.all_of ++ group.any_of) [] (own_attributes ∷ []) ps
                      (rw (minus_nothing (distinct (group.all_of ++ group.any_of))) collected))
                    (ap some matched)
            ],
          )
  ]

  -- The provider bids exactly when every check passes: the gate lets it, the attributes of both sides
  -- match, its resources can be had and meet the group's, no unit has too many volumes, the group is
  -- valid, and it asks for no auditor, or each auditor that it names answers and what they answer,
  -- each asked once, matches it behind the provider's own attributes.
  pub should_bid_iff :
      (group : Group)
      → (should_bid group ≡ some true) ↔ (
          (pir_allocation_allowed ≡ true)
          × (match_attributes group ≡ true)
          × (subset_of group ≡ true)
          × ResourcesMatch group get_attributes
          × VolumesWithin group
          × Signed group
          × (validate_basic group ≡ true))
  unfolding should_bid
  should_bid_iff group = elim (Option-cases get_attributes) [
    | inl h ↦ rw h (ground arith)
    | inr (attr, h) ↦ elim (Option-cases (signatures_met group)) [
      | inl k ↦
          rw (h, k) (ground (arith, k, volumes_iff group.volumes, signatures_met-Signed group))
      | inr (met, k) ↦
          rw (h, k) (ground (arith, k, volumes_iff group.volumes, signatures_met-Signed group))
    ]
  ]
