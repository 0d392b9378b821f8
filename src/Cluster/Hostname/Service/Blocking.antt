-- ===== src/Cluster/Hostname/Service/Blocking.antt =====
-- The names that a provider's configuration blocks.
use rezerve.Base.{
  ◌≡◌, refl, inl, inr, Bool, true, false, ◌||◌, List, [], ◌∷◌, Option, none, some, arith, Text, ok,
  err, Eq, ◌==◌, ==_iff, nat_eq, list_eq, list_beq, list_beq_iff, ◌∙◌, if◌then◌else◌, map, any, all,
  contains, to_lower, is_upper, has_suffix, Result-cases, Option-cases,
}
use rezerve.Cluster.Hostname.{HostnameError}
use rezerve.Cluster.Hostname.Service.{
  LeaseId, Service, Wait, hostname_separator, split_blocked, in_blocked_domain, is_hostname_blocked,
  first_blocked, load_in_use, new_hostname_service, reserve_hostnames, can_reserve_hostnames,
}

-- What one configured entry blocks: a name, or with a leading dot a domain and all below it.
abbrev pub blocks : Text → Text → Bool
blocks [] name = list_beq [] name
blocks (c ∷ d) name =
    if c == hostname_separator
    then list_beq d name || has_suffix name (c ∷ d)
    else list_beq (c ∷ d) name

split_blocked-any :
    (entries : List Text) (name : Text)
    → (contains name (split_blocked entries).0 || in_blocked_domain (split_blocked entries).1 name)
      ≡ any (λ e. blocks e name) entries
unfolding split_blocked in_blocked_domain contains
split_blocked-any [] name = refl
split_blocked-any ([] ∷ entries) name = ground (arith, split_blocked-any entries name)
split_blocked-any ((c ∷ d) ∷ entries) name = ground (arith, split_blocked-any entries name)

contains-map :
    (f : Text → Text) (h : Text) (hs : List Text)
    → contains h hs ≡ true
    → contains (f h) (map f hs) ≡ true
unfolding contains
contains-map f h [] m = cc
contains-map f h (x ∷ hs) m = ground (arith, ==_iff x h, ==_iff (f x) (f h), contains-map f h hs)

module _ {Address : Type 0} where
  first_blocked_of :
      (hs : Service Address) (names : List Text) (h : Text)
      → contains h names ≡ true
      → (x : HostnameError) × (is_hostname_blocked hs h ≡ some x)
      → (y : HostnameError) × (first_blocked hs names ≡ some y)
  unfolding contains first_blocked
  first_blocked_of hs [] h m b = absurd (cc)
  first_blocked_of hs (n ∷ names) h m (x, b) = elim (Option-cases (is_hostname_blocked hs n)) [
    | inl free ↦
        let (y, later) = first_blocked_of hs names h (ground (arith, ==_iff n h)) (x, b) in
        (y, ground arith)
    | inr (y, hit) ↦ (y, ground arith)
  ]

  blocked_of :
      (hs : Service Address) (h : Text)
      → elim (is_hostname_blocked hs h) [ none ↦ false | some _ ↦ true ] ≡ true
      → (x : HostnameError) × (is_hostname_blocked hs h ≡ some x)
  blocked_of hs h e = ground arith

  abbrev pub is_blocked : Service Address → Text → Bool
  is_blocked hs name = elim (is_hostname_blocked hs name) [ none ↦ false | some _ ↦ true ]

to_lower-no_upper : (s : Text) → any is_upper (to_lower s) ≡ false
unfolding to_lower
to_lower-no_upper [] = refl
to_lower-no_upper (c ∷ s) = ground (arith, to_lower-no_upper s)

has_suffix_lower : (s e : Text) → has_suffix (to_lower s) e ≡ true → any is_upper e ≡ false
unfolding has_suffix to_lower
has_suffix_lower [] e h = ground (arith, list_beq_iff [] e)
has_suffix_lower (c ∷ s) e h =
    ground
      (arith, list_beq_iff (to_lower (c ∷ s)) e, to_lower-no_upper (c ∷ s), has_suffix_lower s e)

upper_blocks : (e h : Text) → any is_upper e ≡ true → blocks e (to_lower h) ≡ false
upper_blocks [] h u = cc
upper_blocks (c ∷ d) h u = ground (
  arith,
  to_lower-no_upper h,
  list_beq_iff d (to_lower h),
  list_beq_iff (c ∷ d) (to_lower h),
  has_suffix_lower h (c ∷ d),
)

upper_blocks_none :
    (entries : List Text) (h : Text)
    → all (any is_upper) entries ≡ true
    → any (λ e. blocks e (to_lower h)) entries ≡ false
upper_blocks_none [] h u = refl
upper_blocks_none (e ∷ entries) h u = ground (arith, upper_blocks e h, upper_blocks_none entries h)

module _ {Address : Type 0} ⦃ae : Eq Address⦄ (parse_owner : Text → Option Address) where
  is_blocked-any :
      (entries : List Text) (initial : List (Text × LeaseId)) (hs : Service Address)
      → new_hostname_service parse_owner entries initial ≡ ok hs
      → (name : Text) → is_blocked hs name ≡ any (λ e. blocks e name) entries
  unfolding new_hostname_service is_hostname_blocked
  is_blocked-any entries initial hs e name = elim (Result-cases (load_in_use parse_owner initial)) [
    | inl (store, loaded) ↦ ground (arith, loaded, split_blocked-any entries name)
    | inr (x, failed) ↦ absurd (ground (arith, failed))
  ]

  -- A hostname that a configured entry blocks, in any case of its letters, can be neither checked
  -- nor reserved: both calls fail, however the caller waits, and the map stays as it was.
  pub reserve-blocked :
      (entries : List Text) (initial : List (Text × LeaseId)) (hs : Service Address)
      (hostnames : List Text) (h : Text)
      → new_hostname_service parse_owner entries initial ≡ ok hs
      → contains h hostnames ≡ true
      → any (λ e. blocks e (to_lower h)) entries ≡ true
      → (x : HostnameError) × ((wait : Wait) (lease : LeaseId)
          → reserve_hostnames parse_owner wait hs hostnames lease ≡ (hs, err x))
        × ((running : Bool) (owner : Address)
            → can_reserve_hostnames running hs hostnames owner ≡ err x)
  unfolding reserve_hostnames can_reserve_hostnames
  reserve-blocked entries initial hs hostnames h made asked hit =
      let (y, refused) =
        first_blocked_of hs (map to_lower hostnames) (to_lower h)
          (contains-map to_lower h hostnames asked)
          (blocked_of hs (to_lower h)
            (is_blocked-any entries initial hs made (to_lower h) ∙ hit)) in
      (y, (λ wait lease. ground (arith, refused)), λ running owner. ground (arith, refused))

  -- An entry with an upper-case letter in it blocks nothing: the hostname is lowered before the
  -- test, and the entry is not.
  pub uppercase_entries_never_block :
      (entries : List Text) (initial : List (Text × LeaseId)) (hs : Service Address)
      → new_hostname_service parse_owner entries initial ≡ ok hs
      → all (any is_upper) entries ≡ true
      → (h : Text) → is_hostname_blocked hs (to_lower h) ≡ none
  uppercase_entries_never_block entries initial hs made upper h = ground (
    arith,
    is_blocked-any entries initial hs made (to_lower h),
    upper_blocks_none entries h upper,
  )
