-- ===== src/Operator/Ip/Restart.antt =====
-- A lease that takes over another's IP: the IP operator purges what it knows of the other's service.
use rezerve.Base.{
  ◌≡◌, refl, sym, ap, ◌∙◌, subst, Bool, true, false, Option, none, some, arith, Eq, ◌==◌, ==_iff,
  ==_self, nat_eq, list_eq, if◌then◌else◌, Dict, lookup, insert, delete, lookup-insert,
  lookup-delete, Bool-cases, inl, inr,
}
use rezerve.Bidengine.Ids.{bid_eq}
use rezerve.Operator.Ip.Resource.{
  protocol_eq, Directive, state_key_eq, ResourceName, resource_name_eq, get_state_key,
}
use rezerve.Operator.Ip.{
  State, KubeFailure, Answers, purge_ip_passthrough, create_ip_passthrough, store, reconnect,
  apply_add_or_update_event, known_of,
}
use rezerve.Operator.Ip.Keyed.{is_set, name_of}

-- All calls succeed.
abbrev pub all_well : Answers
all_well = record { purged = none; created = none }

created_fine :
    (d : Directive) (s : State)
    → is_set d.protocol ≡ true
    → create_ip_passthrough none d s
      ≡ (record s { services = insert (name_of d) d s.services }, none)
unfolding create_ip_passthrough
created_fine d s known = ground (arith, known)

inserted :
    {K : Type 0} ⦃q : Eq K⦄ (k : K) (d : Directive) (m : Dict K Directive)
    → lookup k (insert k d m) ≡ some d
inserted k d m = lookup-insert k k d m ∙ ap (λ b. if b then some d else lookup k m) (==_self k)

-- What a take-over comes to, whatever the operator knows of the other lease's service.
taken_over :
    (e d : Directive) (s : State)
    → lookup (get_state_key d) s.state ≡ some e
    → (e.lease == d.lease) ≡ false
    → is_set d.protocol ≡ true
    → apply_add_or_update_event all_well d s ≡ (
      record s {
        state = insert (get_state_key d) d (delete (get_state_key d) s.state);
        services = insert (name_of d) d (delete (name_of e) s.services);
      },
      none,
    )
unfolding apply_add_or_update_event reconnect purge_ip_passthrough
taken_over e d s has other known =
    let t = record s {
      services = delete (name_of e) s.services;
      state = delete (get_state_key d) s.state;
    } in
    rw (apply_add_or_update_event, has, other) (ap (store d) (created_fine d t known))

-- The names differ where the leases do.
other_name : (e d : Directive) → (e.lease == d.lease) ≡ false → (name_of d == name_of e) ≡ false
other_name e d other = ground (arith, other, ==_iff e.lease d.lease, ==_iff d.lease e.lease)

-- The service of a name that the new lease does not have, after what was known of it is purged.
left_over :
    (kept e d : Directive) (services : Dict ResourceName Directive)
    → (name_of d == name_of e) ≡ false
    → lookup (name_of e) (insert (name_of d) d (delete (name_of kept) services))
      ≡ (if name_of kept == name_of e then none else lookup (name_of e) services)
left_over kept e d services other =
    lookup-insert (name_of d) (name_of e) d (delete (name_of kept) services)
    ∙ ap (λ b. if b then some d else lookup (name_of e) (delete (name_of kept) services)) other
    ∙ lookup-delete (name_of kept) (name_of e) services

unset_name :
    (e : Directive) → is_set e.protocol ≡ true → (name_of (known_of e) == name_of e) ≡ false
unset_name e known = elim (Bool-cases (name_of (known_of e) == name_of e)) [
  | inr other ↦ other
  | inl same ↦
      let one = (==_iff (name_of (known_of e)) (name_of e)).0 same in
      absurd (ground (arith, known, ap (λ (n : ResourceName). is_set n.protocol) one))
]

-- What is said of a result, given what it is.
abbrev pub Taken : Directive → Directive → Option Directive → State × Option KubeFailure → Type 0
Taken e d left r =
    (r.1 ≡ none)
    × (lookup (get_state_key d) r.0.state ≡ some d)
    × (lookup (name_of d) r.0.services ≡ some d)
    × (lookup (name_of e) r.0.services ≡ left)

stays-Taken :
    (kept e d : Directive) (s : State) (left : Option Directive)
    → lookup (name_of e) (insert (name_of d) d (delete (name_of kept) s.services)) ≡ left
    → Taken e d left (
      record s {
        state = insert (get_state_key d) d (delete (get_state_key d) s.state);
        services = insert (name_of d) d (delete (name_of kept) s.services);
      },
      none,
    )
stays-Taken kept e d s left stays = (
  refl,
  inserted (get_state_key d) d (delete (get_state_key d) s.state),
  inserted (name_of d) d (delete (name_of kept) s.services),
  stays,
)

-- With all calls successful, a lease takes over an IP from another lease: the operator keeps the new
-- lease, whose service is there. The service of the other is gone if its protocol was known; but if it
-- is known from the start of the operator only, it stays in the cluster.
pub take_over_leaves_adopted_service :
    (e d : Directive) (s : State) (after_start : Bool)
    → lookup (get_state_key d) s.state ≡ some (if after_start then known_of e else e)
    → (e.lease == d.lease) ≡ false
    → is_set d.protocol ≡ true
    → is_set e.protocol ≡ true
    → lookup (name_of e) s.services ≡ some e
    → Taken e d (if after_start then some e else none) (apply_add_or_update_event all_well d s)
take_over_leaves_adopted_service e d s true has other new_set old_set there =
    subst (Taken e d (some e)) (sym (taken_over (known_of e) d s has other new_set)) (
      stays-Taken (known_of e) e d s (some e) (
        left_over (known_of e) e d s.services (other_name e d other)
        ∙ ap (λ b. if b then none else lookup (name_of e) s.services) (unset_name e old_set)
        ∙ there))
take_over_leaves_adopted_service e d s false has other new_set old_set there =
    subst (Taken e d none) (sym (taken_over e d s has other new_set)) (
      stays-Taken e e d s none (
        left_over e e d s.services (other_name e d other)
        ∙ ap (λ b. if b then none else lookup (name_of e) s.services) (==_self (name_of e))))
