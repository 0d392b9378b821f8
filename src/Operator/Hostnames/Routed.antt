-- ===== src/Operator/Hostnames/Routed.antt =====
-- That a hostname is routed to one lease at most.
use rezerve.Base.{
  ℕ, ◌≡◌, sym, ap, subst, Bool, true, false, Option, none, some, Text, arith, ◌==◌, ==_iff, nat_eq,
  list_eq, lookup, insert, delete, lookup-insert, lookup-delete, if-cases, if-both, Bool-cases, inl,
  inr, some-cases,
}
use rezerve.Bidengine.Ids.{BidId, bid_eq}
use rezerve.Operator.IgnoreList.{IgnoreListConfig, is_flagged}
use rezerve.Operator.Hostnames.Locate.{
  HostnameFailure, kube_not_found, expected_resource_not_found, other_failure, ServiceExpose,
  ResourceEvent, ConnectDirective, Located, located, unlocated, locate_service_from_manifest,
  build_directive,
}
use rezerve.Operator.Hostnames.{
  ManagedHostname, IngressName, ingress_name_eq, ingress_of, State, HostnameAnswers, Outcome, done,
  failed_with, is_kube_not_found, remove_hostname_from_deployment, connect_hostname_to_deployment,
  managed, store, forget, swap_ingress, connect_event, apply_add_or_update_event, drop_entry,
  apply_delete_event, record_event_error, Kind, delete_kind, add_kind, update_kind, unknown_kind,
  apply_event, is_resource_not_found,
}

abbrev pub is_there : Option ConnectDirective → Bool
is_there none = false
is_there (some d) = true

abbrev pub holder : Option ManagedHostname → Option BidId
holder none = none
holder (some e) = some e.present_lease

abbrev pub is_missing : Option HostnameFailure → Bool
is_missing none = false
is_missing (some e) = is_kube_not_found e

abbrev pub name_of : BidId → Text → IngressName
name_of k h = record { lease = k; hostname = h }

-- Each ingress of the cluster is that of the lease which the operator keeps for its hostname.
abbrev pub Routed : State → Type 0
Routed s =
    (k : BidId) (h : Text)
    → is_there (lookup (name_of k h) s.ingresses) ≡ true
    → holder (lookup h s.hostnames) ≡ some k

abbrev pub state_of : Outcome → State
state_of (done s) = s
state_of (failed_with e s) = s

-- The ingresses of a hostname are those of one lease, and the others are routed.
abbrev Left : Text → BidId → State → Type 0
Left g l s =
    (k : BidId) (h : Text)
    → is_there (lookup (name_of k h) s.ingresses) ≡ true
    → ((g == h) ≡ true → k ≡ l) × ((g == h) ≡ false → holder (lookup h s.hostnames) ≡ some k)

-- A hostname has no ingress, and the others are routed.
abbrev Gone : Text → State → Type 0
Gone g s =
    (k : BidId) (h : Text)
    → is_there (lookup (name_of k h) s.ingresses) ≡ true
    → ((g == h) ≡ false) × (holder (lookup h s.hostnames) ≡ some k)

stored-Routed :
    (ev : ResourceEvent) (d : ConnectDirective) (s : State)
    → Left ev.hostname ev.lease s
    → Routed (record s {
      ingresses = insert (ingress_of ev) d s.ingresses;
      hostnames = insert ev.hostname (managed ev) s.hostnames;
    })
stored-Routed ev d s left k h there = elim (Bool-cases (ev.hostname == h)) [
  | inl same ↦
      let one : k ≡ ev.lease = elim (Bool-cases (ingress_of ev == name_of k h)) [
        | inl here ↦
            sym (ap (λ (n : IngressName). n.lease) ((==_iff (ingress_of ev) (name_of k h)).0 here))
        | inr other ↦
            (left k h (
                ground (
                  arith,
                  other,
                  there,
                  lookup-insert (ingress_of ev) (name_of k h) d s.ingresses,
                ))).0
              same
      ] in
      ground (arith, same, one, lookup-insert ev.hostname h (managed ev) s.hostnames)
  | inr differs ↦
      let elsewhere : (ingress_of ev == name_of k h) ≡ false =
        ground (arith, differs, ==_iff ev.hostname h) in
      let was =
        (left k h (
            ground (
              arith,
              elsewhere,
              there,
              lookup-insert (ingress_of ev) (name_of k h) d s.ingresses,
            ))).1
          differs in
      ground (arith, differs, was, lookup-insert ev.hostname h (managed ev) s.hostnames)
]

forget-Routed : (g : Text) (s : State) → Gone g s → Routed (forget g s)
forget-Routed g s gone k h there =
    let (differs, was) = gone k h there in
    ground (arith, differs, was, lookup-delete g h s.hostnames)

-- Removing the one ingress of a hostname.
removed-Gone :
    (g : Text) (l : BidId) (s : State)
    → Left g l s
    → Gone g (record s { ingresses = delete (name_of l g) s.ingresses })
removed-Gone g l s left k h there = elim (Bool-cases (name_of l g == name_of k h)) [
  | inl here ↦
      absurd (ground (arith, here, there, lookup-delete (name_of l g) (name_of k h) s.ingresses))
  | inr other ↦
      let was =
        left k h
          (ground (arith, other, there, lookup-delete (name_of l g) (name_of k h) s.ingresses)) in
      elim (Bool-cases (g == h)) [
        | inl same ↦ absurd (ground (arith, other, same, was.0 same, ==_iff l k, ==_iff g h))
        | inr differs ↦ (differs, was.1 differs)
      ]
]

-- Of a routed state: the ingresses of a hostname are those of the lease kept for it, if one is kept.
Left-Routed :
    (g : Text) (l : BidId) (s : State)
    → Routed s
    → ((m : BidId) → holder (lookup g s.hostnames) ≡ some m → m ≡ l)
    → Left g l s
Left-Routed g l s h held k name there = (
  λ same. held k (
      subst (λ x. holder (lookup x s.hostnames) ≡ some k) (sym ((==_iff g name).0 same))
        (h k name there)),
  λ differs. h k name there,
)

connected-Routed :
    (answer : Option HostnameFailure) (d : ConnectDirective) (s : State)
    → Left d.event.hostname d.event.lease s
    → Routed s
    → Routed (state_of (store d.event (connect_hostname_to_deployment answer d s)))
unfolding connect_hostname_to_deployment
connected-Routed none d s left h = stored-Routed d.event d s left
connected-Routed (some e) d s left h = h

Left-Gone : (g : Text) (l : BidId) (s : State) → Gone g s → Left g l (forget g s)
Left-Gone g l s gone k h there =
    let (differs, was) = gone k h there in
    (
      λ same. absurd (ground (arith, differs, same)),
      λ other. ground (arith, differs, was, lookup-delete g h s.hostnames),
    )

swapped-Routed :
    (removed connected : Option HostnameFailure) (l : BidId) (d : ConnectDirective) (s : State)
    → Left d.event.hostname l s
    → Routed s
    → Routed (
        state_of (
          store d.event (
            swap_ingress connected d
              (remove_hostname_from_deployment removed (name_of l d.event.hostname) false s))))
unfolding swap_ingress remove_hostname_from_deployment
swapped-Routed none connected l d s left h =
    let g = d.event.hostname in
    let t = record s { ingresses = delete (name_of l g) s.ingresses } in
    let gone = removed-Gone g l s left in
    connected-Routed connected d (forget g t) (Left-Gone g d.event.lease t gone)
      (forget-Routed g t gone)
swapped-Routed (some e) connected l d s left h = h

connect_event-Routed :
    (a : HostnameAnswers) (d : ConnectDirective) (s : State)
    → Routed s
    → Routed (state_of (store d.event (connect_event a d s)))
unfolding connect_event
connect_event-Routed a d s h =
    let g = d.event.hostname in
    let P : Outcome → Type 0 = λ r. Routed (state_of (store d.event r)) in
    some-cases P (lookup g s.hostnames)
      (λ entry kept.
        let held : (m : BidId) → holder (lookup g s.hostnames) ≡ some m → m ≡ entry.present_lease =
          λ m got. ground (arith, kept, got) in
        let left = Left-Routed g entry.present_lease s h held in
        if-cases P (entry.present_lease == d.event.lease)
          (λ same.
            connected-Routed a.connected d s
              (subst (λ l. Left g l s) ((==_iff entry.present_lease d.event.lease).0 same) left) h)
          (λ other. swapped-Routed a.removed a.connected entry.present_lease d s left h))
      (λ free.
        connected-Routed a.connected d s
          (Left-Routed g d.event.lease s h (λ m got. absurd (ground (arith, free, got)))) h)

located-cases :
    (P : Outcome → Type 0) (l : Located) {x : HostnameFailure → Outcome}
    {y : ServiceExpose → Outcome}
    → ((e : HostnameFailure) → P (x e))
    → ((e : ServiceExpose) → P (y e))
    → P (elim l [ unlocated e ↦ x e | located e ↦ y e ])
located-cases P (unlocated e) f g = f e
located-cases P (located e) f g = g e

update-Routed :
    (external : ℕ → ℕ → ℕ) (a : HostnameAnswers) (ev : ResourceEvent) (s : State)
    → Routed s
    → Routed (state_of (apply_add_or_update_event external a ev s))
unfolding apply_add_or_update_event
update-Routed external a ev s h =
    located-cases (λ r. Routed (state_of r)) (locate_service_from_manifest external a.manifest ev)
      (λ e. h) (λ e. connect_event-Routed a (build_directive ev e) s h)

recorded-Routed :
    (now : ℕ) (ev : ResourceEvent) (r : Outcome)
    → Routed (state_of r)
    → Routed (state_of (record_event_error now ev r))
recorded-Routed now ev (done s) h = h
recorded-Routed now ev (failed_with e s) h = if-both Routed (is_resource_not_found e) h h

-- What a delete event may say: it is about the lease that is kept for its hostname, if one is kept,
-- and the cluster reports as missing only what is not there.
abbrev pub Proper : Kind → Option HostnameFailure → ResourceEvent → State → Type 0
Proper delete_kind removed ev s =
    ((m : BidId) → holder (lookup ev.hostname s.hostnames) ≡ some m → m ≡ ev.lease)
    × (is_missing removed ≡ true → is_there (lookup (ingress_of ev) s.ingresses) ≡ false)
Proper _ removed ev s = Unit

deleted-Routed :
    (removed : Option HostnameFailure) (ev : ResourceEvent) (s : State)
    → Proper delete_kind removed ev s
    → Routed s
    → Routed (
        state_of
          (drop_entry ev.hostname (remove_hostname_from_deployment removed (ingress_of ev) true s)))
unfolding remove_hostname_from_deployment
deleted-Routed none ev s (held, missing) h =
    let g = ev.hostname in
    forget-Routed g (record s { ingresses = delete (ingress_of ev) s.ingresses })
      (removed-Gone g ev.lease s (Left-Routed g ev.lease s h held))
deleted-Routed (some (kube_not_found e)) ev s (held, missing) h =
    let g = ev.hostname in
    let left = Left-Routed g ev.lease s h held in
    forget-Routed g s (λ k name there. elim (Bool-cases (g == name)) [
      | inr differs ↦ (differs, h k name there)
      | inl same ↦
          let one = (left k name there).0 same in
          let here : name_of k name ≡ ingress_of ev = cc (one, (==_iff g name).0 same) in
          absurd (ground (arith, missing, there, ap (λ n. is_there (lookup n s.ingresses)) here))
    ])
deleted-Routed (some (expected_resource_not_found e)) ev s proper h = h
deleted-Routed (some (other_failure e)) ev s proper h = h

-- Where every ingress of the cluster is that of the lease which the operator keeps for its hostname, an
-- event leaves this so, on two conditions: a delete event is about the lease that is kept for its
-- hostname, and the cluster reports an ingress as missing only if it is not there. The cluster may fail
-- otherwise, also in the middle of an event.
pub one_ingress_per_hostname :
    (cfg : IgnoreListConfig) (external : ℕ → ℕ → ℕ) (now : ℕ) (kind : Kind) (a : HostnameAnswers)
    (ev : ResourceEvent) (s : State)
    → Proper kind a.removed ev s
    → Routed s
    → Routed (state_of (apply_event cfg external now kind a ev s))
unfolding apply_event apply_delete_event
one_ingress_per_hostname cfg external now delete_kind a ev s proper h =
    deleted-Routed a.removed ev s proper h
one_ingress_per_hostname cfg external now unknown_kind a ev s proper h = h
one_ingress_per_hostname cfg external now add_kind a ev s proper h =
    if-both (λ r. Routed (state_of r)) (is_flagged cfg ev.lease s.leases_ignored) h
      (recorded-Routed now ev (apply_add_or_update_event external a ev s)
        (update-Routed external a ev s h))
one_ingress_per_hostname cfg external now update_kind a ev s proper h =
    if-both (λ r. Routed (state_of r)) (is_flagged cfg ev.lease s.leases_ignored) h
      (recorded-Routed now ev (apply_add_or_update_event external a ev s)
        (update-Routed external a ev s h))
