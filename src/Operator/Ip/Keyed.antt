-- ===== src/Operator/Ip/Keyed.antt =====
-- The entries of the IP operator and the services of the cluster, one call at a time.
use rezerve.Base.{
  ◌≡◌, refl, sym, ap, ◌∙◌, subst, Bool, true, false, Option, none, some, Text, arith, ◌==◌, ==_iff,
  ==_self, nat_eq, list_eq, if◌then◌else◌, Dict, lookup, insert, delete, lookup-insert,
  lookup-delete, Bool-cases, inl, inr,
}
use rezerve.Bidengine.Ids.{bid_eq}
use rezerve.Operator.Ip.Resource.{
  Protocol, unset, tcp, udp, protocol_eq, Directive, StateKey, state_key_eq, ResourceName,
  resource_name_eq, get_state_key, create_ip_passthrough_resource_name,
}
use rezerve.Operator.Ip.{
  State, KubeFailure, not_found, broken, purge_ip_passthrough, create_ip_passthrough, store,
  has_changed, forget,
}

abbrev pub is_set : Protocol → Bool
is_set unset = false
is_set _ = true

abbrev pub name_of : Directive → ResourceName
name_of = create_ip_passthrough_resource_name

abbrev or_else : Directive → Option Directive → Directive
or_else d none = d
or_else d (some e) = e

protocol-cases :
    (P : State × Option KubeFailure → Type 0) (p : Protocol) {x y : State × Option KubeFailure}
    → (is_set p ≡ false → P x)
    → (is_set p ≡ true → P y)
    → P (elim p [ unset ↦ x | _ ↦ y ])
protocol-cases P unset f g = f refl
protocol-cases P tcp f g = g refl
protocol-cases P udp f g = g refl

module _ (sharing : ResourceName → Text) where
  -- The sharing key is that of the resource.
  abbrev pub Shared : Directive → Type 0
  Shared d = is_set d.protocol ≡ true → d.sharing_key ≡ sharing (name_of d)

  -- An entry under its own key, with its service where its protocol is known.
  abbrev pub Good : StateKey → Directive → Dict ResourceName Directive → Type 0
  Good k e services =
      (get_state_key e ≡ k)
      × (is_set e.protocol ≡ true → lookup (name_of e) services ≡ some e)
      × Shared e

  abbrev pub Backed : State → Type 0
  Backed s = (k : StateKey) (e : Directive) → lookup k s.state ≡ some e → Good k e s.services

  -- Every key but one.
  abbrev pub Except : StateKey → State → Type 0
  Except j s =
      (k : StateKey) (e : Directive)
      → (j == k) ≡ false
      → lookup k s.state ≡ some e
      → Good k e s.services

  -- Entries of two keys have two resources.
  other_resource :
      (d e : Directive)
      → Shared d
      → Shared e
      → is_set e.protocol ≡ true
      → (get_state_key d == get_state_key e) ≡ false
      → (name_of d == name_of e) ≡ false
  other_resource d e sd se known differs = elim (Bool-cases (name_of d == name_of e)) [
    | inr other ↦ other
    | inl same ↦
        let one = (==_iff (name_of d) (name_of e)).0 same in
        let lease : d.lease ≡ e.lease = ap (λ (n : ResourceName). n.lease) one in
        let port : d.external_port ≡ e.external_port =
          ap (λ (n : ResourceName). n.external_port) one in
        let proto : d.protocol ≡ e.protocol = ap (λ (n : ResourceName). n.protocol) one in
        let key : d.sharing_key ≡ e.sharing_key =
          sd (ap is_set proto ∙ known) ∙ ap sharing one ∙ sym (se known) in
        let keys : get_state_key d ≡ get_state_key e = cc (lease, port, key) in
        absurd (ground (arith, differs, (==_iff (get_state_key d) (get_state_key e)).1 keys))
  ]

  -- A call for one key leaves the services of the others.
  pub delete-Except :
      (d : Directive) (s : State)
      → Shared d
      → Except (get_state_key d) s
      → Except (get_state_key d) (record s { services = delete (name_of d) s.services })
  delete-Except d s sd h k e other has =
      let (key, there, se) = h k e other has in
      (
        key,
        λ known.
            lookup-delete (name_of d) (name_of e) s.services
            ∙ ap (λ b. if b then none else lookup (name_of e) s.services)
                (other_resource d e sd se known
                  (subst (λ x. (get_state_key d == x) ≡ false) (sym key) other))
            ∙ there known,
        se,
      )

  insert-Except :
      (d : Directive) (s : State)
      → Shared d
      → Except (get_state_key d) s
      → Except (get_state_key d) (record s { services = insert (name_of d) d s.services })
  insert-Except d s sd h k e other has =
      let (key, there, se) = h k e other has in
      (
        key,
        λ known.
            lookup-insert (name_of d) (name_of e) d s.services
            ∙ ap (λ b. if b then some d else lookup (name_of e) s.services)
                (other_resource d e sd se known
                  (subst (λ x. (get_state_key d == x) ≡ false) (sym key) other))
            ∙ there known,
        se,
      )

  -- The key itself is dropped, or gets an entry that is good.
  pub drop-Backed :
      (j : StateKey) (s : State) → Except j s → Backed (record s { state = delete j s.state })
  drop-Backed j s h k e has = elim (Bool-cases (j == k)) [
    | inl same ↦ absurd (ground (arith, has, same, lookup-delete j k s.state))
    | inr other ↦ h k e other (ground (arith, has, other, lookup-delete j k s.state))
  ]

  pub put-Backed :
      (d : Directive) (s : State)
      → Good (get_state_key d) d s.services
      → Except (get_state_key d) s
      → Backed (record s { state = insert (get_state_key d) d s.state })
  put-Backed d s good h k e has =
      let j = get_state_key d in
      elim (Bool-cases (j == k)) [
        | inl same ↦
            let is_d : some d ≡ some e =
              sym (ap (λ b. if b then some d else lookup k s.state) same)
              ∙ sym (lookup-insert j k d s.state)
              ∙ has in
            let d_is_e : d ≡ e = ap (or_else d) is_d in
            subst (λ x. Good k x s.services) d_is_e
              (subst (λ x. Good x d s.services) ((==_iff j k).0 same) good)
        | inr other ↦ h k e other (ground (arith, has, other, lookup-insert j k d s.state))
      ]

  pub created-Backed :
      (answer : Option KubeFailure) (d : Directive) (s : State)
      → Shared d
      → Backed s
      → Backed (store d (create_ip_passthrough answer d s)).0
  unfolding create_ip_passthrough
  created-Backed (some e) d s sd h =
      protocol-cases (λ r. Backed (store d r).0) d.protocol (λ no. h) (λ known. h)
  created-Backed none d s sd h =
      let name = name_of d in
      protocol-cases (λ r. Backed (store d r).0) d.protocol (λ no. h)
        (λ known.
          put-Backed d (record s { services = insert name d s.services })
            (refl, λ set. ground (arith, lookup-insert name name d s.services, ==_self name), sd)
            (insert-Except d s sd (λ k e other has. h k e has)))

  pub same_entry : (e d : Directive) → e.lease ≡ d.lease → has_changed e d ≡ false → e ≡ d
  same_entry e d lease same =
      let service : e.service ≡ d.service = (==_iff e.service d.service).0 (ground (arith, same)) in
      let port : e.port ≡ d.port = (==_iff e.port d.port).0 (ground (arith, same)) in
      let key : e.sharing_key ≡ d.sharing_key =
        (==_iff e.sharing_key d.sharing_key).0 (ground (arith, same)) in
      let external : e.external_port ≡ d.external_port =
        (==_iff e.external_port d.external_port).0 (ground (arith, same)) in
      let protocol : e.protocol ≡ d.protocol =
        (==_iff e.protocol d.protocol).0 (ground (arith, same)) in
      cc (lease, service, port, key, external, protocol)

  pub purged-Backed :
      (answer : Option KubeFailure) (d : Directive) (s : State)
      → Shared d
      → Backed s
      → Backed (forget d (purge_ip_passthrough answer d s)).0
  unfolding purge_ip_passthrough
  purged-Backed none d s sd h =
      drop-Backed (get_state_key d) (record s { services = delete (name_of d) s.services })
        (delete-Except d s sd (λ k e other has. h k e has))
  purged-Backed (some (not_found e)) d s sd h =
      drop-Backed (get_state_key d) s (λ k f other has. h k f has)
  purged-Backed (some (broken e)) d s sd h = h
