-- ===== src/Cluster/Service/Drain.antt =====
-- What the end of the loop of provider/cluster/service.go waits for, and `doCheckDeploymentExists`.
use rezerve.Base.{
  is_alive, remove_alive, length-remove_alive, ℕ, zero, suc, ◌≡◌, sym, ap, true, ◌&&◌, List, [],
  ◌∷◌, Option, none, some, arith, ◌==◌, ==_iff, nat_eq, list_eq, if-cases, Bool-cases, length, Dict,
  contains, Text, inl, inr, subst,
}
use rezerve.Bidengine.Ids.{BidId, bid_eq, order_eq}
use rezerve.Cluster.Service.{Event, run, drain, CheckRequest, check_deployment_exists}
use rezerve.Cluster.Service.Managed.{Distinct, one_manager_per_lease}

drain-length :
    (n : ℕ) (ds : List (BidId × ℕ)) (m : Dict BidId ℕ)
    → n ≡ length m
    → (drain n ds m).0 ≡ length (drain n ds m).1
unfolding drain
drain-length n [] m e = e
drain-length zero (d ∷ ds) m e = e
drain-length (suc n) ((k, i) ∷ ds) m e =
    if-cases (λ (r : ℕ × Dict BidId ℕ). r.0 ≡ length r.1) (is_alive k i m)
      (λ here.
        drain-length n ds (remove_alive k i m) (omega (arith, e, length-remove_alive k i m here)))
      (λ gone. drain-length (suc n) ds m e)

-- Where the cluster names no lease twice: after the loop, the service waits for exactly as many
-- managers as are still alive, whichever have ended meanwhile, in whatever order.
pub drain_waits_for_the_living :
    (own : Text) (deployments : List BidId) (evs : List Event) (ended : List (BidId × ℕ))
    → Distinct deployments
    → let s = (run own deployments evs).0 in
      let left = drain (length s.managers) ended s.alive in left.0 ≡ length left.1
drain_waits_for_the_living own deployments evs ended distinct =
    let s = (run own deployments evs).0 in
    drain-length (length s.managers) ended s.alive
      (ap length (one_manager_per_lease own deployments evs distinct).0.0)

abbrev pub Asked : CheckRequest → BidId → Type 0
Asked req k =
    (k.order.group.gseq ≡ req.gseq)
    × (k.order.group.dseq ≡ req.dseq)
    × (k.order.group.owner ≡ req.owner)

abbrev pub Answer : CheckRequest → List BidId → Option BidId → Type 0
Answer req ks none = (k : BidId) → contains k ks ≡ true → Asked req k → ⊥
Answer req ks (some k) = (contains k ks ≡ true) × Asked req k

Answer-cons :
    (req : CheckRequest) (j : BidId) (ks : List BidId) (o : Option BidId)
    → (Asked req j → ⊥)
    → Answer req ks o
    → Answer req (j ∷ ks) o
unfolding contains
Answer-cons req j ks none other h = λ k m a. elim (Bool-cases (j == k)) [
  | inl same ↦ other (subst (Asked req) (sym ((==_iff j k).0 same)) a)
  | inr differs ↦ h k (ground (arith, m, differs)) a
]
Answer-cons req j ks (some k) other (m, a) = (ground (arith, m), a)

-- In whatever order the map is walked, the answer is a managed lease that was asked for, and none only
-- if there is none.
pub check_deployment_exists-Answer :
    (req : CheckRequest) (ks : List BidId) → Answer req ks (check_deployment_exists req ks)
unfolding check_deployment_exists contains
check_deployment_exists-Answer req [] = λ k h a. absurd (ground (arith, h))
check_deployment_exists-Answer req (j ∷ ks) =
    let group = j.order.group in
    let asks =
      (group.gseq == req.gseq) && ((group.dseq == req.dseq) && (group.owner == req.owner)) in
    elim (Bool-cases asks) [
      | inl asked ↦
          rw asked (ground (arith, ==_iff j j), ground (arith, asked, ==_iff group.owner req.owner))
      | inr other ↦ rw other (
          Answer-cons req j ks (check_deployment_exists req ks)
            (ground (arith, other, ==_iff group.owner req.owner))
            (check_deployment_exists-Answer req ks))
    ]
