-- ===== src/Cluster/Inventory/Ips.antt =====
-- The leased IPs that reservations wait for, counted in `uint`.
use rezerve.Base.{
  ℕ, ◌+◌, ◌%◌, ◌<◌, ◌≤◌, ◌≡◌, refl, false, not, List, [], ◌∷◌, ◌++◌, arith, leb, ltb, Bool-cases,
  inl, inr,
}
use rezerve.Cluster.Inventory.{Reservation, two_64, count_reserved_ips, available_leased_ips}

pub count_snoc :
    (rs : List Reservation) (r : Reservation) (n : ℕ)
    → r.ips_confirmed ≡ false
    → count_reserved_ips (rs ++ r ∷ []) n ≡ (count_reserved_ips rs n + r.endpoint_quantity) % two_64
unfolding count_reserved_ips
count_snoc [] r n h = rw h refl
count_snoc (x ∷ rs) r n h = elim (Bool-cases (not x.ips_confirmed)) [
  | inl c ↦ rw c (count_snoc rs r ((n + x.endpoint_quantity) % two_64) h)
  | inr c ↦ rw c (count_snoc rs r n h)
]

-- What is available can be reserved on top of what is in use and reserved.
pub available-fits :
    (total in_use reserved quantity : ℕ)
    → 0 < quantity
    → ltb (available_leased_ips total in_use reserved) quantity ≡ false
    → in_use + (reserved + quantity) ≤ total
unfolding available_leased_ips
available-fits total in_use reserved quantity some h = elim (Bool-cases (leb total in_use)) [
  | inl full ↦ absurd (ground (arith, full, h, some))
  | inr room ↦ ground (arith, room, h, some)
]

pub count-fits :
    (rs : List Reservation) (r : Reservation) (total in_use : ℕ)
    → total < two_64
    → 0 < r.endpoint_quantity
    → r.ips_confirmed ≡ false
    → ltb (available_leased_ips total in_use (count_reserved_ips rs 0)) r.endpoint_quantity ≡ false
    → in_use + count_reserved_ips (rs ++ r ∷ []) 0 ≤ total
count-fits rs r total in_use small some pending h =
    let fits = available-fits total in_use (count_reserved_ips rs 0) r.endpoint_quantity some h in
    omega (arith, small, fits, count_snoc rs r 0 pending)
