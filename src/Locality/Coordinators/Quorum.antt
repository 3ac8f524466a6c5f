-- ===== src/Locality/Coordinators/Quorum.antt =====
-- What the choice of processes and of coordinators promises.
use fdb_kubernetes_operator.Common.{
  All, All-map, Member, sym, ℕ, zero, suc, ◌-◌, ◌*◌, ◌≤◌, ◌<◌, ◌≡◌, ◌⊎◌, inl, inr, refl, String,
  true, false, some, List, [], ◌∷◌, ◌==◌, nat_eq, ltb, string_eq, length, contains, NoDuplicates,
  Bool-cases, Option-cases, subst, arith,
}
use fdb_kubernetes_operator.Common.Int.{pos, pos_part, ltb_ℤ}
use fdb_kubernetes_operator.Database.Configuration.{
  Sort, Configuration, desired_configuration, desired_coordinator_count,
}
use fdb_kubernetes_operator.Database.DataCenters.{primary_dc_id, count_unique_data_centers}
use fdb_kubernetes_operator.Locality.{Info}
use fdb_kubernetes_operator.Locality.Choice.{Limits, complete}
use fdb_kubernetes_operator.Locality.Sorting.{sort_localities-All}
use fdb_kubernetes_operator.Locality.Choice.Counting.{share}
use fdb_kubernetes_operator.Locality.Choice.Spread.{IsRight}
use fdb_kubernetes_operator.Locality.Choice.Setup.{
  hard_limits, effective_limit, limit_of-hard_limits, choose_sorted-IsRight,
}
use fdb_kubernetes_operator.Locality.Coordinators.{
  Constraint, fields_of, candidates_of, choose_distributed_processes, ceil_div, get_hard_limits,
  choose_coordinators,
}

fields_of-NoDuplicates :
    (spec : Configuration) (fields : List String)
    → NoDuplicates fields
    → NoDuplicates (fields_of spec fields)
fields_of-NoDuplicates spec [] d = elim (Bool-cases (spec.redundancy_mode == "three_data_hall")) [
  | inl e ↦ rw e (refl, (refl, (refl, tt)))
  | inr e ↦ rw e (refl, (refl, tt))
]
fields_of-NoDuplicates spec (f ∷ fields) d = d

-- ChooseDistributedProcesses ends for every list of processes, count and constraint whose fields differ.
-- It returns as many processes as asked for, or fewer with the error that there are not enough, and then no
-- further process can be taken: each is chosen already, or has for some field a value of which the hard
-- limit is used up. In both cases the chosen processes are candidates with different IDs, and no value of
-- a field occurs more often than its hard limit, which is the count where no limit is set.
pub choose_distributed_processes-IsRight :
    (sort : Sort) (spec : Configuration) (ps : List Info) (count : ℕ) (c : Constraint)
    → NoDuplicates c.fields
    → let fields = fields_of spec c.fields in
      IsRight fields count
        (hard_limits fields count c.hard_limits)
        (candidates_of sort spec ps)
        (choose_distributed_processes sort spec ps count c)
unfolding choose_distributed_processes
choose_distributed_processes-IsRight sort spec ps count c d =
    choose_sorted-IsRight (fields_of spec c.fields) count c.hard_limits (candidates_of sort spec ps)
      (fields_of-NoDuplicates spec c.fields d)

-- With at least one data center the limit for each is the least that allows the desired coordinators.
pub ceil_div_lem : (a b : ℕ) → 0 < b → 0 < a → (a ≤ ceil_div a b * b) × ((ceil_div a b - 1) * b < a)
ceil_div_lem a b h k = grind arith

-- The choice of coordinators: the limits it works with, and what is chosen.
complete-IsSpread :
    (sort : Sort) (spec : Configuration) (ps chosen : List Info)
    → choose_coordinators sort spec ps ≡ some (complete chosen)
    → (limits : Limits) × (get_hard_limits spec ≡ some limits)
      × (length chosen ≡ pos_part (desired_coordinator_count spec))
      × All (λ i. Member i (candidates_of sort spec ps)) chosen
      × ((f v : String)
          → contains (fields_of spec []) f ≡ true
          → share f v chosen ≤ effective_limit (pos_part (desired_coordinator_count spec)) limits f)
unfolding choose_coordinators
complete-IsSpread sort spec ps chosen h =
    let count = pos_part (desired_coordinator_count spec) in
    let fields = fields_of spec [] in
    elim (Option-cases (get_hard_limits spec)) [
      | inl e ↦ absurd (ground (arith, h, e))
      | inr (limits, e) ↦
          let c : Constraint = record { fields = []; hard_limits = limits } in
          let r : choose_distributed_processes sort spec ps count c ≡ complete chosen =
            ground (arith, h, e) in
          let (s, l) =
            subst
              (IsRight fields count (hard_limits fields count limits) (candidates_of sort spec ps))
              r (choose_distributed_processes-IsRight sort spec ps count c tt) in
          (
            limits,
            e,
            l,
            s.candidates,
            λ f v m. ground (arith, s.within f v m, m, limit_of-hard_limits fields count limits f),
          )
    ]

mul_le : (a b c : ℕ) → a ≤ b → a * c ≤ b * c
mul_le a b zero h = omega arith
mul_le a b (suc c) h = omega (arith, h, mul_le a b c h)

third : (n : ℕ) → 3 ≤ n → 2 * ceil_div 9 n < 9
third n h =
    let (l, k) = ceil_div_lem 9 n (omega (arith, h)) (omega arith) in
    elim (Bool-cases (ltb 4 (ceil_div 9 n))) [
      | inr e ↦ ground (arith, e)
      | inl e ↦
          let q : ℕ = ceil_div 9 n - 1 in
          let m : 4 * n ≤ q * n = mul_le 4 q n (ground (arith, e)) in
          absurd (omega (arith, m, k, h))
    ]

-- A fault domain of which a cluster is meant to survive the loss: a zone, if there are three coordinators or
-- more; a data center of three or more, if data is kept in several regions; else a data hall, if the
-- redundancy mode is three_data_hall.
abbrev pub IsFaultDomain : Configuration → String → Type 0
IsFaultDomain spec f =
    (f ≡ "zoneid") × (3 ≤ pos_part (desired_coordinator_count spec))
    ⊎ (f ≡ "dcid")
      × (ltb_ℤ (pos 1) spec.usable_regions ≡ true)
      × (3 ≤ count_unique_data_centers spec.regions)
    ⊎ (f ≡ "data_hall")
      × (ltb_ℤ (pos 1) spec.usable_regions ≡ false)
      × ((spec.redundancy_mode == "three_data_hall") ≡ true)

-- The field of a fault domain is one by which the coordinators are spread, and its hard limit is less than half
-- of them.
limit_of_fault_domain :
    (spec : Configuration) (limits : Limits) (f : String)
    → IsFaultDomain spec f
    → get_hard_limits spec ≡ some limits
    → (contains (fields_of spec []) f ≡ true)
      × (2 * effective_limit (pos_part (desired_coordinator_count spec)) limits f
          < pos_part (desired_coordinator_count spec))
unfolding get_hard_limits desired_coordinator_count
limit_of_fault_domain spec limits f (inl (is, n)) e = rw is (ground (arith, e, n))
limit_of_fault_domain spec limits f (inr (inl (is, many, n))) e =
    rw is (ground (arith, e, many, n, third (count_unique_data_centers spec.regions) n))
limit_of_fault_domain spec limits f (inr (inr (is, one, mode))) e =
    rw is (ground (arith, e, one, mode))

-- No value of a fault domain holds half of the coordinators that are chosen: with one zone lost, or one of at
-- least three data centers, or one data hall, a majority of them is left.
pub choose_coordinators_majority :
    (sort : Sort) (spec : Configuration) (ps chosen : List Info) (f v : String)
    → choose_coordinators sort spec ps ≡ some (complete chosen)
    → IsFaultDomain spec f
    → 2 * share f v chosen < length chosen
choose_coordinators_majority sort spec ps chosen f v h d =
    let (limits, e, l, members, within) = complete-IsSpread sort spec ps chosen h in
    let (m, half) = limit_of_fault_domain spec limits f d e in omega (arith, l, half, within f v m)

pub choose_coordinators-length :
    (sort : Sort) (spec : Configuration) (ps chosen : List Info)
    → choose_coordinators sort spec ps ≡ some (complete chosen)
    → length chosen ≡ pos_part (desired_coordinator_count spec)
choose_coordinators-length sort spec ps chosen h =
    let (limits, e, l, members, within) = complete-IsSpread sort spec ps chosen h in l

member-All : (P : Info → Type 0) (i : Info) (is : List Info) → Member i is → All P is → P i
member-All P i [] m h = absurd m
member-All P i (j ∷ is) (inl e) (h, hs) = subst P (sym e) h
member-All P i (j ∷ is) (inr m) (h, hs) = member-All P i is m hs

pub choose_coordinators-All :
    (P : Info → Type 0) (sort : Sort) (spec : Configuration) (ps chosen : List Info)
    → choose_coordinators sort spec ps ≡ some (complete chosen)
    → All P ps
    → All P chosen
choose_coordinators-All P sort spec ps chosen h a =
    let (limits, e, l, members, within) = complete-IsSpread sort spec ps chosen h in
    All-map
      (λ i m.
        member-All P i (candidates_of sort spec ps) m
          (sort_localities-All P (primary_dc_id (desired_configuration sort spec).regions) ps a))
      chosen members
