-- ===== src/Database/Processes/Zones.antt =====
-- The division of the processes among the Kubernetes clusters of a data center: calculateProcessCount of
-- api/v1beta2/foundationdbcluster_types.go.
use fdb_kubernetes_operator.Common.{
  ℕ, zero, suc, ◌+◌, ◌*◌, ◌/◌, ◌%◌, ◌^◌, ◌≤◌, ◌<◌, ◌≡◌, refl, ◌∙◌, String, Bool, true, false, List,
  if◌then◌else◌, ◌==◌, string_eq, ltb, arith, eq_iff, Bool-cases, inl, inr,
}
use fdb_kubernetes_operator.Common.Int.{ℤ, pos, negsuc, pos_part, ◌+ℤ◌, ltb_ℤ, ◌<ℤ◌}
use fdb_kubernetes_operator.Database.Configuration.{desired_fault_tolerance, minimum_fault_domains}
use fdb_kubernetes_operator.Database.Processes.{
  ClusterSpec, calculate_process_count, split_count, largest, zone_count_of,
}

-- The cluster's part in the Kubernetes cluster with an index.
abbrev pub in_zone : ClusterSpec → ℕ → ClusterSpec
in_zone spec index = record spec {
  fault_domain = record spec.fault_domain { zone_index = pos index };
}

-- The same cluster, in one Kubernetes cluster.
abbrev pub in_one_zone : ClusterSpec → ClusterSpec
in_one_zone spec = record spec {
  fault_domain = record { key = ""; zone_count = pos 0; zone_index = pos 0 };
}

-- The sum of the counts for the indices below a number.
abbrev pub sum_below : (ℕ → ℤ) → ℕ → ℕ
sum_below f zero = 0
sum_below f (suc n) = sum_below f n + pos_part (f n)

div_le : (a b : ℕ) → 0 < b → a / b ≤ a
div_le a b h = grind arith

div-mod_lem : (a b : ℕ) → 0 < b → (b * (a / b) + a % b ≡ a) × (a % b < b)
div-mod_lem a b h = grind arith

pos_part-split_count :
    (zones count i : ℕ)
    → count / zones < 2 ^ 62
    → pos_part (split_count zones (pos i) count)
      ≡ count / zones + (if ltb i (count % zones) then 1 else 0)
unfolding split_count ◌+ℤ◌
pos_part-split_count zones count i h = ground (arith, h)

sum_split :
    (zones count n : ℕ)
    → count / zones < 2 ^ 62
    → sum_below (λ i. split_count zones (pos i) count) n
      ≡ n * (count / zones) + (if ltb n (count % zones) then n else count % zones)
sum_split zones count zero h = ground arith
sum_split zones count (suc n) h =
    ground (arith, h, sum_split zones count n h, pos_part-split_count zones count n h)

sum_split-all :
    (zones count : ℕ)
    → 0 < zones
    → count < 2 ^ 62
    → sum_below (λ i. split_count zones (pos i) count) zones ≡ count
sum_split-all zones count h small =
    let (e, l) = div-mod_lem count zones h in
    ground (arith, e, l, sum_split zones count zones (omega (arith, small, div_le count zones h)))

sum_below_ext :
    (f g : ℕ → ℤ) (n : ℕ)
    → ((i : ℕ) → pos_part (f i) ≡ pos_part (g i))
    → sum_below f n ≡ sum_below g n
sum_below_ext f g zero h = refl
sum_below_ext f g (suc n) h = omega (arith, h n, sum_below_ext f g n h)

sum_below_zero : (f : ℕ → ℤ) (n : ℕ) → ((i : ℕ) → pos_part (f i) ≡ 0) → sum_below f n ≡ 0
sum_below_zero f zero h = refl
sum_below_zero f (suc n) h = omega (arith, h n, sum_below_zero f n h)

fault_tolerance_le : (mode : String) → (x : ℕ) × (desired_fault_tolerance mode ≡ pos x) × (x ≤ 2)
unfolding desired_fault_tolerance
fault_tolerance_le mode = (pos_part (desired_fault_tolerance mode), ground arith, ground arith)

-- The count that is divided.
total_of : ClusterSpec → Bool → List ℤ → ℤ
total_of spec ft counts =
    if ft
    then largest (pos 0) counts
      +ℤ desired_fault_tolerance spec.database_configuration.redundancy_mode
    else largest (pos 0) counts

total_small :
    (spec : ClusterSpec) (ft : Bool) (counts : List ℤ)
    → largest (pos 0) counts <ℤ pos (2 ^ 61)
    → ltb_ℤ (pos 0) (largest (pos 0) counts) ≡ true
    → pos_part (total_of spec ft counts) < 2 ^ 62
unfolding total_of ◌+ℤ◌
total_small spec ft counts h k =
    let (x, e, l) = fault_tolerance_le spec.database_configuration.redundancy_mode in
    ground (arith, h, k, e, l)

zone_count_pos : (spec : ClusterSpec) → 0 < pos_part (zone_count_of spec)
unfolding zone_count_of ◌+ℤ◌ desired_fault_tolerance minimum_fault_domains
zone_count_pos spec = ground arith

count_in_zone :
    (spec : ClusterSpec) (ft : Bool) (counts : List ℤ) (i : ℕ)
    → spec.fault_domain.key ≡ "foundationdb.org/kubernetes-cluster"
    → calculate_process_count (in_zone spec i) ft counts ≡ (
        if ltb_ℤ (pos 0) (largest (pos 0) counts)
        then split_count
            (pos_part (zone_count_of spec))
            (pos i)
            (pos_part (total_of spec ft counts))
        else negsuc 0)
unfolding calculate_process_count total_of zone_count_of
count_in_zone spec ft counts i key =
    let same : (spec.fault_domain.key == "foundationdb.org/kubernetes-cluster") ≡ true =
      ground (arith, key, eq_iff spec.fault_domain.key "foundationdb.org/kubernetes-cluster") in
    let inside : ltb_ℤ (pos i) (pos 0) ≡ false = ground arith in
    elim (Bool-cases (ltb_ℤ (pos 0) (largest (pos 0) counts))) [
      | inl e ↦ rw (inside, e, same) refl
      | inr e ↦ rw (inside, e) refl
    ]

count_in_one_zone :
    (spec : ClusterSpec) (ft : Bool) (counts : List ℤ)
    → calculate_process_count (in_one_zone spec) ft counts
      ≡ (if ltb_ℤ (pos 0) (largest (pos 0) counts) then total_of spec ft counts else negsuc 0)
unfolding calculate_process_count total_of
count_in_one_zone spec ft counts = ground arith

-- The Kubernetes clusters of a data center together run as many processes of a class as a cluster in one
-- Kubernetes cluster would, the fault tolerance included, for counts below 2^61.
pub calculate_process_count-sum :
    (spec : ClusterSpec) (ft : Bool) (counts : List ℤ)
    → spec.fault_domain.key ≡ "foundationdb.org/kubernetes-cluster"
    → largest (pos 0) counts <ℤ pos (2 ^ 61)
    → sum_below
        (λ i. calculate_process_count (in_zone spec i) ft counts)
        (pos_part (zone_count_of spec))
      ≡ pos_part (calculate_process_count (in_one_zone spec) ft counts)
calculate_process_count-sum spec ft counts key small =
    let zones : ℕ = pos_part (zone_count_of spec) in
    elim (Bool-cases (ltb_ℤ (pos 0) (largest (pos 0) counts))) [
      | inl e ↦
          sum_below_ext (λ i. calculate_process_count (in_zone spec i) ft counts)
            (λ i. split_count zones (pos i) (pos_part (total_of spec ft counts))) zones
            (λ i. ground (arith, e, count_in_zone spec ft counts i key))
          ∙ sum_split-all zones (pos_part (total_of spec ft counts)) (zone_count_pos spec)
              (total_small spec ft counts small e)
          ∙ ground (arith, e, count_in_one_zone spec ft counts)
      | inr e ↦
          sum_below_zero (λ i. calculate_process_count (in_zone spec i) ft counts) zones
            (λ i. ground (arith, e, count_in_zone spec ft counts i key))
          ∙ ground (arith, e, count_in_one_zone spec ft counts)
    ]
