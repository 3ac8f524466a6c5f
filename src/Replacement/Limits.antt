-- ===== src/Replacement/Limits.antt =====
-- The limits on automatic replacements: removalAllowed and the loop of ReplaceFailedProcessGroups in
-- internal/replacements/replace_failed_process_groups.go.
use fdb_kubernetes_operator.Common.{
  ℕ, suc, ◌+◌, ◌≤◌, ◌<◌, ◌^◌, ◌≡◌, ◌⊎◌, inl, inr, refl, Bool, true, false, not, ◌||◌, List, [], ◌∷◌,
  ◌==◌, string_eq, length, count_if, deref, arith, Bool-cases, Option-cases, count_if-le-length, ap,
}
use fdb_kubernetes_operator.Common.Int.{ℤ, pos, pos_part, neg_part, ltb_ℤ, ◌≤ℤ◌, -ℤ_parts, int_eq}
use fdb_kubernetes_operator.ProcessGroup.{
  Instant, ProcessGroupStatus, ProcessGroupId, FaultDomain, mark_for_removal,
}
use fdb_kubernetes_operator.Replacement.{
  TargetsOrder, Cluster, Progress, Verdict, skip, limited, replace, Times, max_concurrent,
  is_in_flight, add_key, in_flight_loop, get_replacement_information, removal_allowed, verdict_of,
  advance, change, replace_loop, groups_after, start_of, replace_failed_process_groups, ignored,
  crash_loop_groups, times_of,
}

abbrev pub in_flight : List ProcessGroupStatus → ℕ
in_flight gs = count_if is_in_flight gs

-- A limit that is far from the bounds of Go's int.
abbrev pub IsLimit : ℤ → Type 0
IsLimit n = (pos_part n < 2 ^ 60) × (neg_part n < 2 ^ 60)

abbrev InRange : ℤ → Type 0
InRange n = (pos_part n < 2 ^ 60) × (neg_part n < 2 ^ 61)

pub replace-allowed :
    (now : Instant) (c : Cluster) (tolerant : Bool) (ignore : List ProcessGroupId) (times : Times)
    (s : Progress) (g : ProcessGroupStatus) (b : Bool)
    → verdict_of now c tolerant ignore times s g ≡ replace b
    → removal_allowed c s.max_replacements s.with_replacements g.fault_domain ≡ true
unfolding verdict_of
replace-allowed now c tolerant ignore times s g b e = ground (arith, e)

in_flight_loop-count :
    (s : ℕ × List FaultDomain) (gs : List ProcessGroupStatus)
    → (in_flight_loop s gs).0 ≡ in_flight gs + s.0
unfolding in_flight_loop
in_flight_loop-count s [] = omega arith
in_flight_loop-count s (g ∷ gs) = ground (
  arith,
  in_flight_loop-count s gs,
  in_flight_loop-count (suc s.0, add_key s.1 g.fault_domain) gs,
)

pub Verdict-cases : (v : Verdict) → (v ≡ skip) ⊎ (v ≡ limited) ⊎ ((b : Bool) × (v ≡ replace b))
Verdict-cases skip = inl refl
Verdict-cases limited = inr (inl refl)
Verdict-cases (replace b) = inr (inr (b, refl))

module _ (now : Instant) (c : Cluster) (tolerant : Bool) (ignore : List ProcessGroupId)
    (times : Times) where
  abbrev after : Progress → List ProcessGroupStatus → List ProcessGroupStatus
  after s gs = (replace_loop now c tolerant ignore times s gs).1

  -- How many replacements the loop makes.
  abbrev Used : Progress → List ProcessGroupStatus → Type 0
  Used s gs =
      (used : ℕ) × (in_flight (after s gs) ≤ in_flight gs + used)
      × ((used ≡ 0) ⊎ (pos used ≤ℤ s.max_replacements))

  Used-replace :
      (s : Progress) (g : ProcessGroupStatus) (gs : List ProcessGroupStatus) (b : Bool)
      → InRange s.max_replacements
      → ltb_ℤ (pos 0) s.max_replacements ≡ true
      → verdict_of now c tolerant ignore times s g ≡ replace b
      → Used (advance (replace b) g s) gs
      → Used s (g ∷ gs)
  unfolding replace_loop advance
  Used-replace s g gs b l m e (used, p, q) = (
    suc used,
    rw e (ground (arith, p)),
    inr (ground (arith, q, m, -ℤ_parts s.max_replacements (pos 1))),
  )

  loop-Used :
      deref c.fault_domain_based_replacements false ≡ false
      → (s : Progress) (gs : List ProcessGroupStatus) → InRange s.max_replacements
      → Used s gs
  unfolding replace_loop advance change mark_for_removal removal_allowed
  loop-Used d s [] l = (0, omega arith, inl refl)
  loop-Used d s (g ∷ gs) l = elim (Verdict-cases (verdict_of now c tolerant ignore times s g)) [
    | inl e ↦ let (u, p, q) = loop-Used d s gs l in (u, rw e (ground (arith, p)), q)
    | inr (inl e) ↦
        let (u, p, q) = loop-Used d (advance limited g s) gs l in (u, rw e (ground (arith, p)), q)
    | inr (inr (b, e)) ↦
        let allowed = replace-allowed now c tolerant ignore times s g b e in
        let positive : ltb_ℤ (pos 0) s.max_replacements ≡ true = ground (arith, allowed, d) in
        Used-replace s g gs b l positive e (
          loop-Used d (advance (replace b) g s) gs
            (ground (arith, positive, l, -ℤ_parts s.max_replacements (pos 1))))
  ]

-- Either nothing is changed, or the loop has run, with some process groups to ignore.
pub groups_after-cases :
    (order : TargetsOrder) (now : Instant) (c : Cluster) (tolerant : Bool)
    → (groups_after order now c tolerant ≡ c.process_groups)
      ⊎ ((ignore : List ProcessGroupId) × (groups_after order now c tolerant
            ≡ (replace_loop now c tolerant ignore (times_of c) (start_of c) c.process_groups).1))
unfolding replace_failed_process_groups
groups_after-cases order now c tolerant =
    elim (Bool-cases (not (deref c.enabled true) || max_concurrent c == pos 0)) [
      | inl e ↦ inl (ground (arith, e))
      | inr e ↦
          elim (Option-cases (ignored [] (order (crash_loop_groups [] c.crash_loop_containers)))) [
            | inl i ↦ inl (ground (arith, e, i))
            | inr (ignore, i) ↦ inr (ignore, ground (arith, e, i))
          ]
    ]

-- Unless replacements are counted by fault domain, the process groups that are marked for removal and not
-- yet excluded are at most as many after ReplaceFailedProcessGroups as before, or at most as many as the
-- cluster's maximum of concurrent replacements. The maximum and the number of process groups are below
-- 2^60.
pub replace_failed_process_groups-in_flight :
    (order : TargetsOrder) (now : Instant) (c : Cluster) (tolerant : Bool)
    → deref c.fault_domain_based_replacements false ≡ false
    → IsLimit (max_concurrent c)
    → length c.process_groups < 2 ^ 60
    → let gs = groups_after order now c tolerant in
      (in_flight gs ≤ in_flight c.process_groups) ⊎ (pos (in_flight gs) ≤ℤ max_concurrent c)
unfolding start_of get_replacement_information
replace_failed_process_groups-in_flight order now c tolerant d l n =
    elim (groups_after-cases order now c tolerant) [
      | inl e ↦ inl (ground (arith, ap in_flight e))
      | inr (ignore, e) ↦
          let before = in_flight_loop-count (0, []) c.process_groups in
          let few = count_if-le-length is_in_flight c.process_groups in
          let diff =
            -ℤ_parts (max_concurrent c) (pos (in_flight_loop (0, []) c.process_groups).0) in
          let (used, p, q) =
            loop-Used now c tolerant ignore (times_of c) d (start_of c) c.process_groups
              (ground (arith, before, few, l, n, diff)) in
          ground (arith, ap in_flight e, p, q, before, few, l, n, diff)
    ]
