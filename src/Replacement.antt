-- ===== src/Replacement.antt =====
-- The automatic replacement of failed process groups:
-- internal/replacements/replace_failed_process_groups.go, with the settings of
-- api/v1beta2/foundationdbcluster_types.go that it reads. A map to None is the list of its keys.
pub mod Justified
pub mod Limits
pub mod Domains
use fdb_kubernetes_operator.Common.{
  ℕ, ◌+◌, ◌≡◌, String, Bool, true, false, not, ◌&&◌, ◌||◌, Option, none, some, List, [], ◌∷◌, ◌++◌,
  if◌then◌else◌, ◌==◌, string_eq, contains, is_empty, is_some, length, lookup, insert, deref, suc,
}
use fdb_kubernetes_operator.Common.Int.{ℤ, pos, ltb_ℤ, leb_ℤ, int_eq, ◌-ℤ◌}
use fdb_kubernetes_operator.ProcessGroup.{
  Instant, ProcessGroupStatus, ProcessGroupId, FaultDomain, ProcessGroupConditionType, is_excluded,
  is_marked_for_removal, mark_for_removal, is_under_maintenance, get_condition_time,
  node_taint_replacing,
}
use fdb_kubernetes_operator.ProcessGroup.Replacement.{
  needs_replacement_with_conditions, default_conditions,
}

-- What the replacement reads of a FoundationDBCluster. `max_tainted` is intstr.GetScaledValueFromIntOrPercent
-- at the cluster's setting, as a function of the number of fault domains, where `none` is an error.
pub record Cluster : Type 0 where
  pub enabled : Option Bool
  pub max_concurrent_replacements : Option ℤ
  pub fault_domain_based_replacements : Option Bool
  pub failure_detection_time_seconds : Option ℤ
  pub taint_replacement_time_seconds : Option ℤ
  pub taint_replacement_options : List String
  pub max_tainted : ℕ → Option ℤ
  pub crash_loop_containers : List (String × List ProcessGroupId)
  pub use_localities_for_exclusion : Bool
  pub maintenance_zone : FaultDomain
  pub process_groups : List ProcessGroupStatus

abbrev pub max_concurrent : Cluster → ℤ
max_concurrent c = deref c.max_concurrent_replacements (pos 1)

-- `m[k] = None{}`
abbrev pub add_key : List String → String → List String
add_key s k = if contains s k then s else k ∷ s

abbrev add_targets : List ProcessGroupId → List ProcessGroupId → List ProcessGroupId
add_targets s [] = s
add_targets s (t ∷ ts) = add_targets (add_key s t) ts

-- `GetCrashLoopContainerProcessGroups`, on the map so far.
unfoldable pub crash_loop_groups :
    List (String × List ProcessGroupId)
    → List (String × List ProcessGroupId)
    → List (String × List ProcessGroupId)
crash_loop_groups m [] = m
crash_loop_groups m ((name, targets) ∷ rest) =
    crash_loop_groups (insert name (add_targets (deref (lookup name m) []) targets) m) rest

-- The loop over that map: `none` if everything is targeted, and otherwise the targets that are ignored, which are
-- those of the last key that the loop comes to.
unfoldable pub ignored :
    List ProcessGroupId → List (String × List ProcessGroupId) → Option (List ProcessGroupId)
ignored ignore [] = some ignore
ignored ignore ((name, targets) ∷ m) = if contains targets "*" then none else ignored targets m

abbrev pub is_in_flight : ProcessGroupStatus → Bool
is_in_flight g = is_marked_for_removal g && not (is_excluded g)

-- The loop of `getReplacementInformation`.
unfoldable pub in_flight_loop :
    ℕ × List FaultDomain → List ProcessGroupStatus → ℕ × List FaultDomain
in_flight_loop s [] = s
in_flight_loop s (g ∷ gs) =
    in_flight_loop (if is_in_flight g then (suc s.0, add_key s.1 g.fault_domain) else s) gs

unfoldable pub get_replacement_information : List ProcessGroupStatus → ℤ → ℤ × List FaultDomain
unfolding in_flight_loop
get_replacement_information gs max_replacements =
    let r = in_flight_loop (0, []) gs in (max_replacements -ℤ pos r.0, r.1)

unfoldable pub removal_allowed : Cluster → ℤ → List FaultDomain → FaultDomain → Bool
removal_allowed c max_replacements with_replacements fault_domain =
    if not (deref c.fault_domain_based_replacements false)
    then ltb_ℤ (pos 0) max_replacements
    else if ltb_ℤ (max_concurrent c) (pos (length with_replacements))
    then false
    else if pos (length with_replacements) == max_concurrent c
    then contains with_replacements fault_domain
    else true

-- `GetMaxFaultDomainsWithTaintedProcessGroups`
unfoldable pub get_max_tainted : Cluster → ℕ → Option ℤ
get_max_tainted c count = elim (c.max_tainted count) [
  | none ↦ none
  | some n ↦ some (if ltb_ℤ n (pos 1) then pos 1 else n)
]

-- The loop of `nodeTaintReplacementsAllowed`.
unfoldable pub taint_loop :
    List FaultDomain × List FaultDomain
    → List ProcessGroupStatus
    → List FaultDomain × List FaultDomain
unfolding get_condition_time
taint_loop s [] = s
taint_loop s (g ∷ gs) =
    let seen = add_key s.0 g.fault_domain in
    let tainted =
      if contains s.1 g.fault_domain
      then s.1
      else if is_some (get_condition_time node_taint_replacing g)
      then add_key s.1 g.fault_domain
      else s.1 in
    taint_loop (if g.fault_domain == "" then s else (seen, tainted)) gs

-- The answer, where an error counts as false, as its only caller does.
unfoldable pub node_taint_replacements_allowed : Cluster → Bool
unfolding taint_loop get_max_tainted
node_taint_replacements_allowed c =
    let domains = taint_loop ([], []) c.process_groups in
    if is_empty c.taint_replacement_options
    then false
    else elim (get_max_tainted c (length domains.0)) [
      | none ↦ false
      | some maximum ↦ leb_ℤ (pos (length domains.1)) maximum
    ]

-- What the loop of `ReplaceFailedProcessGroups` changes, but for the process groups.
pub record Progress : Type 0 where
  pub max_replacements : ℤ
  pub with_replacements : List FaultDomain
  pub has_replacement : Bool
  pub has_more_failed_processes : Bool

-- What the body of the loop does with a process group; `replace` says whether to skip the exclusion.
pub data Verdict : Type 0 where
  skip limited : Verdict
  replace : Bool → Verdict

-- The settings that the function reads before its loop.
pub record Times : Type 0 where
  pub failure_detection : ℤ
  pub taint_replacement : ℤ

unfoldable pub verdict_of :
    Instant → Cluster → Bool → List ProcessGroupId → Times → Progress → ProcessGroupStatus → Verdict
unfolding removal_allowed is_marked_for_removal is_under_maintenance
verdict_of now c has_desired_fault_tolerance ignore times s g =
    let failure_time =
      (needs_replacement_with_conditions now times.failure_detection times.taint_replacement
        default_conditions g).1 in
    let no_address = is_empty g.addresses && not c.use_localities_for_exclusion in
    if is_marked_for_removal g
    then skip
    else if is_under_maintenance c.maintenance_zone g
    then skip
    else if contains ignore g.process_group_id
    then skip
    else if failure_time == pos 0
    then skip
    else if no_address && not has_desired_fault_tolerance
    then skip
    else if not (removal_allowed c s.max_replacements s.with_replacements g.fault_domain)
    then limited
    else replace no_address

unfoldable pub advance : Verdict → ProcessGroupStatus → Progress → Progress
advance skip g s = s
advance limited g s = record s { has_more_failed_processes = true }
advance (replace skip_exclusion) g s = record s {
  has_replacement = true;
  max_replacements = s.max_replacements -ℤ pos 1;
  with_replacements = add_key s.with_replacements g.fault_domain;
}

unfoldable pub change : Instant → Verdict → ProcessGroupStatus → ProcessGroupStatus
unfolding mark_for_removal
change now (replace skip_exclusion) g = record (mark_for_removal now g) {
  exclusion_skipped = skip_exclusion;
}
change now _ g = g

unfoldable pub replace_loop :
    Instant
    → Cluster
    → Bool
    → List ProcessGroupId
    → Times
    → Progress
    → List ProcessGroupStatus
    → Progress × List ProcessGroupStatus
unfolding verdict_of advance change
replace_loop now c tolerant ignore times s [] = (s, [])
replace_loop now c tolerant ignore times s (g ∷ gs) =
    let v = verdict_of now c tolerant ignore times s g in
    let rest = replace_loop now c tolerant ignore times (advance v g s) gs in
    (rest.0, change now v g ∷ rest.1)

-- The two settings, where node taints count only after a year if they are not allowed to be a reason.
unfoldable pub times_of : Cluster → Times
unfolding node_taint_replacements_allowed
times_of c = record {
  failure_detection = deref c.failure_detection_time_seconds (pos 7200);
  taint_replacement =
      if not (node_taint_replacements_allowed c)
      then pos 31536000
      else deref c.taint_replacement_time_seconds (pos 1800);
}

-- What the loop starts with.
unfoldable pub start_of : Cluster → Progress
unfolding get_replacement_information
start_of c =
    let start = get_replacement_information c.process_groups (max_concurrent c) in
    record {
      max_replacements = start.0;
      with_replacements = start.1;
      has_replacement = false;
      has_more_failed_processes = false;
    }

-- The two results, and the process groups afterwards.
pub record Replaced : Type 0 where
  pub has_replacement : Bool
  pub has_more_failed_processes : Bool
  pub process_groups : List ProcessGroupStatus

abbrev unchanged : Cluster → Replaced
unchanged c = record {
  has_replacement = false;
  has_more_failed_processes = false;
  process_groups = c.process_groups;
}

-- The order in which the loop goes through the map of crash-looping containers: its entries in that order.
abbrev pub TargetsOrder : Type 0
TargetsOrder = List (String × List ProcessGroupId) → List (String × List ProcessGroupId)

unfoldable pub replace_failed_process_groups : TargetsOrder → Instant → Cluster → Bool → Replaced
unfolding crash_loop_groups ignored start_of replace_loop times_of
replace_failed_process_groups order now c tolerant =
    if not (deref c.enabled true) || max_concurrent c == pos 0
    then unchanged c
    else elim (ignored [] (order (crash_loop_groups [] c.crash_loop_containers))) [
      | none ↦ unchanged c
      | some ignore ↦
          let r = replace_loop now c tolerant ignore (times_of c) (start_of c) c.process_groups in
          record {
            has_replacement = r.0.has_replacement;
            has_more_failed_processes = r.0.has_more_failed_processes;
            process_groups = r.1;
          }
    ]

abbrev pub groups_after : TargetsOrder → Instant → Cluster → Bool → List ProcessGroupStatus
groups_after order now c tolerant =
    (replace_failed_process_groups order now c tolerant).process_groups
