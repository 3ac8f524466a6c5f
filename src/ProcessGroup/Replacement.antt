-- ===== src/ProcessGroup/Replacement.antt =====
-- When the conditions of a process group ask for its replacement: NeedsReplacementWithConditions and
-- NeedsReplacement of api/v1beta2/foundationdbcluster_types.go. A set of condition types is the list of
-- its members.
use fdb_kubernetes_operator.Common.{
  ◌<◌, ◌≡◌, refl, Bool, true, false, ◌&&◌, ◌||◌, not, List, [], ◌∷◌, arith, if◌then◌else◌, ◌==◌,
  string_eq, contains, All, Bool-cases, inl, inr,
}
use fdb_kubernetes_operator.Common.Int.{ℤ, pos, ◌-ℤ◌, ltb_ℤ, ◌<ℤ◌, int_eq, -ℤ-IsInt64}
use fdb_kubernetes_operator.ProcessGroup.Window.{window_start, window_start_lem, IsDuration}
use fdb_kubernetes_operator.ProcessGroup.{
  Instant, ProcessGroupCondition, ProcessGroupStatus, ProcessGroupConditionType,
  is_marked_for_removal, node_taint_replacing, missing_processes, missing_pod, missing_pvc,
  pod_pending,
}

abbrev pub max_int64 : ℤ
max_int64 = pos 9_223_372_036_854_775_807

abbrev pub default_conditions : List ProcessGroupConditionType
default_conditions =
    missing_processes ∷ "PodFailing" ∷ missing_pod ∷ missing_pvc ∷ "MissingService" ∷ pod_pending
    ∷ node_taint_replacing ∷ "ProcessIsMarkedAsExcluded" ∷ "ProcessHasIOError"
    ∷ "SidecarUnreachable" ∷ "ProcessHasHighRunLoopBusy" ∷ []

-- The variables of the loop over the conditions.
pub record Scan : Type 0 where
  pub earliest_failure : ℤ
  pub earliest_taint : ℤ
  pub failure_condition : ProcessGroupConditionType
  pub needs_replacement : Bool

abbrev is_taint : ProcessGroupCondition → Bool
is_taint c = c.condition_type == node_taint_replacing

visit : List ProcessGroupConditionType → Scan → ProcessGroupCondition → Scan
visit needs s c =
    if not (contains needs c.condition_type)
    then s
    else if is_taint c
    then record s {
      needs_replacement = true;
      earliest_taint = if ltb_ℤ c.timestamp s.earliest_taint then c.timestamp else s.earliest_taint;
      failure_condition = c.condition_type;
    }
    else if ltb_ℤ c.timestamp s.earliest_failure
    then record s {
      needs_replacement = true;
      earliest_failure = c.timestamp;
      failure_condition = c.condition_type;
    }
    else record s { needs_replacement = true }

scan : List ProcessGroupConditionType → Scan → List ProcessGroupCondition → Scan
unfolding visit
scan needs s [] = s
scan needs s (c ∷ cs) = scan needs (visit needs s c) cs

abbrev scan_start : Scan
scan_start = record {
  earliest_failure = max_int64;
  earliest_taint = max_int64;
  failure_condition = "";
  needs_replacement = false;
}

-- What follows the loop, with the times before which a failure or a taint is too old.
verdict : ℤ → ℤ → Scan → ProcessGroupConditionType × ℤ
verdict failure_window taint_window s =
    if not s.needs_replacement
    then ("", pos 0)
    else if ltb_ℤ s.earliest_failure failure_window
    then (s.failure_condition, s.earliest_failure)
    else if ltb_ℤ s.earliest_taint taint_window
    then (s.failure_condition, s.earliest_taint)
    else ("", pos 0)

unfoldable pub needs_replacement_with_conditions :
    Instant
    → ℤ
    → ℤ
    → List ProcessGroupConditionType
    → ProcessGroupStatus
    → ProcessGroupConditionType × ℤ
unfolding scan verdict window_start
needs_replacement_with_conditions now failure_time taint_time needs s =
    if is_marked_for_removal s
    then ("", pos 0)
    else verdict (window_start now failure_time) (window_start now taint_time)
        (scan needs scan_start s.conditions)

unfoldable pub needs_replacement :
    Instant → ℤ → ℤ → ProcessGroupStatus → ProcessGroupConditionType × ℤ
unfolding needs_replacement_with_conditions
needs_replacement now failure_time taint_time s =
    needs_replacement_with_conditions now failure_time taint_time default_conditions s

-- Some condition of a class was there before the bound.
abbrev old_failure : List ProcessGroupConditionType → ℤ → List ProcessGroupCondition → Bool
old_failure needs bound [] = false
old_failure needs bound (c ∷ cs) =
    ((contains needs c.condition_type && not (is_taint c)) && ltb_ℤ c.timestamp bound)
    || old_failure needs bound cs

abbrev old_taint : List ProcessGroupConditionType → ℤ → List ProcessGroupCondition → Bool
old_taint needs bound [] = false
old_taint needs bound (c ∷ cs) =
    ((contains needs c.condition_type && is_taint c) && ltb_ℤ c.timestamp bound)
    || old_taint needs bound cs

abbrev relevant : List ProcessGroupConditionType → List ProcessGroupCondition → Bool
relevant needs [] = false
relevant needs (c ∷ cs) = contains needs c.condition_type || relevant needs cs

-- A process group is due for replacement: a condition of the set has lasted longer than the failure
-- time, or, for NodeTaintReplacing, than the taint replacement time.
abbrev pub is_due :
    Instant → ℤ → ℤ → List ProcessGroupConditionType → List ProcessGroupCondition → Bool
is_due now failure_time taint_time needs cs =
    old_failure needs (now.seconds -ℤ failure_time) cs
    || old_taint needs (now.seconds -ℤ taint_time) cs

-- Every condition was recorded after 1970.
abbrev pub Recorded : List ProcessGroupCondition → Type 0
Recorded cs = All (λ c. pos 0 <ℤ c.timestamp) cs

module _ (needs : List ProcessGroupConditionType) where
  scan-earliest_failure :
      (bound : ℤ) (s : Scan) (cs : List ProcessGroupCondition)
      → ltb_ℤ (scan needs s cs).earliest_failure bound
        ≡ (ltb_ℤ s.earliest_failure bound || old_failure needs bound cs)
  unfolding scan
  scan-earliest_failure bound s [] = ground arith
  scan-earliest_failure bound s (c ∷ cs) =
      ground (arith, scan-earliest_failure bound (visit needs s c) cs)

  scan-earliest_taint :
      (bound : ℤ) (s : Scan) (cs : List ProcessGroupCondition)
      → ltb_ℤ (scan needs s cs).earliest_taint bound
        ≡ (ltb_ℤ s.earliest_taint bound || old_taint needs bound cs)
  unfolding scan
  scan-earliest_taint bound s [] = ground arith
  scan-earliest_taint bound s (c ∷ cs) =
      ground (arith, scan-earliest_taint bound (visit needs s c) cs)

  scan-needs_replacement :
      (s : Scan) (cs : List ProcessGroupCondition)
      → (scan needs s cs).needs_replacement ≡ (s.needs_replacement || relevant needs cs)
  unfolding scan
  scan-needs_replacement s [] = ground arith
  scan-needs_replacement s (c ∷ cs) = ground (arith, scan-needs_replacement (visit needs s c) cs)

  old_failure-relevant :
      (bound : ℤ) (cs : List ProcessGroupCondition)
      → relevant needs cs ≡ false
      → old_failure needs bound cs ≡ false
  old_failure-relevant bound [] h = refl
  old_failure-relevant bound (c ∷ cs) h = ground (arith, old_failure-relevant bound cs)

  old_taint-relevant :
      (bound : ℤ) (cs : List ProcessGroupCondition)
      → relevant needs cs ≡ false
      → old_taint needs bound cs ≡ false
  old_taint-relevant bound [] h = refl
  old_taint-relevant bound (c ∷ cs) h = ground (arith, old_taint-relevant bound cs)

  scan_positive :
      (s : Scan) (cs : List ProcessGroupCondition)
      → Recorded cs
      → pos 0 <ℤ s.earliest_failure
      → pos 0 <ℤ s.earliest_taint
      → (pos 0 <ℤ (scan needs s cs).earliest_failure) × (pos 0 <ℤ (scan needs s cs).earliest_taint)
  unfolding scan
  scan_positive s [] r f t = (f, t)
  scan_positive s (c ∷ cs) r f t =
      scan_positive (visit needs s c) cs r.1 (ground (arith, r.0)) (ground (arith, r.0))

-- The maximum of int64 is below no difference of two values of int64.
ltb_ℤ-max_int64 : (a b : ℤ) → ltb_ℤ max_int64 (a -ℤ b) ≡ false
ltb_ℤ-max_int64 a b = ground (arith, -ℤ-IsInt64 a b)

verdict-is_due :
    (failure_window taint_window : ℤ) (needs : List ProcessGroupConditionType)
    (cs : List ProcessGroupCondition)
    → ltb_ℤ max_int64 failure_window ≡ false
    → ltb_ℤ max_int64 taint_window ≡ false
    → Recorded cs
    → ((verdict failure_window taint_window (scan needs scan_start cs)).1 == pos 0)
      ≡ not (old_failure needs failure_window cs || old_taint needs taint_window cs)
unfolding verdict
verdict-is_due failure_window taint_window needs cs f t r = ground (
  arith,
  scan-earliest_failure needs failure_window scan_start cs,
  scan-earliest_taint needs taint_window scan_start cs,
  scan-needs_replacement needs scan_start cs,
  old_failure-relevant needs failure_window cs,
  old_taint-relevant needs taint_window cs,
  scan_positive needs scan_start cs r (omega arith) (omega arith),
)

-- The time that NeedsReplacementWithConditions returns is 0 exactly when the process group is marked
-- for removal already or is not due: provided that the timestamps are positive and that both times fit into a
-- time.Duration, which is up to 9,223,372,036 seconds, it is not 0 whenever a condition of the given set is older
-- than the failure time, or a NodeTaintReplacing condition of the set is older than the taint replacement
-- time. The nanoseconds of the current time are below one second.
pub needs_replacement_with_conditions-is_due :
    (now : Instant) (failure_time taint_time : ℤ) (needs : List ProcessGroupConditionType)
    (s : ProcessGroupStatus)
    → Recorded s.conditions
    → now.nanos < 1_000_000_000
    → IsDuration failure_time
    → IsDuration taint_time
    → ((needs_replacement_with_conditions now failure_time taint_time needs s).1 == pos 0)
      ≡ (is_marked_for_removal s || not (is_due now failure_time taint_time needs s.conditions))
unfolding needs_replacement_with_conditions
needs_replacement_with_conditions-is_due now failure_time taint_time needs s r m f t =
    let due =
      verdict-is_due (now.seconds -ℤ failure_time) (now.seconds -ℤ taint_time) needs s.conditions
        (ltb_ℤ-max_int64 now.seconds failure_time) (ltb_ℤ-max_int64 now.seconds taint_time) r in
    elim (Bool-cases (is_marked_for_removal s)) [
      | inl e ↦ rw e refl
      | inr e ↦
          rw (e, window_start_lem now failure_time m f, window_start_lem now taint_time m t) due
    ]
