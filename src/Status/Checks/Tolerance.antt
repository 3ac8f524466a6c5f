-- ===== src/Status/Checks/Tolerance.antt =====
-- HasDesiredFaultToleranceFromStatus of pkg/fdbstatus/status_checks.go.
use fdb_kubernetes_operator.Common.{
  ◌≡◌, ◌≢◌, ◌↔◌, ◌⊎◌, refl, String, Bool, true, false, not, ◌&&◌, ◌||◌, Option, List, [], ◌∷◌,
  string_eq, any, is_empty, All, arith,
}
use fdb_kubernetes_operator.Common.Int.{ℤ, pos, ◌+ℤ◌, ltb_ℤ, ◌<ℤ◌, int_eq}
use fdb_kubernetes_operator.Database.Configuration.{minimum_fault_domains, desired_fault_tolerance}
use fdb_kubernetes_operator.Status.Checks.{
  Health, TeamTracker, LogInfo, Coordinator, has_desired_fault_tolerance, check_storage_servers,
  check_team_trackers, check_log_servers, check_logs, check_coordinators, passes, lacks_tolerance,
  CheckError, fails_if, ◌then_check◌, too_few_replicas, log_tolerance, no_team_trackers, no_logs,
  coordinators_unreachable, quorum_unreachable,
}

-- The logs are replicated as is asked for, where replication is asked for.
abbrev pub IsReplicated : ℤ → ℤ → Type 0
IsReplicated tolerance factor = (factor ≡ pos 0) ⊎ (tolerance +ℤ pos 1 ≡ factor)

abbrev pub HasTolerance : LogInfo → Type 0
HasTolerance l =
    IsReplicated l.log_fault_tolerance l.log_replication_factor
    × IsReplicated l.remote_log_fault_tolerance l.remote_log_replication_factor
    × IsReplicated l.satellite_log_fault_tolerance l.satellite_log_replication_factor

-- The cluster can lose as many replicas of each team as its redundancy mode promises and has one left, all its
-- logs are replicated, and all its coordinators are reachable.
abbrev pub IsTolerant : Health → Type 0
IsTolerant h =
    (h.status.database_available ≡ true)
    × (h.team_trackers ≢ [])
    × All (λ t. desired_fault_tolerance h.redundancy_mode <ℤ t.min_replicas_remaining)
        h.team_trackers
    × (h.logs ≢ [])
    × All HasTolerance h.logs
    × All (λ c. c.reachable ≡ true) h.coordinators
    × (h.quorum_reachable ≡ true)

minimum_lem :
    (mode : String) (n : ℤ)
    → (ltb_ℤ n (minimum_fault_domains mode) ≡ false) ↔ (desired_fault_tolerance mode <ℤ n)
unfolding minimum_fault_domains desired_fault_tolerance
minimum_lem mode n = ground arith

fails_if_lem :
    (b : Bool) (e : CheckError) (r : Option CheckError)
    → (passes (fails_if b e then_check r) ≡ true) ↔ (b ≡ false) × (passes r ≡ true)
fails_if_lem true e r = ((λ h. absurd (ground (arith, h))), (λ h. absurd (ground (arith, h))))
fails_if_lem false e r = ((λ h. (refl, h)), (λ h. h.1))

-- An equivalence for the first of the checks and one for the rest.
both {κ μ} :
    {A : Type κ} {B : Type μ} (b : Bool) (e : CheckError) (r : Option CheckError)
    → (b ≡ false) ↔ A
    → (passes r ≡ true) ↔ B
    → (passes (fails_if b e then_check r) ≡ true) ↔ A × B
both b e r (a, a') (c, c') =
    let (there, back) = fails_if_lem b e r in
    ((λ h. (a (there h).0, c (there h).1)), (λ h. back (a' h.0, c' h.1)))

teams_lem :
    (mode : String) (ts : List TeamTracker)
    → (passes (check_team_trackers (minimum_fault_domains mode) ts) ≡ true)
      ↔ All (λ t. desired_fault_tolerance mode <ℤ t.min_replicas_remaining) ts
unfolding check_team_trackers
teams_lem mode [] = ((λ h. tt), (λ h. refl))
teams_lem mode (t ∷ ts) =
    both (ltb_ℤ t.min_replicas_remaining (minimum_fault_domains mode)) (too_few_replicas t)
      (check_team_trackers (minimum_fault_domains mode) ts)
      (minimum_lem mode t.min_replicas_remaining) (teams_lem mode ts)

replicated_lem :
    (tolerance factor : ℤ)
    → (lacks_tolerance tolerance factor ≡ false) ↔ IsReplicated tolerance factor
replicated_lem tolerance factor = ground arith

or_lem : (a b c : Bool) → ((a || b || c) ≡ false) ↔ (a ≡ false) × (b ≡ false) × (c ≡ false)
or_lem a b c = ground arith

log_lem :
    (l : LogInfo)
    → ((lacks_tolerance l.log_fault_tolerance l.log_replication_factor
          || lacks_tolerance l.remote_log_fault_tolerance l.remote_log_replication_factor
          || lacks_tolerance l.satellite_log_fault_tolerance l.satellite_log_replication_factor)
        ≡ false)
      ↔ HasTolerance l
log_lem l =
    let (p, p') = replicated_lem l.log_fault_tolerance l.log_replication_factor in
    let (q, q') = replicated_lem l.remote_log_fault_tolerance l.remote_log_replication_factor in
    let (r, r') =
      replicated_lem l.satellite_log_fault_tolerance l.satellite_log_replication_factor in
    let (there, back) =
      or_lem (lacks_tolerance l.log_fault_tolerance l.log_replication_factor)
        (lacks_tolerance l.remote_log_fault_tolerance l.remote_log_replication_factor)
        (lacks_tolerance l.satellite_log_fault_tolerance l.satellite_log_replication_factor) in
    ((λ h. (p (there h).0, q (there h).1, r (there h).2)), (λ h. back (p' h.0, q' h.1, r' h.2)))

logs_lem : (ls : List LogInfo) → (passes (check_logs ls) ≡ true) ↔ All HasTolerance ls
unfolding check_logs
logs_lem [] = ((λ h. tt), (λ h. refl))
logs_lem (l ∷ ls) =
    both
      (lacks_tolerance l.log_fault_tolerance l.log_replication_factor
        || lacks_tolerance l.remote_log_fault_tolerance l.remote_log_replication_factor
        || lacks_tolerance l.satellite_log_fault_tolerance l.satellite_log_replication_factor)
      (log_tolerance l) (check_logs ls) (log_lem l) (logs_lem ls)

reachable_lem :
    (cs : List Coordinator)
    → (any (λ c. not c.reachable) cs ≡ false) ↔ All (λ c. c.reachable ≡ true) cs
reachable_lem [] = ((λ h. tt), (λ h. refl))
reachable_lem (c ∷ cs) = ground (arith, reachable_lem cs)

and_lem :
    (a b c d : Bool)
    → ((a && b && c && d) ≡ true) ↔ (a ≡ true) × (b ≡ true) × (c ≡ true) × (d ≡ true)
and_lem a b c d = ground arith

empty_lem {ℓ} : {A : Type ℓ} (xs : List A) → (is_empty xs ≡ false) ↔ (xs ≢ [])
empty_lem [] = ((λ h. absurd (ground (arith, h))), (λ h. absurd (h refl)))
empty_lem (x ∷ xs) = ((λ h e. ground (arith, e)), (λ h. refl))

storage_lem :
    (h : Health)
    → (passes (check_storage_servers h) ≡ true)
      ↔ (h.team_trackers ≢ [])
        × All
            (λ t. desired_fault_tolerance h.redundancy_mode <ℤ t.min_replicas_remaining)
            h.team_trackers
unfolding check_storage_servers
storage_lem h =
    both (is_empty h.team_trackers) no_team_trackers
      (check_team_trackers (minimum_fault_domains h.redundancy_mode) h.team_trackers)
      (empty_lem h.team_trackers) (teams_lem h.redundancy_mode h.team_trackers)

log_servers_lem :
    (h : Health) → (passes (check_log_servers h) ≡ true) ↔ (h.logs ≢ []) × All HasTolerance h.logs
unfolding check_log_servers
log_servers_lem h =
    both (is_empty h.logs) no_logs (check_logs h.logs) (empty_lem h.logs) (logs_lem h.logs)

quorum_lem : (b : Bool) → (passes (fails_if (not b) quorum_unreachable) ≡ true) ↔ (b ≡ true)
quorum_lem true = ((λ h. refl), (λ h. refl))
quorum_lem false = ((λ h. h), (λ h. h))

coordinators_lem :
    (h : Health)
    → (passes (check_coordinators h) ≡ true)
      ↔ All (λ c. c.reachable ≡ true) h.coordinators × (h.quorum_reachable ≡ true)
unfolding check_coordinators
coordinators_lem h =
    both (any (λ c. not c.reachable) h.coordinators) coordinators_unreachable
      (fails_if (not h.quorum_reachable) quorum_unreachable) (reachable_lem h.coordinators)
      (quorum_lem h.quorum_reachable)

-- HasDesiredFaultToleranceFromStatus holds exactly if the database is available, there are team trackers and each
-- has more replicas left than DesiredFaultTolerance promises to survive the loss of, there is information on
-- logs and each kind that is replicated has a tolerance of one less than its factor, and all coordinators and
-- a quorum are reachable.
pub has_desired_fault_tolerance_lem :
    (h : Health) → (has_desired_fault_tolerance h ≡ true) ↔ IsTolerant h
unfolding has_desired_fault_tolerance
has_desired_fault_tolerance_lem h =
    let (s, s') = storage_lem h in
    let (l, l') = log_servers_lem h in
    let (c, c') = coordinators_lem h in
    let (there, back) =
      and_lem h.status.database_available (passes (check_storage_servers h))
        (passes (check_log_servers h)) (passes (check_coordinators h)) in
    (
      (λ e.
          let (a, b, d, f) = there e in (a, (s b).0, (s b).1, (l d).0, (l d).1, (c f).0, (c f).1)),
      (λ (a, ts, teams, ls, logs, cs, q). back (a, s' (ts, teams), l' (ls, logs), c' (cs, q))),
    )
