-- ===== src/Tests/Checks.antt =====
-- The checks of a healthy status, and of one with a coordinator that is missing.
use fdb_kubernetes_operator.Common.{◌≡◌, ◌↔◌, refl, true, [], ◌∷◌, none, some}
use fdb_kubernetes_operator.Common.Int.{pos, ◌+ℤ◌}
use fdb_kubernetes_operator.Address.{of_string}
use fdb_kubernetes_operator.Status.{Status}
use fdb_kubernetes_operator.Status.Checks.{
  Health, has_desired_fault_tolerance, can_safely_exclude_or_include, configuration_change_allowed,
}
use fdb_kubernetes_operator.Status.Checks.Tolerance.{IsTolerant, has_desired_fault_tolerance_lem}
use fdb_kubernetes_operator.Status.Checks.Gates.{IsSafe, exclude_or_include, check_of-IsSafe}
use fdb_kubernetes_operator.Tests.Removal.{one_address}

abbrev quiet : Status
quiet = record {
  processes = [];
  messages = [];
  active_generations = pos 1;
  database_available = true;
}

abbrev healthy : Health
healthy = record {
  status = quiet;
  redundancy_mode = "triple";
  team_trackers = record { primary = true; min_replicas_remaining = pos 3 } ∷ [];
  logs =
      record {
        log_fault_tolerance = pos 2;
        log_replication_factor = pos 3;
        remote_log_fault_tolerance = pos 0;
        remote_log_replication_factor = pos 0;
        satellite_log_fault_tolerance = pos 0;
        satellite_log_replication_factor = pos 0;
      }
      ∷ [];
  coordinators = record { address = of_string "log-1"; reachable = true } ∷ [];
  quorum_reachable = true;
  can_clean_bounce = none;
  recovery_state = "fully_recovered";
  seconds_since_last_recovered = pos 600;
  data_healthy = true;
  worst_data_lag = pos 0;
  worst_durability_lag = pos 0;
  worst_queue_bytes_log = pos 0;
  worst_queue_bytes_storage = pos 0;
}

test_has_desired_fault_tolerance : has_desired_fault_tolerance healthy ≡ true
unfolding has_desired_fault_tolerance ◌+ℤ◌
test_has_desired_fault_tolerance = refl

test_configuration_change_allowed : configuration_change_allowed healthy (pos 60) true ≡ none
unfolding configuration_change_allowed
test_configuration_change_allowed = refl

test_include : can_safely_exclude_or_include healthy (some true) true (pos 120) ≡ none
unfolding can_safely_exclude_or_include
test_include = refl

has_desired_fault_tolerance_lem_example :
    (has_desired_fault_tolerance healthy ≡ true) ↔ IsTolerant healthy
has_desired_fault_tolerance_lem_example = has_desired_fault_tolerance_lem healthy

check_of-IsSafe_example : IsSafe healthy
check_of-IsSafe_example =
    check_of-IsSafe one_address healthy (exclude_or_include (some true) true (pos 120)) test_include
      refl
