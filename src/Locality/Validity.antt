-- ===== src/Locality/Validity.antt =====
-- CheckCoordinatorValidity of internal/locality/locality.go, and the check of a new choice in
-- selectCoordinatorsLocalities of internal/coordinator/coordinator.go. Logging is left out.
pub mod Bounds
pub mod Checked
use fdb_kubernetes_operator.Common.{
  ℕ, zero, suc, String, Bool, true, false, not, ◌&&◌, ◌||◌, Option, none, some, List, [], ◌∷◌, map,
  if◌then◌else◌, ◌==◌, string_eq, nat_eq, ltb, is_empty, is_some, length, lookup, insert, deref,
}
use fdb_kubernetes_operator.Common.Int.{ℤ, pos, int_eq}
use fdb_kubernetes_operator.Address.{Net, ProcessAddress, address_string}
use fdb_kubernetes_operator.Database.Configuration.{desired_coordinator_count}
use fdb_kubernetes_operator.Locality.Candidates.{
  Parser, Process, Cluster, first_address, locality_of, is_eligible_as_candidate,
}
use fdb_kubernetes_operator.Locality.Choice.{Counts, Limits, add_count, set_counts}

-- What the loop over the processes changes.
pub record Findings : Type 0 where
  pub coordinator_status : List (String × Bool)
  pub coordinator_localities : Counts
  pub all_addresses_valid : Bool
  pub all_eligible : Bool
  pub all_using_correct_address : Bool

-- The keys of the hard limits.
abbrev pub limited_fields : Limits → List String
limited_fields limits = map (λ l. l.0) limits

-- The loop that counts the localities of a coordinator, for the fields that it has.
unfoldable pub count_localities : Counts → Process → List String → Counts
unfolding add_count
count_localities counts p [] = counts
count_localities counts p (f ∷ fs) =
    count_localities
      (if is_some (lookup f p.locality) then add_count counts f (locality_of f p) else counts) p fs

-- The addresses under which a process can be a coordinator.
abbrev pub dns_address : Process → ProcessAddress → ProcessAddress
dns_address p ip = record {
  ip_address = [];
  string_address = locality_of "dns_name" p;
  port = ip.port;
  flags = ip.flags;
  from_hostname = false;
}

-- The text under which the process is a coordinator: `coordinatorAddress`, with whether it is one by DNS.
unfoldable pub coordinator_address :
    Net → List (String × Bool) → Process → ProcessAddress → String × Bool
coordinator_address net status p ip =
    let by_ip = address_string net ip in
    let by_dns = address_string net (dns_address p ip) in
    let from_dns = address_string net (record ip { from_hostname = true }) in
    if is_some (lookup by_dns status)
    then (by_dns, true)
    else if is_some (lookup from_dns status)
    then (from_dns, true)
    else if is_some (lookup by_ip status)
    then (by_ip, false)
    else ("", false)

-- The process is not looked at.
abbrev pub is_ignored : Process → Bool
is_ignored p = is_empty p.address.ip_address || is_empty p.locality || p.process_class == "test"

-- The rest of the body of the loop, for the address of the process.
unfoldable pub check_address :
    Net → Cluster → List String → Findings → Process → ProcessAddress → Findings
unfolding coordinator_address count_localities is_eligible_as_candidate
check_address net c fields s p ip =
    let (address, with_dns) = coordinator_address net s.coordinator_status p ip in
    let with_ip = is_some (lookup (address_string net ip) s.coordinator_status) in
    let use_dns = c.use_dns_in_cluster_file && not (locality_of "dns_name" p == "") in
    let is_coordinator = not (address == "") in
    record {
      coordinator_status =
          if is_coordinator && not p.excluded
          then insert address true s.coordinator_status
          else s.coordinator_status;
      coordinator_localities =
          if is_coordinator
          then count_localities s.coordinator_localities p fields
          else s.coordinator_localities;
      all_addresses_valid = s.all_addresses_valid && not (is_empty ip.ip_address);
      all_eligible =
          s.all_eligible && (not is_coordinator || is_eligible_as_candidate c p.process_class);
      all_using_correct_address =
          s.all_using_correct_address
          && not (is_coordinator && ((with_ip && use_dns) || (with_dns && not use_dns)));
    }

unfoldable pub check_process : Net → Parser → Cluster → List String → Findings → Process → Findings
unfolding check_address first_address
check_process net parse c fields s p = if is_ignored p then s else elim (parse p.command_line) [
  | none ↦ record s { all_addresses_valid = false }
  | some addresses ↦ check_address net c fields s p (first_address c.enable_tls addresses)
]

unfoldable pub check_processes :
    Net → Parser → Cluster → List String → Findings → List Process → Findings
unfolding check_process
check_processes net parse c fields s [] = s
check_processes net parse c fields s (p ∷ ps) =
    check_processes net parse c fields (check_process net parse c fields s p) ps

-- No value has more processes than the limit.
unfoldable pub within_limit : ℕ → List (String × ℕ) → Bool
within_limit limit [] = true
within_limit limit ((value, n) ∷ m) = not (ltb limit n) && within_limit limit m

abbrev pub counts_of : Counts → String → List (String × ℕ)
counts_of counts field = deref (lookup field counts) []

unfoldable pub within_limits : Counts → Limits → Bool
unfolding within_limit
within_limits counts [] = true
within_limits counts ((field, limit) ∷ ls) =
    within_limit limit (counts_of counts field) && within_limits counts ls

unfoldable pub all_healthy : List (String × Bool) → Bool
all_healthy [] = true
all_healthy ((address, healthy) ∷ m) = healthy && all_healthy m

-- The two results, or `none` for the error that there are no coordinators; `limits` is what GetHardLimits
-- returns.
unfoldable pub check_coordinator_validity :
    Net → Parser → Cluster → Limits → List Process → List (String × Bool) → Option (Bool × Bool)
unfolding check_processes within_limits all_healthy desired_coordinator_count set_counts
check_coordinator_validity net parse c limits ps status =
    let s =
      check_processes net parse c (limited_fields limits)
        (record {
          coordinator_status = status;
          coordinator_localities = set_counts [] (limited_fields limits);
          all_addresses_valid = true;
          all_eligible = true;
          all_using_correct_address = true;
        })
        ps in
    let enough =
      pos (length (counts_of s.coordinator_localities "zoneid"))
      == desired_coordinator_count c.database_configuration in
    if is_empty status
    then none
    else some (
      enough
          && within_limits s.coordinator_localities limits
          && all_healthy s.coordinator_status
          && s.all_using_correct_address
          && s.all_eligible,
      s.all_addresses_valid,
    )
