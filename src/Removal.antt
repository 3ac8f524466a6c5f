-- ===== src/Removal.antt =====
-- The removal of process groups: internal/removals/remove.go and the selection in
-- controllers/remove_process_groups.go.
pub mod Zones
pub mod Remaining
pub mod Selection
pub mod Evidence
pub mod Safety
pub mod Inclusion
pub mod Confirmation
pub mod Reconcile
use fdb_kubernetes_operator.Common.{String, Bool, List}
use fdb_kubernetes_operator.ProcessGroup.{ProcessGroupStatus, ProcessGroupId}

-- What the removal reads of a FoundationDBCluster. The field for UseLocalitiesForExclusion() holds its
-- result.
pub record Cluster : Type 0 where
  pub data_center : String
  pub use_localities_for_exclusion : Bool
  pub process_groups : List ProcessGroupStatus
  pub block_removal : List ProcessGroupId
