-- ===== src/Locality.antt =====
-- The choice of well-distributed processes and of coordinators: internal/locality/locality.go.
pub mod Sorting
pub mod Choice
pub mod Coordinators
pub mod Candidates
pub mod Validity
pub mod Selected
use fdb_kubernetes_operator.Common.{ℕ, String, List, lookup, deref}
use fdb_kubernetes_operator.Common.Int.{ℤ}
use fdb_kubernetes_operator.Address.{ProcessAddress}
use fdb_kubernetes_operator.ProcessGroup.{ProcessClassName}

pub record Info : Type 0 where
  pub id : String
  pub address : ProcessAddress
  pub locality_data : List (String × String)
  pub class : ProcessClassName
  pub priority : ℤ

-- `process.LocalityData[field]`, where a missing key reads as the empty string.
abbrev pub value_of : String → Info → String
value_of field p = deref (lookup field p.locality_data) ""
