-- ===== src/Database.antt =====
-- The regions of a database configuration, and the switch of the primary data center: Region, DataCenter
-- and FailOver of api/v1beta2/foundationdb_database_configuration.go. FailOver copies the other fields of
-- the configuration.
pub mod FailOver
pub mod Configuration
pub mod DataCenters
pub mod Processes
pub mod Change
use fdb_kubernetes_operator.Common.{
  String, Bool, true, false, not, List, [], ◌∷◌, ◌++◌, map, if◌then◌else◌, ◌==◌, string_eq,
  is_empty, insert, length, leb,
}
use fdb_kubernetes_operator.Common.Int.{ℤ, pos, int_eq}

pub record DataCenter : Type 0 where
  pub id : String
  pub priority : ℤ
  pub satellite : ℤ

pub record Region : Type 0 where
  pub data_centers : List DataCenter
  pub satellite_logs : ℤ
  pub satellite_redundancy_mode : String

abbrev pub is_satellite : DataCenter → Bool
is_satellite dc = dc.satellite == pos 1

-- The loops that fill the map of priorities.
unfoldable pub add_priorities : List (String × ℤ) → List DataCenter → List (String × ℤ)
add_priorities m [] = m
add_priorities m (dc ∷ dcs) =
    add_priorities (if is_satellite dc then m else insert dc.id dc.priority m) dcs

unfoldable pub priorities : List (String × ℤ) → List Region → List (String × ℤ)
unfolding add_priorities
priorities m [] = m
priorities m (r ∷ rs) = priorities (add_priorities m r.data_centers) rs

-- The loop over the map for a main data center.
unfoldable pub with_other_priorities : DataCenter → List (String × ℤ) → List DataCenter
with_other_priorities dc [] = []
with_other_priorities dc ((key, val) ∷ m) =
    if key == dc.id
    then with_other_priorities dc m
    else record { id = dc.id; priority = val; satellite = pos 0 } ∷ with_other_priorities dc m

unfoldable pub new_data_centers : List (String × ℤ) → List DataCenter → List DataCenter
unfolding with_other_priorities
new_data_centers m [] = []
new_data_centers m (dc ∷ dcs) =
    (if is_satellite dc then dc ∷ [] else with_other_priorities dc m) ++ new_data_centers m dcs

-- The fields for the satellites are copied in the loop over the data centers, so not for a region
-- without one.
unfoldable pub new_region : List (String × ℤ) → Region → Region
unfolding new_data_centers
new_region m r =
    if is_empty r.data_centers
    then record { data_centers = []; satellite_logs = pos 0; satellite_redundancy_mode = "" }
    else record r { data_centers = new_data_centers m r.data_centers }

unfoldable pub fail_over : List Region → List Region
unfolding priorities new_region
fail_over regions =
    if leb (length regions) 1 then regions else map (new_region (priorities [] regions)) regions
