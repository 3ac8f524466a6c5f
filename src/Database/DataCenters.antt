-- ===== src/Database/DataCenters.antt =====
-- The data centers of the regions: GetPrimaryDCID, GetMainDCsAndSatellites, CountUniqueDataCenters and
-- getRegionPriorities of api/v1beta2/foundationdb_database_configuration.go. A set is the list of the keys
-- of a map to nothing.
pub mod Primary
pub mod Sets
use Prim.Native.Nat.{◌-◌, ◌^◌}
use fdb_kubernetes_operator.Common.{
  ℕ, String, Bool, ◌&&◌, List, [], ◌∷◌, ◌++◌, if◌then◌else◌, ◌==◌, string_eq, length, contains,
  insert,
}
use fdb_kubernetes_operator.Common.Int.{ℤ, min_int, pos, negsuc, ltb_ℤ, int_eq}
use fdb_kubernetes_operator.Database.{DataCenter, Region}

abbrev pub is_main : DataCenter → Bool
is_main dc = dc.satellite == pos 0

-- The data centers of all regions, in the order in which the loops go through them.
abbrev pub all_data_centers : List Region → List DataCenter
all_data_centers [] = []
all_data_centers (r ∷ rs) = r.data_centers ++ all_data_centers rs

-- The candidate and its priority.
unfoldable pub primary_of_data_centers : String × ℤ → List DataCenter → String × ℤ
primary_of_data_centers best [] = best
primary_of_data_centers best (dc ∷ dcs) =
    primary_of_data_centers
      (if is_main dc && ltb_ℤ best.1 dc.priority then (dc.id, dc.priority) else best) dcs

unfoldable pub primary_of_regions : String × ℤ → List Region → String × ℤ
unfolding primary_of_data_centers
primary_of_regions best [] = best
primary_of_regions best (r ∷ rs) =
    primary_of_regions (primary_of_data_centers best r.data_centers) rs

unfoldable pub primary_dc_id : List Region → String
unfolding primary_of_regions
primary_dc_id regions = (primary_of_regions ("", min_int) regions).0

abbrev pub add_id : String → List String → List String
add_id k keys = if contains keys k then keys else k ∷ keys

unfoldable pub delete_id : String → List String → List String
delete_id k [] = []
delete_id k (j ∷ keys) = if j == k then delete_id k keys else j ∷ delete_id k keys

-- The main data centers and the satellites.
unfoldable pub sets_of_data_centers :
    List String × List String → List DataCenter → List String × List String
unfolding delete_id
sets_of_data_centers s [] = s
sets_of_data_centers s (dc ∷ dcs) =
    sets_of_data_centers
      (if is_main dc
        then (add_id dc.id s.0, delete_id dc.id s.1)
        else if contains s.0 dc.id
        then s
        else (s.0, add_id dc.id s.1))
      dcs

unfoldable pub sets_of_regions : List String × List String → List Region → List String × List String
unfolding sets_of_data_centers
sets_of_regions s [] = s
sets_of_regions s (r ∷ rs) = sets_of_regions (sets_of_data_centers s r.data_centers) rs

abbrev pub main_dcs_and_satellites : List Region → List String × List String
main_dcs_and_satellites regions = sets_of_regions ([], []) regions

unfoldable pub ids_of_data_centers : List String → List DataCenter → List String
ids_of_data_centers ids [] = ids
ids_of_data_centers ids (dc ∷ dcs) = ids_of_data_centers (add_id dc.id ids) dcs

unfoldable pub ids_of_regions : List String → List Region → List String
unfolding ids_of_data_centers
ids_of_regions ids [] = ids
ids_of_regions ids (r ∷ rs) = ids_of_regions (ids_of_data_centers ids r.data_centers) rs

unfoldable pub count_unique_data_centers : List Region → ℕ
unfolding ids_of_regions
count_unique_data_centers regions = length (ids_of_regions [] regions)
