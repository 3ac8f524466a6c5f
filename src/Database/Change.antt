-- ===== src/Database/Change.antt =====
-- The next step from one database configuration to another: GetNextConfigurationChange of
-- api/v1beta2/foundationdb_database_configuration.go. A nil slice and an empty one, which
-- reflect.DeepEqual tells apart, are the same list here, so that regions which differ in this alone count as
-- equal. The order in which Go's loops go through the maps of priorities is a parameter.
pub mod Equal
pub mod Steps
pub mod Counts
pub mod Removal
pub mod Regions
pub mod Passing
pub mod Migration
use fdb_kubernetes_operator.Common.{
  ℕ, zero, suc, ◌-◌, String, Bool, true, false, not, ◌&&◌, ◌||◌, Option, none, some, List, [], ◌∷◌,
  ◌++◌, map, if◌then◌else◌, ◌==◌, string_eq, nat_eq, ltb, any, select, length, lookup, insert,
  deref, is_some, is_empty,
}
use fdb_kubernetes_operator.Common.Int.{ℤ, pos, negsuc, ltb_ℤ, leb_ℤ, ◌-ℤ◌, int_eq}
use fdb_kubernetes_operator.Database.{DataCenter, Region}
use fdb_kubernetes_operator.Database.Configuration.{Configuration, main_data_center}
use fdb_kubernetes_operator.Database.DataCenters.{is_main}
use fdb_kubernetes_operator.Database.Change.Equal.{
  regions_equal, Priorities, priorities_equal, priority_of,
}

-- The order in which the loops of a call go through a map of priorities: the entries in that order.
abbrev pub MapOrder : Type 0
MapOrder = Priorities → Priorities

unfoldable pub priorities_of_data_centers : Priorities → List DataCenter → Priorities
priorities_of_data_centers m [] = m
priorities_of_data_centers m (dc ∷ dcs) =
    priorities_of_data_centers (if is_main dc then insert dc.id dc.priority m else m) dcs

unfoldable pub region_priorities : Priorities → List Region → Priorities
unfolding priorities_of_data_centers
region_priorities m [] = m
region_priorities m (r ∷ rs) = region_priorities (priorities_of_data_centers m r.data_centers) rs

-- The data centers with a new priority for the first main one with the ID, if there is one.
unfoldable pub set_priority : String → ℤ → List DataCenter → Option (List DataCenter)
set_priority id priority [] = none
set_priority id priority (dc ∷ dcs) =
    let rest = set_priority id priority dcs in
    if is_main dc && dc.id == id
    then some (record dc { priority = priority } ∷ dcs)
    else elim rest [ none ↦ none | some changed ↦ some (dc ∷ changed) ]

-- `getRegion`
unfoldable pub get_region : List Region → String → ℤ → Region
unfolding set_priority
get_region [] id priority = record {
  data_centers = record { id = id; priority = priority; satellite = pos 0 } ∷ [];
  satellite_logs = pos 0;
  satellite_redundancy_mode = "";
}
get_region (r ∷ rs) id priority = elim (set_priority id priority r.data_centers) [
  | some dcs ↦ record r { data_centers = dcs }
  | none ↦ get_region rs id priority
]

unfoldable pub first_main : List DataCenter → Option DataCenter
first_main [] = none
first_main (dc ∷ dcs) = if is_main dc then some dc else first_main dcs

-- Step 1, for one region.
unfoldable pub update_satellites : List Region → Region → Region
unfolding get_region first_main
update_satellites final r = elim (first_main r.data_centers) [
  | none ↦ r
  | some dc ↦ get_region final dc.id dc.priority
]

-- The loop of step 2 for the data center to add, or the empty text.
unfoldable pub region_to_add : Priorities → Priorities → String → Priorities → String
region_to_add current next candidate [] = candidate
region_to_add current next candidate ((id, priority) ∷ m) =
    region_to_add current next
      (if not (is_some (lookup id current))
          && (candidate == "" || ltb_ℤ (priority_of candidate next) priority)
        then id
        else candidate)
      m

-- Step 2, while there are fewer than two regions: the number is how many are missing.
unfoldable pub add_regions :
    MapOrder → ℕ → List Region → Priorities → List Region × Priorities → List Region × Priorities
unfolding region_to_add get_region
add_regions order zero final next s = s
add_regions order (suc n) final next (regions, current) =
    let id = region_to_add current next "" (order next) in
    let priority = if is_empty regions then pos 1 else negsuc 0 in
    let rest =
      add_regions order n final next
        (regions ++ get_region final id priority ∷ [], insert id priority current) in
    if id == "" then (regions, current) else rest

unfoldable pub main_ids : List DataCenter → List String
main_ids [] = []
main_ids (dc ∷ dcs) = if is_main dc then dc.id ∷ main_ids dcs else main_ids dcs

unfoldable pub current_regions : List Region → List String
unfolding main_ids
current_regions [] = []
current_regions (r ∷ rs) = main_ids r.data_centers ++ current_regions rs

abbrev pub is_main_with : String → DataCenter → Bool
is_main_with id dc = is_main dc && dc.id == id

unfoldable pub without_region : String → List Region → List Region
without_region id regions = select (λ r. not (any (is_main_with id) r.data_centers)) regions

-- Whether step 3 is about this data center: it is to be removed.
abbrev pub to_remove : Configuration → Configuration → Priorities → String → Bool
to_remove c final final_priorities id =
    not (is_some (lookup id final_priorities))
    && ltb 1 (length c.regions)
    && not (is_empty final.regions)

-- The removal of a region: first the number of usable regions, then the region.
unfoldable pub remove_region : Configuration → String → Configuration
unfolding without_region
remove_region result id =
    let n = pos (length result.regions) -ℤ pos 1 in
    if not (result.usable_regions == n)
    then record result { usable_regions = n }
    else record result { regions = without_region id result.regions }

-- The first loop of step 3: a region with a negative priority.
unfoldable pub remove_negative :
    Configuration
    → Configuration
    → Priorities
    → Priorities
    → Configuration
    → List String
    → Option Configuration
unfolding remove_region
remove_negative c final current final_priorities result [] = none
remove_negative c final current final_priorities result (id ∷ ids) =
    let rest = remove_negative c final current final_priorities result ids in
    if to_remove c final final_priorities id && ltb_ℤ (priority_of id current) (pos 0)
    then some (remove_region result id)
    else rest

abbrev pub demote : String → Region → Region
demote id r = record r {
  data_centers =
      map (λ dc. if is_main_with id dc then record dc { priority = negsuc 0 } else dc)
        r.data_centers;
}

-- The first main data center with another ID gets the priority 1.
unfoldable pub promote_first : String → List DataCenter → List DataCenter
promote_first id [] = []
promote_first id (dc ∷ dcs) =
    if is_main dc && not (dc.id == id)
    then record dc { priority = pos 1 } ∷ dcs
    else dc ∷ promote_first id dcs

abbrev pub promote : String → Region → Region
promote id r = record r { data_centers = promote_first id r.data_centers }

abbrev pub is_alternative : String → DataCenter → Bool
is_alternative id dc = is_main dc && not (dc.id == id) && ltb_ℤ (pos 0) dc.priority

unfoldable pub demote_region : Configuration → String → Configuration
unfolding promote_first
demote_region result id =
    let has_alternative = any (λ r. any (is_alternative id) r.data_centers) result.regions in
    let demoted = map (demote id) result.regions in
    record result { regions = if has_alternative then demoted else map (promote id) demoted }

-- The second loop of step 3.
unfoldable pub remove_other :
    Configuration
    → Configuration
    → Priorities
    → Priorities
    → Configuration
    → List String
    → Option Configuration
unfolding remove_region demote_region
remove_other c final current final_priorities result [] = none
remove_other c final current final_priorities result (id ∷ ids) =
    let rest = remove_other c final current final_priorities result ids in
    let priority = priority_of id current in
    if to_remove c final final_priorities id
      && not (ltb_ℤ (pos 0) priority && ltb_ℤ c.usable_regions (pos 2))
    then some (if leb_ℤ (pos 0) priority then demote_region result id else remove_region result id)
    else rest

-- The loops of step 4 over one map: the keys that the other lacks get the priority -1 there, and the key
-- with the highest priority.
unfoldable pub fill_missing : Priorities → Priorities → Priorities
fill_missing other [] = other
fill_missing other ((id, priority) ∷ m) =
    fill_missing (if is_some (lookup id other) then other else insert id (negsuc 0) other) m

unfoldable pub highest : Priorities → String → Priorities → String
highest all best [] = best
highest all best ((id, priority) ∷ m) =
    highest all (if best == "" || ltb_ℤ (priority_of best all) priority then id else best) m

-- The two maps that step 4 compares.
unfoldable pub step_priorities : MapOrder → Priorities → Priorities → Priorities × Priorities
unfolding fill_missing highest
step_priorities order current next =
    let filled = fill_missing next (order current) in
    let max_current = highest current "" (order current) in
    let current_filled = fill_missing current (order filled) in
    let max_next = highest filled "" (order filled) in
    (
      current_filled,
      if max_next == "" || ltb_ℤ (priority_of max_next filled) (pos 0)
          then insert max_current (priority_of max_current current_filled) filled
          else filled,
    )

-- The first main data center gets its new priority.
unfoldable pub assign_first : Priorities → List DataCenter → List DataCenter
assign_first next [] = []
assign_first next (dc ∷ dcs) =
    if is_main dc
    then record dc { priority = priority_of dc.id next } ∷ dcs
    else dc ∷ assign_first next dcs

abbrev pub assign : Priorities → Region → Region
assign next r = record r { data_centers = assign_first next r.data_centers }

-- Steps 4, 5 and 6.
unfoldable pub set_priorities :
    MapOrder
    → Configuration
    → Configuration
    → Priorities
    → Priorities
    → Configuration
    → Configuration
unfolding step_priorities assign_first
set_priorities order c final current next result =
    let p = step_priorities order current next in
    let n = pos (length c.regions) in
    if not (priorities_equal p.0 p.1)
    then if not (c.usable_regions == n)
      then record result { usable_regions = n }
      else record result { regions = map (assign p.1) result.regions }
    else if not (c.usable_regions == final.usable_regions)
    then record result { usable_regions = final.usable_regions }
    else record result { regions = final.regions }

-- What is done with the regions after steps 1 and 2.
unfoldable pub change_regions :
    MapOrder
    → Configuration
    → Configuration
    → Priorities
    → Priorities
    → Configuration
    → Configuration
unfolding remove_negative remove_other set_priorities current_regions
change_regions order c final current final_priorities result =
    let ids = current_regions c.regions in
    if not (length result.regions == length c.regions)
    then result
    else elim (remove_negative c final current final_priorities result ids) [
      | some next ↦ next
      | none ↦ elim (remove_other c final current final_priorities result ids) [
        | some next ↦ next
        | none ↦ set_priorities order c final current final_priorities result
      ]
    ]

unfoldable pub get_next_configuration_change :
    MapOrder → Configuration → Configuration → Configuration
unfolding region_priorities update_satellites add_regions change_regions
get_next_configuration_change order c final =
    let final_priorities = region_priorities [] final.regions in
    let updated = map (update_satellites final.regions) c.regions in
    let added =
      add_regions order (2 - length updated) final.regions final_priorities
        (updated, region_priorities [] c.regions) in
    if regions_equal c.regions final.regions
    then final
    else change_regions order c final added.1 final_priorities (record c { regions = added.0 })
