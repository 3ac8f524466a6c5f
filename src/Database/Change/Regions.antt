-- ===== src/Database/Change/Regions.antt =====
-- Regions with one main data center, and what the loops of GetNextConfigurationChange in
-- api/v1beta2/foundationdb_database_configuration.go do on them.
use fdb_kubernetes_operator.Common.{
  ◌≡◌, refl, String, true, false, none, some, List, [], ◌∷◌, ◌==◌, string_eq, arith, eq_refl,
  nat_eq, All,
}
use fdb_kubernetes_operator.Common.Int.{ℤ, pos, int_eq}
use fdb_kubernetes_operator.Database.{DataCenter, Region}
use fdb_kubernetes_operator.Database.Change.Equal.{regions_equal, data_centers_equal, Priorities}
use fdb_kubernetes_operator.Database.DataCenters.{is_main}
use fdb_kubernetes_operator.Database.Change.{priorities_of_data_centers, set_priority, main_ids}

-- What a region has besides its main data center: further data centers, and its satellite logs and mode.
pub record Extras : Type 0 where
  pub others : List DataCenter
  pub logs : ℤ
  pub mode : String

-- The further data centers are satellites.
abbrev pub AreSatellites : List DataCenter → Type 0
AreSatellites dcs = All (λ dc. is_main dc ≡ false) dcs

-- A region whose first data center is the main one.
abbrev pub region : String → ℤ → Extras → Region
region id priority e = record {
  data_centers = record { id = id; priority = priority; satellite = pos 0 } ∷ e.others;
  satellite_logs = e.logs;
  satellite_redundancy_mode = e.mode;
}

pub priorities_of_satellites :
    (m : Priorities) (dcs : List DataCenter)
    → AreSatellites dcs
    → priorities_of_data_centers m dcs ≡ m
unfolding priorities_of_data_centers
priorities_of_satellites m [] h = refl
priorities_of_satellites m (dc ∷ dcs) (other, h) = rw other (priorities_of_satellites m dcs h)

pub set_priority_of_satellites :
    (id : String) (priority : ℤ) (dcs : List DataCenter)
    → AreSatellites dcs
    → set_priority id priority dcs ≡ none
unfolding set_priority
set_priority_of_satellites id priority [] h = refl
set_priority_of_satellites id priority (dc ∷ dcs) (other, h) =
    rw (other, set_priority_of_satellites id priority dcs h) refl

pub main_ids_of_satellites : (dcs : List DataCenter) → AreSatellites dcs → main_ids dcs ≡ []
unfolding main_ids
main_ids_of_satellites [] h = refl
main_ids_of_satellites (dc ∷ dcs) (other, h) = rw (other, main_ids_of_satellites dcs h) refl

pub int_eq_refl : (n : ℤ) → (n == n) ≡ true
int_eq_refl n = ground arith

pub main_found :
    (id : String) (old priority : ℤ) (dcs : List DataCenter)
    → (id == id) ≡ true
    → set_priority id priority (record { id = id; priority = old; satellite = pos 0 } ∷ dcs)
      ≡ some (record { id = id; priority = priority; satellite = pos 0 } ∷ dcs)
unfolding set_priority
main_found id old priority dcs h = rw h refl

pub main_not_found :
    (id other : String) (old priority : ℤ) (dcs : List DataCenter)
    → (other == id) ≡ false
    → AreSatellites dcs
    → set_priority id priority (record { id = other; priority = old; satellite = pos 0 } ∷ dcs)
      ≡ none
unfolding set_priority
main_not_found id other old priority dcs h s =
    rw (h, set_priority_of_satellites id priority dcs s) refl

pub data_centers_equal_refl : (dcs : List DataCenter) → data_centers_equal dcs dcs ≡ true
data_centers_equal_refl [] = refl
data_centers_equal_refl (dc ∷ dcs) = ground (
  arith,
  eq_refl dc.id,
  int_eq_refl dc.priority,
  int_eq_refl dc.satellite,
  data_centers_equal_refl dcs,
)

pub regions_equal_refl : (rs : List Region) → regions_equal rs rs ≡ true
regions_equal_refl [] = refl
regions_equal_refl (r ∷ rs) = ground (
  arith,
  int_eq_refl r.satellite_logs,
  eq_refl r.satellite_redundancy_mode,
  data_centers_equal_refl r.data_centers,
  regions_equal_refl rs,
)
