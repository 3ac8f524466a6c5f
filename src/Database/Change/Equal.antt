-- ===== src/Database/Change/Equal.antt =====
-- reflect.DeepEqual on regions and on maps of priorities, in
-- api/v1beta2/foundationdb_database_configuration.go.
use fdb_kubernetes_operator.Common.{
  String, Bool, true, false, ◌&&◌, Option, none, some, List, [], ◌∷◌, ◌==◌, string_eq, lookup,
  deref,
}
use fdb_kubernetes_operator.Common.Int.{ℤ, pos, int_eq}
use fdb_kubernetes_operator.Database.{DataCenter, Region}

abbrev pub data_centers_equal : List DataCenter → List DataCenter → Bool
data_centers_equal [] [] = true
data_centers_equal [] (b ∷ bs) = false
data_centers_equal (a ∷ as_) [] = false
data_centers_equal (a ∷ as_) (b ∷ bs) =
    a.id == b.id
    && a.priority == b.priority
    && a.satellite == b.satellite
    && data_centers_equal as_ bs

abbrev pub regions_equal : List Region → List Region → Bool
regions_equal [] [] = true
regions_equal [] (b ∷ bs) = false
regions_equal (a ∷ as_) [] = false
regions_equal (a ∷ as_) (b ∷ bs) =
    data_centers_equal a.data_centers b.data_centers
    && a.satellite_logs == b.satellite_logs
    && a.satellite_redundancy_mode == b.satellite_redundancy_mode
    && regions_equal as_ bs

abbrev pub Priorities : Type 0
Priorities = List (String × ℤ)

-- `priorities[id]`, where a missing key reads as 0.
abbrev pub priority_of : String → Priorities → ℤ
priority_of id m = deref (lookup id m) (pos 0)

abbrev same_at : Option ℤ → ℤ → Bool
same_at none n = false
same_at (some m) n = m == n

-- The keys of the one map have the same values in the other.
abbrev included : Priorities → Priorities → Bool
included m [] = true
included m ((id, priority) ∷ n) = same_at (lookup id m) priority && included m n

abbrev pub priorities_equal : Priorities → Priorities → Bool
priorities_equal m n = included m n && included n m
