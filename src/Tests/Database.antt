-- ===== src/Tests/Database.antt =====
-- A fail over between two data centers.
use fdb_kubernetes_operator.Common.{◌≡◌, refl, [], ◌∷◌}
use fdb_kubernetes_operator.Common.Int.{pos}
use fdb_kubernetes_operator.Database.{fail_over}
use fdb_kubernetes_operator.Database.FailOver.{Site, region_of, fail_over_lem}

abbrev dc1 : Site
dc1 = record {
  id = "dc1";
  priority = pos 1;
  satellites = record { id = "dc3"; priority = pos 1; satellite = pos 1 } ∷ [];
  satellite_logs = pos 3;
  satellite_redundancy_mode = "one_satellite_double";
}

abbrev dc2 : Site
dc2 = record {
  id = "dc2";
  priority = pos 0;
  satellites = [];
  satellite_logs = pos 3;
  satellite_redundancy_mode = "one_satellite_double";
}

fail_over_lem_example :
    (fail_over (region_of dc1 ∷ region_of dc2 ∷ [])
      ≡ region_of (record dc1 { priority = pos 0 })
        ∷ region_of (record dc2 { priority = pos 1 })
        ∷ [])
    × (fail_over (fail_over (region_of dc1 ∷ region_of dc2 ∷ []))
        ≡ region_of dc1 ∷ region_of dc2 ∷ [])
fail_over_lem_example = fail_over_lem dc1 dc2 refl (refl, tt) tt
