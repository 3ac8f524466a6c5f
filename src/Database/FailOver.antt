-- ===== src/Database/FailOver.antt =====
-- What FailOver of api/v1beta2/foundationdb_database_configuration.go does to two regions.
use fdb_kubernetes_operator.Common.{
  ◌≡◌, refl, String, true, false, List, [], ◌∷◌, ◌==◌, string_eq, insert, All, arith, eq_iff,
  eq_refl, ap, ◌∙◌,
}
use fdb_kubernetes_operator.Common.Int.{ℤ, pos, int_eq}
use fdb_kubernetes_operator.Database.{
  DataCenter, Region, is_satellite, add_priorities, priorities, with_other_priorities,
  new_data_centers, new_region, fail_over,
}

-- A main data center with its satellites.
pub record Site : Type 0 where
  pub id : String
  pub priority : ℤ
  pub satellites : List DataCenter
  pub satellite_logs : ℤ
  pub satellite_redundancy_mode : String

abbrev pub region_of : Site → Region
region_of s = record {
  data_centers = record { id = s.id; priority = s.priority; satellite = pos 0 } ∷ s.satellites;
  satellite_logs = s.satellite_logs;
  satellite_redundancy_mode = s.satellite_redundancy_mode;
}

abbrev pub AllSatellites : Site → Type 0
AllSatellites s = All (λ dc. is_satellite dc ≡ true) s.satellites

add_priorities-satellites :
    (m : List (String × ℤ)) (dcs : List DataCenter)
    → All (λ dc. is_satellite dc ≡ true) dcs
    → add_priorities m dcs ≡ m
unfolding add_priorities
add_priorities-satellites m [] h = refl
add_priorities-satellites m (dc ∷ dcs) (a, h) = rw a (add_priorities-satellites m dcs h)

new_data_centers-satellites :
    (m : List (String × ℤ)) (dcs : List DataCenter)
    → All (λ dc. is_satellite dc ≡ true) dcs
    → new_data_centers m dcs ≡ dcs
unfolding new_data_centers
new_data_centers-satellites m [] h = refl
new_data_centers-satellites m (dc ∷ dcs) (a, h) =
    rw a (ap (λ l. dc ∷ l) (new_data_centers-satellites m dcs h))

priorities_of_two :
    (s t : Site)
    → (s.id == t.id) ≡ false
    → AllSatellites s
    → AllSatellites t
    → priorities [] (region_of s ∷ region_of t ∷ []) ≡ (s.id, s.priority) ∷ (t.id, t.priority) ∷ []
unfolding priorities add_priorities insert
priorities_of_two s t n a b =
    rw
      (
        add_priorities-satellites ((s.id, s.priority) ∷ []) s.satellites a,
        n,
        add_priorities-satellites ((s.id, s.priority) ∷ (t.id, t.priority) ∷ []) t.satellites b,
      )
      refl

id_sym : (a b : String) → (a == b) ≡ false → (b == a) ≡ false
id_sym a b h = ground (arith, h, eq_iff a b, eq_iff b a)

swapped :
    (x y : Site)
    → (x.id == y.id) ≡ false
    → AllSatellites x
    → AllSatellites y
    → fail_over (region_of x ∷ region_of y ∷ [])
      ≡ region_of (record x { priority = y.priority })
        ∷ region_of (record y { priority = x.priority })
        ∷ []
unfolding fail_over new_region new_data_centers with_other_priorities
swapped x y m c d =
    let both = priorities [] (region_of x ∷ region_of y ∷ []) in
    rw
      (
        new_data_centers-satellites both x.satellites c,
        new_data_centers-satellites both y.satellites d,
        priorities_of_two x y m c d,
        eq_refl x.id,
        eq_refl y.id,
        m,
        id_sym x.id y.id m,
      )
      refl

-- With two regions, each a main data center and its satellites, FailOver swaps the priorities of the two
-- main data centers and keeps all else, so that a second FailOver undoes the first.
pub fail_over_lem :
    (s t : Site)
    → (s.id == t.id) ≡ false
    → AllSatellites s
    → AllSatellites t
    → (fail_over (region_of s ∷ region_of t ∷ [])
        ≡ region_of (record s { priority = t.priority })
          ∷ region_of (record t { priority = s.priority })
          ∷ [])
      × (fail_over (fail_over (region_of s ∷ region_of t ∷ [])) ≡ region_of s ∷ region_of t ∷ [])
fail_over_lem s t n a b =
    let once = swapped s t n a b in
    (
      once,
      ap fail_over once
          ∙ swapped (record s { priority = t.priority }) (record t { priority = s.priority }) n a b,
    )
