-- ===== src/Database/Change/Passing.antt =====
-- The steps of GetNextConfigurationChange in api/v1beta2/foundationdb_database_configuration.go that a change between
-- two regions passes through.
use fdb_kubernetes_operator.Common.{
  ◌-◌, ◌≡◌, refl, ap, ◌∙◌, true, false, none, List, [], ◌∷◌, ◌==◌, string_eq, nat_eq, length, map,
}
use fdb_kubernetes_operator.Common.Int.{ℤ, pos, int_eq}
use fdb_kubernetes_operator.Database.{Region}
use fdb_kubernetes_operator.Database.Configuration.{Configuration}
use fdb_kubernetes_operator.Database.Change.Equal.{regions_equal, priorities_equal, Priorities}
use fdb_kubernetes_operator.Database.Change.{
  MapOrder, get_next_configuration_change, region_priorities, add_regions, change_regions,
  update_satellites, set_priorities, remove_negative, remove_other, step_priorities,
  current_regions, assign,
}

abbrev pub with_regions : Configuration → ℤ → List Region → Configuration
with_regions c usable regions = record c { usable_regions = usable; regions = regions }

pub change_regions_set :
    (order : MapOrder) (c final result : Configuration) (current next : Priorities)
    → (length result.regions == length c.regions) ≡ true
    → remove_negative c final current next result (current_regions c.regions) ≡ none
    → remove_other c final current next result (current_regions c.regions) ≡ none
    → change_regions order c final current next result
      ≡ set_priorities order c final current next result
unfolding change_regions
change_regions_set order c final result current next l m n = rw (l, m, n) refl

pub next_changed :
    (order : MapOrder) (c final : Configuration) (s : List Region × Priorities)
    → regions_equal c.regions final.regions ≡ false
    → add_regions order
        (2 - length (map (update_satellites final.regions) c.regions))
        final.regions
        (region_priorities [] final.regions)
        (map (update_satellites final.regions) c.regions, region_priorities [] c.regions)
      ≡ s
    → get_next_configuration_change order c final
      ≡ change_regions order c final s.1
          (region_priorities [] final.regions)
          (record c { regions = s.0 })
unfolding get_next_configuration_change
next_changed order c final s h e = rw h (
    ap
      (λ (t : List Region × Priorities).
        change_regions order c final t.1 (region_priorities [] final.regions)
          (record c { regions = t.0 }))
      e)

pub none_added :
    (order : MapOrder) (final us : List Region) (x y : Region) (next current m : Priorities)
    → us ≡ x ∷ y ∷ []
    → current ≡ m
    → add_regions order (2 - length us) final next (us, current) ≡ (x ∷ y ∷ [], m)
unfolding add_regions
none_added order final us x y next current m u e = rw (u, e) refl

-- With two regions, none of which is to be removed, the change goes on to the priorities.
pub next_set :
    (order : MapOrder) (c final : Configuration) (x y : Region) (current next : Priorities)
    → regions_equal c.regions final.regions ≡ false
    → map (update_satellites final.regions) c.regions ≡ x ∷ y ∷ []
    → region_priorities [] c.regions ≡ current
    → region_priorities [] final.regions ≡ next
    → (2 == length c.regions) ≡ true
    → remove_negative c final current next
        (record c { regions = x ∷ y ∷ [] })
        (current_regions c.regions)
      ≡ none
    → remove_other c final current next
        (record c { regions = x ∷ y ∷ [] })
        (current_regions c.regions)
      ≡ none
    → get_next_configuration_change order c final
      ≡ set_priorities order c final current next (record c { regions = x ∷ y ∷ [] })
next_set order c final x y current next h u e f l m n =
    next_changed order c final (x ∷ y ∷ [], current) h
      (none_added order final.regions (map (update_satellites final.regions) c.regions) x y
        (region_priorities [] final.regions) (region_priorities [] c.regions) current u e)
    ∙ ap
        (λ (t : Priorities).
          change_regions order c final current t (record c { regions = x ∷ y ∷ [] }))
        f
    ∙ change_regions_set order c final (record c { regions = x ∷ y ∷ [] }) current next l m n

pub set_usable :
    (order : MapOrder) (c final result : Configuration) (current next : Priorities)
    (p : Priorities × Priorities)
    → step_priorities order current next ≡ p
    → priorities_equal p.0 p.1 ≡ false
    → (c.usable_regions == pos (length c.regions)) ≡ false
    → set_priorities order c final current next result
      ≡ record result { usable_regions = pos (length c.regions) }
unfolding set_priorities
set_usable order c final result current next p e d u =
    rw (ap (λ (s : Priorities × Priorities). priorities_equal s.0 s.1) e ∙ d, u) refl

pub set_assigned :
    (order : MapOrder) (c final result : Configuration) (current next : Priorities)
    (p : Priorities × Priorities)
    → step_priorities order current next ≡ p
    → priorities_equal p.0 p.1 ≡ false
    → (c.usable_regions == pos (length c.regions)) ≡ true
    → set_priorities order c final current next result
      ≡ record result { regions = map (assign p.1) result.regions }
unfolding set_priorities
set_assigned order c final result current next p e d u =
    rw (ap (λ (s : Priorities × Priorities). priorities_equal s.0 s.1) e ∙ d, u)
      (ap
        (λ (s : Priorities × Priorities). record result {
          regions = map (assign s.1) result.regions;
        })
        e)
