-- ===== src/Database/Change/Migration.antt =====
-- The migration of a cluster from one region to two by GetNextConfigurationChange of
-- api/v1beta2/foundationdb_database_configuration.go.
use fdb_kubernetes_operator.Common.{
  ℕ, zero, suc, ◌≡◌, ◌≢◌, ◌⊎◌, inl, inr, refl, ap, ◌∙◌, String, true, false, none, ◌||◌, List, [],
  ◌∷◌, ◌==◌, string_eq, insert, arith, eq_iff, eq_refl, nat_eq, map,
}
use fdb_kubernetes_operator.Common.Int.{ℤ, pos, negsuc, ltb_ℤ, ◌-ℤ◌, int_eq}
use fdb_kubernetes_operator.Database.{Region}
use fdb_kubernetes_operator.Database.Configuration.{Configuration}
use fdb_kubernetes_operator.Database.Change.Equal.{
  Priorities, priority_of, regions_equal, priorities_equal,
}
use fdb_kubernetes_operator.Database.Change.{
  MapOrder, fill_missing, highest, get_next_configuration_change, region_priorities, get_region,
  region_to_add, add_regions, change_regions, update_satellites, set_priorities, remove_negative,
  remove_other, step_priorities, current_regions, assign, assign_first, priorities_of_data_centers,
  main_ids,
}
use fdb_kubernetes_operator.Database.Change.Regions.{
  Extras, AreSatellites, region, priorities_of_satellites, main_ids_of_satellites, main_found,
  main_not_found, regions_equal_refl,
}
use fdb_kubernetes_operator.Database.Change.Passing.{
  with_regions, next_set, set_usable, set_assigned,
}

-- The loops go through a map of two entries in one of the two orders.
abbrev pub IsMapOrder : MapOrder → Type 0
IsMapOrder order =
    (x y : String × ℤ) → (order (x ∷ y ∷ []) ≡ x ∷ y ∷ []) ⊎ (order (x ∷ y ∷ []) ≡ y ∷ x ∷ [])

module _ (order : MapOrder) (in_order : IsMapOrder order) (c d : Configuration) (a b : String)
    (n p q : ℕ) (aa : (a == a) ≡ true) (bb : (b == b) ≡ true) (ab : (a == b) ≡ false)
    (ba : (b == a) ≡ false) (a0 : (a == "") ≡ false) (b0 : (b == "") ≡ false) (e f g : Extras)
    (se : AreSatellites e.others) (sf : AreSatellites f.others) (sg : AreSatellites g.others) where
  abbrev target : Configuration
  target = with_regions d (pos 2) (region a (pos p) e ∷ region b (pos q) f ∷ [])

  two_priorities :
      (x y : ℤ) → region_priorities [] (region a x e ∷ region b y f ∷ []) ≡ (a, x) ∷ (b, y) ∷ []
  unfolding region_priorities priorities_of_data_centers insert
  two_priorities x y =
      rw
        (
          priorities_of_satellites ((a, x) ∷ []) e.others se,
          ab,
          priorities_of_satellites ((a, x) ∷ (b, y) ∷ []) f.others sf,
        )
        refl

  one_priority : (x : ℤ) → region_priorities [] (region a x g ∷ []) ≡ (a, x) ∷ []
  unfolding region_priorities priorities_of_data_centers insert
  one_priority x = priorities_of_satellites ((a, x) ∷ []) g.others sg

  both_ids : (x y : ℤ) → current_regions (region a x e ∷ region b y f ∷ []) ≡ a ∷ b ∷ []
  unfolding current_regions main_ids
  both_ids x y = rw (main_ids_of_satellites e.others se, main_ids_of_satellites f.others sf) refl

  region_of_a : (x : ℤ) → get_region target.regions a x ≡ region a x e
  unfolding get_region
  region_of_a x = rw (main_found a (pos p) x e.others aa, get_region) refl

  region_of_b : (x : ℤ) → get_region target.regions b x ≡ region b x f
  unfolding get_region
  region_of_b x =
      rw
        (
          main_not_found b a (pos p) x e.others ab se,
          get_region,
          main_found b (pos q) x f.others bb,
        )
        refl

  added :
      region_to_add
        ((a, pos n) ∷ [])
        ((a, pos p) ∷ (b, pos q) ∷ [])
        ""
        (order ((a, pos p) ∷ (b, pos q) ∷ []))
      ≡ b
  unfolding region_to_add
  added = elim (in_order (a, pos p) (b, pos q)) [
    | inl same ↦ rw (same, aa, ab) refl
    | inr same ↦ rw (same, aa, ab) refl
  ]

  differs : regions_equal (region a (pos n) g ∷ []) target.regions ≡ false
  differs = ground arith

  first_step :
      get_next_configuration_change order (with_regions c (pos 1) (region a (pos n) g ∷ [])) target
      ≡ with_regions c (pos 1) (region a (pos n) e ∷ region b (negsuc 0) f ∷ [])
  unfolding get_next_configuration_change change_regions update_satellites add_regions
      region_priorities insert ◌-ℤ◌
  first_step =
      rw
        (
          differs,
          two_priorities (pos p) (pos q),
          one_priority (pos n),
          region_of_a (pos n),
          added,
          b0,
          region_of_b (negsuc 0),
        )
        refl

  differs_still :
      regions_equal (region a (pos n) e ∷ region b (negsuc 0) f ∷ []) target.regions ≡ false
  differs_still = ground arith

  no_removal :
      (r : Configuration) (usable x y : ℤ)
      → remove_negative r target
          ((a, x) ∷ (b, y) ∷ [])
          ((a, pos p) ∷ (b, pos q) ∷ [])
          r
          (a ∷ b ∷ [])
        ≡ none
  unfolding remove_negative
  no_removal r usable x y = rw (aa, bb, ab) refl

  no_demotion :
      (r : Configuration) (x y : ℤ)
      → remove_other r target ((a, x) ∷ (b, y) ∷ []) ((a, pos p) ∷ (b, pos q) ∷ []) r (a ∷ b ∷ [])
        ≡ none
  unfolding remove_other
  no_demotion r x y = rw (aa, bb, ab) refl

  all_there :
      (x y u v : ℤ)
      → fill_missing ((a, x) ∷ (b, y) ∷ []) (order ((a, u) ∷ (b, v) ∷ [])) ≡ (a, x) ∷ (b, y) ∷ []
  unfolding fill_missing insert
  all_there x y u v = elim (in_order (a, u) (b, v)) [
    | inl same ↦ rw same (ground (arith, aa, bb, ab, ba))
    | inr same ↦ rw same (ground (arith, aa, bb, ab, ba))
  ]

  highest_set :
      let m : Priorities = (a, pos p) ∷ (b, pos q) ∷ [] in
      let best = highest m "" (order m) in
      (best == "" || ltb_ℤ (priority_of best m) (pos 0)) ≡ false
  unfolding highest
  highest_set = elim (in_order (a, pos p) (b, pos q)) [
    | inl same ↦ rw same (ground (arith, aa, bb, ab, ba, a0, b0))
    | inr same ↦ rw same (ground (arith, aa, bb, ab, ba, a0, b0))
  ]

  same_keys :
      (x y : ℤ)
      → step_priorities order ((a, x) ∷ (b, y) ∷ []) ((a, pos p) ∷ (b, pos q) ∷ [])
        ≡ ((a, x) ∷ (b, y) ∷ [], (a, pos p) ∷ (b, pos q) ∷ [])
  unfolding step_priorities
  same_keys x y =
      rw (all_there (pos p) (pos q) x y, all_there x y (pos p) (pos q), highest_set) refl

  -- With both regions in place the change goes on to the priorities.
  both_regions :
      (u x y : ℤ)
      → regions_equal (region a x e ∷ region b y f ∷ []) target.regions ≡ false
      → get_next_configuration_change order
          (with_regions c u (region a x e ∷ region b y f ∷ []))
          target
        ≡ set_priorities order
            (with_regions c u (region a x e ∷ region b y f ∷ []))
            target
            ((a, x) ∷ (b, y) ∷ [])
            ((a, pos p) ∷ (b, pos q) ∷ [])
            (with_regions c u (region a x e ∷ region b y f ∷ []))
  unfolding update_satellites
  both_regions u x y h =
      let r = with_regions c u (region a x e ∷ region b y f ∷ []) in
      next_set order (with_regions c u (region a x e ∷ region b y f ∷ [])) target (region a x e)
        (region b y f) ((a, x) ∷ (b, y) ∷ []) ((a, pos p) ∷ (b, pos q) ∷ []) h
        (rw (region_of_a x, region_of_b y) refl) (two_priorities x y)
        (two_priorities (pos p) (pos q)) refl
        (ap (remove_negative r target ((a, x) ∷ (b, y) ∷ []) ((a, pos p) ∷ (b, pos q) ∷ []) r)
            (both_ids x y)
          ∙ no_removal r u x y)
        (ap (remove_other r target ((a, x) ∷ (b, y) ∷ []) ((a, pos p) ∷ (b, pos q) ∷ []) r)
            (both_ids x y)
          ∙ no_demotion r x y)

  different :
      (y : ℤ)
      → (pos q == y) ≡ false
      → priorities_equal ((a, pos n) ∷ (b, y) ∷ []) ((a, pos p) ∷ (b, pos q) ∷ []) ≡ false
  different y h = rw (aa, bb, ab) (ground (arith, h))

  second_step :
      get_next_configuration_change order
        (with_regions c (pos 1) (region a (pos n) e ∷ region b (negsuc 0) f ∷ []))
        target
      ≡ with_regions c (pos 2) (region a (pos n) e ∷ region b (negsuc 0) f ∷ [])
  second_step =
      let r = with_regions c (pos 1) (region a (pos n) e ∷ region b (negsuc 0) f ∷ []) in
      both_regions (pos 1) (pos n) (negsuc 0) differs_still
      ∙ set_usable order r target r ((a, pos n) ∷ (b, negsuc 0) ∷ []) ((a, pos p) ∷ (b, pos q) ∷ [])
          ((a, pos n) ∷ (b, negsuc 0) ∷ [], (a, pos p) ∷ (b, pos q) ∷ [])
          (same_keys (pos n) (negsuc 0)) (different (negsuc 0) (ground arith)) refl

  assigned :
      map (assign ((a, pos p) ∷ (b, pos q) ∷ [])) (region a (pos n) e ∷ region b (negsuc 0) f ∷ [])
      ≡ region a (pos p) e ∷ region b (pos q) f ∷ []
  unfolding assign_first
  assigned = rw (aa, bb, ab) refl

  third_step :
      get_next_configuration_change order
        (with_regions c (pos 2) (region a (pos n) e ∷ region b (negsuc 0) f ∷ []))
        target
      ≡ with_regions c (pos 2) (region a (pos p) e ∷ region b (pos q) f ∷ [])
  third_step =
      let r = with_regions c (pos 2) (region a (pos n) e ∷ region b (negsuc 0) f ∷ []) in
      both_regions (pos 2) (pos n) (negsuc 0) differs_still
      ∙ set_assigned order r target r ((a, pos n) ∷ (b, negsuc 0) ∷ [])
          ((a, pos p) ∷ (b, pos q) ∷ [])
          ((a, pos n) ∷ (b, negsuc 0) ∷ [], (a, pos p) ∷ (b, pos q) ∷ [])
          (same_keys (pos n) (negsuc 0)) (different (negsuc 0) (ground arith)) refl
      ∙ ap (λ (rs : List Region). with_regions c (pos 2) rs) assigned

  fourth_step :
      get_next_configuration_change order
        (with_regions c (pos 2) (region a (pos p) e ∷ region b (pos q) f ∷ []))
        target
      ≡ target
  unfolding get_next_configuration_change
  fourth_step = rw (regions_equal_refl target.regions) refl

-- How often the change is applied, with the order of the maps in each call.
abbrev pub changes : (ℕ → MapOrder) → ℕ → Configuration → Configuration → Configuration
changes order zero final c = c
changes order (suc k) final c =
    changes order k final (get_next_configuration_change (order k) c final)

-- Four changes, each applied to the result of the one before, take a cluster with one usable region, whose number of
-- usable regions is 1, to a final configuration with the regions of two data centers, the first of them that of
-- the cluster, and 2 usable regions. In each region the first data center is the only main one, and it may have any
-- satellites, satellite logs and satellite redundancy mode, before and after; the data centers have different
-- names that are not empty, and the priorities are not negative. All other fields are arbitrary, and so is the
-- order, in each change, in which the loops go through a map of two priorities.
pub changes-final :
    (order : ℕ → MapOrder) (c d : Configuration) (a b : String) (n p q : ℕ) (e f g : Extras)
    → ((k : ℕ) → IsMapOrder (order k))
    → a ≢ b
    → a ≢ ""
    → b ≢ ""
    → AreSatellites e.others
    → AreSatellites f.others
    → AreSatellites g.others
    → let final = with_regions d (pos 2) (region a (pos p) e ∷ region b (pos q) f ∷ []) in
      changes order 4 final (with_regions c (pos 1) (region a (pos n) g ∷ [])) ≡ final
changes-final order c d a b n p q e f g in_order ab a0 b0 se sf sg =
    let x1 : (a == a) ≡ true = eq_refl a in
    let x2 : (b == b) ≡ true = eq_refl b in
    let x3 : (a == b) ≡ false = ground (arith, ab, eq_iff a b) in
    let x4 : (b == a) ≡ false = ground (arith, ab, eq_iff b a) in
    let x5 : (a == "") ≡ false = ground (arith, a0, eq_iff a "") in
    let x6 : (b == "") ≡ false = ground (arith, b0, eq_iff b "") in
    rw
      (
        first_step (order 3) (in_order 3) c d a b n p q x1 x2 x3 x4 x5 x6 e f g se sf sg,
        second_step (order 2) (in_order 2) c d a b n p q x1 x2 x3 x4 x5 x6 e f g se sf sg,
        third_step (order 1) (in_order 1) c d a b n p q x1 x2 x3 x4 x5 x6 e f g se sf sg,
      )
      (fourth_step (order 0) (in_order 0) c d a b n p q x1 x2 x3 x4 x5 x6 e f g se sf sg)
