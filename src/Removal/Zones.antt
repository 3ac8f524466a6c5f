-- ===== src/Removal/Zones.antt =====
-- The zones of the process groups to be removed: GetZonedRemovals and GetProcessGroupsToRemove of
-- internal/removals/remove.go.
pub mod Choice
use fdb_kubernetes_operator.Common.{
  ℕ, ◌≤◌, ◌^◌, ◌-◌, ◌≡◌, ◌≢◌, ◌⊎◌, inl, inr, refl, String, Bool, true, false, not, Option, none,
  some, List, [], ◌∷◌, ◌++◌, map, if◌then◌else◌, ◌==◌, string_eq, ltb, length, select, All,
  contains, NoDuplicates, lookup, insert, lookup-insert, deref, is_some, is_empty, eq_iff, eq_refl,
  arith, append-nil, append_assoc, Bool-cases, sym, ◌∙◌, ap,
}
use fdb_kubernetes_operator.Common.Int.{ℤ, min_int, pos, negsuc, ltb_ℤ, leb_ℤ, ◌≤ℤ◌}
use fdb_kubernetes_operator.ProcessGroup.{
  ProcessGroupStatus, FaultDomain, get_condition_time, resources_terminating,
}

abbrev pub unknown_zone : FaultDomain
unknown_zone = "foundationdb.org/unknown"

abbrev pub terminating_zone : FaultDomain
terminating_zone = "foundationdb.org/terminating"

abbrev pub ZoneMap : Type 0
ZoneMap = List (FaultDomain × List ProcessGroupStatus)

-- `zoneMap[zone] = append(zoneMap[zone], processGroup)`
unfoldable pub append_to_zone : FaultDomain → ProcessGroupStatus → ZoneMap → ZoneMap
append_to_zone zone g m = insert zone (deref (lookup zone m) [] ++ g ∷ []) m

abbrev pub removal_time : ProcessGroupStatus → ℤ
removal_time g = deref (get_condition_time resources_terminating g) (pos 0)

-- The body of the loop of `GetZonedRemovals`.
unfoldable pub add_zoned : ZoneMap × ℤ → ProcessGroupStatus → ZoneMap × ℤ
unfolding append_to_zone
add_zoned (m, latest) g =
    if ltb_ℤ (pos 0) (removal_time g)
    then (
      append_to_zone terminating_zone g m,
      if ltb_ℤ latest (removal_time g) then removal_time g else latest,
    )
    else (
      append_to_zone (if g.fault_domain == "" then unknown_zone else g.fault_domain) g m,
      latest,
    )

zoned_loop : ZoneMap × ℤ → List ProcessGroupStatus → ZoneMap × ℤ
unfolding add_zoned
zoned_loop s [] = s
zoned_loop s (g ∷ gs) = zoned_loop (add_zoned s g) gs

unfoldable pub get_zoned_removals : List ProcessGroupStatus → ZoneMap × ℤ
unfolding zoned_loop
get_zoned_removals gs = zoned_loop ([], pos 0) gs

-- The loop for the removal mode All.
all_removals : ZoneMap → List ProcessGroupStatus
all_removals [] = []
all_removals ((z, gs) ∷ m) = gs ++ all_removals m

-- The loop for the removal mode ProcessGroup.
first_removal : ZoneMap → Option (FaultDomain × List ProcessGroupStatus)
first_removal [] = none
first_removal ((z, []) ∷ m) = first_removal m
first_removal ((z, g ∷ gs) ∷ m) = some (g.fault_domain, g ∷ [])

-- The body of the loop for the removal mode Zone, on the zone picked so far and its size.
prefer : FaultDomain × ℤ → FaultDomain × List ProcessGroupStatus → FaultDomain × ℤ
prefer best (z, gs) =
    if z == terminating_zone
    then best
    else if ltb_ℤ best.1 (pos (length gs))
    then (z, pos (length gs))
    else best

pick_zone : FaultDomain × ℤ → ZoneMap → FaultDomain × ℤ
unfolding prefer
pick_zone best [] = best
pick_zone best (e ∷ m) = pick_zone (prefer best e) m

-- math.MinInt
-- Here `none` is the error for an unknown mode.
unfoldable pub get_process_groups_to_remove :
    String → ZoneMap → Option (FaultDomain × List ProcessGroupStatus)
unfolding all_removals first_removal pick_zone
get_process_groups_to_remove mode removals =
    let first = if mode == "ProcessGroup" then first_removal removals else none in
    let picked = (pick_zone ("", min_int) removals).0 in
    if mode == "All"
    then some ("cluster", all_removals removals)
    else if is_some first
    then first
    else if mode == "Zone"
    then (if picked == "" then some ("", []) else some (picked, deref (lookup picked removals) []))
    else if mode == "None"
    then some ("None", [])
    else none

-- The zone that a process group counts for.
abbrev pub zone_of : ProcessGroupStatus → FaultDomain
zone_of g =
    if ltb_ℤ (pos 0) (removal_time g)
    then terminating_zone
    else if g.fault_domain == ""
    then unknown_zone
    else g.fault_domain

abbrev pub in_zone : FaultDomain → List ProcessGroupStatus → List ProcessGroupStatus
in_zone z gs = select (λ g. zone_of g == z) gs

abbrev keys : ZoneMap → List FaultDomain
keys m = map (λ e. e.0) m

contains-keys-lookup : (z : FaultDomain) (m : ZoneMap) → contains (keys m) z ≡ is_some (lookup z m)
contains-keys-lookup z [] = refl
contains-keys-lookup z ((k, v) ∷ m) = ground (arith, contains-keys-lookup z m)

contains-keys-insert :
    (z k : FaultDomain) (v : List ProcessGroupStatus) (m : ZoneMap)
    → contains (keys (insert k v m)) z ≡ (if k == z then true else contains (keys m) z)
contains-keys-insert z k v m =
    ground (
      arith,
      contains-keys-lookup z (insert k v m),
      contains-keys-lookup z m,
      lookup-insert k z v m,
    )

keys-insert-NoDuplicates :
    (k : FaultDomain) (v : List ProcessGroupStatus) (m : ZoneMap)
    → NoDuplicates (keys m)
    → NoDuplicates (keys (insert k v m))
unfolding insert
keys-insert-NoDuplicates k v [] h = ground arith
keys-insert-NoDuplicates k v ((j, w) ∷ m) (a, b) =
    ground (
      arith,
      eq_iff j k,
      eq_iff k j,
      contains-keys-insert j k v m,
      keys-insert-NoDuplicates k v m b,
    )

-- The map of the removals by zone: it has each zone's process groups in their order, and each key once.
pub record IsZoned (gs : List ProcessGroupStatus) (m : ZoneMap) : Type 0 where
  pub slices : (z : FaultDomain) → deref (lookup z m) [] ≡ in_zone z gs
  pub distinct : NoDuplicates (keys m)

-- One step of the loop adds its process group to its zone.
add_zoned-lookup :
    (m : ZoneMap) (t : ℤ) (g : ProcessGroupStatus) (z : FaultDomain)
    → deref (lookup z (add_zoned (m, t) g).0) []
      ≡ deref (lookup z m) [] ++ (if zone_of g == z then g ∷ [] else [])
unfolding add_zoned append_to_zone
add_zoned-lookup m t g z = ground (
  arith,
  append-nil (deref (lookup z m) []),
  eq_iff (zone_of g) z,
  lookup-insert (zone_of g) z (deref (lookup (zone_of g) m) [] ++ g ∷ []) m,
)

in_zone-cons :
    (z : FaultDomain) (g : ProcessGroupStatus) (gs : List ProcessGroupStatus)
    → (if zone_of g == z then g ∷ [] else []) ++ in_zone z gs ≡ in_zone z (g ∷ gs)
in_zone-cons z g gs = ground arith

zoned_loop-lookup :
    (m : ZoneMap) (t : ℤ) (gs : List ProcessGroupStatus) (z : FaultDomain)
    → deref (lookup z (zoned_loop (m, t) gs).0) [] ≡ deref (lookup z m) [] ++ in_zone z gs
unfolding zoned_loop
zoned_loop-lookup m t [] z = sym (append-nil _)
zoned_loop-lookup m t (g ∷ gs) z =
    zoned_loop-lookup (add_zoned (m, t) g).0 (add_zoned (m, t) g).1 gs z
    ∙ ap (λ l. l ++ in_zone z gs) (add_zoned-lookup m t g z)
    ∙ append_assoc (deref (lookup z m) []) (if zone_of g == z then g ∷ [] else []) (in_zone z gs)
    ∙ ap (λ l. deref (lookup z m) [] ++ l) (in_zone-cons z g gs)

add_zoned-NoDuplicates :
    (m : ZoneMap) (t : ℤ) (g : ProcessGroupStatus)
    → NoDuplicates (keys m)
    → NoDuplicates (keys (add_zoned (m, t) g).0)
unfolding add_zoned append_to_zone
add_zoned-NoDuplicates m t g h =
    ground
      (arith, keys-insert-NoDuplicates (zone_of g) (deref (lookup (zone_of g) m) [] ++ g ∷ []) m h)

zoned_loop-NoDuplicates :
    (m : ZoneMap) (t : ℤ) (gs : List ProcessGroupStatus)
    → NoDuplicates (keys m)
    → NoDuplicates (keys (zoned_loop (m, t) gs).0)
unfolding zoned_loop
zoned_loop-NoDuplicates m t [] h = h
zoned_loop-NoDuplicates m t (g ∷ gs) h =
    zoned_loop-NoDuplicates (add_zoned (m, t) g).0 (add_zoned (m, t) g).1 gs
      (add_zoned-NoDuplicates m t g h)

-- The map that GetZonedRemovals returns has, for every zone, the process groups that count for it, in
-- their order, and it has each of its keys once: none is lost, and none is in two zones.
pub get_zoned_removals-IsZoned :
    (gs : List ProcessGroupStatus) → IsZoned gs (get_zoned_removals gs).0
unfolding get_zoned_removals
get_zoned_removals-IsZoned gs = record {
  slices = zoned_loop-lookup [] (pos 0) gs;
  distinct = zoned_loop-NoDuplicates [] (pos 0) gs tt;
}
