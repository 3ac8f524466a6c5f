-- ===== src/Removal/Reconcile/Members.antt =====
-- Where the process groups that a reconciliation removes come from.
use fdb_kubernetes_operator.Common.{
  ◌≡◌, ◌⊎◌, inl, inr, refl, String, Bool, true, not, some, List, [], ◌∷◌, map, if◌then◌else◌, ◌==◌,
  string_eq, is_empty, lookup, deref, select, contains, arith, Bool-cases, Option-cases, subst, sym,
  ◌∙◌,
}
use fdb_kubernetes_operator.Address.{Net, ProcessAddress}
use fdb_kubernetes_operator.Status.{Status, get_coordinators}
use fdb_kubernetes_operator.ProcessGroup.{Instant, ProcessGroupStatus, FaultDomain}
use fdb_kubernetes_operator.Removal.{Cluster}
use fdb_kubernetes_operator.Removal.Evidence.{Member}
use fdb_kubernetes_operator.Removal.Remaining.{get_remaining_map}
use fdb_kubernetes_operator.Removal.Selection as Selection
use fdb_kubernetes_operator.Removal.Selection.{
  Outcome, filter_blocked_removals, is_removed, completed, get_process_groups_to_remove_lem,
}
use fdb_kubernetes_operator.Removal.Zones.{
  get_zoned_removals, get_zoned_removals-IsZoned, get_process_groups_to_remove, zone_of,
  terminating_zone,
}
use fdb_kubernetes_operator.Removal.Zones.Choice.{get_process_groups_to_remove-Zone}
use fdb_kubernetes_operator.Removal.Reconcile.{
  Settings, remove, plan_zones, plan_removals, reconcile, get_removal_mode,
}

Member-select :
    (p : ProcessGroupStatus → Bool) (gs : List ProcessGroupStatus) (g : ProcessGroupStatus)
    → Member g (select p gs)
    → Member g gs × (p g ≡ true)
Member-select p [] g m = absurd m
Member-select p (h ∷ hs) g m = elim (Bool-cases (p h)) [
  | inl e ↦ elim (subst (λ b. Member g (if b then h ∷ select p hs else select p hs)) e m) [
    | inl i ↦ (inl i, subst (λ x. p x ≡ true) (sym i) e)
    | inr o ↦ let (a, b) = Member-select p hs g o in (inr a, b)
  ]
  | inr e ↦
      let (a, b) =
        Member-select p hs g
          (subst (λ b. Member g (if b then h ∷ select p hs else select p hs)) e m) in
      (inr a, b)
]

Member-map :
    (f : ProcessGroupStatus → ProcessGroupStatus) (gs : List ProcessGroupStatus)
    (h : ProcessGroupStatus)
    → Member h (map f gs)
    → (g : ProcessGroupStatus) × Member g gs × (h ≡ f g)
Member-map f [] h m = absurd m
Member-map f (g ∷ gs) h (inl e) = (g, inl refl, e)
Member-map f (g ∷ gs) h (inr m) = let (x, a, b) = Member-map f gs h m in (x, inr a, b)

Member-filter_blocked :
    (c : Cluster) (gs : List ProcessGroupStatus) (g : ProcessGroupStatus)
    → Member g (filter_blocked_removals c gs)
    → Member g gs
unfolding filter_blocked_removals
Member-filter_blocked c gs g m = elim (Bool-cases (is_empty c.block_removal)) [
  | inl e ↦
      subst
        (λ b.
          Member g
            (if b then gs else select (λ x. not (contains c.block_removal x.process_group_id)) gs))
        e m
  | inr e ↦
      (Member-select _ gs g (
        subst
          (λ b.
            Member g (
              if b then gs else select (λ x. not (contains c.block_removal x.process_group_id)) gs))
          e m)).0
]

-- A process group that getProcessGroupsToRemove returns.
Member-to_remove :
    (now : Instant) (coordinators : List String) (remaining : List (String × Bool))
    (gs : List ProcessGroupStatus) (h : ProcessGroupStatus)
    → Member h (Selection.get_process_groups_to_remove now coordinators remaining gs).to_remove
    → (g : ProcessGroupStatus) × Member g gs
      × (is_removed now coordinators remaining g ≡ true)
      × (h ≡ completed now g)
Member-to_remove now coordinators remaining gs h m =
    let (e, _, _, _) = get_process_groups_to_remove_lem now coordinators remaining gs in
    let (g, a, b) =
      Member-map (completed now) (select (is_removed now coordinators remaining) gs) h
        (subst (Member h) e m) in
    let (x, y) = Member-select (is_removed now coordinators remaining) gs g a in (g, x, y, b)

plan_zones-remove :
    (now : Instant) (s : Settings) (tolerant : Bool) (gs : List ProcessGroupStatus)
    (zone : FaultDomain) (hs ts : List ProcessGroupStatus)
    → plan_zones now s tolerant gs ≡ remove zone hs ts
    → (tolerant ≡ true)
      × (get_process_groups_to_remove (get_removal_mode s) (get_zoned_removals gs).0
          ≡ some (zone, hs))
      × (ts ≡ deref (lookup terminating_zone (get_zoned_removals gs).0) [])
unfolding plan_zones
plan_zones-remove now s tolerant gs zone hs ts e =
    elim (Option-cases
      (get_process_groups_to_remove (get_removal_mode s) (get_zoned_removals gs).0)) [
        | inl n ↦ absurd (ground (arith, e, n))
        | inr (r, n) ↦ ground (arith, e, n)
      ]

plan_removals-remove :
    (now : Instant) (c : Cluster) (s : Settings) (updated tolerant : Bool) (o : Outcome)
    (zone : FaultDomain) (hs ts : List ProcessGroupStatus)
    → plan_removals now c s updated tolerant o ≡ remove zone hs ts
    → plan_zones now s tolerant (filter_blocked_removals c o.to_remove) ≡ remove zone hs ts
unfolding plan_removals
plan_removals-remove now c s updated tolerant o zone hs ts e = ground (arith, e)

-- A process group of the zone that is picked, or of the terminating zone, was to be removed.
Member-zone :
    (gs : List ProcessGroupStatus) (zone : FaultDomain) (hs ts : List ProcessGroupStatus)
    (h : ProcessGroupStatus)
    → get_process_groups_to_remove "Zone" (get_zoned_removals gs).0 ≡ some (zone, hs)
    → ts ≡ deref (lookup terminating_zone (get_zoned_removals gs).0) []
    → Member h hs ⊎ Member h ts
    → Member h gs
Member-zone gs zone hs ts h e t (inl m) =
    let (r, p, _, q) =
      get_process_groups_to_remove-Zone gs (get_zoned_removals gs).0
        (get_zoned_removals-IsZoned gs) in
    let same : hs ≡ r.1 = ground (arith, e, p) in
    elim q [
      | inl n ↦ absurd (subst (Member h) (same ∙ n) m)
      | inr (i, _) ↦ (Member-select (λ g. zone_of g == r.0) gs h (subst (Member h) (same ∙ i) m)).0
    ]
Member-zone gs zone hs ts h e t (inr m) =
    (Member-select (λ g. zone_of g == terminating_zone) gs h
      (subst (Member h) (t ∙ (get_zoned_removals-IsZoned gs).slices terminating_zone) m)).0

-- What a reconciliation in the removal mode Zone removes: each process group, also each that is terminating
-- already, is a process group of the cluster that getProcessGroupsToRemove selects by the map of
-- GetRemainingMap and the coordinators of the status; and the status has the desired fault tolerance.
pub reconcile-remove :
    (net : Net) (exclude : List ProcessAddress → Bool) (safe : Bool) (now : Instant) (c : Cluster)
    (s : Settings) (status : Status) (updated tolerant : Bool) (zone : FaultDomain)
    (hs ts : List ProcessGroupStatus) (h : ProcessGroupStatus)
    → get_removal_mode s ≡ "Zone"
    → reconcile net exclude safe now c s status updated tolerant ≡ remove zone hs ts
    → Member h hs ⊎ Member h ts
    → (tolerant ≡ true)
      × (m : List (String × Bool)) × (get_remaining_map net exclude safe c status ≡ some m)
      × (g : ProcessGroupStatus) × Member g c.process_groups
      × (is_removed now (get_coordinators status.processes) m g ≡ true)
      × (h ≡ completed now g)
unfolding reconcile
reconcile-remove net exclude safe now c s status updated tolerant zone hs ts h mode e o =
    elim (Option-cases (get_remaining_map net exclude safe c status)) [
      | inl n ↦ absurd (ground (arith, e, n))
      | inr (m, n) ↦
          let coordinators = get_coordinators status.processes in
          let selected =
            Selection.get_process_groups_to_remove now coordinators m c.process_groups in
          let planned : plan_removals now c s updated tolerant selected ≡ remove zone hs ts =
            ground (arith, e, n) in
          let zones = plan_removals-remove now c s updated tolerant selected zone hs ts planned in
          let gs = filter_blocked_removals c selected.to_remove in
          let (t, p, q) = plan_zones-remove now s tolerant gs zone hs ts zones in
          let picked =
            subst (λ k. get_process_groups_to_remove k (get_zoned_removals gs).0 ≡ some (zone, hs))
              mode p in
          let (g, a, b, d) = Member-to_remove now coordinators m c.process_groups h (
            Member-filter_blocked c selected.to_remove h
              (Member-zone gs zone hs ts h picked q o)) in
          (t, m, n, g, a, b, d)
    ]
