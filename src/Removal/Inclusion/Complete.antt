-- ===== src/Removal/Inclusion/Complete.antt =====
-- What getProcessesToInclude of controllers/remove_process_groups.go leaves behind in the list of excluded
-- servers: nothing of a process group that was removed.
use fdb_kubernetes_operator.Common.{
  ◌≡◌, inl, inr, refl, String, Bool, true, false, not, ◌&&◌, List, [], ◌∷◌, if◌then◌else◌, ◌==◌,
  string_eq, contains, select, arith, Bool-cases, eq_iff, subst, sym, ap,
}
use fdb_kubernetes_operator.Address.{Net, ProcessAddress, of_string, of_ip}
use fdb_kubernetes_operator.ProcessGroup.{
  ProcessGroupStatus, ProcessGroupId, is_log_process, class_test,
}
use fdb_kubernetes_operator.ProcessGroup.Exclusion.{get_exclusion_string}
use fdb_kubernetes_operator.Removal.Evidence.{Occurs, Occurs-append, Member}
use fdb_kubernetes_operator.Removal.Inclusion.{
  Inclusion, keys_of, include_address, include_addresses, include_locality, include_group,
  include_groups, is_gone, get_processes_to_include,
}

-- Nothing that is included is dropped again.
Extends : Inclusion → Inclusion → Type 0
Extends s t = (x : ProcessAddress) → Occurs x s.to_include → Occurs x t.to_include

-- All of a process group that is excluded is included.
abbrev pub Included : Net → List String → ProcessGroupStatus → List ProcessAddress → Type 0
Included net excluded g xs =
    (contains excluded (get_exclusion_string g.process_group_id) ≡ true
      → Occurs (of_string (get_exclusion_string g.process_group_id)) xs)
    × ((a : String)
        → contains g.addresses a ≡ true
        → contains excluded a ≡ true
        → Occurs (of_ip (net.parse_ip a)) xs)

module _ (net : Net) (excluded : List String) (ready : List ProcessGroupId) where
  include_address-Extends :
      (g : ProcessGroupStatus) (s : Inclusion × Bool) (a : String)
      → Extends s.0 (include_address net excluded ready g s a).0
  unfolding include_address Extends
  include_address-Extends g (s, found) a x o =
      let kept = Occurs-append x s.to_include (of_ip (net.parse_ip a) ∷ []) (inl o) in
      elim (Bool-cases (found && is_log_process g.process_class)) [
        | inl e ↦ rw e kept
        | inr e ↦
            rw e (elim (Bool-cases (contains excluded a)) [ inl f ↦ rw f kept | inr f ↦ rw f o ])
      ]

  include_addresses-Extends :
      (g : ProcessGroupStatus) (s : Inclusion × Bool) (as' : List String)
      → Extends s.0 (include_addresses net excluded ready g s as').0
  unfolding include_addresses Extends
  include_addresses-Extends g s [] x o = o
  include_addresses-Extends g s (a ∷ rest) x o =
      include_addresses-Extends g (include_address net excluded ready g s a) rest x
        (include_address-Extends g s a x o)

  include_address-Occurs :
      (g : ProcessGroupStatus) (s : Inclusion × Bool) (a : String)
      → contains excluded a ≡ true
      → Occurs (of_ip (net.parse_ip a)) (include_address net excluded ready g s a).0.to_include
  unfolding include_address
  include_address-Occurs g (s, found) a h =
      let x = of_ip (net.parse_ip a) in
      let added = Occurs-append x s.to_include (x ∷ []) (inr (inl refl)) in
      elim (Bool-cases (found && is_log_process g.process_class)) [
        | inl e ↦ rw e added
        | inr e ↦ rw (e, h) added
      ]

  include_addresses-Occurs :
      (g : ProcessGroupStatus) (s : Inclusion × Bool) (as' : List String) (a : String)
      → contains as' a ≡ true
      → contains excluded a ≡ true
      → Occurs (of_ip (net.parse_ip a)) (include_addresses net excluded ready g s as').0.to_include
  unfolding include_addresses Extends
  include_addresses-Occurs g s [] a h e = ground (arith, h)
  include_addresses-Occurs g s (b ∷ rest) a h e =
      let next = include_address net excluded ready g s b in
      elim (Bool-cases (b == a)) [
        | inl i ↦
            let same : b ≡ a = (eq_iff b a).0 i in
            include_addresses-Extends g next rest (of_ip (net.parse_ip a)) (
              subst (λ k. Occurs (of_ip (net.parse_ip k)) next.0.to_include) same
                (include_address-Occurs g s b
                  (subst (λ k. contains excluded k ≡ true) (sym same) e)))
        | inr i ↦ include_addresses-Occurs g next rest a (ground (arith, h, i)) e
      ]

  include_locality-Extends :
      (g : ProcessGroupStatus) (s : Inclusion)
      → Extends s (include_locality net excluded ready g s).0
  unfolding include_locality Extends
  include_locality-Extends g s x o =
      elim (Bool-cases (contains excluded (get_exclusion_string g.process_group_id))) [
        | inl e ↦ rw e (Occurs-append x s.to_include _ (inl o))
        | inr e ↦ rw e o
      ]

  include_group-Extends :
      (g : ProcessGroupStatus) (s : Inclusion) → Extends s (include_group net excluded ready g s)
  unfolding include_group Extends
  include_group-Extends g s x o = elim (Bool-cases (g.process_class == class_test)) [
    | inl e ↦ rw e o
    | inr e ↦ rw e (
        include_addresses-Extends g (include_locality net excluded ready g s) g.addresses x
          (include_locality-Extends g s x o))
  ]

  include_group-Included :
      (g : ProcessGroupStatus) (s : Inclusion)
      → (g.process_class == class_test) ≡ false
      → Included net excluded g (include_group net excluded ready g s).to_include
  unfolding include_group Extends include_locality
  include_group-Included g s t =
      let k = get_exclusion_string g.process_group_id in
      (
        λ h. rw t (
            include_addresses-Extends g (include_locality net excluded ready g s) g.addresses
              (of_string k) (rw h (Occurs-append (of_string k) s.to_include _ (inr (inl refl))))),
        λ a h e. rw t (
            include_addresses-Occurs g (include_locality net excluded ready g s) g.addresses a h e),
      )

  include_groups-Extends :
      (removed : List (ProcessGroupId × Bool)) (s : Inclusion) (gs : List ProcessGroupStatus)
      → Extends s (include_groups net excluded ready removed s gs).0
  unfolding include_groups Extends
  include_groups-Extends removed s [] x o = o
  include_groups-Extends removed s (g ∷ gs) x o = elim (Bool-cases (is_gone removed g)) [
    | inl e ↦ rw e (
        include_groups-Extends removed (include_group net excluded ready g s) gs x
          (include_group-Extends g s x o))
    | inr e ↦ rw e (include_groups-Extends removed s gs x o)
  ]

  include_groups-Included :
      (removed : List (ProcessGroupId × Bool)) (s : Inclusion) (gs : List ProcessGroupStatus)
      (g : ProcessGroupStatus)
      → Member g gs
      → is_gone removed g ≡ true
      → (g.process_class == class_test) ≡ false
      → Included net excluded g (include_groups net excluded ready removed s gs).0.to_include
  unfolding include_groups Extends
  include_groups-Included removed s [] g h r t = ground (arith, h)
  include_groups-Included removed s (x ∷ gs) g (inl e) r t =
      let gone : is_gone removed x ≡ true = subst (λ y. is_gone removed y ≡ true) e r in
      let next = include_group net excluded ready x s in
      let own : Included net excluded g next.to_include =
        subst (λ y. Included net excluded y next.to_include) (sym e)
          (include_group-Included x s (subst (λ y. (y.process_class == class_test) ≡ false) e t)) in
      rw gone (
        λ h. include_groups-Extends removed next gs _ (own.0 h),
        λ a h f. include_groups-Extends removed next gs _ (own.1 a h f),
      )
  include_groups-Included removed s (x ∷ gs) g (inr m) r t =
      include_groups-Included removed
        (if is_gone removed x then include_group net excluded ready x s else s) gs g m r t

  include_groups-kept :
      (removed : List (ProcessGroupId × Bool)) (s : Inclusion) (gs : List ProcessGroupStatus)
      → (include_groups net excluded ready removed s gs).1
        ≡ select (λ g. not (is_gone removed g)) gs
  unfolding include_groups
  include_groups-kept removed s [] = refl
  include_groups-kept removed s (g ∷ gs) = elim (Bool-cases (is_gone removed g)) [
    | inl e ↦ rw e (include_groups-kept removed (include_group net excluded ready g s) gs)
    | inr e ↦ rw e (ap (λ l. g ∷ l) (include_groups-kept removed s gs))
  ]

select_none : (gs : List ProcessGroupStatus) → select (λ g. not (is_gone [] g)) gs ≡ gs
select_none [] = refl
select_none (g ∷ gs) = ground (arith, select_none gs)

-- getProcessesToInclude keeps, in their order, the process groups that were not marked and confirmed as
-- removed. For each one that was and is no tester, it includes the locality if that is in the list of
-- excluded servers, and each address that is.
pub get_processes_to_include_lem :
    (net : Net) (gs : List ProcessGroupStatus) (removed : List (ProcessGroupId × Bool))
    (excluded : List ProcessAddress) (ready updates : List ProcessGroupId)
    → let r = get_processes_to_include net gs removed excluded ready updates in
      (r.1 ≡ select (λ g. not (is_gone removed g)) gs)
      × ((g : ProcessGroupStatus)
          → Member g gs
          → is_gone removed g ≡ true
          → (g.process_class == class_test) ≡ false
          → Included net (keys_of net excluded) g r.0.to_include)
unfolding get_processes_to_include
get_processes_to_include_lem net gs [] excluded ready updates =
    (sym (select_none gs), λ g m r t. absurd (ground (arith, r)))
get_processes_to_include_lem net gs (e ∷ removed) excluded ready updates =
    let start : Inclusion = record { to_include = []; updates = updates } in
    (
      include_groups-kept net (keys_of net excluded) ready (e ∷ removed) start gs,
      λ g m r t.
          include_groups-Included net (keys_of net excluded) ready (e ∷ removed) start gs g m r t,
    )
