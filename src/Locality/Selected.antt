-- ===== src/Locality/Selected.antt =====
-- The selection of new coordinators: selectCoordinatorsLocalities of internal/coordinator/coordinator.go.
use fdb_kubernetes_operator.Common.{
  ◌*◌, ◌<◌, ◌≡◌, ◌≢◌, inl, inr, refl, ◌∙◌, String, Bool, true, false, Option, none, some, List, [],
  ◌∷◌, if◌then◌else◌, string_eq, length, lookup, insert, lookup-insert, is_some, any, subst, All,
  All-map, Member, NoDuplicates, arith, eq_iff, Bool-cases, Option-cases,
}
use fdb_kubernetes_operator.Common.Int.{ℤ, pos_part}
use fdb_kubernetes_operator.Address.{Net, ProcessAddress, address_string}
use fdb_kubernetes_operator.ProcessGroup.{ProcessGroupId}
use fdb_kubernetes_operator.Database.Configuration.{Sort, desired_coordinator_count}
use fdb_kubernetes_operator.Locality.{Info}
use fdb_kubernetes_operator.Locality.Candidates.{
  Parser, Process, Cluster, select_candidates, info_for_process, is_skipped, candidate_priority,
  locality_of, get_coordinator_address, first_address,
}
use fdb_kubernetes_operator.Locality.Choice.{Choice, complete, not_enough, out_of_fuel, Limits}
use fdb_kubernetes_operator.Locality.Choice.Counting.{share}
use fdb_kubernetes_operator.Locality.Coordinators.{choose_coordinators, get_hard_limits}
use fdb_kubernetes_operator.Locality.Coordinators.Quorum.{
  IsFaultDomain, choose_coordinators_majority, choose_coordinators-length, choose_coordinators-All,
}
use fdb_kubernetes_operator.Locality.Validity.{check_coordinator_validity, limited_fields}
use fdb_kubernetes_operator.Locality.Validity.Checked.{reports, check_coordinator_validity-IsValid}

-- The address of a coordinator as text.
abbrev pub address_text : Net → Cluster → Info → String
address_text net c info = address_string net (get_coordinator_address c info)

-- The loop that makes the map of the new coordinators, none of them known to be healthy.
unfoldable pub unknown_status :
    Net → Cluster → List (String × Bool) → List Info → List (String × Bool)
unknown_status net c m [] = m
unknown_status net c m (i ∷ is) = unknown_status net c (insert (address_text net c i) false m) is

-- The check of the chosen coordinators, where `none` is an error.
unfoldable pub check_chosen :
    Net → Parser → Cluster → List Process → Limits → List Info → Option (List Info)
unfolding unknown_status check_coordinator_validity
check_chosen net parse c ps limits chosen =
    elim (check_coordinator_validity net parse c limits ps (unknown_status net c [] chosen)) [
      | none ↦ none
      | some (valid, addresses_valid) ↦
          if valid then (if addresses_valid then some chosen else none) else none
    ]

-- The result for the candidates: all coordinators that are asked for, once they are checked.
unfoldable pub check_choice :
    Net → Parser → Cluster → List Process → Limits → Option Choice → Option (List Info)
unfolding check_chosen
check_choice net parse c ps limits (some (complete chosen)) =
    check_chosen net parse c ps limits chosen
check_choice net parse c ps limits (some (not_enough chosen)) = none
check_choice net parse c ps limits (some out_of_fuel) = none
check_choice net parse c ps limits none = none

unfoldable pub select_coordinators :
    Sort → Net → Parser → Cluster → List (ProcessGroupId × ℤ) → List Process → Option (List Info)
unfolding select_candidates choose_coordinators get_hard_limits check_choice
select_coordinators sort net parse c pending ps = elim (select_candidates parse c pending ps) [
  | none ↦ none
  | some candidates ↦ elim (get_hard_limits c.database_configuration) [
    | none ↦ none
    | some limits ↦
        check_choice net parse c ps limits
          (choose_coordinators sort c.database_configuration candidates)
  ]
]

module _ (net : Net) (c : Cluster) where
  unknown_status-is_some :
      (m : List (String × Bool)) (is : List Info) (k : String)
      → is_some (lookup k m) ≡ true
      → is_some (lookup k (unknown_status net c m is)) ≡ true
  unfolding unknown_status
  unknown_status-is_some m [] k h = h
  unknown_status-is_some m (i ∷ is) k h =
      unknown_status-is_some (insert (address_text net c i) false m) is k
        (ground (arith, h, lookup-insert (address_text net c i) k false m))

  unknown_status-false :
      (m : List (String × Bool)) (is : List Info) (k : String)
      → lookup k m ≢ some true
      → lookup k (unknown_status net c m is) ≢ some true
  unfolding unknown_status
  unknown_status-false m [] k h = h
  unknown_status-false m (i ∷ is) k h =
      unknown_status-false (insert (address_text net c i) false m) is k
        (ground (arith, h, lookup-insert (address_text net c i) k false m))

  unknown_status-All :
      (m : List (String × Bool)) (is : List Info)
      → All (λ i. is_some (lookup (address_text net c i) (unknown_status net c m is)) ≡ true) is
  unfolding unknown_status
  unknown_status-All m [] = tt
  unknown_status-All m (i ∷ is) =
      let next : List (String × Bool) = insert (address_text net c i) false m in
      (
        unknown_status-is_some next is (address_text net c i) (
            ground (
              arith,
              eq_iff (address_text net c i) (address_text net c i),
              lookup-insert (address_text net c i) (address_text net c i) false m,
            )),
        unknown_status-All next is,
      )

-- GetHardLimits names each locality once.
get_hard_limits-NoDuplicates :
    (c : Cluster) (limits : Limits)
    → get_hard_limits c.database_configuration ≡ some limits
    → NoDuplicates (limited_fields limits)
unfolding get_hard_limits
get_hard_limits-NoDuplicates c limits h = ground (arith, h)

-- What is selected was chosen among the candidates, and found valid.
check_choice-some :
    (net : Net) (parse : Parser) (c : Cluster) (ps : List Process) (limits : Limits)
    (choice : Option Choice) (chosen : List Info)
    → check_choice net parse c ps limits choice ≡ some chosen
    → (choice ≡ some (complete chosen))
      × (check_coordinator_validity net parse c limits ps (unknown_status net c [] chosen)
          ≡ some (true, true))
unfolding check_choice check_chosen
check_choice-some net parse c ps limits none chosen h = absurd (ground (arith, h))
check_choice-some net parse c ps limits (some out_of_fuel) chosen h = absurd (ground (arith, h))
check_choice-some net parse c ps limits (some (not_enough qs)) chosen h = absurd (ground (arith, h))
check_choice-some net parse c ps limits (some (complete qs)) chosen h =
    elim (Option-cases
      (check_coordinator_validity net parse c limits ps (unknown_status net c [] qs))) [
        | inl e ↦ absurd (ground (arith, h, e))
        | inr ((valid, addresses), e) ↦
            let v : valid ≡ true = ground (arith, h, e) in
            let a : addresses ≡ true = ground (arith, h, e) in
            let same : qs ≡ chosen = ground (arith, h, e) in
            subst
              (λ l.
                ◌≡◌ {A = Option Choice} (some (complete qs)) (some (complete l))
                × (check_coordinator_validity net parse c limits ps (unknown_status net c [] l)
                    ≡ some (true, true)))
              same (refl, e ∙ rw (v, a) refl)
      ]

-- The locality is that of the process in all its fields: the zone, data center and data hall of the locality are
-- those that the process reports, and its address is the first of the command line that fits the TLS setting.
pub record IsLocalityOf (parse : Parser) (c : Cluster) (p : Process) (i : Info) : Type 0 where
  pub id : i.id ≡ locality_of "instance_id" p
  pub locality_data : i.locality_data ≡ p.locality
  pub class : i.class ≡ p.process_class
  pub priority : i.priority ≡ candidate_priority c p
  pub addresses : List ProcessAddress
  pub parsed : parse p.command_line ≡ some addresses
  pub address : i.address ≡ first_address c.enable_tls addresses

-- The locality is that of a process of the status that no test of selectCandidates skips.
abbrev pub IsCandidate : Parser → Cluster → List (ProcessGroupId × ℤ) → List Process → Info → Type 0
IsCandidate parse c pending ps i =
    (p : Process) × Member p ps × (is_skipped c pending p ≡ false) × IsLocalityOf parse c p i

info_for_process-IsLocalityOf :
    (parse : Parser) (c : Cluster) (p : Process) (i : Info)
    → info_for_process parse p c.enable_tls ≡ some i
    → IsLocalityOf parse c p (record i { priority = candidate_priority c p })
unfolding info_for_process
info_for_process-IsLocalityOf parse c p i h = elim (Option-cases (parse p.command_line)) [
  | inl e ↦ absurd (ground (arith, h, e))
  | inr (as', e) ↦ record {
    id = ground (arith, h, e);
    locality_data = ground (arith, h, e);
    class = ground (arith, h, e);
    priority = refl;
    addresses = as';
    parsed = e;
    address = ground (arith, h, e);
  }
]

IsCandidate-more :
    (parse : Parser) (c : Cluster) (pending : List (ProcessGroupId × ℤ)) (p : Process)
    (ps : List Process) (is : List Info)
    → All (IsCandidate parse c pending ps) is
    → All (IsCandidate parse c pending (p ∷ ps)) is
IsCandidate-more parse c pending p ps is h = All-map (λ i (q, m, k, e). (q, inr m, k, e)) is h

select_candidates-IsCandidate :
    (parse : Parser) (c : Cluster) (pending : List (ProcessGroupId × ℤ)) (ps : List Process)
    (is : List Info)
    → select_candidates parse c pending ps ≡ some is
    → All (IsCandidate parse c pending ps) is
unfolding select_candidates
select_candidates-IsCandidate parse c pending [] is h =
    let none_ : ◌≡◌ {A = List Info} [] is = ground (arith, h) in
    subst (All (IsCandidate parse c pending [])) none_ tt
select_candidates-IsCandidate parse c pending (p ∷ ps) is h =
    elim (Bool-cases (is_skipped c pending p)) [
      | inl e ↦
          IsCandidate-more parse c pending p ps is
            (select_candidates-IsCandidate parse c pending ps is (ground (arith, h, e)))
      | inr e ↦ elim (Option-cases (info_for_process parse p c.enable_tls)) [
        | inl n ↦ absurd (ground (arith, h, e, n))
        | inr (i, n) ↦ elim (Option-cases (select_candidates parse c pending ps)) [
          | inl r ↦ absurd (ground (arith, h, e, n, r))
          | inr (rest, r) ↦
              let same : record i { priority = candidate_priority c p } ∷ rest ≡ is =
                ground (arith, h, e, n, r) in
              subst (All (IsCandidate parse c pending (p ∷ ps))) same (
                (p, inl refl, e, info_for_process-IsLocalityOf parse c p i n),
                IsCandidate-more parse c pending p ps rest
                    (select_candidates-IsCandidate parse c pending ps rest r),
              )
        ]
      ]
    ]

-- The coordinators that selectCoordinatorsLocalities returns are as many as are desired; no value of a fault domain
-- holds half of them, where a fault domain is a zone if at least three coordinators are desired, a data center if
-- more than one region is usable and there are at least three data centers, and a data hall if the redundancy
-- mode is three_data_hall and no more than one region is usable; each has an address that a process of the
-- status reports which is not excluded; and each is the locality of a process of the status that no test of
-- selectCandidates skips, with the ID, the locality data, the class and the address of this process, and its
-- candidate priority.
pub select_coordinators_lem :
    (sort : Sort) (net : Net) (parse : Parser) (c : Cluster) (pending : List (ProcessGroupId × ℤ))
    (ps : List Process) (chosen : List Info) (f v : String)
    → select_coordinators sort net parse c pending ps ≡ some chosen
    → IsFaultDomain c.database_configuration f
    → (length chosen ≡ pos_part (desired_coordinator_count c.database_configuration))
      × (2 * share f v chosen < length chosen)
      × All
          (λ i.
            any (reports net parse c (unknown_status net c [] chosen) (address_text net c i)) ps
            ≡ true)
          chosen
      × All (IsCandidate parse c pending ps) chosen
unfolding select_coordinators
select_coordinators_lem sort net parse c pending ps chosen f v h d =
    elim (Option-cases (select_candidates parse c pending ps)) [
      | inl e ↦ absurd (ground (arith, h, e))
      | inr (candidates, e) ↦ elim (Option-cases (get_hard_limits c.database_configuration)) [
        | inl l ↦ absurd (ground (arith, h, e, l))
        | inr (limits, l) ↦
            let spec = c.database_configuration in
            let (choice, valid) =
              check_choice-some net parse c ps limits (choose_coordinators sort spec candidates)
                chosen (ground (arith, h, e, l)) in
            let checked =
              check_coordinator_validity-IsValid net parse c (unknown_status net c [] chosen) limits
                ps true (get_hard_limits-NoDuplicates c limits l) valid in
            (
              choose_coordinators-length sort spec candidates chosen choice,
              choose_coordinators_majority sort spec candidates chosen f v choice d,
              All-map
                  (λ i known. elim (checked.reported (address_text net c i) known) [
                    | inl t ↦ absurd (
                        unknown_status-false net c [] chosen (address_text net c i)
                          (λ (x : none ≡ some true). ground (arith, x)) t)
                    | inr r ↦ r
                  ])
                  chosen (unknown_status-All net c [] chosen),
              choose_coordinators-All (IsCandidate parse c pending ps) sort spec candidates chosen
                  choice (select_candidates-IsCandidate parse c pending ps candidates e),
            )
      ]
    ]
