-- ===== src/Locality/Validity/Checked.antt =====
-- What CheckCoordinatorValidity of internal/locality/locality.go has checked when it finds the coordinators
-- valid.
use fdb_kubernetes_operator.Common.{
  ℕ, ◌≤◌, ◌≡◌, ◌⊎◌, inl, inr, refl, sym, ap, ◌∙◌, subst, String, Bool, true, false, not, ◌&&◌, ◌||◌,
  none, some, List, [], ◌∷◌, ◌++◌, append-nil, append_assoc, if◌then◌else◌, ◌==◌, string_eq, nat_eq,
  is_some, lookup, lookup-insert, any, any-append, count_if, count_if-append, contains,
  NoDuplicates, arith, eq_iff, Bool-cases, Option-cases,
}
use fdb_kubernetes_operator.Common.Int.{int_eq}
use fdb_kubernetes_operator.Address.{Net, ProcessAddress, address_string}
use fdb_kubernetes_operator.Locality.Candidates.{
  Parser, Process, Cluster, first_address, is_eligible_as_candidate,
}
use fdb_kubernetes_operator.Locality.Choice.{Limits, count_of, set_counts}
use fdb_kubernetes_operator.Locality.Choice.Setup.{count_of-set_counts}
use fdb_kubernetes_operator.Locality.Validity.{
  Findings, dns_address, limited_fields, coordinator_address, is_ignored, check_address,
  check_process, check_processes, within_limits, all_healthy, check_coordinator_validity,
}
use fdb_kubernetes_operator.Locality.Validity.Bounds.{
  has_locality, count_of-count_localities, within_limits_lem, contains-limited_fields,
  all_healthy_lem,
}

module _ (net : Net) (parse : Parser) (c : Cluster) (status : List (String × Bool)) where
  -- The address under which a process is a coordinator, or the empty text.
  unfoldable pub address_of : Process → String
  address_of p = if is_ignored p then "" else elim (parse p.command_line) [
    | none ↦ ""
    | some addresses ↦ (coordinator_address net status p (first_address c.enable_tls addresses)).0
  ]

  abbrev pub is_coordinator : Process → Bool
  is_coordinator p = not (address_of p == "")

  -- A process that is not excluded is the coordinator of the address.
  abbrev pub reports : String → Process → Bool
  reports k p = is_coordinator p && address_of p == k && not p.excluded

  abbrev pub is_ineligible : Process → Bool
  is_ineligible p = is_coordinator p && not (is_eligible_as_candidate c p.process_class)

  -- What holds of the findings after the processes in a list.
  pub record Checked (fields : List String) (done : List Process) (s : Findings) : Type 0 where
    pub keys : (k : String) → is_some (lookup k s.coordinator_status) ≡ is_some (lookup k status)
    pub healthy :
        (k : String)
        → lookup k s.coordinator_status ≡ some true
        → (lookup k status ≡ some true) ⊎ (any (reports k) done ≡ true)
    pub eligible : s.all_eligible ≡ not (any is_ineligible done)
    pub counted :
        (f v : String)
        → contains fields f ≡ true
        → count_of s.coordinator_localities f v
          ≡ count_if (λ p. is_coordinator p && has_locality f v p) done

  -- The address depends on the keys of the map only.
  coordinator_address_keys :
      (m : List (String × Bool)) (p : Process) (ip : ProcessAddress)
      → ((k : String) → is_some (lookup k m) ≡ is_some (lookup k status))
      → coordinator_address net m p ip ≡ coordinator_address net status p ip
  unfolding coordinator_address
  coordinator_address_keys m p ip h =
      rw
        (
          h (address_string net (dns_address p ip)),
          h (address_string net (record ip { from_hostname = true })),
          h (address_string net ip),
        )
        refl

  coordinator_address_lem :
      (p : Process) (ip : ProcessAddress)
      → let a = (coordinator_address net status p ip).0 in
        (a ≡ "") ⊎ (is_some (lookup a status) ≡ true)
  unfolding coordinator_address
  coordinator_address_lem p ip =
      elim (Bool-cases (is_some (lookup (address_string net (dns_address p ip)) status))) [
        | inl e ↦ rw e (inr e)
        | inr e ↦
            elim (Bool-cases
              (is_some (lookup (address_string net (record ip { from_hostname = true })) status))) [
                | inl f ↦ rw (e, f) (inr f)
                | inr f ↦ elim (Bool-cases (is_some (lookup (address_string net ip) status))) [
                  | inl g ↦ rw (e, f, g) (inr g)
                  | inr g ↦ rw (e, f, g) (inl refl)
                ]
              ]
      ]

  any-snoc :
      (t : Process → Bool) (done : List Process) (p : Process)
      → any t (done ++ p ∷ []) ≡ (any t done || t p)
  any-snoc t done p = ground (arith, any-append t done (p ∷ []))

  -- A process that is no coordinator changes nothing that is checked.
  skip-Checked :
      (fields : List String) (done : List Process) (s t : Findings) (p : Process)
      → address_of p ≡ ""
      → t.coordinator_status ≡ s.coordinator_status
      → t.coordinator_localities ≡ s.coordinator_localities
      → t.all_eligible ≡ s.all_eligible
      → Checked fields done s
      → Checked fields (done ++ p ∷ []) t
  skip-Checked fields done s t p none_ status_ localities eligible_ d = record {
    keys = λ k. ap (λ m. is_some (lookup k m)) status_ ∙ d.keys k;
    healthy = λ k h. elim (d.healthy k (ap (λ m. lookup k m) (sym status_) ∙ h)) [
      | inl e ↦ inl e
      | inr e ↦ inr (ground (arith, e, any-snoc (reports k) done p))
    ];
    eligible =
        eligible_
        ∙ ground
            (arith, none_, eq_iff (address_of p) "", d.eligible, any-snoc is_ineligible done p);
    counted = λ f v h.
        ap (λ m. count_of m f v) localities
        ∙ ground (
          arith,
          none_,
          eq_iff (address_of p) "",
          d.counted f v h,
          count_if-append (λ (q : Process). is_coordinator q && has_locality f v q) done (p ∷ []),
        );
  }

  check_address-Checked :
      (fields : List String) (done : List Process) (s : Findings) (p : Process)
      (ip : ProcessAddress)
      → NoDuplicates fields
      → address_of p ≡ (coordinator_address net status p ip).0
      → Checked fields done s
      → Checked fields (done ++ p ∷ []) (check_address net c fields s p ip)
  unfolding check_address
  check_address-Checked fields done s p ip nd e d =
      let same : (coordinator_address net s.coordinator_status p ip).0 ≡ address_of p =
        ap (λ (a : String × Bool). a.0) (coordinator_address_keys s.coordinator_status p ip d.keys)
        ∙ sym e in
      let key : (address_of p ≡ "") ⊎ (is_some (lookup (address_of p) status) ≡ true) =
        subst (λ a. (a ≡ "") ⊎ (is_some (lookup a status) ≡ true)) (sym e)
          (coordinator_address_lem p ip) in
      record {
        keys = λ k. ground (
          arith,
          same,
          key,
          d.keys k,
          eq_iff (address_of p) "",
          eq_iff (address_of p) k,
          lookup-insert (address_of p) k true s.coordinator_status,
        );
        healthy = λ k h. ground (
          arith,
          h,
          same,
          d.healthy k,
          eq_iff (address_of p) "",
          eq_iff (address_of p) k,
          any-snoc (reports k) done p,
          lookup-insert (address_of p) k true s.coordinator_status,
        );
        eligible =
            ground
              (arith, same, d.eligible, eq_iff (address_of p) "", any-snoc is_ineligible done p);
        counted = λ f v h. ground (
          arith,
          h,
          same,
          d.counted f v h,
          eq_iff (address_of p) "",
          count_of-count_localities s.coordinator_localities p fields f v nd,
          count_if-append (λ (q : Process). is_coordinator q && has_locality f v q) done (p ∷ []),
        );
      }

  check_process-Checked :
      (fields : List String) (done : List Process) (s : Findings) (p : Process)
      → NoDuplicates fields
      → Checked fields done s
      → Checked fields (done ++ p ∷ []) (check_process net parse c fields s p)
  unfolding check_process address_of
  check_process-Checked fields done s p nd d = elim (Bool-cases (is_ignored p)) [
    | inl i ↦
        let e : address_of p ≡ "" = rw i refl in
        rw i (skip-Checked fields done s s p e refl refl refl d)
    | inr i ↦ elim (Option-cases (parse p.command_line)) [
      | inl n ↦
          let e : address_of p ≡ "" = rw (i, n) refl in
          rw (i, n)
            (skip-Checked fields done s (record s { all_addresses_valid = false }) p e refl refl
              refl d)
      | inr (addresses, n) ↦
          let ip = first_address c.enable_tls addresses in
          let e : address_of p ≡ (coordinator_address net status p ip).0 = rw (i, n) refl in
          rw (i, n) (check_address-Checked fields done s p ip nd e d)
    ]
  ]

  check_processes-Checked :
      (fields : List String) (done ps : List Process) (s : Findings)
      → NoDuplicates fields
      → Checked fields done s
      → Checked fields (done ++ ps) (check_processes net parse c fields s ps)
  unfolding check_processes
  check_processes-Checked fields done [] s nd d = rw (append-nil done) d
  check_processes-Checked fields done (p ∷ ps) s nd d = rw (sym (append_assoc done (p ∷ []) ps)) (
      check_processes-Checked fields (done ++ p ∷ []) ps (check_process net parse c fields s p) nd
        (check_process-Checked fields done s p nd d))

  -- The coordinators at these addresses are valid: each was known to be healthy or is reported by a process that
  -- is not excluded, no coordinator process has a class that is not eligible, and no value of a limited
  -- locality has more coordinator processes than its limit.
  pub record IsValid (limits : Limits) (ps : List Process) : Type 0 where
    pub reported :
        (k : String)
        → is_some (lookup k status) ≡ true
        → (lookup k status ≡ some true) ⊎ (any (reports k) ps ≡ true)
    pub eligible : any is_ineligible ps ≡ false
    pub spread :
        (f v : String) (limit : ℕ)
        → lookup f limits ≡ some limit
        → count_if (λ p. is_coordinator p && has_locality f v p) ps ≤ limit

  start : Limits → Findings
  start limits = record {
    coordinator_status = status;
    coordinator_localities = set_counts [] (limited_fields limits);
    all_addresses_valid = true;
    all_eligible = true;
    all_using_correct_address = true;
  }

  start-Checked : (limits : Limits) → Checked (limited_fields limits) [] (start limits)
  unfolding start
  start-Checked limits = record {
    keys = λ k. refl;
    healthy = λ k h. inl h;
    eligible = refl;
    counted = λ f v h. count_of-set_counts [] (limited_fields limits) f v refl;
  }

  -- If CheckCoordinatorValidity returns that the coordinators are valid, then each of their addresses was given as
  -- healthy or is reported by a process that is not excluded, no coordinator process has a class that is not
  -- eligible, and no value of a locality has more coordinator processes than its hard limit. The limits name
  -- each locality once.
  pub check_coordinator_validity-IsValid :
      (limits : Limits) (ps : List Process) (addresses_valid : Bool)
      → NoDuplicates (limited_fields limits)
      → check_coordinator_validity net parse c limits ps status ≡ some (true, addresses_valid)
      → IsValid limits ps
  unfolding check_coordinator_validity start
  check_coordinator_validity-IsValid limits ps addresses_valid nd h =
      let s : Findings = check_processes net parse c (limited_fields limits) (start limits) ps in
      let d : Checked (limited_fields limits) ps s =
        check_processes-Checked (limited_fields limits) [] ps (start limits) nd
          (start-Checked limits) in
      let within : within_limits s.coordinator_localities limits ≡ true = ground (arith, h) in
      let healthy : all_healthy s.coordinator_status ≡ true = ground (arith, h) in
      let eligible : s.all_eligible ≡ true = ground (arith, h) in
      record {
        reported =
            λ k e. d.healthy k (all_healthy_lem s.coordinator_status k healthy (d.keys k ∙ e));
        eligible = ground (arith, eligible, d.eligible);
        spread = λ f v limit e. ground (
          arith,
          d.counted f v (contains-limited_fields limits f limit e),
          within_limits_lem s.coordinator_localities limits f limit v within e,
        );
      }
