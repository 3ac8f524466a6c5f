-- ===== src/Status/Classification.antt =====
-- How addresses are sorted by the exclusion state of the processes behind them.
use fdb_kubernetes_operator.Common.{
  ◌≡◌, refl, String, Bool, true, false, ◌&&◌, not, List, [], ◌∷◌, ◌++◌, map, if◌then◌else◌, nat_eq,
  string_eq, contains, is_some, select, eq_refl, arith, append-nil, append_assoc, sym, ◌∙◌, All,
}
use fdb_kubernetes_operator.Common.Int.{pos}
use fdb_kubernetes_operator.Address.{Net, ProcessAddress, machine_address}
use fdb_kubernetes_operator.Status.{
  Status, StatusProcess, ExclusionStatus, Tally, Kind, missing, not_excluded, fully_excluded,
  in_progress, visit_processes, kind_of, classify, append_kind, nothing, empty_tally,
  get_remaining_and_excluded, default_safety_checks, has_valid_role_information,
}
use fdb_kubernetes_operator.Status.Counting.{
  Counts-eq, visit_processes-Counts, kind_among, kind_of-visited,
}

contains-map_middle :
    (net : Net) (before : List ProcessAddress) (a : ProcessAddress) (rest : List ProcessAddress)
    → contains (map (machine_address net) (before ++ a ∷ rest)) (machine_address net a) ≡ true
contains-map_middle net [] a rest = ground (arith, eq_refl (machine_address net a))
contains-map_middle net (b ∷ before) a rest = ground (arith, contains-map_middle net before a rest)

abbrev pub is_kind : Kind → Kind → Bool
is_kind missing missing = true
is_kind not_excluded not_excluded = true
is_kind fully_excluded fully_excluded = true
is_kind in_progress in_progress = true
is_kind _ _ = false

module _ (net : Net) where
  -- The addresses whose kind, by the processes of the status, is the given one.
  abbrev pub of_kind : Kind → List StatusProcess → List ProcessAddress → List ProcessAddress
  of_kind k ps = select (λ a. is_kind k (kind_among net (machine_address net a) ps))

  -- A status with the addresses of each kind appended.
  abbrev pub joined : List StatusProcess → ExclusionStatus → List ProcessAddress → ExclusionStatus
  joined ps e xs = record {
    in_progress = e.in_progress ++ of_kind in_progress ps xs;
    fully_excluded = e.fully_excluded ++ of_kind fully_excluded ps xs;
    not_excluded = e.not_excluded ++ of_kind not_excluded ps xs;
    missing_in_status = e.missing_in_status ++ of_kind missing ps xs;
  }

  joined-append_kind :
      (ps : List StatusProcess) (e : ExclusionStatus) (a : ProcessAddress)
      (xs : List ProcessAddress) (k : Kind)
      → kind_among net (machine_address net a) ps ≡ k
      → joined ps (append_kind k e a) xs ≡ joined ps e (a ∷ xs)
  unfolding append_kind
  joined-append_kind ps e a xs missing h =
      rw h (ground (arith, append_assoc e.missing_in_status (a ∷ []) (of_kind missing ps xs)))
  joined-append_kind ps e a xs not_excluded h =
      rw h (ground (arith, append_assoc e.not_excluded (a ∷ []) (of_kind not_excluded ps xs)))
  joined-append_kind ps e a xs fully_excluded h =
      rw h (ground (arith, append_assoc e.fully_excluded (a ∷ []) (of_kind fully_excluded ps xs)))
  joined-append_kind ps e a xs in_progress h =
      rw h (ground (arith, append_assoc e.in_progress (a ∷ []) (of_kind in_progress ps xs)))

  classify-joined :
      (t : Tally) (ps : List StatusProcess) (e : ExclusionStatus) (xs : List ProcessAddress)
      → All (λ a. kind_of t (machine_address net a) ≡ kind_among net (machine_address net a) ps) xs
      → classify net t e xs ≡ joined ps e xs
  unfolding classify
  classify-joined t ps e [] h = ground (
    arith,
    append-nil e.in_progress,
    append-nil e.fully_excluded,
    append-nil e.not_excluded,
    append-nil e.missing_in_status,
  )
  classify-joined t ps e (a ∷ rest) (k, h) =
      classify-joined t ps (append_kind (kind_of t (machine_address net a)) e a) rest h
      ∙ joined-append_kind ps e a rest (kind_of t (machine_address net a)) (sym k)

  All-kind_of :
      (verify : List String) (t : Tally) (ps : List StatusProcess) (xs : List ProcessAddress)
      → ((m : String) → contains verify m ≡ true → kind_of t m ≡ kind_among net m ps)
      → (before : List ProcessAddress) → verify ≡ map (machine_address net) (before ++ xs)
      → All (λ a. kind_of t (machine_address net a) ≡ kind_among net (machine_address net a) ps) xs
  All-kind_of verify t ps [] h before e = tt
  All-kind_of verify t ps (a ∷ rest) h before e = (
    h (machine_address net a) (rw e (contains-map_middle net before a rest)),
    All-kind_of verify t ps rest h (before ++ a ∷ []) (rw (append_assoc before (a ∷ []) rest) e),
  )

  -- A status is trusted for exclusions: at most one active generation, the database is available, and no
  -- message says that role information may be missing.
  abbrev pub is_trusted : Status → Bool
  is_trusted status =
      not (is_some (default_safety_checks status (pos 1))) && has_valid_role_information status

  -- getRemainingAndExcludedFromStatus sorts the addresses by the processes that have them, and keeps their
  -- order. With a status that is not trusted all count as not excluded. Otherwise an address that no
  -- process has is missing; one that some process has that is not excluded is not excluded; one is fully
  -- excluded if every process that has it is excluded and without roles; the others are in progress.
  pub get_remaining_and_excluded_lem :
      (status : Status) (addresses : List ProcessAddress)
      → get_remaining_and_excluded net status addresses ≡ (
          if is_trusted status then joined status.processes nothing addresses else record {
            in_progress = [];
            fully_excluded = [];
            not_excluded = addresses;
            missing_in_status = [];
          })
  unfolding get_remaining_and_excluded
  get_remaining_and_excluded_lem status addresses =
      let verify = map (machine_address net) addresses in
      let tally = visit_processes net verify empty_tally status.processes in
      let sorted = classify-joined tally status.processes nothing addresses (
        All-kind_of verify tally status.processes addresses
          (λ m h. kind_of-visited net m tally status.processes (
            Counts-eq net m
              (visit_processes-Counts net m verify empty_tally status.processes 0 0 false h
                (record { visits = refl; idles = refl; inclusion = refl }))
              (omega arith) (omega arith) (ground arith)))
          [] refl) in
      ground (arith, sorted)
