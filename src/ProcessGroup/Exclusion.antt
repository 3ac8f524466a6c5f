-- ===== src/ProcessGroup/Exclusion.antt =====
-- Whether all addresses of a process group are excluded: GetExclusionString and AllAddressesExcluded of
-- api/v1beta2/foundationdbcluster_types.go, and processGroupAddressesRemaining of
-- controllers/remove_process_groups.go. The map says of each address that was checked whether the
-- exclusion still has to complete.
use Prim.Native.String.{◌++◌ as str_append}
use fdb_kubernetes_operator.Common.{
  ◌≡◌, refl, String, Bool, true, false, ◌&&◌, ◌||◌, not, Option, none, some, List, [], ◌∷◌, arith,
  if◌then◌else◌, ◌==◌, string_eq, ltb, lookup, is_empty, is_some,
}
use fdb_kubernetes_operator.Common.Int.{ℤ, pos, ◌-ℤ◌, ltb_ℤ, int_eq}
use fdb_kubernetes_operator.ProcessGroup.{
  Instant, ProcessGroupStatus, ProcessGroupId, is_excluded, get_condition_time, pod_pending,
}

unfoldable pub get_exclusion_string : ProcessGroupId → String
get_exclusion_string id = str_append (str_append "locality_instance_id" ":") id

-- The errors of `AllAddressesExcluded`.
pub data ExclusionError : Type 0 where
  missing_exclusion_string : String → ExclusionError
  no_addresses : ExclusionError
  missing_address : String → ExclusionError

-- time.Since(time.Unix(t, 0)) > oneHourDuration
abbrev over_an_hour_since : Instant → ℤ → Bool
over_an_hour_since now t =
    let seconds = now.seconds -ℤ t in
    ltb_ℤ (pos 3600) seconds || seconds == pos 3600 && ltb 0 now.nanos

-- The loop over the addresses: an address that is missing in the map, or remaining, is an error.
check_addresses : List (String × Bool) → List String → Bool × Option ExclusionError
check_addresses remaining [] = (true, none)
check_addresses remaining (a ∷ rest) = elim (lookup a remaining) [
  | none ↦ (false, some (missing_address a))
  | some true ↦ (false, some (missing_address a))
  | some false ↦ check_addresses remaining rest
]

-- The case of a process group with no address.
pending_too_long : Instant → Option ℤ → Bool × Option ExclusionError
pending_too_long now none = (false, some no_addresses)
pending_too_long now (some t) =
    if over_an_hour_since now t then (true, none) else (false, some no_addresses)

unfoldable pub all_addresses_excluded :
    Instant → ProcessGroupStatus → List (String × Bool) → Bool × Option ExclusionError
unfolding check_addresses pending_too_long get_exclusion_string
all_addresses_excluded now g remaining =
    if is_excluded g
    then (true, none)
    else elim (lookup (get_exclusion_string g.process_group_id) remaining) [
      | some true ↦
          (false, some (missing_exclusion_string (get_exclusion_string g.process_group_id)))
      | some false ↦ (true, none)
      | none ↦
          if is_empty g.addresses
          then pending_too_long now (get_condition_time pod_pending g)
          else check_addresses remaining g.addresses
    ]

-- The loop of `processGroupAddressesRemaining`.
any_remaining : List (String × Bool) → List String → Bool
any_remaining remaining [] = false
any_remaining remaining (a ∷ rest) = elim (lookup a remaining) [
  | some true ↦ true
  | _ ↦ any_remaining remaining rest
]

unfoldable pub process_group_addresses_remaining : ProcessGroupStatus → List (String × Bool) → Bool
unfolding any_remaining get_exclusion_string
process_group_addresses_remaining g remaining =
    elim (lookup (get_exclusion_string g.process_group_id) remaining) [
      | some true ↦ true
      | _ ↦ any_remaining remaining g.addresses
    ]

-- What the map says of an address.
abbrev pub is_remaining : List (String × Bool) → String → Bool
is_remaining remaining a = elim (lookup a remaining) [ some true ↦ true | _ ↦ false ]

abbrev pub is_confirmed : List (String × Bool) → String → Bool
is_confirmed remaining a = elim (lookup a remaining) [ some false ↦ true | _ ↦ false ]

abbrev pub all_confirmed : List (String × Bool) → List String → Bool
all_confirmed remaining [] = true
all_confirmed remaining (a ∷ rest) = is_confirmed remaining a && all_confirmed remaining rest

check_addresses_lem :
    (remaining : List (String × Bool)) (xs : List String)
    → (check_addresses remaining xs).0 ≡ all_confirmed remaining xs
unfolding check_addresses
check_addresses_lem remaining [] = refl
check_addresses_lem remaining (a ∷ rest) = ground (arith, check_addresses_lem remaining rest)

check_addresses_error :
    (remaining : List (String × Bool)) (xs : List String)
    → is_some (check_addresses remaining xs).1 ≡ not (check_addresses remaining xs).0
unfolding check_addresses
check_addresses_error remaining [] = refl
check_addresses_error remaining (a ∷ rest) = ground (arith, check_addresses_error remaining rest)

-- The evidence on which a process group that is not flagged as excluded counts as excluded: the map
-- confirms its locality; or the map does not mention its locality and confirms each of its addresses,
-- of which there is at least one; or it has neither, and was pending for more than an hour.
abbrev pub has_evidence : Instant → ProcessGroupStatus → List (String × Bool) → Bool
has_evidence now g remaining = elim (lookup (get_exclusion_string g.process_group_id) remaining) [
  | some r ↦ not r
  | none ↦
      if is_empty g.addresses
      then (elim (get_condition_time pod_pending g) [
        | none ↦ false
        | some t ↦ over_an_hour_since now t
      ])
      else all_confirmed remaining g.addresses
]

-- `AllAddressesExcluded` answers true exactly for a process group that is flagged as excluded or has
-- that evidence, and it returns an error exactly when it answers false.
pub all_addresses_excluded_lem :
    (now : Instant) (g : ProcessGroupStatus) (remaining : List (String × Bool))
    → ((all_addresses_excluded now g remaining).0 ≡ (is_excluded g || has_evidence now g remaining))
      × (is_some (all_addresses_excluded now g remaining).1
          ≡ not (all_addresses_excluded now g remaining).0)
unfolding all_addresses_excluded
all_addresses_excluded_lem now g remaining =
    ground (
      arith,
      check_addresses_lem remaining g.addresses,
      check_addresses_error remaining g.addresses,
    )
