-- ===== src/ProcessGroup/Conditions.antt =====
-- The conditions of a process group as a finite map from types to times.
use fdb_kubernetes_operator.Common.{
  ◌≡◌, refl, String, Bool, true, false, ◌&&◌, not, Option, none, some, List, [], ◌∷◌, ◌++◌, arith,
  if◌then◌else◌, ◌==◌, string_eq, select, eq_iff, Bool-cases, inl, inr,
}
use fdb_kubernetes_operator.Common.Int.{ℤ}
use fdb_kubernetes_operator.ProcessGroup.{
  Instant, ProcessGroupCondition, ProcessGroupStatus, ProcessGroupConditionType, has_type,
  any_of_type, find_condition_time, get_condition_time, new_process_group_condition, is_excluded,
  is_marked_for_removal, add_condition, update_condition, resources_terminating, set_exclude,
}

pub find_condition_time-select_ne :
    (t u : String) (cs : List ProcessGroupCondition)
    → find_condition_time u (select (λ c. not (has_type t c)) cs)
      ≡ (if t == u then none else find_condition_time u cs)
unfolding find_condition_time
find_condition_time-select_ne t u [] = ground (arith, eq_iff t u)
find_condition_time-select_ne t u (c ∷ cs) = ground (
  arith,
  eq_iff t u,
  eq_iff c.condition_type t,
  eq_iff c.condition_type u,
  find_condition_time-select_ne t u cs,
)

pub find_condition_time-any :
    (t : String) (cs : List ProcessGroupCondition)
    → any_of_type t cs ≡ false
    → find_condition_time t cs ≡ none
unfolding find_condition_time
find_condition_time-any t [] h = refl
find_condition_time-any t (c ∷ cs) h = ground (arith, find_condition_time-any t cs)

pub find_condition_time-some :
    (t : String) (cs : List ProcessGroupCondition)
    → any_of_type t cs ≡ true
    → (x : ℤ) × (find_condition_time t cs ≡ some x)
unfolding find_condition_time
find_condition_time-some t [] h = ground arith
find_condition_time-some t (c ∷ cs) h = elim (Bool-cases (has_type t c)) [
  | inl e ↦ (c.timestamp, ground arith)
  | inr e ↦ let (x, p) = find_condition_time-some t cs (ground arith) in (x, ground (arith, p))
]

pub find_condition_time-append :
    (u : String) (cs ds : List ProcessGroupCondition)
    → find_condition_time u (cs ++ ds)
      ≡ (if any_of_type u cs then find_condition_time u cs else find_condition_time u ds)
unfolding find_condition_time
find_condition_time-append u [] ds = refl
find_condition_time-append u (c ∷ cs) ds = ground (arith, find_condition_time-append u cs ds)

-- Whether a process group refuses a new condition of type `t`.
abbrev pub refuses : ProcessGroupConditionType → ProcessGroupStatus → Bool
refuses t s = (is_marked_for_removal s && is_excluded s) && not (t == resources_terminating)

-- The time of a condition after `UpdateCondition(t, true)`: a time already there stays.
abbrev pub time_after_add : Option ℤ → Bool → ℤ → Option ℤ
time_after_add (some x) refused now = some x
time_after_add none refused now = if refused then none else some now

get_condition_time-add_condition :
    (now : Instant) (t u : String) (s : ProcessGroupStatus)
    → get_condition_time u (add_condition now t s) ≡ (
        if t == u
        then time_after_add (get_condition_time u s) (refuses t s) now.seconds
        else get_condition_time u s)
unfolding get_condition_time add_condition
get_condition_time-add_condition now t u s = elim (Bool-cases (any_of_type t s.conditions)) [
  | inl e ↦ let (x, p) = find_condition_time-some t s.conditions e in ground (arith, eq_iff t u, p)
  | inr e ↦ ground (
    arith,
    eq_iff t u,
    find_condition_time-any t s.conditions e,
    find_condition_time-any u s.conditions,
    find_condition_time-append u s.conditions (new_process_group_condition now t ∷ []),
  )
]

-- `UpdateCondition` as an update of the map from condition types to times: for every type `u` the time
-- afterwards is unchanged unless `u` is the type given; that one is gone if the condition is to be
-- removed, and otherwise keeps a time that it had, gets the current time, or stays absent where the
-- process group is marked for removal and excluded and the type is not ResourcesTerminating.
pub get_condition_time-update_condition :
    (now : Instant) (t : ProcessGroupConditionType) (set : Bool) (s : ProcessGroupStatus)
    (u : ProcessGroupConditionType)
    → get_condition_time u (update_condition now t set s) ≡ (
        if t == u
        then (if set
            then time_after_add (get_condition_time u s) (refuses t s) now.seconds
            else none)
        else get_condition_time u s)
unfolding update_condition get_condition_time
get_condition_time-update_condition now t true s u = get_condition_time-add_condition now t u s
get_condition_time-update_condition now t false s u =
    ground (arith, find_condition_time-select_ne t u s.conditions)

-- No type occurs twice.
abbrev pub Distinct : List ProcessGroupCondition → Type 0
Distinct [] = Unit {0}
Distinct (c ∷ cs) = (any_of_type c.condition_type cs ≡ false) × Distinct cs

any_of_type-select :
    (t : String) (p : ProcessGroupCondition → Bool) (cs : List ProcessGroupCondition)
    → any_of_type t cs ≡ false
    → any_of_type t (select p cs) ≡ false
any_of_type-select t p [] h = refl
any_of_type-select t p (c ∷ cs) h = ground (arith, any_of_type-select t p cs)

Distinct-select :
    (p : ProcessGroupCondition → Bool) (cs : List ProcessGroupCondition)
    → Distinct cs
    → Distinct (select p cs)
Distinct-select p [] d = tt
Distinct-select p (c ∷ cs) d =
    ground (arith, any_of_type-select c.condition_type p cs, Distinct-select p cs d.1)

any_of_type-append :
    (t : String) (cs : List ProcessGroupCondition) (d : ProcessGroupCondition)
    → any_of_type t (cs ++ d ∷ []) ≡ (if any_of_type t cs then true else has_type t d)
any_of_type-append t [] d = ground arith
any_of_type-append t (c ∷ cs) d = ground (arith, any_of_type-append t cs d)

Distinct-append :
    (cs : List ProcessGroupCondition) (d : ProcessGroupCondition)
    → any_of_type d.condition_type cs ≡ false
    → Distinct cs
    → Distinct (cs ++ d ∷ [])
Distinct-append [] d h k = (refl, tt)
Distinct-append (c ∷ cs) d h k = ground (
  arith,
  eq_iff c.condition_type d.condition_type,
  eq_iff d.condition_type c.condition_type,
  any_of_type-append c.condition_type cs d,
  Distinct-append cs d,
  k,
)

-- No operation on the conditions makes a type occur twice.
pub update_condition-Distinct :
    (now : Instant) (t : ProcessGroupConditionType) (set : Bool) (s : ProcessGroupStatus)
    → Distinct s.conditions
    → Distinct (update_condition now t set s).conditions
unfolding update_condition new_process_group_condition
update_condition-Distinct now t true s d =
    ground (arith, Distinct-append s.conditions (new_process_group_condition now t), d)
update_condition-Distinct now t false s d = Distinct-select (λ c. not (has_type t c)) s.conditions d

pub set_exclude-Distinct :
    (now : Instant) (s : ProcessGroupStatus)
    → Distinct s.conditions
    → Distinct (set_exclude now s).conditions
unfolding set_exclude
set_exclude-Distinct now s d =
    ground (arith, Distinct-select (has_type resources_terminating) s.conditions d, d)
