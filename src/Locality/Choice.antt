-- ===== src/Locality/Choice.antt =====
-- ChooseDistributedProcesses of internal/locality/locality.go, after the processes are sorted. Counts and
-- limits are natural numbers: Go panics on a negative count, and no caller passes a negative limit.
pub mod Counting
pub mod Rounds
pub mod Spread
pub mod Setup
use fdb_kubernetes_operator.Common.{
  ℕ, zero, suc, ◌+◌, ◌-◌, String, Bool, true, false, not, ◌&&◌, ◌||◌, Option, none, some, List, [],
  ◌∷◌, ◌++◌, if◌then◌else◌, ◌==◌, nat_eq, string_eq, ltb, leb, length, contains, lookup, insert,
  deref,
}
use fdb_kubernetes_operator.Locality.{Info, value_of}

-- A map of maps: for a field and a value of it, how many processes were chosen.
abbrev pub Counts : Type 0
Counts = List (String × List (String × ℕ))

abbrev pub Limits : Type 0
Limits = List (String × ℕ)

-- `chosenCounts[field][value]`
abbrev pub count_of : Counts → String → String → ℕ
count_of counts field value = deref (lookup value (deref (lookup field counts) [])) 0

-- `chosenCounts[field][value]++`
unfoldable pub add_count : Counts → String → String → Counts
add_count counts field value =
    insert field (insert value (suc (count_of counts field value)) (deref (lookup field counts) []))
      counts

abbrev pub limit_of : Limits → String → ℕ
limit_of limits field = deref (lookup field limits) 0

pub record Selection : Type 0 where
  pub chosen : List Info
  pub chosen_ids : List String
  pub chosen_counts : Counts

-- The loop that tests whether a process is eligible.
unfoldable pub is_eligible : Limits → Counts → Info → List String → Bool
is_eligible limits counts p [] = true
is_eligible limits counts p (f ∷ fs) =
    if leb (limit_of limits f) (count_of counts f (value_of f p))
    then false
    else is_eligible limits counts p fs

-- The loop that counts a process that was chosen.
unfoldable pub count_process : Counts → Info → List String → Counts
unfolding add_count
count_process counts p [] = counts
count_process counts p (f ∷ fs) = count_process (add_count counts f (value_of f p)) p fs

unfoldable pub choose : List String → Info → Selection → Selection
unfolding count_process
choose fields p s = record {
  chosen = s.chosen ++ p ∷ [];
  chosen_ids = p.id ∷ s.chosen_ids;
  chosen_counts = count_process s.chosen_counts p fields;
}

-- One pass over the processes, with whether any was chosen.
unfoldable pub pass : List String → ℕ → Limits → Selection × Bool → List Info → Selection × Bool
unfolding is_eligible choose
pass fields count limits s [] = s
pass fields count limits s (p ∷ ps) =
    let skipped =
      contains s.0.chosen_ids p.id || not (is_eligible limits s.0.chosen_counts p fields) in
    let next = if skipped then s else (choose fields p s.0, true) in
    let rest = pass fields count limits next ps in
    if not skipped && length next.0.chosen == count then next else rest

-- The loop over the fields from the last to the first: the new limits, or `none` if no limit can grow.
unfoldable pub raise_limit : Limits → Limits → List String → Option Limits
raise_limit hard limits [] = none
raise_limit hard limits (f ∷ fs) = elim (raise_limit hard limits fs) [
  | some raised ↦ some raised
  | none ↦
      if ltb (limit_of limits f) (limit_of hard f)
      then some (insert f (suc (limit_of limits f)) limits)
      else none
]

pub data Choice : Type 0 where
  complete not_enough : List Info → Choice
  out_of_fuel : Choice

-- The outer loop, on fuel.
unfoldable pub choose_loop : ℕ → List String → ℕ → Limits → List Info → Limits → Selection → Choice
unfolding pass raise_limit
choose_loop zero fields count hard ps limits s = out_of_fuel
choose_loop (suc n) fields count hard ps limits s =
    let p = pass fields count limits (s, false) ps in
    let next = if p.1 then some limits else raise_limit hard limits fields in
    if not (ltb (length s.chosen) count)
    then (if not (length s.chosen == count) then not_enough s.chosen else complete s.chosen)
    else elim next [
      | none ↦ not_enough p.0.chosen
      | some raised ↦ choose_loop n fields count hard ps raised p.0
    ]

-- The loop that sets up the limits: a hard limit of 0 is the count.
unfoldable pub set_hard_limits : ℕ → Limits → List String → Limits
set_hard_limits count hard [] = hard
set_hard_limits count hard (f ∷ fs) =
    set_hard_limits count (if limit_of hard f == 0 then insert f count hard else hard) fs

unfoldable pub set_limits : Limits → List String → Limits
set_limits limits [] = limits
set_limits limits (f ∷ fs) = set_limits (insert f 1 limits) fs

unfoldable pub set_counts : Counts → List String → Counts
set_counts counts [] = counts
set_counts counts (f ∷ fs) = set_counts (insert f [] counts) fs

-- How often the limits can be raised.
unfoldable pub gap : Limits → Limits → List String → ℕ
gap hard limits [] = 0
gap hard limits (f ∷ fs) = (limit_of hard f - limit_of limits f) + gap hard limits fs

-- The choice from sorted processes, with fuel for each process to choose and each limit to raise.
unfoldable pub choose_sorted : List String → ℕ → Limits → List Info → Choice
unfolding choose_loop set_hard_limits set_limits set_counts gap
choose_sorted fields count limits ps =
    let hard = set_hard_limits count limits fields in
    let current = set_limits [] fields in
    choose_loop (suc (count + gap hard current fields)) fields count hard ps current
      (record { chosen = []; chosen_ids = []; chosen_counts = set_counts [] fields })
