-- ===== src/ProcessGroup/Terminating.antt =====
-- What the operations on the conditions of api/v1beta2/foundationdbcluster_types.go do to conditions that are all
-- ResourcesTerminating, and to the types that occur.
use fdb_kubernetes_operator.Common.{
  ◌≡◌, refl, String, Bool, true, List, [], ◌∷◌, arith, string_eq, select, All, ◌++◌,
}
use fdb_kubernetes_operator.Common.Int.{ℤ}
use fdb_kubernetes_operator.ProcessGroup.{
  ProcessGroupCondition, has_type, any_of_type, set_first_time, resources_terminating,
}
use fdb_kubernetes_operator.ProcessGroup.Conditions.{Distinct}

any_of_type-set_first_time :
    (t u : String) (time : ℤ) (cs : List ProcessGroupCondition)
    → any_of_type u (set_first_time t time cs) ≡ any_of_type u cs
unfolding set_first_time
any_of_type-set_first_time t u time [] = refl
any_of_type-set_first_time t u time (c ∷ cs) =
    ground (arith, any_of_type-set_first_time t u time cs)

pub set_first_time-Distinct :
    (t : String) (time : ℤ) (cs : List ProcessGroupCondition)
    → Distinct cs
    → Distinct (set_first_time t time cs)
unfolding set_first_time
set_first_time-Distinct t time [] d = tt
set_first_time-Distinct t time (c ∷ cs) d = ground (
  arith,
  any_of_type-set_first_time t c.condition_type time cs,
  set_first_time-Distinct t time cs d.1,
)

-- Only ResourcesTerminating is left.
abbrev pub OnlyTerminating : List ProcessGroupCondition → Type 0
OnlyTerminating = All (λ c. has_type resources_terminating c ≡ true)

pub select-OnlyTerminating :
    (cs : List ProcessGroupCondition) → OnlyTerminating (select (has_type resources_terminating) cs)
select-OnlyTerminating [] = tt
select-OnlyTerminating (c ∷ cs) = ground (arith, select-OnlyTerminating cs)

pub OnlyTerminating-select :
    (p : ProcessGroupCondition → Bool) (cs : List ProcessGroupCondition)
    → OnlyTerminating cs
    → OnlyTerminating (select p cs)
OnlyTerminating-select p [] o = tt
OnlyTerminating-select p (c ∷ cs) o = ground (arith, OnlyTerminating-select p cs o.1)

pub OnlyTerminating-append :
    (cs : List ProcessGroupCondition) (d : ProcessGroupCondition)
    → has_type resources_terminating d ≡ true
    → OnlyTerminating cs
    → OnlyTerminating (cs ++ d ∷ [])
OnlyTerminating-append [] d h o = (h, tt)
OnlyTerminating-append (c ∷ cs) d h o = (o.0, OnlyTerminating-append cs d h o.1)

pub OnlyTerminating-set_first_time :
    (t : String) (time : ℤ) (cs : List ProcessGroupCondition)
    → OnlyTerminating cs
    → OnlyTerminating (set_first_time t time cs)
unfolding set_first_time
OnlyTerminating-set_first_time t time [] o = tt
OnlyTerminating-set_first_time t time (c ∷ cs) o =
    ground (arith, OnlyTerminating-set_first_time t time cs o.1)
