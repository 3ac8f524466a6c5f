-- ===== src/Removal/Evidence.antt =====
-- What it says of an address that CanSafelyRemoveFromStatus of pkg/fdbstatus/status_checks.go does not
-- return it as remaining.
use Prim.Native.String.{◌++◌ as str_append, count}
use text.Mathlib.TextLemmas.{length-append}
use fdb_kubernetes_operator.Common.{
  ◌≡◌, ◌⊎◌, subst, refl, String, Bool, true, false, ◌||◌, some, List, [], ◌∷◌, ◌++◌, map,
  if◌then◌else◌, ◌==◌, string_eq, contains, arith, Bool-cases, inl, inr, lookup, insert,
  lookup-insert, eq_iff, eq_refl, ap, ◌∙◌, sym,
}
use fdb_kubernetes_operator.Address.{
  Net, ProcessAddress, of_string, address_string, machine_address,
}
use fdb_kubernetes_operator.Status.{
  Status, StatusProcess, Kind, not_excluded, in_progress, can_safely_remove,
  get_remaining_and_excluded,
}
use fdb_kubernetes_operator.Status.Classification.{
  get_remaining_and_excluded_lem, is_trusted, is_kind, of_kind,
}
use fdb_kubernetes_operator.Status.Counting.{kind_among, any_process, all_idle}
use fdb_kubernetes_operator.ProcessGroup.{ProcessGroupStatus, ProcessGroupId}
use fdb_kubernetes_operator.ProcessGroup.Exclusion.{get_exclusion_string}
use fdb_kubernetes_operator.Removal.Remaining.{set_all}

pub lookup-set_all :
    (net : Net) (v : Bool) (xs : List ProcessAddress) (m : List (String × Bool)) (k : String)
    → lookup k (set_all net v xs m)
      ≡ (if contains (map (address_string net) xs) k then some v else lookup k m)
unfolding set_all
lookup-set_all net v [] m k = refl
lookup-set_all net v (a ∷ xs) m k = ground (
  arith,
  lookup-set_all net v xs (insert (address_string net a) v m) k,
  lookup-insert (address_string net a) k v m,
)

exclusion_string-empty : (id : ProcessGroupId) → (get_exclusion_string id == "") ≡ false
unfolding get_exclusion_string
exclusion_string-empty id = ground (
  arith,
  eq_iff (get_exclusion_string id) "",
  ap count {x = get_exclusion_string id} {y = ""},
  length-append (str_append "locality_instance_id" ":") id,
)

-- The exclusion string of a process group is the text of the address that is checked for it.
pub address_string-exclusion :
    (net : Net) (id : ProcessGroupId)
    → (address_string net (of_string (get_exclusion_string id)) ≡ get_exclusion_string id)
      × (machine_address net (of_string (get_exclusion_string id)) ≡ get_exclusion_string id)
unfolding address_string machine_address
address_string-exclusion net id = ground (arith, exclusion_string-empty id)

-- The process group is in the list.
abbrev pub Member : ProcessGroupStatus → List ProcessGroupStatus → Type 0
Member g [] = ⊥
Member g (h ∷ hs) = (g ≡ h) ⊎ Member g hs

abbrev pub Occurs : ProcessAddress → List ProcessAddress → Type 0
Occurs a [] = ⊥
Occurs a (x ∷ xs) = (a ≡ x) ⊎ Occurs a xs

pub Occurs-append :
    (a : ProcessAddress) (xs ys : List ProcessAddress)
    → Occurs a xs ⊎ Occurs a ys
    → Occurs a (xs ++ ys)
Occurs-append a [] ys h = ground (arith, h)
Occurs-append a (x ∷ xs) ys h = ground (arith, h, Occurs-append a xs ys)

abbrev pub texts : Net → List ProcessAddress → List String
texts net xs = map (address_string net) xs

texts-append :
    (net : Net) (xs ys : List ProcessAddress) (k : String)
    → contains (texts net (xs ++ ys)) k ≡ (contains (texts net xs) k || contains (texts net ys) k)
texts-append net [] ys k = refl
texts-append net (x ∷ xs) ys k = ground (arith, texts-append net xs ys k)

pub texts-Occurs :
    (net : Net) (a : ProcessAddress) (xs : List ProcessAddress)
    → Occurs a xs
    → contains (texts net xs) (address_string net a) ≡ true
texts-Occurs net a [] h = ground arith
texts-Occurs net a (x ∷ xs) (inl e) = rw e (ground (arith, eq_refl (address_string net x)))
texts-Occurs net a (x ∷ xs) (inr h) = ground (arith, texts-Occurs net a xs h)

of_kind-Occurs :
    (net : Net) (k : Kind) (ps : List StatusProcess) (a : ProcessAddress) (xs : List ProcessAddress)
    → is_kind k (kind_among net (machine_address net a) ps) ≡ true
    → Occurs a xs
    → Occurs a (of_kind net k ps xs)
of_kind-Occurs net k ps a [] h o = o
of_kind-Occurs net k ps a (x ∷ xs) h (inl e) =
    rw (subst (λ y. is_kind k (kind_among net (machine_address net y) ps) ≡ true) e h) (inl e)
of_kind-Occurs net k ps a (x ∷ xs) h (inr o) =
    elim (Bool-cases (is_kind k (kind_among net (machine_address net x) ps))) [
      | inl e ↦ rw e (inr (of_kind-Occurs net k ps a xs h o))
      | inr e ↦ rw e (of_kind-Occurs net k ps a xs h o)
    ]

no_process-all_idle :
    (net : Net) (k : String) (ps : List StatusProcess)
    → any_process net k ps ≡ false
    → all_idle net k ps ≡ true
no_process-all_idle net k [] h = refl
no_process-all_idle net k (p ∷ ps) h = ground (arith, no_process-all_idle net k ps, h)

-- Either an address blocks its removal, or all processes that have it are idle.
kind_among-cases :
    (net : Net) (k : String) (ps : List StatusProcess)
    → (all_idle net k ps ≡ true)
      ⊎ (is_kind not_excluded (kind_among net k ps) ≡ true)
      ⊎ (is_kind in_progress (kind_among net k ps) ≡ true)
kind_among-cases net k ps = ground (arith, no_process-all_idle net k ps)

-- The addresses that are not excluded, or in progress, are among the remaining ones.
remaining_parts :
    (net : Net) (exclude : List ProcessAddress → Bool) (xs : List ProcessAddress) (status : Status)
    (k : String)
    → contains (texts net (can_safely_remove net exclude xs status).0) k ≡ false
    → let e = get_remaining_and_excluded net status xs in
      (contains (texts net e.not_excluded) k ≡ false)
      × (contains (texts net e.in_progress) k ≡ false)
unfolding can_safely_remove
remaining_parts net exclude xs status k h =
    let e = get_remaining_and_excluded net status xs in
    ground (
      arith,
      h,
      texts-append net e.not_excluded e.in_progress k,
      texts-append net (e.not_excluded ++ e.in_progress) e.missing_in_status k,
    )

trusted_parts :
    (net : Net) (status : Status) (xs : List ProcessAddress)
    → is_trusted net status ≡ true
    → let e = get_remaining_and_excluded net status xs in
      (e.not_excluded ≡ of_kind net not_excluded status.processes xs)
      × (e.in_progress ≡ of_kind net in_progress status.processes xs)
trusted_parts net status xs t = rw (get_remaining_and_excluded_lem net status xs, t) (refl, refl)

untrusted_parts :
    (net : Net) (status : Status) (xs : List ProcessAddress)
    → is_trusted net status ≡ false
    → (get_remaining_and_excluded net status xs).not_excluded ≡ xs
untrusted_parts net status xs t = rw (get_remaining_and_excluded_lem net status xs, t) refl

-- An address that CanSafelyRemoveFromStatus was asked about and does not return as remaining: the status
-- is trusted, and all processes that have the address are excluded and have no role.
pub can_safely_remove-all_idle :
    (net : Net) (exclude : List ProcessAddress → Bool) (xs : List ProcessAddress) (status : Status)
    (a : ProcessAddress)
    → Occurs a xs
    → contains (texts net (can_safely_remove net exclude xs status).0) (address_string net a)
      ≡ false
    → (is_trusted net status ≡ true)
      × (all_idle net (machine_address net a) status.processes ≡ true)
can_safely_remove-all_idle net exclude xs status a o h =
    let k = address_string net a in
    let ps = status.processes in
    let (n, i) = remaining_parts net exclude xs status k h in
    elim (Bool-cases (is_trusted net status)) [
      | inl t ↦
          let (p, q) = trusted_parts net status xs t in
          let n' = sym (ap (λ l. contains (texts net l) k) p) ∙ n in
          let i' = sym (ap (λ l. contains (texts net l) k) q) ∙ i in
          (
            t,
            elim (kind_among-cases net (machine_address net a) ps) [
              | inl r ↦ r
              | inr (inl r) ↦ ground (
                arith,
                n',
                texts-Occurs net a (of_kind net not_excluded ps xs)
                    (of_kind-Occurs net not_excluded ps a xs r o),
              )
              | inr (inr r) ↦ ground (
                arith,
                i',
                texts-Occurs net a (of_kind net in_progress ps xs)
                    (of_kind-Occurs net in_progress ps a xs r o),
              )
            ],
          )
      | inr t ↦
          let all = untrusted_parts net status xs t in
          ground (arith, sym (ap (λ l. contains (texts net l) k) all) ∙ n, texts-Occurs net a xs o)
    ]
