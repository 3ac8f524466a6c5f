-- ===== src/Tests/Lock.antt =====
-- Two operator instances, dc1 and dc2, that share the lock of a database.
use fdb_kubernetes_operator.Common.{
  ◌≡◌, refl, String, Bool, true, false, ◌||◌, Option, none, some, List, [], ◌∷◌, ◌==◌, string_eq,
  arith, ◌⊎◌, insert, delete, ℕ,
}
use fdb_kubernetes_operator.Common.Int.{ℤ, pos, ◌+ℤ◌, ltb_ℤ, int_eq}
use fdb_kubernetes_operator.ProcessGroup.{Instant}
use fdb_kubernetes_operator.Lock.{
  Element, TupleLayer, Client, LockValue, ok, Database, read_lock, is_denied, take_lock,
  release_lock, update_deny_list, update_lock,
}
use fdb_kubernetes_operator.Lock.Keys.{lock_key, get_deny_list_key, deny_list_prefix}
use fdb_kubernetes_operator.Lock.Transactions.{
  current_lock, take_lock_taken, release_lock_lem, may_release, take_lock_denied,
}
use fdb_kubernetes_operator.Lock.DenyList.{is_denied-update_deny_list}
use fdb_kubernetes_operator.Lock.Exclusive.{System, here, next, take, mutual_exclusion}

-- A tuple layer whose bytes are the tuples themselves, or a text.
data Stored : Type 0 where
  packed : List Element → Stored
  raw : String → Stored

abbrev stored_empty : Stored → Bool
stored_empty (packed []) = true
stored_empty (packed (e ∷ t)) = false
stored_empty (raw s) = s == ""

abbrev stored_unpack : Stored → Option (List Element)
stored_unpack (packed t) = some t
stored_unpack (raw s) = none

abbrev stored_text : Stored → String
stored_text (packed t) = ""
stored_text (raw s) = s

abbrev plain : TupleLayer
plain = record {
  Bytes = Stored;
  no_bytes = stored_empty;
  pack = packed;
  unpack = stored_unpack;
  of_text = raw;
  to_text = stored_text;
  unpack-pack = λ t. refl;
  pack_nonempty = λ e t. refl;
  to_text-of_text = λ s. refl;
}

abbrev dc1 : Client
dc1 = record { prefix = "p"; owner_id = "dc1"; duration = pos 600; disable_locks = false }

abbrev dc2 : Client
dc2 = record { prefix = "p"; owner_id = "dc2"; duration = pos 600; disable_locks = false }

abbrev at : ℕ → Instant
at n = record { seconds = pos n; nanos = 0 }

-- The database in which dc1 has the lock from 1000 to 1600.
abbrev taken : Database plain
taken =
    (
      "p/global",
      packed (Element.string "dc1" ∷ Element.int (pos 1000) ∷ Element.int (pos 1600) ∷ []),
    )
    ∷ []

program : Unit {0}
unfolding take_lock release_lock update_deny_list is_denied read_lock update_lock lock_key
    get_deny_list_key deny_list_prefix insert delete ◌+ℤ◌
program = tt

first_take : take_lock plain dc1 (at 1000) [] ≡ ok taken
unfolding program
first_take = refl

abbrev quiet : System plain
quiet = record { db = []; now = at 1000; lease = λ id. none }

mutual_exclusion_example : ◌≡◌ {A = String} "dc1" "dc1"
unfolding program
mutual_exclusion_example =
    mutual_exclusion plain {prefix = "p"} {s = quiet} (λ id. refl)
      (next here (take dc1 taken refl refl refl refl)) "dc1" "dc1" (pos 1600) (pos 1600) refl refl
      (omega arith) (omega arith)

take_lock_taken_example :
    ((start : ℤ) × (current_lock plain dc1 taken
        ≡ some (record { owner = "dc1"; start = start; end = pos 1000 +ℤ pos 600 })))
    × ((read_lock plain dc1 [] ≡ none)
        ⊎ ((lock : LockValue) × (current_lock plain dc1 [] ≡ some lock)
            × (is_denied plain dc1 [] "dc1" ≡ false)
            × ((ltb_ℤ lock.end (pos 1000) || is_denied plain dc1 [] lock.owner)
                || lock.owner == "dc1")
              ≡ true))
take_lock_taken_example = take_lock_taken plain dc1 (at 1000) [] taken refl first_take

abbrev dc1_lock : LockValue
dc1_lock = record { owner = "dc1"; start = pos 1000; end = pos 1600 }

release_lock_lem_example :
    ((may_release plain dc1 (at 1200) dc1_lock ≡ true) × (read_lock plain dc1 [] ≡ none)
      ⊎ (may_release plain dc1 (at 1200) dc1_lock ≡ false) × (◌≡◌ {A = Database plain} [] taken))
    × ((id : String) → is_denied plain dc1 [] id ≡ is_denied plain dc1 taken id)
unfolding program
release_lock_lem_example = release_lock_lem plain dc1 (at 1200) taken [] dc1_lock refl refl refl

is_denied-update_deny_list_example :
    is_denied plain dc1 (update_deny_list plain dc1 (("dc2", false) ∷ []) taken) "dc2" ≡ true
unfolding program
is_denied-update_deny_list_example =
    is_denied-update_deny_list plain dc1 (("dc2", false) ∷ []) taken "dc2" ((λ e. cc), tt)
      (refl, tt)

abbrev denied_dc1 : Database plain
denied_dc1 = ("p/denyList/dc1", raw "dc1") ∷ []

take_lock_denied_example :
    (db' : Database plain) × (db'' : Database plain) × (take_lock plain dc1 (at 1000) denied_dc1
      ≡ ok db')
    × (take_lock plain dc2 (at 1000) db' ≡ ok db'')
    × (start : ℤ) × (current_lock plain dc1 db'
        ≡ some (record { owner = "dc1"; start = start; end = pos 1000 +ℤ pos 600 }))
unfolding program
take_lock_denied_example =
    take_lock_denied plain dc1 dc2 (at 1000) denied_dc1 refl refl refl refl refl refl
