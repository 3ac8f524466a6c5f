-- ===== src/Lock.antt =====
-- fdbclient/lock_client.go: the lock that the operator instances of a database take before a global
-- operation. A transaction is a function from the key-value pairs that it reads to those that it leaves,
-- since FoundationDB runs transactions as if one after the other; one that fails leaves them as they
-- were. What the code needs of the tuple layer, the package fdb/tuple, is the parameter TupleLayer.
pub mod Keys
pub mod Transactions
pub mod DenyList
pub mod Exclusive
use text.Mathlib.Text.{starts_with}
use fdb_kubernetes_operator.Common.{
  ◌≡◌, String, Bool, true, false, ◌&&◌, ◌||◌, not, Option, none, some, List, [], ◌∷◌, map,
  if◌then◌else◌, ◌==◌, string_eq, is_some, lookup, insert, delete, select, contains,
}
use fdb_kubernetes_operator.Common.Int.{ℤ, pos, ◌+ℤ◌, ltb_ℤ, int_eq}
use fdb_kubernetes_operator.ProcessGroup.{Instant}
use Keys.{lock_key, deny_list_prefix, get_deny_list_key, upgrades_prefix, upgrade_key}

-- An element of a tuple: a string, an int64, or anything else.
pub data Element : Type 0 where
  string : String → Element
  int : ℤ → Element
  other : Element

-- Byte strings and the tuple layer. `Pack` is the inverse of `Unpack`, and packs a tuple that is not
-- empty into bytes that are not empty; a text is read back from its bytes.
pub record TupleLayer : Type 1 where
  pub Bytes : Type 0
  pub no_bytes : Bytes → Bool
  pub pack : List Element → Bytes
  pub unpack : Bytes → Option (List Element)
  pub of_text : String → Bytes
  pub to_text : Bytes → String
  pub unpack-pack : (t : List Element) → unpack (pack t) ≡ some t
  pub pack_nonempty : (e : Element) (t : List Element) → no_bytes (pack (e ∷ t)) ≡ false
  pub to_text-of_text : (s : String) → to_text (of_text s) ≡ s

-- An instance of the lock client: the key prefix, the ID of the operator instance, the duration of a
-- lock in seconds, and whether locks are disabled.
pub record Client : Type 0 where
  pub prefix : String
  pub owner_id : String
  pub duration : ℤ
  pub disable_locks : Bool

pub data LockError : Type 0 where
  unpack_failed invalid_lock_value : LockError
  owner_denied : String → LockError
  held_by : String → ℤ → LockError

pub data Result (A : Type 0) : Type 0 where
  ok : A → Result A
  err : LockError → Result A

pub record LockValue : Type 0 where
  pub owner : String
  pub start : ℤ
  pub end : ℤ

module _ (layer : TupleLayer) where
  open layer use {Bytes, no_bytes, pack, unpack, of_text, to_text}

  abbrev pub Database : Type 0
  Database = List (String × Bytes)

  -- The three casts of `unpackLockValue`, and the check of the length before them.
  unfoldable pub cast_tuple : List Element → Result LockValue
  cast_tuple (string o ∷ int s ∷ int e ∷ rest) = ok (record { owner = o; start = s; end = e })
  cast_tuple _ = err invalid_lock_value

  unfoldable pub unpack_lock_value : Bytes → Result LockValue
  unfolding cast_tuple
  unpack_lock_value b = elim (unpack b) [ none ↦ err unpack_failed | some t ↦ cast_tuple t ]

  -- `transaction.Get(lockKey)`, where no value and an empty one are the same.
  unfoldable pub read_lock : Client → Database → Option Bytes
  read_lock c db = elim (lookup (lock_key c.prefix) db) [
    | none ↦ none
    | some b ↦ if no_bytes b then none else some b
  ]

  unfoldable pub update_lock : Client → Instant → Database → ℤ → Database
  update_lock c now db start =
      insert (lock_key c.prefix)
        (pack (
          string c.owner_id
          ∷ int (if start == pos 0 then now.seconds else start)
          ∷ int (now.seconds +ℤ c.duration)
          ∷ []))
        db

  unfoldable pub is_denied : Client → Database → String → Bool
  is_denied c db id = is_some (lookup (get_deny_list_key c.prefix id) db)

  -- `takeLockInTransaction` from the point where the present lock is known.
  unfoldable pub take_existing : Client → Instant → Database → LockValue → Result Database
  unfolding update_lock is_denied
  take_existing c now db lock =
      if is_denied c db c.owner_id
      then err (owner_denied c.owner_id)
      else if ltb_ℤ lock.end now.seconds || is_denied c db lock.owner
      then ok (update_lock c now db lock.start)
      else if lock.owner == c.owner_id
      then ok (update_lock c now db lock.start)
      else err (held_by lock.owner lock.end)

  unfoldable pub take_lock_in_transaction : Client → Instant → Database → Result Database
  unfolding read_lock update_lock unpack_lock_value take_existing
  take_lock_in_transaction c now db = elim (read_lock c db) [
    | none ↦ ok (update_lock c now db (pos 0))
    | some b ↦ elim (unpack_lock_value b) [ err e ↦ err e | ok lock ↦ take_existing c now db lock ]
  ]

  unfoldable pub take_lock : Client → Instant → Database → Result Database
  unfolding take_lock_in_transaction
  take_lock c now db = if c.disable_locks then ok db else take_lock_in_transaction c now db

  -- The transaction of `ReleaseLock` once the present lock is known.
  unfoldable pub release_existing : Client → Instant → Database → LockValue → Database
  release_existing c now db lock =
      if not (lock.owner == c.owner_id)
      then db
      else if ltb_ℤ now.seconds lock.start
      then db
      else if ltb_ℤ lock.end now.seconds
      then db
      else delete (lock_key c.prefix) db

  unfoldable pub release_lock : Client → Instant → Database → Result Database
  unfolding read_lock unpack_lock_value release_existing
  release_lock c now db = if c.disable_locks then ok db else elim (read_lock c db) [
    | none ↦ ok db
    | some b ↦ elim (unpack_lock_value b) [
      | err e ↦ err e
      | ok lock ↦ ok (release_existing c now db lock)
    ]
  ]

  -- `GetRange` over a prefix.
  unfoldable pub get_range : String → Database → Database
  get_range p db = select (λ kv. starts_with kv.0 p) db

  unfoldable pub get_deny_list : Client → Database → List String
  unfolding get_range
  get_deny_list c db = map (λ kv. to_text kv.1) (get_range (deny_list_prefix c.prefix) db)

  -- One entry of the deny list of the spec: an identifier, and whether it is allowed.
  unfoldable pub apply_entry : Client → List String → Database → String × Bool → Database
  apply_entry c denied db (id, allow) =
      if allow && contains denied id
      then delete (get_deny_list_key c.prefix id) db
      else if not allow && not (contains denied id)
      then insert (get_deny_list_key c.prefix id) (of_text id) db
      else db

  unfoldable pub apply_entries : Client → List String → Database → List (String × Bool) → Database
  unfolding apply_entry
  apply_entries c denied db [] = db
  apply_entries c denied db (e ∷ es) = apply_entries c denied (apply_entry c denied db e) es

  unfoldable pub update_deny_list : Client → List (String × Bool) → Database → Database
  unfolding apply_entries get_deny_list
  update_deny_list c entries db = apply_entries c (get_deny_list c db) db entries

  unfoldable pub add_pending_upgrades : Client → String → List String → Database → Database
  add_pending_upgrades c version [] db = db
  add_pending_upgrades c version (id ∷ ids) db =
      add_pending_upgrades c version ids (insert (upgrade_key c.prefix version id) (of_text id) db)

  -- The keys of the map that `GetPendingUpgrades` returns, all of which it maps to true.
  unfoldable pub get_pending_upgrades : Client → String → Database → List String
  unfolding get_range
  get_pending_upgrades c version db =
      map (λ kv. to_text kv.1) (get_range (upgrade_key c.prefix version "") db)

  -- `ClearRange` removes the keys of the range.
  unfoldable pub clear_pending_upgrades : Client → Database → Database
  clear_pending_upgrades c db = select (λ kv. not (starts_with kv.0 (upgrades_prefix c.prefix))) db
