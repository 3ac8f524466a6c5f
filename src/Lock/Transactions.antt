-- ===== src/Lock/Transactions.antt =====
-- What single transactions of the lock client do to the lock and to the deny list.
use fdb_kubernetes_operator.Common.{
  ◌≡◌, ◌⊎◌, refl, String, Bool, true, false, ◌&&◌, ◌||◌, not, Option, none, some, [], ◌∷◌, arith,
  if◌then◌else◌, ◌==◌, string_eq, insert, delete, lookup-insert, lookup-delete, Option-cases,
  Bool-cases, inl, inr, eq_iff, eq_refl, ◌∙◌,
}
use fdb_kubernetes_operator.Common.Int.{ℤ, pos, ◌+ℤ◌, ltb_ℤ, int_eq}
use fdb_kubernetes_operator.ProcessGroup.{Instant}
use fdb_kubernetes_operator.Lock.Keys.{lock_key, get_deny_list_key, lock_key-ne-deny_list_key}
use fdb_kubernetes_operator.Lock.{
  TupleLayer, Client, LockError, LockValue, Result, ok, err, string, int, Database, read_lock,
  unpack_lock_value, update_lock, is_denied, take_lock, release_lock,
}

Result-cases :
    {A : Type 0} (r : Result A) → ((a : A) × (r ≡ ok a)) ⊎ ((e : LockError) × (r ≡ err e))
Result-cases (ok a) = inl (a, refl)
Result-cases (err e) = inr (e, refl)

module _ (layer : TupleLayer) where
  open layer use {Bytes, no_bytes, pack, unpack, unpack-pack, pack_nonempty, of_text}

  -- The lock that is recorded in the database, if there is one that can be read.
  abbrev pub current_lock : Client → Database layer → Option LockValue
  current_lock c db = elim (read_lock layer c db) [
    | none ↦ none
    | some b ↦ elim (unpack_lock_value layer b) [ ok lock ↦ some lock | err e ↦ none ]
  ]

  -- The start of a new lock: that of the lock before it, or now.
  abbrev pub started : Instant → ℤ → ℤ
  started now start = if start == pos 0 then now.seconds else start

  pub current_lock-update_lock :
      (c : Client) (now : Instant) (db : Database layer) (start : ℤ)
      → current_lock c (update_lock layer c now db start)
        ≡ some (record {
          owner = c.owner_id;
          start = started now start;
          end = now.seconds +ℤ c.duration;
        })
  unfolding update_lock read_lock unpack_lock_value
  current_lock-update_lock c now db start =
      let t = string c.owner_id ∷ int (started now start) ∷ int (now.seconds +ℤ c.duration) ∷ [] in
      ground (
        arith,
        lookup-insert (lock_key c.prefix) (lock_key c.prefix) (pack t) db,
        eq_refl (lock_key c.prefix),
        unpack-pack t,
        pack_nonempty (string c.owner_id)
            (int (started now start) ∷ int (now.seconds +ℤ c.duration) ∷ []),
      )

  -- After a TakeLock that is accepted for a client whose locks are not disabled, the lock in the database is that of
  -- the client, and ends when its duration from now is over. It was accepted because there was no lock, or because there was one that had expired, was
  -- the client's own or belonged to a denied instance, while the client itself was not denied.
  pub take_lock_taken :
      (c : Client) (now : Instant) (db db' : Database layer)
      → c.disable_locks ≡ false
      → take_lock layer c now db ≡ ok db'
      → ((start : ℤ) × (current_lock c db'
            ≡ some (record { owner = c.owner_id; start = start; end = now.seconds +ℤ c.duration })))
        × ((read_lock layer c db ≡ none)
            ⊎ ((lock : LockValue) × (current_lock c db ≡ some lock)
                × (is_denied layer c db c.owner_id ≡ false)
                × ((ltb_ℤ lock.end now.seconds || is_denied layer c db lock.owner)
                    || lock.owner == c.owner_id)
                  ≡ true))
  unfolding take_lock
  take_lock_taken c now db db' on h = elim (Option-cases (read_lock layer c db)) [
    | inl e ↦ (
      (started now (pos 0), ground (arith, h, e, current_lock-update_lock c now db (pos 0))),
      inl e,
    )
    | inr (b, e) ↦ elim (Result-cases (unpack_lock_value layer b)) [
      | inl (lock, u) ↦ (
        (
          started now lock.start,
          ground (arith, h, e, u, current_lock-update_lock c now db lock.start),
        ),
        inr (lock, ground (arith, e, u), ground (arith, h, e, u), ground (arith, h, e, u)),
      )
      | inr (x, u) ↦ absurd (ground (arith, h, e, u))
    ]
  ]

  is_denied-insert_lock :
      (c : Client) (b : Bytes) (db : Database layer) (id : String)
      → is_denied layer c (insert (lock_key c.prefix) b db) id ≡ is_denied layer c db id
  unfolding is_denied
  is_denied-insert_lock c b db id = ground (
    arith,
    lookup-insert (lock_key c.prefix) (get_deny_list_key c.prefix id) b db,
    eq_iff (lock_key c.prefix) (get_deny_list_key c.prefix id),
    lock_key-ne-deny_list_key c.prefix id,
  )

  is_denied-delete_lock :
      (c : Client) (db : Database layer) (id : String)
      → is_denied layer c (delete (lock_key c.prefix) db) id ≡ is_denied layer c db id
  unfolding is_denied
  is_denied-delete_lock c db id = ground (
    arith,
    lookup-delete (lock_key c.prefix) (get_deny_list_key c.prefix id) db,
    eq_iff (lock_key c.prefix) (get_deny_list_key c.prefix id),
    lock_key-ne-deny_list_key c.prefix id,
  )

  -- What an accepted TakeLock writes.
  take_lock-cases :
      (c : Client) (now : Instant) (db db' : Database layer)
      → take_lock layer c now db ≡ ok db'
      → (db' ≡ db) ⊎ ((start : ℤ) × (db' ≡ update_lock layer c now db start))
  unfolding take_lock
  take_lock-cases c now db db' h = elim (Bool-cases c.disable_locks) [
    | inl off ↦ inl (ground (arith, h, off))
    | inr on ↦ elim (Option-cases (read_lock layer c db)) [
      | inl e ↦ inr (pos 0, ground (arith, h, e, on))
      | inr (b, e) ↦ elim (Result-cases (unpack_lock_value layer b)) [
        | inl (lock, u) ↦ inr (lock.start, ground (arith, h, e, u, on))
        | inr (x, u) ↦ absurd (ground (arith, h, e, u, on))
      ]
    ]
  ]

  pub is_denied-update_lock :
      (c : Client) (now : Instant) (db : Database layer) (start : ℤ) (id : String)
      → is_denied layer c (update_lock layer c now db start) id ≡ is_denied layer c db id
  unfolding update_lock
  is_denied-update_lock c now db start id = is_denied-insert_lock c _ db id

  pub is_denied-take_lock :
      (c : Client) (now : Instant) (db db' : Database layer) (id : String)
      → take_lock layer c now db ≡ ok db'
      → is_denied layer c db' id ≡ is_denied layer c db id
  is_denied-take_lock c now db db' id h = elim (take_lock-cases c now db db' h) [
    | inl e ↦ rw e
    | inr (start, e) ↦ rw e (is_denied-update_lock c now db start id)
  ]

  pub read_lock-deleted :
      (c : Client) (db : Database layer) → read_lock layer c (delete (lock_key c.prefix) db) ≡ none
  unfolding read_lock
  read_lock-deleted c db =
      ground (
        arith,
        lookup-delete (lock_key c.prefix) (lock_key c.prefix) db,
        eq_refl (lock_key c.prefix),
      )

  -- Whether ReleaseLock may remove a lock: its own, begun, and not expired.
  abbrev pub may_release : Client → Instant → LockValue → Bool
  may_release c now lock =
      (lock.owner == c.owner_id && not (ltb_ℤ now.seconds lock.start))
      && not (ltb_ℤ lock.end now.seconds)

  -- For a client whose locks are not disabled, and with a lock in the database that can be read, an accepted
  -- ReleaseLock removes the lock if it is the client's own, has begun and has not expired; otherwise it leaves the
  -- database as it was. Either way the deny list stays as it was.
  pub release_lock_lem :
      (c : Client) (now : Instant) (db db' : Database layer) (lock : LockValue)
      → c.disable_locks ≡ false
      → current_lock c db ≡ some lock
      → release_lock layer c now db ≡ ok db'
      → ((may_release c now lock ≡ true) × (read_lock layer c db' ≡ none)
          ⊎ (may_release c now lock ≡ false) × (db' ≡ db))
        × ((id : String) → is_denied layer c db' id ≡ is_denied layer c db id)
  unfolding release_lock
  release_lock_lem c now db db' lock on l h = elim (Option-cases (read_lock layer c db)) [
    | inl e ↦ absurd (ground (arith, l, e))
    | inr (b, e) ↦ elim (Result-cases (unpack_lock_value layer b)) [
      | inl (k, u) ↦ (
        ground (arith, on, l, h, e, u, read_lock-deleted c db),
        λ id. ground (arith, on, h, e, u, is_denied-delete_lock c db id),
      )
      | inr (x, u) ↦ absurd (ground (arith, l, e, u))
    ]
  ]

  pub is_denied-release_lock :
      (c : Client) (now : Instant) (db db' : Database layer) (id : String)
      → release_lock layer c now db ≡ ok db'
      → is_denied layer c db' id ≡ is_denied layer c db id
  unfolding release_lock
  is_denied-release_lock c now db db' id h = elim (Option-cases (read_lock layer c db)) [
    | inl e ↦ ground (arith, h, e)
    | inr (b, e) ↦ elim (Result-cases (unpack_lock_value layer b)) [
      | inl (k, u) ↦ ground (arith, h, e, u, is_denied-delete_lock c db id)
      | inr (x, u) ↦ ground (arith, h, e, u)
    ]
  ]

  -- TakeLock is accepted for an instance that is not denied when the lock has expired, belongs to a
  -- denied instance, or is its own.
  pub take_lock-available :
      (c : Client) (now : Instant) (db : Database layer) (lock : LockValue)
      → c.disable_locks ≡ false
      → current_lock c db ≡ some lock
      → is_denied layer c db c.owner_id ≡ false
      → ((ltb_ℤ lock.end now.seconds || is_denied layer c db lock.owner)
          || lock.owner == c.owner_id)
        ≡ true
      → take_lock layer c now db ≡ ok (update_lock layer c now db lock.start)
  unfolding take_lock
  take_lock-available c now db lock on l allowed open' =
      elim (Option-cases (read_lock layer c db)) [
        | inl e ↦ absurd (ground (arith, l, e))
        | inr (b, e) ↦ elim (Result-cases (unpack_lock_value layer b)) [
          | inl (k, u) ↦ ground (arith, on, l, e, u, allowed, open')
          | inr (x, u) ↦ absurd (ground (arith, l, e, u))
        ]
      ]

  read_lock_prefix :
      (c d : Client) (db : Database layer)
      → d.prefix ≡ c.prefix
      → read_lock layer d db ≡ read_lock layer c db
  unfolding read_lock
  read_lock_prefix c d db same = rw same

  pub is_denied_prefix :
      (c d : Client) (db : Database layer) (id : String)
      → d.prefix ≡ c.prefix
      → is_denied layer d db id ≡ is_denied layer c db id
  unfolding is_denied
  is_denied_prefix c d db id same = rw same

  -- Clients with one prefix see one lock.
  pub current_lock_prefix :
      (c d : Client) (db : Database layer)
      → d.prefix ≡ c.prefix
      → current_lock d db ≡ current_lock c db
  current_lock_prefix c d db same = rw (read_lock_prefix c d db same, current_lock)

  -- The deny list is not consulted while there is no lock: an instance that is denied then takes it. The
  -- next instance, which is not denied, takes it from there at once, so that both have it.
  pub take_lock_denied :
      (c d : Client) (now : Instant) (db : Database layer)
      → c.disable_locks ≡ false
      → d.disable_locks ≡ false
      → d.prefix ≡ c.prefix
      → read_lock layer c db ≡ none
      → is_denied layer c db c.owner_id ≡ true
      → is_denied layer d db d.owner_id ≡ false
      → (db' : Database layer) × (db'' : Database layer) × (take_lock layer c now db ≡ ok db')
        × (take_lock layer d now db' ≡ ok db'')
        × (start : ℤ) × (current_lock c db'
            ≡ some (record { owner = c.owner_id; start = start; end = now.seconds +ℤ c.duration }))
  unfolding take_lock
  take_lock_denied c d now db on_c on_d same free denied allowed =
      let first = update_lock layer c now db (pos 0) in
      let mine = current_lock-update_lock c now db (pos 0) in
      (
        first,
        update_lock layer d now first (started now (pos 0)),
        ground (arith, on_c, free),
        take_lock-available d now first _ on_d (current_lock_prefix c d first same ∙ mine)
            (ground (
              arith,
              allowed,
              is_denied_prefix c d db d.owner_id same,
              is_denied_prefix c d first d.owner_id same,
              is_denied-update_lock c now db (pos 0) d.owner_id,
            ))
            (ground (
              arith,
              denied,
              is_denied_prefix c d first c.owner_id same,
              is_denied-update_lock c now db (pos 0) c.owner_id,
            )),
        started now (pos 0),
        mine,
      )
