-- ===== src/StateManager/Store.antt =====
-- Reading, writing and deleting a state record. The transactions of SQLite are taken to succeed.
use offline_companion_core.Base.{
  ℕ, ◌+◌, String, Option, none, some, List, [], ◌∷◌, ◌++◌, nat_beq, if◌then◌else◌, nat_eq,
  string_eq, pair_eq, ok, err,
}
use offline_companion_core.Base.Dict.{Dict, lookup, insert, erase}
use offline_companion_core.StateManager.Types.{
  Key, StateRecord, Row, Operation, sets, deletes, AuditRecord, Manager, version_conflict,
  not_serializable, Platform, Outcome,
}
use offline_companion_core.StateManager.Access.{validate, actor_of}
use offline_companion_core.StateManager.Notify.{notify}

module _ {V T : Type 0} where
  abbrev pub next_version : Option (StateRecord V T) → ℕ
  next_version none = 1
  next_version (some r) = r.version + 1

  abbrev pub old_value : Option (StateRecord V T) → Option V
  old_value none = none
  old_value (some r) = some r.value

  abbrev pub version_of : Option (StateRecord V T) → ℕ
  version_of none = 0
  version_of (some r) = r.version

module _ {V T C : Type 0} (env : Platform V T C) where
  abbrev pub record_of : Key → Row T → StateRecord V T
  record_of (domain, key) row = record {
    domain = domain;
    key = key;
    value = env.loads row.value_json;
    updated_at = row.updated_at;
    version = row.version;
  }

  -- `_warm_cache`: every row of the table.
  unfoldable pub warm_cache :
      Dict Key (Row T) → Dict Key (StateRecord V T) → Dict Key (StateRecord V T)
  warm_cache [] cache = cache
  warm_cache ((k, row) ∷ rows) cache = warm_cache rows (insert k (record_of k row) cache)

  -- `StateManager(db_path)` over the tables that are there.
  unfoldable pub open_manager : Dict Key (Row T) → List (AuditRecord T) → Manager V T C
  unfolding warm_cache
  open_manager rows audit = record {
    rows = rows;
    audit = audit;
    cache = warm_cache rows [];
    subscribers = [];
    event_errors = [];
  }

  -- The body of `get_record` behind the guards: the cache, then the table, which fills the cache.
  unfoldable pub fetch : Key → Manager V T C → Option (StateRecord V T) × Manager V T C
  fetch k m = elim (lookup k m.cache) [
    | some r ↦ (some r, m)
    | none ↦ elim (lookup k m.rows) [
      | none ↦ (none, m)
      | some row ↦ (some (record_of k row), record m { cache = insert k (record_of k row) m.cache })
    ]
  ]

  unfoldable pub get_record :
      String → String → Option String → Manager V T C → Outcome V T C (Option (StateRecord V T))
  get_record domain key role m = elim (validate domain key role) [
    | err e ↦ (err e, m)
    | ok _ ↦ let (r, m') = fetch (domain, key) m in (ok r, m')
  ]

  unfoldable pub get : String → String → V → Option String → Manager V T C → Outcome V T C V
  get domain key default role m = elim (validate domain key role) [
    | err e ↦ (err e, m)
    | ok _ ↦
        let (r, m') = fetch (domain, key) m in
        (ok (elim r [ none ↦ default | some s ↦ s.value ]), m')
  ]

  -- The text of a value in the audit log; `None` is NULL.
  abbrev pub audit_json : Option V → Option String
  audit_json none = none
  audit_json (some v) = if env.is_null v then none else env.dumps v

  -- The table and the cache after a write.
  unfoldable pub write : Key → V → String → ℕ → T → Manager V T C → Manager V T C
  write k value payload version now m = record m {
    rows = insert k (record { value_json = payload; updated_at = now; version = version }) m.rows;
    cache =
        insert k
          (record { domain = k.0; key = k.1; value = value; updated_at = now; version = version })
          m.cache;
  }

  -- `_record_audit`
  unfoldable pub record_audit :
      Key → String → Operation → Option V → Option V → ℕ → T → Manager V T C → Manager V T C
  record_audit k actor operation old new version now m = record m {
    audit =
        m.audit
        ++ record {
          domain = k.0;
          key = k.1;
          actor = actor;
          operation = operation;
          old_value_json = audit_json old;
          new_value_json = audit_json new;
          version = version;
          updated_at = now;
        }
          ∷ [];
  }

  -- The body of `set` from the lock on; `old` is the record that was read before it.
  unfoldable pub commit :
      Option (StateRecord V T)
      → Key
      → V
      → String
      → T
      → String
      → Manager V T C
      → StateRecord V T × Manager V T C
  unfolding write record_audit notify
  commit old k value payload now actor m =
      let new : StateRecord V T = record {
        domain = k.0;
        key = k.1;
        value = value;
        updated_at = now;
        version = next_version old;
      } in
      (
        new,
        notify env new old (
            record_audit k actor sets (old_value old) (some value) (next_version old) now
              (write k value payload (next_version old) now m)),
      )

  -- The body of `set` behind the guards and `json.dumps`, with no other writer in between.
  unfoldable pub store :
      Key → V → String → T → String → Manager V T C → StateRecord V T × Manager V T C
  unfolding commit
  store k value payload now actor m = commit (lookup k m.cache) k value payload now actor m

  unfoldable pub set :
      String
      → String
      → V
      → T
      → Option String
      → Option String
      → Manager V T C
      → Outcome V T C (StateRecord V T)
  set domain key value now role actor m = elim (validate domain key role) [
    | err e ↦ (err e, m)
    | ok _ ↦ elim (env.dumps value) [
      | none ↦ (err not_serializable, m)
      | some payload ↦
          let (r, m') = store (domain, key) value payload now (actor_of actor role domain) m in
          (ok r, m')
    ]
  ]

  -- The test of `set_if_version`, which stands outside the lock.
  unfoldable pub check_version :
      String → String → ℕ → Option String → Manager V T C → Outcome V T C (Unit {0})
  check_version domain key expected role m =
      let (r, m') = get_record domain key role m in
      elim r [
        | err e ↦ (err e, m')
        | ok current ↦ (
          if nat_beq (version_of current) expected
              then ok tt
              else err (version_conflict expected (version_of current)),
          m',
        )
      ]

  unfoldable pub set_if_version :
      String
      → String
      → V
      → ℕ
      → T
      → Option String
      → Option String
      → Manager V T C
      → Outcome V T C (StateRecord V T)
  set_if_version domain key value expected now role actor m =
      let (r, m') = check_version domain key expected role m in
      elim r [ err e ↦ (err e, m') | ok _ ↦ set domain key value now role actor m' ]

  -- The body of `delete` behind the guards: only a cached record is audited and announced.
  unfoldable pub drop_record : Key → T → String → Manager V T C → Manager V T C
  unfolding record_audit notify
  drop_record k now actor m =
      let m' = record m { rows = erase k m.rows; cache = erase k m.cache } in
      elim (lookup k m.cache) [
        | none ↦ m'
        | some old ↦
            notify env
              (record {
                domain = k.0;
                key = k.1;
                value = env.null;
                updated_at = now;
                version = old.version + 1;
              })
              (some old)
              (record_audit k actor deletes (some old.value) none (old.version + 1) now m')
      ]

  unfoldable pub delete :
      String → String → T → Option String → Option String → Manager V T C → Outcome V T C (Unit {0})
  delete domain key now role actor m = elim (validate domain key role) [
    | err e ↦ (err e, m)
    | ok _ ↦ (ok tt, drop_record (domain, key) now (actor_of actor role domain) m)
  ]
