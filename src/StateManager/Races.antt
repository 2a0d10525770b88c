-- ===== src/StateManager/Races.antt =====
-- Retries, published events and interleaved writers.
use offline_companion_core.Base.{
  false, ℕ, zero, suc, ◌+◌, String, ◌≡◌, refl, ap, ◌∙◌, ◌≢◌, inl, inr, true, Bool, if◌then◌else◌,
  Option, none, some, arith, nat_eq, string_eq, pair_eq, ok, err, Result-cases,
}
use offline_companion_core.Base.Dict.{lookup, erase, lookup-erase_self, lookup-insert_self}
use offline_companion_core.StateManager.Types.{
  Key, StateRecord, Row, Manager, access_denied, version_conflict, event_invalid, not_serializable,
  Platform, Outcome,
}
use offline_companion_core.StateManager.Access.{validate, actor_of, allowed_domain}
use offline_companion_core.StateManager.Store.{
  get_record, commit, next_version, set, check_version, drop_record, delete,
}
use offline_companion_core.StateManager.Retry.{set_with_retry, retry, retry_after, attempt}
use offline_companion_core.StateManager.Publish.{publish, event_key, EventPayload}
use offline_companion_core.StateManager.Coherence.{IsCoherent, fetch-IsCoherent, delete-IsCoherent}
use offline_companion_core.StateManager.Roles.{validate_own_role}
use offline_companion_core.StateManager.Versions.{
  stored_version, cached_version, set_if_version_decides, set-Wrote,
}

module _ {V T C : Type 0} (env : Platform V T C) where
  attempt-eq-set :
      (domain key : String) (value : V) (now : T) (role actor : Option String) (m : Manager V T C)
      → IsCoherent env m
      → validate domain key role ≡ ok tt
      → attempt env domain key value now role actor m ≡ set env domain key value now role actor m
  unfolding attempt get_record
  attempt-eq-set domain key value now role actor m h a = ground (
    arith,
    fetch-IsCoherent env (domain, key) m h,
    cached_version env (domain, key) m h,
    set_if_version_decides env domain key value (stored_version (domain, key) m) now role actor m h
        a,
  )

  -- A `set` never raises a version conflict.
  set_no_conflict :
      (domain key : String) (value : V) (now : T) (role actor : Option String) (m : Manager V T C)
      (a b : ℕ)
      → (set env domain key value now role actor m).0 ≢ err (version_conflict a b)
  unfolding set validate
  set_no_conflict domain key value now role actor m a b e = ground arith

  retry_after-settled :
      (o : Outcome V T C (StateRecord V T))
      (again : Manager V T C → Outcome V T C (StateRecord V T))
      → ((a b : ℕ) → o.0 ≢ err (version_conflict a b))
      → retry_after env o again ≡ o
  retry_after-settled (ok r, m) again h = refl
  retry_after-settled (err (version_conflict a b), m) again h = absurd (h a b refl)
  retry_after-settled (err (access_denied d k), m) again h = refl
  retry_after-settled (err (event_invalid f), m) again h = refl
  retry_after-settled (err not_serializable, m) again h = refl

  -- Without another writer in between, the first round of `set_with_retry` settles it, however
  -- many retries are allowed: it is `set`.
  pub set_with_retry-eq-set :
      (domain key : String) (value : V) (retries : ℕ) (now : T) (role actor : Option String)
      (m : Manager V T C)
      → IsCoherent env m
      → validate domain key role ≡ ok tt
      → set_with_retry env domain key value retries now role actor m
        ≡ set env domain key value now role actor m
  unfolding set_with_retry retry
  set_with_retry-eq-set domain key value retries now role actor m h a =
      rw (a, set_with_retry) (loop retries)
    where
      loop :
          (n : ℕ)
          → retry env n domain key value now role actor m
            ≡ set env domain key value now role actor m
      loop zero = attempt-eq-set domain key value now role actor m h a
      loop (suc n) = rw (attempt-eq-set domain key value now role actor m h a) (
          retry_after-settled (set env domain key value now role actor m)
            (λ m'. retry env n domain key value now role actor m')
            (set_no_conflict domain key value now role actor m))

  -- The last test of `publish_event` never fails: a stored event always has a greater version.
  pub publish_no_conflict :
      (value_of : EventPayload V T → V) (domain : String) (p : EventPayload V T) (now : T)
      (m : Manager V T C) (a b : ℕ)
      → IsCoherent env m
      → allowed_domain domain ≡ true
      → (publish env value_of domain p now m).0 ≢ err (version_conflict a b)
  unfolding publish get_record
  publish_no_conflict value_of domain p now m a b h d e =
      let key = event_key p.event_name in
      let own = validate_own_role domain key d in
      let read = fetch-IsCoherent env (domain, key) m h in
      let n = cached_version env (domain, key) m h in
      elim (Result-cases (set env domain key (value_of p) now none none m).0) [
        | inl (r, q) ↦
            let c = (set-Wrote env domain key (value_of p) now none none m r h q).counted in
            ground arith
        | inr (x, q) ↦
            let never = set_no_conflict domain key (value_of p) now none none m a b in ground arith
      ]

  check_version-ok :
      (domain key : String) (role : Option String) (m : Manager V T C)
      → IsCoherent env m
      → validate domain key role ≡ ok tt
      → check_version env domain key (stored_version (domain, key) m) role m ≡ (ok tt, m)
  unfolding check_version get_record
  check_version-ok domain key role m h a =
      ground (arith, fetch-IsCoherent env (domain, key) m h, cached_version env (domain, key) m h)

  -- `set_if_version` checks the version, and `set` reads the old record, before the lock. Two callers
  -- that expect the stored version and both check before either writes both pass the check and write.
  -- Where the second one has also read the old record before the first one's write, both records
  -- have the same version, and the version of the key rises by 1 only; else it rises by 2. The
  -- second value stands in the table and the first one is lost.
  pub set_if_version_race :
      (domain key : String) (v w : V) (t u : String) (now later : T) (role : Option String)
      (actor other : String) (late : Bool) (m : Manager V T C)
      → IsCoherent env m
      → validate domain key role ≡ ok tt
      → let k : Key = (domain, key) in
        let n = stored_version k m in
        let first = check_version env domain key n role m in
        let second = check_version env domain key n role first.1 in
        let old = lookup k second.1.cache in
        let one = commit env old k v t now actor second.1 in
        let seen = if late then lookup k one.1.cache else old in
        let two = commit env seen k w u later other one.1 in
        let last = if late then n + 2 else n + 1 in
        (first.0 ≡ ok tt)
        × (second.0 ≡ ok tt)
        × (one.0.version ≡ n + 1)
        × (two.0.version ≡ last)
        × (lookup k two.1.rows
            ≡ some (record { value_json = u; updated_at = later; version = last }))
        × (lookup k two.1.cache ≡ some two.0)
  unfolding commit
  set_if_version_race domain key v w t u now later role actor other late m h a =
      rw (check_version-ok domain key role m h a) (
        rw (check_version-ok domain key role m h a)
          (let (x, y, z) = raced late in (refl, refl, counted, x, y, z)))
    where
      k : Key
      k = (domain, key)

      counted : next_version (lookup k m.cache) ≡ stored_version k m + 1
      counted = ground (arith, h k)

      one : StateRecord V T × Manager V T C
      one = commit env (lookup k m.cache) k v t now actor m

      row : ℕ → Row T
      row n = record { value_json = u; updated_at = later; version = n }

      raced :
          (b : Bool)
          → let seen = if b then lookup k one.1.cache else lookup k m.cache in
            let two = commit env seen k w u later other one.1 in
            let last = if b then stored_version k m + 2 else stored_version k m + 1 in
            (two.0.version ≡ last)
            × (lookup k two.1.rows ≡ some (row last))
            × (lookup k two.1.cache ≡ some two.0)
      raced false = (
        counted,
        lookup-insert_self {K = Key} k _ one.1.rows ∙ ap (λ n. some (row n)) counted,
        lookup-insert_self {K = Key} k _ one.1.cache,
      )
      raced true =
          let again : next_version (lookup k one.1.cache) ≡ stored_version k m + 2 =
            ap next_version (lookup-insert_self {K = Key} k _ m.cache)
            ∙ ap (λ n. n + 1) counted
            ∙ omega arith in
          (
            again,
            lookup-insert_self {K = Key} k _ one.1.rows ∙ ap (λ n. some (row n)) again,
            lookup-insert_self {K = Key} k _ one.1.cache,
          )

  -- A deleted key starts again at version 1, whatever its version was: a caller who still expects
  -- version 1 from before the deletion wins.
  pub delete_resets_version :
      (domain key : String) (v : V) (now later : T) (role actor : Option String) (m : Manager V T C)
      (r : StateRecord V T)
      → IsCoherent env m
      → validate domain key role ≡ ok tt
      → (set env domain key v later role actor (delete env domain key now role actor m).1).0 ≡ ok r
      → r.version ≡ 1
  unfolding delete drop_record
  delete_resets_version domain key v now later role actor m r h a e =
      let m' = (delete env domain key now role actor m).1 in
      let w =
        set-Wrote env domain key v later role actor m' r
          (delete-IsCoherent env domain key now role actor m h) e in
      omega (arith, w.counted, deleted)
    where
      gone :
          (drop_record env (domain, key) now (actor_of actor role domain) m).rows
          ≡ erase (domain, key) m.rows
      gone = ground arith

      deleted : stored_version (domain, key) (delete env domain key now role actor m).1 ≡ 0
      deleted = rw (a, delete) (rw gone (rw (lookup-erase_self {K = Key} (domain, key) m.rows)))
