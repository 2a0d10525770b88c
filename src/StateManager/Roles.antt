-- ===== src/StateManager/Roles.antt =====
-- Who may touch which domain.
use offline_companion_core.Base.{
  ℕ, String, ◌≡◌, refl, ◌≢◌, ◌⊎◌, inl, inr, true, false, Option, none, arith, Bool-cases, Eq, ◌==◌,
  nat_eq, string_eq, pair_eq, ok, err,
}
use offline_companion_core.Base.Text.{strip}
use offline_companion_core.StateManager.Types.{Manager, access_denied, Platform}
use offline_companion_core.StateManager.Access.{validate, allowed_domain, normalized_role}
use offline_companion_core.StateManager.Notify.{subscribe, unsubscribe}
use offline_companion_core.StateManager.Store.{
  get_record, get, set, check_version, set_if_version, delete,
}
use offline_companion_core.StateManager.Retry.{set_with_retry}

-- Every domain is open to a caller that names no role.
pub validate_own_role :
    (domain key : String) → allowed_domain domain ≡ true → validate domain key none ≡ ok tt
unfolding validate strip
validate_own_role domain key h = elim (Bool-cases (domain == "session")) [
  | inl q ↦ rw ((string_eq.beq_iff domain "session").0 q) refl
  | inr q ↦ elim (Bool-cases (domain == "task")) [
    | inl r ↦ rw ((string_eq.beq_iff domain "task").0 r) refl
    | inr r ↦ rw ((string_eq.beq_iff domain "system").0 (ground arith)) refl
  ]
]

-- The domain is none of the three, or the caller's role is not the domain's own.
abbrev pub Denied : String → Option String → Type 0
Denied domain role = (allowed_domain domain ≡ false) ⊎ (normalized_role domain role ≢ domain)

pub validate-Denied :
    (domain key : String) (role : Option String)
    → Denied domain role
    → validate domain key role ≡ err (access_denied domain key)
unfolding validate
validate-Denied domain key role (inl h) = rw h
validate-Denied domain key role (inr h) =
    ground (arith, string_eq.beq_iff (normalized_role domain role) domain)

module _ {V T C : Type 0} ⦃eq : Eq C⦄ (env : Platform V T C) where
  -- A caller without access to the domain reads nothing and changes nothing by the methods that take
  -- a role: `set`, `set_if_version`, `set_with_retry`, `delete`, `get`, `get_record`, `subscribe` and
  -- `unsubscribe` raise the access error and leave the manager as it was.
  pub Denied-unchanged :
      (domain key : String) (role actor : Option String) (v : V) (now : T) (n : ℕ) (c : C)
      (m : Manager V T C)
      → Denied domain role
      → (set env domain key v now role actor m ≡ (err (access_denied domain key), m))
        × (set_if_version env domain key v n now role actor m ≡ (err (access_denied domain key), m))
        × (set_with_retry env domain key v n now role actor m ≡ (err (access_denied domain key), m))
        × (delete env domain key now role actor m ≡ (err (access_denied domain key), m))
        × (get env domain key v role m ≡ (err (access_denied domain key), m))
        × (get_record env domain key role m ≡ (err (access_denied domain key), m))
        × (subscribe domain key c role m ≡ (err (access_denied domain key), m))
        × (unsubscribe domain key c role m ≡ (err (access_denied domain key), m))
  unfolding set set_if_version check_version set_with_retry delete get get_record subscribe
      unsubscribe
  Denied-unchanged domain key role actor v now n c m h =
      ground (arith, validate-Denied domain key role h)
