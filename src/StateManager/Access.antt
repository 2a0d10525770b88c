-- ===== src/StateManager/Access.antt =====
-- `_validate_domain` and `_validate_role`.
use offline_companion_core.Base.{
  String, Bool, ◌||◌, Option, none, some, ◌==◌, nat_eq, string_eq, pair_eq, Result, ◌>>◌, guard,
}
use offline_companion_core.Base.Text.{strip, or_else}
use offline_companion_core.StateManager.Types.{StateError, access_denied}

abbrev pub allowed_domain : String → Bool
allowed_domain d = d == "session" || d == "task" || d == "system"

-- `(role or domain).strip()`
abbrev pub normalized_role : String → Option String → String
normalized_role domain none = strip domain
normalized_role domain (some role) = strip (or_else role domain)

-- The roles allowed for a domain are the domain's own name alone.
unfoldable pub validate : String → String → Option String → Result StateError (Unit {0})
validate domain key role = do
  guard (allowed_domain domain) (access_denied domain key)
  guard (normalized_role domain role == domain) (access_denied domain key)

-- `role or domain`
abbrev pub role_or : Option String → String → String
role_or none domain = domain
role_or (some role) domain = or_else role domain

-- `actor or role or domain`
abbrev pub actor_of : Option String → Option String → String → String
actor_of none role domain = role_or role domain
actor_of (some actor) role domain = or_else actor (role_or role domain)
