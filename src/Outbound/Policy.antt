-- ===== src/Outbound/Policy.antt =====
-- `ensure_outbound_allowed`, shell/policy_engine/engine.py. The n-th call of a confirmation may answer
-- otherwise than the one before; `P` stands for the plan that is shown.
use offline_companion_core.Base.{
  ℕ, String, ◌≡◌, refl, ◌↔◌, Bool, true, false, ◌&&◌, Option, none, some, arith, if◌then◌else◌,
  ◌==◌, nat_eq, string_eq, pair_eq, Result, ok, err, ◌>>◌, guard,
}

pub data PrivacyMode : Type 0 where
  local_only ask_before_cloud always_ask auto_route_cloud : PrivacyMode

pub data OutboundScope : Type 0 where
  this_turn this_session all_sessions : OutboundScope

pub data OutboundDenied : Type 0 where
  outbound_disabled risk_not_acknowledged user_refused global_not_confirmed : OutboundDenied

-- What the user types at the prompts: the answer of `default_cli_confirm`, and the stripped `input`.
pub record Terminal (P : Type 0) : Type 0 where
  pub cli_confirm : P → Bool
  pub typed : String

pub record Options (P : Type 0) : Type 0 where
  pub confirm : Option (ℕ → P → Bool)
  pub global_double_confirm : Bool
  pub risk_ack_auto_route : Bool

abbrev pub is_global : OutboundScope → Bool
is_global all_sessions = true
is_global _ = false

guarded_iff :
    (b : Bool) (e : OutboundDenied) (r : Result OutboundDenied (Unit {0})) (C : Type 0)
    → (r ≡ ok tt) ↔ C
    → (guard b e >> r ≡ ok tt) ↔ ((b ≡ true) × C)
guarded_iff true e r C (f, g) = (λ h. (refl, f h), λ c. g c.1)
guarded_iff false e r C (f, g) = (λ h. absurd (ground arith), λ c. absurd (ground (arith, c.0)))

module _ {P : Type 0} (terminal : Terminal P) where
  -- `(confirm or default_cli_confirm)(plan)`
  abbrev pub asked : Options P → P → Bool
  asked o plan = elim o.confirm [ none ↦ terminal.cli_confirm plan | some c ↦ c 0 plan ]

  -- The guard at the end, after `n` calls of `confirm`.
  unfoldable pub double_confirm :
      Options P → ℕ → P → OutboundScope → Result OutboundDenied (Unit {0})
  double_confirm o n plan scope =
      if is_global scope && o.global_double_confirm
      then elim o.confirm [
        | none ↦ guard (terminal.typed == "GLOBAL OK") global_not_confirmed
        | some c ↦ guard (c n plan) global_not_confirmed
      ]
      else ok tt

  unfoldable pub ensure_outbound_allowed :
      PrivacyMode → P → OutboundScope → Options P → Result OutboundDenied (Unit {0})
  unfolding double_confirm
  ensure_outbound_allowed local_only plan scope o = err outbound_disabled
  ensure_outbound_allowed auto_route_cloud plan scope o = do
    guard o.risk_ack_auto_route risk_not_acknowledged
    double_confirm o 0 plan scope
  ensure_outbound_allowed mode plan scope o = do
    guard (asked o plan) user_refused
    double_confirm o 1 plan scope

  -- Who has said yes before a request leaves.
  abbrev pub Consented : PrivacyMode → P → Options P → Type 0
  Consented local_only plan o = ⊥
  Consented auto_route_cloud plan o = o.risk_ack_auto_route ≡ true
  Consented mode plan o = asked o plan ≡ true

  -- How often `confirm` has been called before the guard at the end.
  abbrev pub earlier_calls : PrivacyMode → ℕ
  earlier_calls auto_route_cloud = 0
  earlier_calls mode = 1

  -- The answer to the second question, as the call number `n` where `confirm` is given.
  abbrev pub Repeated : Option (ℕ → P → Bool) → ℕ → P → Type 0
  Repeated none n plan = terminal.typed ≡ "GLOBAL OK"
  Repeated (some c) n plan = c n plan ≡ true

  abbrev pub Confirmed : ℕ → P → OutboundScope → Options P → Type 0
  Confirmed n plan scope o =
      (is_global scope && o.global_double_confirm) ≡ true → Repeated o.confirm n plan

  double_confirm_iff :
      (o : Options P) (n : ℕ) (plan : P) (scope : OutboundScope)
      → (double_confirm o n plan scope ≡ ok tt) ↔ Confirmed n plan scope o
  unfolding double_confirm
  double_confirm_iff o n plan scope = ground (arith, string_eq.beq_iff terminal.typed "GLOBAL OK")

  -- A request is let out exactly where the mode is not local only, the risk of automatic routing has been
  -- acknowledged or else the confirmation has said yes, and, for the global scope under the double
  -- guard, the confirmation has said yes again.
  pub ensure_outbound_allowed_iff :
      (mode : PrivacyMode) (plan : P) (scope : OutboundScope) (o : Options P)
      → (ensure_outbound_allowed mode plan scope o ≡ ok tt)
        ↔ (Consented mode plan o × Confirmed (earlier_calls mode) plan scope o)
  unfolding ensure_outbound_allowed
  ensure_outbound_allowed_iff local_only plan scope o = ground arith
  ensure_outbound_allowed_iff auto_route_cloud plan scope o =
      guarded_iff o.risk_ack_auto_route risk_not_acknowledged (double_confirm o 0 plan scope)
        (Confirmed 0 plan scope o) (double_confirm_iff o 0 plan scope)
  ensure_outbound_allowed_iff ask_before_cloud plan scope o =
      guarded_iff (asked o plan) user_refused (double_confirm o 1 plan scope)
        (Confirmed 1 plan scope o) (double_confirm_iff o 1 plan scope)
  ensure_outbound_allowed_iff always_ask plan scope o =
      guarded_iff (asked o plan) user_refused (double_confirm o 1 plan scope)
        (Confirmed 1 plan scope o) (double_confirm_iff o 1 plan scope)
