-- ===== src/Base/Classes.antt =====
-- Equality tests of the types that serve as keys: texts and pairs.
use Prim.Native.String.{String}
use mathlib.Core.Path.{◌≡◌, refl}
use mathlib.Core.Logic.{◌↔◌}
use mathlib.Core.Bool.{Bool, true, false, ◌&&◌, ◌||◌}
use mathlib.Core.List.{List, [], ◌∷◌}
use Prim.Native.Nat.{ℕ}
use native.Mathlib.Omega.{arith}
use text.Mathlib.Text.{◌==◌ as str_eq}
use text.Mathlib.TextEquality.{eq_iff}
use offline_companion_core.Base.Tests.{nat_beq, nat_beq_iff}

-- A key type has a test that answers true for equal keys alone.
pub record Eq {ℓ} (K : Type ℓ) : Type ℓ where
  pub beq : K → K → Bool
  pub beq_iff : (j k : K) → (beq j k ≡ true) ↔ (j ≡ k)

module _ {ℓ κ} {A : Type ℓ} {B : Type κ} where
  abbrev pub pair_beq : ⦃a : Eq A⦄ ⦃b : Eq B⦄ → A × B → A × B → Bool
  pair_beq ⦃a⦄ ⦃b⦄ (x, y) (x', y') = a.beq x x' && b.beq y y'

  pub pair_beq_iff :
      ⦃a : Eq A⦄ ⦃b : Eq B⦄ (p q : A × B) → (pair_beq ⦃a = a⦄ ⦃b = b⦄ p q ≡ true) ↔ (p ≡ q)
  pair_beq_iff ⦃a⦄ ⦃b⦄ (x, y) (x', y') = ground (arith, a.beq_iff x x', b.beq_iff y y')

  instance abbrev pub pair_eq : ⦃a : Eq A⦄ ⦃b : Eq B⦄ → Eq (A × B)
  pair_eq ⦃a⦄ ⦃b⦄ = record {
    beq = pair_beq ⦃a = a⦄ ⦃b = b⦄;
    beq_iff = pair_beq_iff ⦃a = a⦄ ⦃b = b⦄;
  }

instance abbrev pub string_eq : Eq String
string_eq = record { beq_iff = eq_iff; beq = str_eq }

module _ {ℓ} {A : Type ℓ} ⦃e : Eq A⦄ where
  -- `a in xs`
  abbrev pub contains : List A → A → Bool
  contains [] a = false
  contains (x ∷ xs) a = e.beq x a || contains xs a

  pub beq_self : (a : A) → e.beq a a ≡ true
  beq_self a = (e.beq_iff a a).1 refl

instance abbrev pub nat_eq : Eq ℕ
nat_eq = record { beq_iff = nat_beq_iff; beq = nat_beq }

-- The test of the instance in scope.
abbrev pub ◌==◌ {ℓ} : {K : Type ℓ} ⦃eq : Eq K⦄ → K → K → Bool
◌==◌ ⦃eq⦄ j k = eq.beq j k

infix 50 ◌==◌
