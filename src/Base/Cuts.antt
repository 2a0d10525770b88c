-- ===== src/Base/Cuts.antt =====
-- What the searches in a text find, by its code points.
use Prim.Native.Nat.{ℕ}
use Prim.Native.Char.{code}
use Prim.Native.String.{String}
use mathlib.Core.Path.{◌≡◌, refl, ap, subst}
use mathlib.Core.Bool.{true, false}
use mathlib.Core.Option.{Option, none, some}
use mathlib.Core.List.{List, [], ◌∷◌, ◌++◌}
use native.Mathlib.Omega.{arith}
use offline_companion_core.Base.Tests.{split_if, nat_beq_iff}
use offline_companion_core.Base.Text.{is_empty, has_prefix, has_text, drop_prefix, cut_text}

abbrev pub codes : String → List ℕ
codes String.[] = []
codes (String.◌∷◌ c s) = code c ∷ codes s

pub has_prefix-codes :
    (t s : String) → has_prefix t s ≡ true → codes s ≡ codes t ++ codes (drop_prefix t s)
has_prefix-codes String.[] s h = refl
has_prefix-codes (String.◌∷◌ c t) String.[] h = absurd (ground arith)
has_prefix-codes (String.◌∷◌ c t) (String.◌∷◌ d s) h =
    ground (arith, nat_beq_iff (code c) (code d), has_prefix-codes t s)

-- What stands before the place that is found, and after it.
abbrev Cut : String → String → Option (String × String) → Type 0
Cut t s none = Unit {0}
Cut t s (some (a, b)) = codes s ≡ codes a ++ codes t ++ codes b

cut_text-Cut : (t s : String) → Cut t s (cut_text t s)
unfolding cut_text
cut_text-Cut String.[] String.[] = refl
cut_text-Cut (String.◌∷◌ d t) String.[] = tt
cut_text-Cut t (String.◌∷◌ c s) =
    split_if (Cut t (String.◌∷◌ c s)) (has_prefix t (String.◌∷◌ c s))
      (λ q. has_prefix-codes t (String.◌∷◌ c s) q) (λ _. later (cut_text t s) (cut_text-Cut t s))
  where
    later :
        (o : Option (String × String))
        → Cut t s o
        → Cut t (String.◌∷◌ c s) (elim o [ none ↦ none | some (a, b) ↦ some (String.◌∷◌ c a, b) ])
    later none h = tt
    later (some (a, b)) h = ap (◌∷◌ (code c)) h

pub cut_text-codes :
    (t s a b : String) → cut_text t s ≡ some (a, b) → codes s ≡ codes a ++ codes t ++ codes b
cut_text-codes t s a b h = subst (Cut t s) h (cut_text-Cut t s)

-- Where nothing is found, the text is not there.
abbrev Gone : String → String → Option (String × String) → Type 0
Gone t s none = has_text t s ≡ false
Gone t s (some x) = Unit {0}

cut_text-Gone : (t s : String) → Gone t s (cut_text t s)
unfolding cut_text has_text
cut_text-Gone String.[] String.[] = tt
cut_text-Gone (String.◌∷◌ d t) String.[] = refl
cut_text-Gone t (String.◌∷◌ c s) =
    split_if (Gone t (String.◌∷◌ c s)) (has_prefix t (String.◌∷◌ c s)) (λ _. tt)
      (λ q. later q (cut_text t s) (cut_text-Gone t s))
  where
    later :
        has_prefix t (String.◌∷◌ c s) ≡ false
        → (o : Option (String × String)) → Gone t s o
        → Gone t (String.◌∷◌ c s) (elim o [ none ↦ none | some (a, b) ↦ some (String.◌∷◌ c a, b) ])
    later q none h = ground (arith, q, h)
    later q (some (a, b)) h = tt

pub cut_text-none : (t s : String) → cut_text t s ≡ none → has_text t s ≡ false
cut_text-none t s h = subst (Gone t s) h (cut_text-Gone t s)

-- The one text begins the other.
abbrev Begins : String → String → Type 0
Begins String.[] s = Unit {0}
Begins (String.◌∷◌ c a) String.[] = ⊥
Begins (String.◌∷◌ c a) (String.◌∷◌ d s) = (code c ≡ code d) × Begins a s

has_prefix-Begins : (t a s : String) → Begins a s → has_prefix t a ≡ true → has_prefix t s ≡ true
has_prefix-Begins String.[] a s h q = refl
has_prefix-Begins (String.◌∷◌ c t) String.[] s h q = absurd (ground arith)
has_prefix-Begins (String.◌∷◌ c t) (String.◌∷◌ d a) String.[] h q = absurd h
has_prefix-Begins (String.◌∷◌ c t) (String.◌∷◌ d a) (String.◌∷◌ e s) h q =
    ground (arith, h.0, q, has_prefix-Begins t a s h.1)

-- The place that is found is the first one.
abbrev First : String → String → Option (String × String) → Type 0
First t s none = Unit {0}
First t s (some (a, b)) = Begins a s × (is_empty t ≡ false → has_text t a ≡ false)

cut_text-First : (t s : String) → First t s (cut_text t s)
unfolding cut_text has_text
cut_text-First String.[] String.[] = (tt, λ h. absurd (ground arith))
cut_text-First (String.◌∷◌ d t) String.[] = tt
cut_text-First t (String.◌∷◌ c s) =
    split_if (First t (String.◌∷◌ c s)) (has_prefix t (String.◌∷◌ c s)) (λ _. (tt, λ h. h))
      (λ q. later q (cut_text t s) (cut_text-First t s))
  where
    later :
        has_prefix t (String.◌∷◌ c s) ≡ false
        → (o : Option (String × String)) → First t s o
        → First t (String.◌∷◌ c s) (elim o [ none ↦ none | some (a, b) ↦ some (String.◌∷◌ c a, b) ])
    later q none h = tt
    later q (some (a, b)) h = (
      (refl, h.0),
      λ e.
          ground
            (arith, q, h.1 e, has_prefix-Begins t (String.◌∷◌ c a) (String.◌∷◌ c s) (refl, h.0)),
    )

pub cut_text_first :
    (t s a b : String) → is_empty t ≡ false → cut_text t s ≡ some (a, b) → has_text t a ≡ false
cut_text_first t s a b e h = (subst (First t s) h (cut_text-First t s)).1 e
