-- ===== src/Base/Text.antt =====
-- Python's texts: `strip`, `split`, `isdigit`, `int` of digits, and the truth value.
use Prim.Native.Nat.{ℕ, ◌+◌, ◌-◌, ◌*◌}
use Prim.Native.Char.{Char, code}
use Prim.Native.String.{String}
use mathlib.Core.Bool.{Bool, true, false, not, ◌&&◌, ◌||◌}
use mathlib.Core.Option.{Option, none, some}
use mathlib.Core.List.{List, [], ◌∷◌}
use offline_companion_core.Base.Lists.{select}
use offline_companion_core.Base.Tests.{leb, nat_beq, if◌then◌else◌}

abbrev pub is_empty : String → Bool
is_empty String.[] = true
is_empty (String.◌∷◌ c s) = false

-- `str.isspace` of one code point.
unfoldable pub is_space : ℕ → Bool
is_space c =
    (leb 9 c && leb c 13)
    || (leb 28 c && leb c 32)
    || nat_beq c 0x85
    || nat_beq c 0xa0
    || nat_beq c 0x1680
    || (leb 0x2000 c && leb c 0x200a)
    || nat_beq c 0x2028
    || nat_beq c 0x2029
    || nat_beq c 0x202f
    || nat_beq c 0x205f
    || nat_beq c 0x3000

unfoldable pub lstrip : String → String
unfolding is_space
lstrip String.[] = String.[]
lstrip (String.◌∷◌ c s) = let rest = lstrip s in if is_space (code c) then rest else String.◌∷◌ c s

unfoldable pub rstrip : String → String
unfolding is_space
rstrip String.[] = String.[]
rstrip (String.◌∷◌ c s) =
    let rest = rstrip s in
    if is_space (code c) && is_empty rest then String.[] else String.◌∷◌ c rest

unfoldable pub strip : String → String
unfolding lstrip rstrip
strip s = rstrip (lstrip s)

-- `a or b`, where an empty text is false.
abbrev pub or_else : String → String → String
or_else s t = if is_empty s then t else s

-- The pieces of a text between the code points that `p` accepts; `"".split(…)` is `[""]`.
abbrev prepend : Char → List String → List String
prepend c [] = []
prepend c (w ∷ ws) = String.◌∷◌ c w ∷ ws

unfoldable pub split_where : (ℕ → Bool) → String → List String
split_where p String.[] = String.[] ∷ []
split_where p (String.◌∷◌ c s) =
    let rest = split_where p s in if p (code c) then String.[] ∷ rest else prepend c rest

-- `s.split()`: the words between white space.
unfoldable pub words : String → List String
unfolding split_where is_space
words s = select (λ w. not (is_empty w)) (split_where is_space s)

-- `s.split(sep, 1)` where the code point occurs: what stands before the first one, and after it.
unfoldable pub cut_at : ℕ → String → Option (String × String)
cut_at sep String.[] = none
cut_at sep (String.◌∷◌ c s) =
    let rest = cut_at sep s in
    if nat_beq (code c) sep
    then some (String.[], s)
    else elim rest [ none ↦ none | some (a, b) ↦ some (String.◌∷◌ c a, b) ]

-- `isdigit()`, of the ASCII digits.
abbrev pub is_digit : ℕ → Bool
is_digit c = leb 48 c && leb c 57

unfoldable pub all_digits : String → Bool
all_digits String.[] = true
all_digits (String.◌∷◌ c s) = is_digit (code c) && all_digits s

-- `int()` of a text of digits, after the digits that make `acc`.
unfoldable pub digits_value : ℕ → String → ℕ
digits_value acc String.[] = acc
digits_value acc (String.◌∷◌ c s) = digits_value (acc * 10 + (code c - 48)) s

-- `s.startswith(t)` and `t in s`, the looked for text first.
abbrev pub has_prefix : String → String → Bool
has_prefix String.[] s = true
has_prefix (String.◌∷◌ c t) String.[] = false
has_prefix (String.◌∷◌ c t) (String.◌∷◌ d s) = nat_beq (code c) (code d) && has_prefix t s

unfoldable pub has_text : String → String → Bool
has_text t String.[] = is_empty t
has_text t (String.◌∷◌ c s) = has_prefix t (String.◌∷◌ c s) || has_text t s

abbrev pub drop_prefix : String → String → String
drop_prefix String.[] s = s
drop_prefix (String.◌∷◌ c t) String.[] = String.[]
drop_prefix (String.◌∷◌ c t) (String.◌∷◌ d s) = drop_prefix t s

-- Where `t` occurs in `s`: what stands before the first place, and after it.
unfoldable pub cut_text : String → String → Option (String × String)
cut_text t String.[] = if is_empty t then some (String.[], String.[]) else none
cut_text t (String.◌∷◌ c s) =
    let rest = cut_text t s in
    if has_prefix t (String.◌∷◌ c s)
    then some (String.[], drop_prefix t (String.◌∷◌ c s))
    else elim rest [ none ↦ none | some (a, b) ↦ some (String.◌∷◌ c a, b) ]
