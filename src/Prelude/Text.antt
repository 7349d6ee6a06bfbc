-- ===== src/Prelude/Text.antt =====
-- Python's `str`: equality as a decision, `strip` and `lower`. Case folding is that of ASCII.
use Prim.Native.Char.{Char, code}
use Prim.Native.String.{String, [], ◌∷◌}
use mathlib.Core.Path.{◌≡◌, refl}
use mathlib.Core.Logic.{inl, inr}
use mathlib.Core.Bool.{Bool, true, false, ◌&&◌, ◌||◌, not}
use native.Mathlib.Omega.{arith}
use text.Mathlib.Text.{◌==◌ as str_eq}
use text.Mathlib.TextEquality.{eq_iff}
use project_mimic.Prelude.Tests.{leb, ◌==◌, if◌then◌else◌, Bool-cases}

unfoldable pub text_dec : Discrete String
unfolding Bool-cases
text_dec s t = elim (Bool-cases (str_eq s t)) [
  | inl e ↦ yes ((eq_iff s t).0 e)
  | inr e ↦ no (λ p. cc ((eq_iff s t).1 p, e))
]

abbrev pub is_empty : String → Bool
is_empty [] = true
is_empty (c ∷ s) = false

-- `s + t`
abbrev pub joined : String → String → String
joined [] t = t
joined (c ∷ s) t = c ∷ joined s t

-- the code points that `str.isspace` accepts
unfoldable pub is_space : Char → Bool
is_space ch =
    let c = code ch in
    (leb 9 c && leb c 13)
    || (leb 28 c && leb c 32)
    || (c == 133)
    || (c == 160)
    || (c == 5760)
    || (leb 8192 c && leb c 8202)
    || (c == 8232)
    || (c == 8233)
    || (c == 8239)
    || (c == 8287)
    || (c == 12288)

unfoldable pub lstrip : String → String
lstrip [] = []
lstrip (c ∷ s) = let rest = lstrip s in if is_space c then rest else c ∷ s

unfoldable pub rstrip : String → String
rstrip [] = []
rstrip (c ∷ s) = let rest = rstrip s in if is_empty rest && is_space c then [] else c ∷ rest

-- `s.strip()`
unfoldable pub strip : String → String
unfolding lstrip rstrip is_space
strip s = rstrip (lstrip s)

rstrip-rstrip : (s : String) → rstrip (rstrip s) ≡ rstrip s
unfolding rstrip
rstrip-rstrip [] = refl
rstrip-rstrip (c ∷ s) = ground (arith, rstrip-rstrip s)

abbrev starts_bare : String → Bool
starts_bare [] = true
starts_bare (c ∷ s) = not (is_space c)

starts_bare-lstrip : (s : String) → starts_bare (lstrip s) ≡ true
unfolding lstrip
starts_bare-lstrip [] = refl
starts_bare-lstrip (c ∷ s) = ground (arith, starts_bare-lstrip s)

lstrip_of_starts_bare : (s : String) → starts_bare s ≡ true → lstrip s ≡ s
unfolding lstrip
lstrip_of_starts_bare [] h = refl
lstrip_of_starts_bare (c ∷ s) h = ground arith

starts_bare-rstrip : (s : String) → starts_bare s ≡ true → starts_bare (rstrip s) ≡ true
unfolding rstrip
starts_bare-rstrip [] h = refl
starts_bare-rstrip (c ∷ s) h = ground arith

-- A stripped text is left alone by `strip`.
pub strip-strip : (s : String) → strip (strip s) ≡ strip s
unfolding strip
strip-strip s =
    rw
      (lstrip_of_starts_bare (rstrip (lstrip s))
        (starts_bare-rstrip (lstrip s) (starts_bare-lstrip s)))
      (rstrip-rstrip (lstrip s))

strip_lem : strip "  a b\t " ≡ "a b"
unfolding strip
strip_lem = refl
