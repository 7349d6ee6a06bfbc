-- ===== src/Prelude/Lists.antt =====
-- Lists measured by native numbers, and counting by a decision.
use Prim.Native.Nat.{ℕ, zero, suc, ◌+◌, ◌≤◌}
use mathlib.Core.Path.{◌≡◌, refl}
use mathlib.Core.Logic.{ite}
use mathlib.Core.List.{List, [], ◌∷◌, ◌++◌}
use mathlib.Core.Bool.{Bool, true, false}
use native.Mathlib.Omega.{arith}
use project_mimic.Prelude.Tests.{if◌then◌else◌}

module _ {ℓ} {A : Type ℓ} where
  abbrev pub length : List A → ℕ
  length [] = 0
  length (x ∷ xs) = suc (length xs)

  pub length-append : (xs ys : List A) → length (xs ++ ys) ≡ length xs + length ys
  length-append [] ys = omega arith
  length-append (x ∷ xs) ys = omega (arith, length-append xs ys)

  abbrev pub replicate : ℕ → A → List A
  replicate zero a = []
  replicate (suc n) a = a ∷ replicate n a

  -- `[x for x in xs if p(x)]`
  abbrev pub keep : (A → Bool) → List A → List A
  keep p [] = []
  keep p (x ∷ xs) = let rest = keep p xs in if p x then x ∷ rest else rest

  abbrev pub any : (A → Bool) → List A → Bool
  any p [] = false
  any p (x ∷ xs) = if p x then true else any p xs

  -- `xs[:n]`
  abbrev pub take : ℕ → List A → List A
  take zero xs = []
  take (suc n) [] = []
  take (suc n) (x ∷ xs) = x ∷ take n xs

  abbrev pub drop : ℕ → List A → List A
  drop zero xs = xs
  drop (suc n) [] = []
  drop (suc n) (x ∷ xs) = drop n xs

  abbrev pub All {κ} : (A → Type κ) → List A → Type κ
  All P [] = Unit
  All P (x ∷ xs) = P x × All P xs

module _ {A : Type 0} (dec : Discrete A) where
  abbrev pub count : A → List A → ℕ
  count a [] = 0
  count a (x ∷ xs) = let rest = count a xs in ite (dec x a) (suc rest) rest

  -- `a in xs`
  abbrev pub member : A → List A → Bool
  member a [] = false
  member a (x ∷ xs) = ite (dec x a) true (member a xs)

  -- `[x for x in xs if x != a]`
  abbrev pub without : A → List A → List A
  without a [] = []
  without a (x ∷ xs) = let rest = without a xs in ite (dec x a) rest (x ∷ rest)

  -- `xs.remove(a)`: the first occurrence; what raises ValueError there leaves the list
  abbrev pub remove : A → List A → List A
  remove a [] = []
  remove a (x ∷ xs) = ite (dec x a) xs (x ∷ remove a xs)

  pub count-append : (a : A) (xs ys : List A) → count a (xs ++ ys) ≡ count a xs + count a ys
  count-append a [] ys = omega arith
  count-append a (x ∷ xs) ys = ground (arith, count-append a xs ys)

  pub count-without :
      (a b : A) (xs : List A) → count a (without b xs) ≡ ite (dec b a) 0 (count a xs)
  count-without a b [] = ground arith
  count-without a b (x ∷ xs) = ground (arith, count-without a b xs)

  pub count-remove_ne : (a b : A) (xs : List A) → ¬ (b ≡ a) → count a (remove b xs) ≡ count a xs
  count-remove_ne a b [] h = refl
  count-remove_ne a b (x ∷ xs) h = ground (arith, count-remove_ne a b xs h)

  pub count-remove_self :
      (a : A) (xs : List A) → 1 ≤ count a xs → suc (count a (remove a xs)) ≡ count a xs
  count-remove_self a [] h = absurd (omega arith)
  count-remove_self a (x ∷ xs) h = ground (arith, count-remove_self a xs)

  pub member-count : (a : A) (xs : List A) → member a xs ≡ true → 1 ≤ count a xs
  member-count a [] h = cc
  member-count a (x ∷ xs) h = ground (arith, member-count a xs)

  pub not-member-count : (a : A) (xs : List A) → member a xs ≡ false → count a xs ≡ 0
  not-member-count a [] h = refl
  not-member-count a (x ∷ xs) h = ground (arith, not-member-count a xs)

pub All-weaken {κ μ} :
    {A : Type 0} {P : A → Type κ} {Q : A → Type μ} (xs : List A)
    → ((x : A) → P x → Q x)
    → All P xs
    → All Q xs
All-weaken [] f a = tt
All-weaken (x ∷ xs) f a = (f x a.0, All-weaken xs f a.1)
