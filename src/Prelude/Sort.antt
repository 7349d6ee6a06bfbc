-- ===== src/Prelude/Sort.antt =====
-- Python's `sorted`: a stable sort, by a test that says whether one item may stand before another;
-- and the order of texts, by code points.
use Prim.Native.Nat.{suc}
use Prim.Native.Char.{code}
use Prim.Native.String.{String, [], ◌∷◌}
use mathlib.Core.Path.{◌≡◌, refl, sym, ap, ◌∙◌}
use mathlib.Core.List as list
use mathlib.Core.List.{List}
use mathlib.Core.Bool.{Bool, true, false}
use native.Mathlib.Omega.{arith}
use mathlib.Core.Logic.{inl, inr, ite}
use project_mimic.Prelude.Tests.{Bool-cases, ltb, ◌==◌, if◌then◌else◌}
use project_mimic.Prelude.Lists.{length, keep, All, member}

-- `s <= t`
unfoldable pub le_text : String → String → Bool
le_text [] t = true
le_text (c ∷ s) [] = false
le_text (c ∷ s) (d ∷ t) =
    let rest = le_text s t in
    if ltb (code c) (code d) then true else if code c == code d then rest else false

module _ {A : Type 0} (le : A → A → Bool) where
  unfoldable pub place_by : A → List A → List A
  place_by x list.[] = list.◌∷◌ x list.[]
  place_by x (list.◌∷◌ y ys) =
      let rest = place_by x ys in if le x y then list.◌∷◌ x (list.◌∷◌ y ys) else list.◌∷◌ y rest

  -- An item that stood first stays first among its equals.
  unfoldable pub sort_by : List A → List A
  unfolding place_by
  sort_by list.[] = list.[]
  sort_by (list.◌∷◌ x xs) = place_by x (sort_by xs)

  keep-place_by :
      (p : A → Bool) (x : A) (xs : List A)
      → length (keep p (place_by x xs)) ≡ length (keep p (list.◌∷◌ x xs))
  unfolding place_by
  keep-place_by p x list.[] = refl
  keep-place_by p x (list.◌∷◌ y ys) = ground (arith, keep-place_by p x ys)

  length-place_by : (x : A) (xs : List A) → length (place_by x xs) ≡ suc (length xs)
  unfolding place_by
  length-place_by x list.[] = refl
  length-place_by x (list.◌∷◌ y ys) = ground (arith, length-place_by x ys)

  All-place_by : (P : A → Type 0) (x : A) (xs : List A) → P x → All P xs → All P (place_by x xs)
  unfolding place_by
  All-place_by P x list.[] h a = (h, tt)
  All-place_by P x (list.◌∷◌ y ys) h a = elim (Bool-cases (le x y)) [
    | inl first ↦ rw first (h, a)
    | inr later ↦ rw later (a.0, All-place_by P x ys h a.1)
  ]

  -- A sorted list holds the items of the list, each as often.
  pub keep-sort_by :
      (p : A → Bool) (xs : List A) → length (keep p (sort_by xs)) ≡ length (keep p xs)
  unfolding sort_by
  keep-sort_by p list.[] = refl
  keep-sort_by p (list.◌∷◌ x xs) = ground (arith, keep-place_by p x (sort_by xs), keep-sort_by p xs)

  pub length-sort_by : (xs : List A) → length (sort_by xs) ≡ length xs
  unfolding sort_by
  length-sort_by list.[] = refl
  length-sort_by (list.◌∷◌ x xs) = ground (arith, length-place_by x (sort_by xs), length-sort_by xs)

  pub All-sort_by : (P : A → Type 0) (xs : List A) → All P xs → All P (sort_by xs)
  unfolding sort_by
  All-sort_by P list.[] a = a
  All-sort_by P (list.◌∷◌ x xs) a = All-place_by P x (sort_by xs) a.0 (All-sort_by P xs a.1)

  -- No item stands before one that must precede it.
  abbrev pub IsSortedBy : List A → Type 0
  IsSortedBy list.[] = Unit
  IsSortedBy (list.◌∷◌ x xs) = All (λ y. le x y ≡ true) xs × IsSortedBy xs

  All-le :
      ((a b c : A) → le a b ≡ true → le b c ≡ true → le a c ≡ true)
      → (x y : A) (ys : List A) → le x y ≡ true
      → All (λ z. le y z ≡ true) ys
      → All (λ z. le x z ≡ true) ys
  All-le trans x y list.[] h a = tt
  All-le trans x y (list.◌∷◌ z zs) h a = (trans x y z h a.0, All-le trans x y zs h a.1)

  place_by-IsSortedBy :
      ((a b c : A) → le a b ≡ true → le b c ≡ true → le a c ≡ true)
      → ((a b : A) → le a b ≡ false → le b a ≡ true)
      → (x : A) (xs : List A) → IsSortedBy xs
      → IsSortedBy (place_by x xs)
  unfolding place_by
  place_by-IsSortedBy trans total x list.[] s = (tt, tt)
  place_by-IsSortedBy trans total x (list.◌∷◌ y ys) s = elim (Bool-cases (le x y)) [
    | inl first ↦ rw first ((first, All-le trans x y ys first s.0), s)
    | inr later ↦ rw later (
      All-place_by (λ z. le y z ≡ true) x ys (total x y later) s.0,
      place_by-IsSortedBy trans total x ys s.1,
    )
  ]

  pub sort_by-IsSortedBy :
      ((a b c : A) → le a b ≡ true → le b c ≡ true → le a c ≡ true)
      → ((a b : A) → le a b ≡ false → le b a ≡ true)
      → (xs : List A) → IsSortedBy (sort_by xs)
  unfolding sort_by
  sort_by-IsSortedBy trans total list.[] = tt
  sort_by-IsSortedBy trans total (list.◌∷◌ x xs) =
      place_by-IsSortedBy trans total x (sort_by xs) (sort_by-IsSortedBy trans total xs)

module _ {A : Type 0} (dec : Discrete A) where
  member-keep :
      (a : A) (xs : List A)
      → member dec a xs ≡ ltb 0 (length (keep (λ (x : A). ite (dec x a) true false) xs))
  member-keep a list.[] = refl
  member-keep a (list.◌∷◌ x xs) = let ih = member-keep a xs in ground (arith, ih)

  -- A sorted list has the members of the list.
  pub member-sort_by :
      (le : A → A → Bool) (a : A) (xs : List A) → member dec a (sort_by le xs) ≡ member dec a xs
  member-sort_by le a xs =
      let p : A → Bool = λ x. ite (dec x a) true false in
      member-keep a (sort_by le xs) ∙ ap (ltb 0) (keep-sort_by le p xs) ∙ sym (member-keep a xs)
