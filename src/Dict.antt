-- ===== src/Dict.antt =====
-- Python's `dict`, in insertion order: an association list over keys with decidable equality.
-- `d[k] = v` keeps the place of a key that is there and appends a new one; a key stands once.
use project_mimic.Prelude.{
  All, All-weaken, ◌≡◌, refl, Bool, Option, none, some, List, [], ◌∷◌, arith, ite, is_some, subst,
  sym, ite-elim,
}

abbrev pub Dict : Type 0 → Type 0 → Type 0
Dict K V = List (K × V)

module _ {K : Type 0} (dec : Discrete K) {V : Type 0} where
  -- `d.get(k)`
  abbrev pub lookup : K → Dict K V → Option V
  lookup k [] = none
  lookup k ((j, v) ∷ d) = ite (dec j k) (some v) (lookup k d)

  -- `d[k] = v`
  abbrev pub insert : K → V → Dict K V → Dict K V
  insert k v [] = (k, v) ∷ []
  insert k v ((j, w) ∷ d) = ite (dec j k) ((j, v) ∷ d) ((j, w) ∷ insert k v d)

  -- `d.pop(k, None)`
  abbrev pub erase : K → Dict K V → Dict K V
  erase k [] = []
  erase k ((j, w) ∷ d) = ite (dec j k) d ((j, w) ∷ erase k d)

  -- `k in d`
  abbrev pub contains : K → Dict K V → Bool
  contains k d = is_some (lookup k d)

  -- No key stands twice.
  abbrev pub IsUnique : Dict K V → Type 0
  IsUnique [] = Unit
  IsUnique ((j, w) ∷ d) = (lookup j d ≡ none) × IsUnique d

  pub lookup-insert :
      (k j : K) (v : V) (d : Dict K V)
      → lookup j (insert k v d) ≡ ite (dec k j) (some v) (lookup j d)
  lookup-insert k j v [] = refl
  lookup-insert k j v ((i, w) ∷ d) = ground (arith, lookup-insert k j v d)

  pub lookup-erase_ne : (k j : K) (d : Dict K V) → ¬ (k ≡ j) → lookup j (erase k d) ≡ lookup j d
  lookup-erase_ne k j [] h = refl
  lookup-erase_ne k j ((i, w) ∷ d) h = ground (arith, lookup-erase_ne k j d)

  pub lookup-erase_self : (k : K) (d : Dict K V) → IsUnique d → lookup k (erase k d) ≡ none
  lookup-erase_self k [] u = refl
  lookup-erase_self k ((i, w) ∷ d) u = ground (arith, lookup-erase_self k d u.1)

  pub lookup-erase :
      (k j : K) (d : Dict K V) → IsUnique d → lookup j (erase k d) ≡ ite (dec k j) none (lookup j d)
  lookup-erase k j d u = ground (arith, lookup-erase_ne k j d, lookup-erase_self k d u)

  pub insert-IsUnique : (k : K) (v : V) (d : Dict K V) → IsUnique d → IsUnique (insert k v d)
  insert-IsUnique k v [] u = (refl, tt)
  insert-IsUnique k v ((i, w) ∷ d) u =
      ground (arith, insert-IsUnique k v d u.1, lookup-insert k i v d)

  pub erase-IsUnique : (k : K) (d : Dict K V) → IsUnique d → IsUnique (erase k d)
  erase-IsUnique k [] u = tt
  erase-IsUnique k ((i, w) ∷ d) u = ground (arith, erase-IsUnique k d u.1, lookup-erase_ne k i d)

  -- every item of a dictionary is found under its key
  pub All-lookup : (d : Dict K V) → IsUnique d → All (λ (x : K × V). lookup x.0 d ≡ some x.1) d
  All-lookup [] u = tt
  All-lookup ((k, v) ∷ d) u =
      (ground arith, All-weaken d (λ (x : K × V) h. ground (arith, u.0)) (All-lookup d u.1))

  pub All-found :
      (P : K × V → Type 0) (d : Dict K V) (k : K) (v : V) → All P d → lookup k d ≡ some v → P (k, v)
  All-found P [] k v a h = absurd (ground arith)
  All-found P ((j, w) ∷ d) k v a h = elim (dec j k) [
    | yes e ↦ let same : (j, w) ≡ (k, v) = ground (arith, e, h) in subst P same a.0
    | no ne ↦ All-found P d k v a.1 (ground (arith, ne, h))
  ]

  pub All-insert :
      (P : K × V → Type 0) (k : K) (v : V) (d : Dict K V)
      → P (k, v)
      → All P d
      → All P (insert k v d)
  All-insert P k v [] h a = (h, tt)
  All-insert P k v ((j, w) ∷ d) h a =
      ite-elim (λ (x : Dict K V). All P x) (dec j k) ((j, v) ∷ d) ((j, w) ∷ insert k v d)
        (λ same. (subst (λ (i : K). P (i, v)) (sym same) h, a.1))
        (λ other. (a.0, All-insert P k v d h a.1))
