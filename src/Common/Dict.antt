-- ===== src/Common/Dict.antt =====
-- A Python dict as an association list in insertion order, over keys with decidable equality.
use Prim.Native.Nat.{◌+◌}
use mathlib.Core.Path.{◌≡◌, refl}
use mathlib.Core.Logic.{◌≢◌, ite}
use mathlib.Core.Bool.{Bool, true, false}
use mathlib.Core.Option.{Option, none, some}
use mathlib.Core.List.{List, [], ◌∷◌, map}
use native.Mathlib.Omega.{arith}
use rag_foundation.Common.Lists.{length, All, All-map}

abbrev pub Dict {ℓ} : Type ℓ → Type ℓ → Type ℓ
Dict K V = List (K × V)

module _ {ℓ} {K V : Type ℓ} where
  abbrev pub keys : Dict K V → List K
  keys = map (λ e. e.0)

module _ {ℓ} {K V : Type ℓ} (dec : Discrete K) where
  -- `d.get(k)`
  abbrev pub lookup : K → Dict K V → Option V
  lookup k [] = none
  lookup k (e ∷ d) = ite (dec e.0 k) (some e.1) (lookup k d)

  -- `d[k] = v`
  abbrev pub insert : K → V → Dict K V → Dict K V
  insert k v [] = (k, v) ∷ []
  insert k v (e ∷ d) = ite (dec e.0 k) ((k, v) ∷ d) (e ∷ insert k v d)

  -- `d.pop(k, None)`
  abbrev pub erase : K → Dict K V → Dict K V
  erase k [] = []
  erase k (e ∷ d) = ite (dec e.0 k) d (e ∷ erase k d)

  -- No key stands twice.
  abbrev pub Distinct : Dict K V → Type ℓ
  Distinct [] = Unit
  Distinct (e ∷ d) = (lookup e.0 d ≡ none) × Distinct d

module _ {ℓ} {K V : Type ℓ} (dec : Discrete K) where
  pub lookup-insert_self : (k : K) (v : V) (d : Dict K V) → lookup dec k (insert dec k v d) ≡ some v
  lookup-insert_self k v [] = ground arith
  lookup-insert_self k v (e ∷ d) = ground (arith, lookup-insert_self k v d)

  pub lookup-insert_ne :
      (j k : K) (v : V) (d : Dict K V) → j ≢ k → lookup dec j (insert dec k v d) ≡ lookup dec j d
  lookup-insert_ne j k v [] h = ground arith
  lookup-insert_ne j k v (e ∷ d) h = ground (arith, lookup-insert_ne j k v d h)

  pub lookup-erase_ne :
      (j k : K) (d : Dict K V) → j ≢ k → lookup dec j (erase dec k d) ≡ lookup dec j d
  lookup-erase_ne j k [] h = refl
  lookup-erase_ne j k (e ∷ d) h = ground (arith, lookup-erase_ne j k d h)

  pub erase-Distinct : (k : K) (d : Dict K V) → Distinct dec d → Distinct dec (erase dec k d)
  erase-Distinct k [] h = tt
  erase-Distinct k (e ∷ d) h = ground (arith, erase-Distinct k d h.1, lookup-erase_ne e.0 k d)

  pub insert-Distinct :
      (k : K) (v : V) (d : Dict K V) → Distinct dec d → Distinct dec (insert dec k v d)
  insert-Distinct k v [] h = (refl, tt)
  insert-Distinct k v (e ∷ d) h =
      ground (arith, insert-Distinct k v d h.1, lookup-insert_ne e.0 k v d)

  pub lookup-erase_self :
      (k : K) (d : Dict K V) → Distinct dec d → lookup dec k (erase dec k d) ≡ none
  lookup-erase_self k [] h = refl
  lookup-erase_self k (e ∷ d) h = ground (arith, lookup-erase_self k d h.1)

module _ {ℓ} {K V : Type ℓ} (dec : Discrete K) where
  -- `k in d`
  abbrev pub contains : K → Dict K V → Bool
  contains k d = elim (lookup dec k d) [ none ↦ false | some _ ↦ true ]

  pub lookup-contains :
      (k : K) (d : Dict K V) → contains k d ≡ true → (v : V) × (lookup dec k d ≡ some v)
  lookup-contains k d h = ground arith

  pub contains-insert :
      (j k : K) (v : V) (d : Dict K V)
      → contains j (insert dec k v d) ≡ ite (dec k j) true (contains j d)
  contains-insert j k v d =
      ground (arith, lookup-insert_self dec k v d, lookup-insert_ne dec j k v d)

  pub contains-erase :
      (j k : K) (d : Dict K V)
      → Distinct dec d
      → contains j (erase dec k d) ≡ ite (dec k j) false (contains j d)
  contains-erase j k d h = ground (arith, lookup-erase_self dec k d h, lookup-erase_ne dec j k d)

  -- Erasing drops one entry if the key was there, and none otherwise.
  pub length-erase :
      (k : K) (d : Dict K V)
      → length (erase dec k d) + (elim (contains k d) [ true ↦ 1 | false ↦ 0 ]) ≡ length d
  length-erase k [] = omega arith
  length-erase k (e ∷ d) = ground (arith, length-erase k d)

  -- Writing adds one entry if the key was not there, and none otherwise.
  pub length-insert :
      (k : K) (v : V) (d : Dict K V)
      → length (insert dec k v d) ≡ length d + (elim (contains k d) [ true ↦ 0 | false ↦ 1 ])
  length-insert k v [] = omega arith
  length-insert k v (e ∷ d) = ground (arith, length-insert k v d)

  -- Every entry's key is found.
  pub All-contains : (d : Dict K V) → All (λ e. contains e.0 d ≡ true) d
  All-contains [] = tt
  All-contains (e ∷ d) = (
    ground arith,
    All-map (λ x. contains x.0 d ≡ true) (λ x. contains x.0 (e ∷ d) ≡ true) (λ x h. ground arith) d
        (All-contains d),
  )
