-- ===== src/Common/Search.antt =====
-- Searching a list with a Boolean test: what is found passes the test, and what passes is found.
use mathlib.Core.Path.{◌≡◌, refl, sym, ap, ◌∙◌, subst}
use mathlib.Core.Logic.{inl, inr}
use mathlib.Core.Bool.{Bool, true, false}
use mathlib.Core.Option.{Option, none, some}
use mathlib.Core.List.{List, [], ◌∷◌}
use native.Mathlib.Omega.{arith}
use rag_foundation.Common.Tests.{if◌then◌else◌, Bool-cases}
use rag_foundation.Common.Lists.{All, In, keep, any}

-- The first element that passes a test.
unfoldable pub find : {A : Type 0} → (A → Bool) → List A → Option A
find p [] = none
find p (x ∷ xs) = if p x then some x else find p xs

pub any-In :
    {A : Type 0} (p : A → Bool) (xs : List A) (a : A) → In a xs → p a ≡ true → any p xs ≡ true
any-In p [] a here e = elim here [ ]
any-In p (x ∷ xs) a here e = elim (Bool-cases (p x)) [
  | inl yes_x ↦ rw (yes_x, any)
  | inr no_x ↦ elim here [
    | inl same ↦ absurd (cc (ap p same, e, no_x))
    | inr later ↦ rw (no_x, any) (any-In p xs a later e)
  ]
]

module _ {A : Type 0} (p : A → Bool) where
  pub In-any : (xs : List A) → any p xs ≡ true → (a : A) × In a xs × (p a ≡ true)
  In-any [] h = absurd (ground arith)
  In-any (x ∷ xs) h = elim (Bool-cases (p x)) [
    | inl e ↦ (x, inl refl, e)
    | inr e ↦
        let (a, here, passes) =
          In-any xs (subst (λ b. elim b [ true ↦ true | false ↦ any p xs ] ≡ true) e h) in
        (a, inr here, passes)
  ]

  pub find-In : (xs : List A) (a : A) → find p xs ≡ some a → In a xs × (p a ≡ true)
  unfolding find
  find-In [] a h = cc
  find-In (x ∷ xs) a h = elim (Bool-cases (p x)) [
    | inl e ↦ let same : x ≡ a = ground arith in (inl (sym same), subst (λ y. p y ≡ true) same e)
    | inr e ↦ let (here, passes) = find-In xs a (ground arith) in (inr here, passes)
  ]

  pub find-none : (xs : List A) → find p xs ≡ none → All (λ x. p x ≡ false) xs
  unfolding find
  find-none [] h = tt
  find-none (x ∷ xs) h = elim (Bool-cases (p x)) [
    | inl e ↦ absurd (ground arith)
    | inr e ↦ (e, find-none xs (ground arith))
  ]

  pub find-some : (xs : List A) (a : A) → In a xs → p a ≡ true → (b : A) × (find p xs ≡ some b)
  unfolding find
  find-some [] a here e = elim here [ ]
  find-some (x ∷ xs) a here e = elim (Bool-cases (p x)) [
    | inl yes_x ↦ (x, rw yes_x)
    | inr no_x ↦ elim here [
      | inl same ↦ absurd (cc (ap p same, e, no_x))
      | inr later ↦ let (b, found) = find-some xs a later e in (b, rw (no_x, find) found)
    ]
  ]

  pub keep-In : (xs : List A) (a : A) → In a (keep p xs) → In a xs × (p a ≡ true)
  keep-In [] a h = elim h [ ]
  keep-In (x ∷ xs) a h = elim (Bool-cases (p x)) [
    | inl e ↦ elim (subst (λ b. In a (elim b [ true ↦ x ∷ keep p xs | false ↦ keep p xs ])) e h) [
      | inl same ↦ (inl same, ap p same ∙ e)
      | inr later ↦ let (there, passes) = keep-In xs a later in (inr there, passes)
    ]
    | inr e ↦
        let (there, passes) =
          keep-In xs a
            (subst (λ b. In a (elim b [ true ↦ x ∷ keep p xs | false ↦ keep p xs ])) e h) in
        (inr there, passes)
  ]

  pub In-keep : (xs : List A) (a : A) → In a xs → p a ≡ true → In a (keep p xs)
  In-keep [] a here e = elim here [ ]
  In-keep (x ∷ xs) a here e = elim (Bool-cases (p x)) [
    | inl yes_x ↦
        rw (yes_x, keep)
          (elim here [ inl same ↦ inl same | inr later ↦ inr (In-keep xs a later e) ])
    | inr no_x ↦ elim here [
      | inl same ↦ absurd (cc (ap p same, e, no_x))
      | inr later ↦ rw (no_x, keep) (In-keep xs a later e)
    ]
  ]
