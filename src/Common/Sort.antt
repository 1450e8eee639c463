-- ===== src/Common/Sort.antt =====
-- ORDER BY: a stable insertion sort by a Boolean order, and the rows that it keeps.
use mathlib.Core.Path.{subst}
use mathlib.Core.Logic.{inl, inr}
use mathlib.Core.Bool.{Bool}
use mathlib.Core.List.{List, [], ◌∷◌}
use rag_foundation.Common.Tests.{if◌then◌else◌, Bool-cases}
use rag_foundation.Common.Lists.{In}

module _ {A : Type 0} (before : A → A → Bool) where
  unfoldable pub insert_row : A → List A → List A
  insert_row a [] = a ∷ []
  insert_row a (x ∷ xs) = if before a x then a ∷ x ∷ xs else x ∷ insert_row a xs

  unfoldable pub order_by : List A → List A
  order_by [] = []
  order_by (x ∷ xs) = insert_row x (order_by xs)

  In-insert_row : (a b : A) (xs : List A) → In b (insert_row a xs) → In b (a ∷ xs)
  unfolding insert_row
  In-insert_row a b [] h = h
  In-insert_row a b (x ∷ xs) h = elim (Bool-cases (before a x)) [
    | inl e ↦ subst (λ c. In b (if c then a ∷ x ∷ xs else x ∷ insert_row a xs)) e h
    | inr e ↦ elim (subst (λ c. In b (if c then a ∷ x ∷ xs else x ∷ insert_row a xs)) e h) [
      | inl same ↦ inr (inl same)
      | inr later ↦ elim (In-insert_row a b xs later) [
        | inl here ↦ inl here
        | inr there ↦ inr (inr there)
      ]
    ]
  ]

  pub In-order_by : (b : A) (xs : List A) → In b (order_by xs) → In b xs
  unfolding order_by
  In-order_by b [] h = h
  In-order_by b (x ∷ xs) h = elim (In-insert_row x b (order_by xs) h) [
    | inl same ↦ inl same
    | inr later ↦ inr (In-order_by b xs later)
  ]
