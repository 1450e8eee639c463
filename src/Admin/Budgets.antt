-- ===== src/Admin/Budgets.antt =====
-- backend/app/routes/admin.py, `upsert_budget`: the budget check follows the new limit.
use rag_foundation.Common.{
  ℕ, ◌+◌, ◌≡◌, ◌≢◌, sym, ap, ◌∙◌, Bool, true, false, List, [], ◌∷◌, some, ltb, arith,
}
use rag_foundation.Common.Http.{Outcome, answered}
use rag_foundation.Costs.Budget.{find_budget, user_budget, mtd_spend, would_exceed_budget}
use rag_foundation.Models.{User, Budget, Database}
use rag_foundation.Admin.{Site, put_budget, upsert_budget, record_admin_action}

find_budget-put :
    (i limit : ℕ) (bs : List Budget) → find_budget i (put_budget i limit bs) ≡ some limit
unfolding find_budget put_budget
find_budget-put i limit [] = ground arith
find_budget-put i limit (b ∷ bs) = ground (arith, find_budget-put i limit bs)

find_budget-put_ne :
    (i j limit : ℕ) (bs : List Budget)
    → i ≢ j
    → find_budget i (put_budget j limit bs) ≡ find_budget i bs
unfolding find_budget put_budget
find_budget-put_ne i j limit [] ne = ground arith
find_budget-put_ne i j limit (b ∷ bs) ne = ground (arith, find_budget-put_ne i j limit bs)

-- After an answered change of a user's budget, the budget check of that user compares with the new limit as
-- the column stores it, that of every other user is as before, and nobody's spend has changed.
pub upsert_budget-check :
    (stored : ℕ → ℕ) (now : ℕ) (within_rate : Bool) (admin : User) (i limit answer month_start : ℕ)
    (s t : Site)
    → upsert_budget stored now within_rate admin i limit s ≡ (t, answered answer)
    → ((cost : ℕ)
        → would_exceed_budget month_start t.db i cost
          ≡ ltb (stored limit) (mtd_spend month_start s.db i + cost))
      × ((j cost : ℕ)
          → j ≢ i
          → would_exceed_budget month_start t.db j cost
            ≡ would_exceed_budget month_start s.db j cost)
      × ((j : ℕ) → mtd_spend month_start t.db j ≡ mtd_spend month_start s.db j)
unfolding upsert_budget record_admin_action would_exceed_budget user_budget mtd_spend
upsert_budget-check stored now true admin i limit answer month_start s t h =
    let changed : t.db ≡ record s.db { budgets = put_budget i (stored limit) s.db.budgets } =
      ap (λ (x : Site × Outcome ℕ). x.0.db) (sym h) in
    (
      λ cost.
          ap (λ (d : Database). would_exceed_budget month_start d i cost) changed
          ∙ ground (arith, find_budget-put i (stored limit) s.db.budgets),
      λ j cost ne.
          ap (λ (d : Database). would_exceed_budget month_start d j cost) changed
          ∙ ground (arith, find_budget-put_ne j i (stored limit) s.db.budgets ne),
      λ j. ap (λ (d : Database). mtd_spend month_start d j) changed,
    )
upsert_budget-check stored now false admin i limit answer month_start s t h =
    absurd (cc (ap (λ (x : Site × Outcome ℕ). x.1) h))
