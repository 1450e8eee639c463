-- ===== src/Costs/Summary.antt =====
-- backend/app/routes/costs.py, `costs_summary`: what a user has spent this month. Money is in
-- micro-dollars, so the rounding to six places changes nothing; the name of the month is left out.
use rag_foundation.Common.{
  ℕ, ◌+◌, ◌-◌, ◌<◌, ◌≡◌, refl, ap, Bool, true, false, not, ◌&&◌, List, [], ◌∷◌, Option, none, some,
  ◌==◌, ltb, leb, if◌then◌else◌, arith, Option-cases, inl, inr, ◌⊎◌,
}
use rag_foundation.Common.Str.{Str, codes, eq_str}
use rag_foundation.Costs.Budget.{spend_since, mtd_spend, user_budget, would_exceed_budget}
use rag_foundation.Models.{QueryLog, Database}

pub record CostsSummary : Type 0 where
  pub query_cost_usd : ℕ
  pub indexing_cost_usd : ℕ
  pub total_usd : ℕ
  pub prompt_tokens : ℕ
  pub completion_tokens : ℕ
  pub index_tokens : ℕ
  pub monthly_budget_usd : Option ℕ
  pub remaining_budget_usd : Option ℕ

-- The sum of a column over the rows that pass the filter; NULL does not count.
unfoldable pub sum_where : (QueryLog → Bool) → (QueryLog → ℕ) → List QueryLog → ℕ
sum_where test column [] = 0
sum_where test column (q ∷ logs) = (if test q then column q else 0) + sum_where test column logs

abbrev pub or_0 : Option ℕ → ℕ
or_0 none = 0
or_0 (some n) = n

unfoldable pub is_index : Option Str → Bool
is_index none = false
is_index (some model) = eq_str model (codes "INDEX")

-- `or_(QueryLog.model != "INDEX", QueryLog.model.is_(None))`: a comparison with NULL selects no row.
unfoldable pub is_query : Option Str → Bool
is_query none = true
is_query (some model) = not (eq_str model (codes "INDEX"))

-- The filter of the two queries on the user's rows of the month.
unfoldable pub is_counted : ℕ → ℕ → Bool → QueryLog → Bool
is_counted month_start user_id index q =
    q.user_id == user_id
    && leb month_start q.created_at
    && (if index then is_index q.model else is_query q.model)

unfoldable pub remaining : Option ℕ → ℕ → Option ℕ
remaining none spend = none
remaining (some budget) spend = some (budget - spend)

unfoldable pub costs_summary : ℕ → Database → ℕ → CostsSummary
costs_summary month_start db user_id =
    let queries : (QueryLog → ℕ) → ℕ =
      λ column. sum_where (is_counted month_start user_id false) column db.query_logs in
    let indexing : (QueryLog → ℕ) → ℕ =
      λ column. sum_where (is_counted month_start user_id true) column db.query_logs in
    record {
      query_cost_usd = queries (λ (q : QueryLog). q.cost_usd);
      indexing_cost_usd = indexing (λ (q : QueryLog). q.cost_usd);
      total_usd = queries (λ (q : QueryLog). q.cost_usd) + indexing (λ (q : QueryLog). q.cost_usd);
      prompt_tokens = queries (λ (q : QueryLog). or_0 q.prompt_tokens);
      completion_tokens = queries (λ (q : QueryLog). or_0 q.completion_tokens);
      index_tokens = indexing (λ (q : QueryLog). or_0 q.prompt_tokens);
      monthly_budget_usd = user_budget db user_id;
      remaining_budget_usd = remaining (user_budget db user_id) (mtd_spend month_start db user_id);
    }

-- Each row is of one of the two kinds.
is_query-not : (model : Option Str) → is_query model ≡ not (is_index model)
unfolding is_query is_index
is_query-not none = refl
is_query-not (some model) = refl

-- Each row of the month is counted by one of the two queries.
split-spend :
    (month_start user_id : ℕ) (logs : List QueryLog)
    → sum_where (is_counted month_start user_id false) (λ (q : QueryLog). q.cost_usd) logs
        + sum_where (is_counted month_start user_id true) (λ (q : QueryLog). q.cost_usd) logs
      ≡ spend_since month_start user_id logs
unfolding sum_where spend_since is_counted
split-spend month_start user_id [] = refl
split-spend month_start user_id (q ∷ logs) =
    ground (arith, split-spend month_start user_id logs, is_query-not q.model)

-- The total of the summary is the spend that the budget check adds up, and the check of a cost above 0
-- compares it with the remaining budget that the summary shows; without a budget there is none to show,
-- and no cost exceeds it.
pub costs_summary-check :
    (month_start : ℕ) (db : Database) (user_id cost : ℕ)
    → 0 < cost
    → let shown = costs_summary month_start db user_id in
      (shown.total_usd ≡ mtd_spend month_start db user_id)
      × (((shown.remaining_budget_usd ≡ none)
            × (would_exceed_budget month_start db user_id cost ≡ false))
          ⊎ ((left : ℕ) × (shown.remaining_budget_usd ≡ some left)
              × (would_exceed_budget month_start db user_id cost ≡ ltb left cost)))
unfolding costs_summary mtd_spend would_exceed_budget remaining
costs_summary-check month_start db user_id cost h = (
  split-spend month_start user_id db.query_logs,
  elim (Option-cases (user_budget db user_id)) [
    | inl e ↦ inl (ap (λ o. remaining o (mtd_spend month_start db user_id)) e, ground (arith, e))
    | inr (limit, e) ↦ inr (
      limit - mtd_spend month_start db user_id,
      ap (λ o. remaining o (mtd_spend month_start db user_id)) e,
      ground (arith, e),
    )
  ],
)
