-- ===== src/Costs/Tests.antt =====
-- Costs and budgets at concrete inputs.
use rag_foundation.Common.{
  ℕ, ◌≤◌, ◌<◌, ◌≡◌, refl, List, [], ◌∷◌, none, some, true, false, arith, ◌⊎◌, ltb,
}
use rag_foundation.Common.Str.{Str, codes, eq_str, starts_with}
use rag_foundation.Models.{QueryLog, Database}
use rag_foundation.Costs.Price.{quantize, token_cost, Rates, query_cost, total_cost_usd}
use rag_foundation.Costs.Rates.{ModelRates, no_rates, longest_prefix, candidate}
use rag_foundation.Costs.Budget.{
  spend_since, mtd_spend, find_budget, user_budget, would_exceed_budget, add_log, add_logs,
  would_exceed_budget-exact,
}
use rag_foundation.Costs.Summary.{
  sum_where, is_index, is_counted, remaining, costs_summary, costs_summary-check,
}

program : Unit {0}
unfolding sum_where is_index is_counted remaining costs_summary quantize token_cost query_cost
    total_cost_usd eq_str starts_with candidate longest_prefix spend_since mtd_spend find_budget
    user_budget would_exceed_budget add_log add_logs
program = tt

-- 2.5 micro-dollars are three, and a tenth of one is one.
rounding : (quantize 25 10 ≡ 3) × (quantize 1 10 ≡ 1) × (quantize 0 10 ≡ 0)
unfolding program
rounding = (refl, refl, refl)

-- 0.30 dollars and 2.50 dollars per million tokens.
abbrev rates : Rates
rates = record {
  input_price = record { coeff = 30; scale = 2 };
  output_price = record { coeff = 250; scale = 2 };
  index_price = record { coeff = 15; scale = 2 };
}

abbrev flash : ModelRates
flash = record {
  input_price = some (record { coeff = 30; scale = 2 });
  output_price = none;
  index_price = none;
}

abbrev pricing : List (Str × ModelRates)
pricing = (codes "gem", no_rates) ∷ (codes "gemini-2.5", flash) ∷ (codes "default", no_rates) ∷ []

abbrev query : ℕ → ℕ → ℕ → QueryLog
query user cost time = record {
  user_id = user;
  store_id = none;
  prompt_tokens = none;
  completion_tokens = none;
  cost_usd = cost;
  model = none;
  created_at = time;
}

-- User 7 has spent 60 of 100 since tick 1000, and 90 before it.
abbrev ledger : Database
ledger = record {
  users = [];
  stores = [];
  documents = [];
  query_logs = query 7 90 999 ∷ query 7 60 1000 ∷ query 8 500 1001 ∷ [];
  budgets = record { user_id = 7; monthly_limit_usd = 100 } ∷ [];
}

at_the_limit :
    (would_exceed_budget 1000 ledger 7 40 ≡ false) × (would_exceed_budget 1000 ledger 7 41 ≡ true)
unfolding program
at_the_limit = (refl, refl)

budget_of : user_budget ledger 7 ≡ some 100
unfolding program
budget_of = refl

would_exceed_budget-exact_example :
    (would_exceed_budget 1000 ledger 7 40 ≡ false
      → mtd_spend 1000 (add_log (query 7 40 1002) (add_logs (query 8 3 1001 ∷ []) ledger)) 7 ≤ 100)
    × (would_exceed_budget 1000 ledger 7 40 ≡ true
        → 100
          < mtd_spend 1000 (add_log (query 7 40 1002) (add_logs (query 8 3 1001 ∷ []) ledger)) 7)
would_exceed_budget-exact_example =
    would_exceed_budget-exact 1000 7 100 (query 7 40 1002) (query 8 3 1001 ∷ []) ledger budget_of
      refl (omega arith) (omega arith, tt)

costs_summary-check_example :
    let shown = costs_summary 1000 ledger 7 in
    (shown.total_usd ≡ mtd_spend 1000 ledger 7)
    × (((shown.remaining_budget_usd ≡ none) × (would_exceed_budget 1000 ledger 7 40 ≡ false))
        ⊎ ((left : ℕ) × (shown.remaining_budget_usd ≡ some left)
            × (would_exceed_budget 1000 ledger 7 40 ≡ ltb left 40)))
costs_summary-check_example = costs_summary-check 1000 ledger 7 40 (omega arith)
