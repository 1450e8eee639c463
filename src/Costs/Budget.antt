-- ===== src/Costs/Budget.antt =====
-- backend/app/costs.py, `mtd_spend`, `user_budget`, `would_exceed_budget` and `pricing_configured`: what
-- a user has spent since the start of the month, against the monthly limit.
use rag_foundation.Common.{
  ℕ, ◌+◌, ◌≤◌, ◌<◌, ◌≡◌, refl, Bool, true, false, ◌&&◌, List, [], ◌∷◌, Option, none, some, ltb, leb,
  ◌==◌, if◌then◌else◌, arith, ◌≢◌, ◌∙◌,
}
use rag_foundation.Common.Str.{Str}
use rag_foundation.Models.{QueryLog, Budget, Database}
use rag_foundation.Costs.Rates.{PriceSettings, resolve_model_rates}

-- `month_start` is the first tick of the current month.
unfoldable pub spend_since : ℕ → ℕ → List QueryLog → ℕ
spend_since month_start user_id [] = 0
spend_since month_start user_id (q ∷ logs) =
    (if q.user_id == user_id && leb month_start q.created_at then q.cost_usd else 0)
    + spend_since month_start user_id logs

unfoldable pub mtd_spend : ℕ → Database → ℕ → ℕ
mtd_spend month_start db user_id = spend_since month_start user_id db.query_logs

unfoldable pub find_budget : ℕ → List Budget → Option ℕ
find_budget user_id [] = none
find_budget user_id (b ∷ bs) =
    if b.user_id == user_id then some b.monthly_limit_usd else find_budget user_id bs

-- `user_id` is the primary key of the table: `one_or_none` finds one row at most.
unfoldable pub user_budget : Database → ℕ → Option ℕ
user_budget db user_id = find_budget user_id db.budgets

unfoldable pub would_exceed_budget : ℕ → Database → ℕ → ℕ → Bool
would_exceed_budget month_start db user_id add_cost = elim (user_budget db user_id) [
  | none ↦ false
  | some limit ↦ ltb limit (mtd_spend month_start db user_id + add_cost)
]

-- At the default model's rates; prices are decimals already, so nothing raises.
unfoldable pub pricing_configured : PriceSettings → Str → Bool
pricing_configured s default_model =
    let r = resolve_model_rates s (some default_model) in
    ltb 0 r.input_price.coeff && ltb 0 r.output_price.coeff && ltb 0 r.index_price.coeff

-- `db.add(QueryLog(…))`: the rows have no order, and the newest stands first.
unfoldable pub add_log : QueryLog → Database → Database
add_log q db = record db { query_logs = q ∷ db.query_logs }

-- Any number of rows that are not the user's.
unfoldable pub add_logs : List QueryLog → Database → Database
add_logs [] db = db
add_logs (q ∷ qs) db = add_logs qs (add_log q db)

abbrev pub OthersOnly : ℕ → List QueryLog → Type 0
OthersOnly user [] = Unit
OthersOnly user (q ∷ qs) = (q.user_id ≢ user) × OthersOnly user qs

mtd_spend-others :
    (m user : ℕ) (qs : List QueryLog) (db : Database)
    → OthersOnly user qs
    → mtd_spend m (add_logs qs db) user ≡ mtd_spend m db user
unfolding mtd_spend add_logs add_log spend_since
mtd_spend-others m user [] db h = refl
mtd_spend-others m user (q ∷ qs) db h =
    let rest = mtd_spend-others m user qs (add_log q db) h.1 in
    let other = h.0 in rest ∙ ground arith

user_budget-add_logs :
    (user : ℕ) (qs : List QueryLog) (db : Database)
    → user_budget (add_logs qs db) user ≡ user_budget db user
unfolding user_budget add_logs add_log
user_budget-add_logs user [] db = refl
user_budget-add_logs user (q ∷ qs) db = user_budget-add_logs user qs (add_log q db)

-- For a user with a monthly limit, the check lets a cost through exactly if logging it this month,
-- after any rows of other users, leaves the month's spend within the limit.
pub would_exceed_budget-exact :
    (m user limit : ℕ) (q : QueryLog) (qs : List QueryLog) (db : Database)
    → user_budget db user ≡ some limit
    → q.user_id ≡ user
    → m ≤ q.created_at
    → OthersOnly user qs
    → (would_exceed_budget m db user q.cost_usd ≡ false
        → mtd_spend m (add_log q (add_logs qs db)) user ≤ limit)
      × (would_exceed_budget m db user q.cost_usd ≡ true
          → limit < mtd_spend m (add_log q (add_logs qs db)) user)
unfolding would_exceed_budget mtd_spend add_log spend_since
would_exceed_budget-exact m user limit q qs db budget own now others =
    let before = mtd_spend-others m user qs db others in (λ h. ground arith, λ h. ground arith)
