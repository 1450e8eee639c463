-- ===== src/Chat/Requests.antt =====
-- backend/app/routes/chat.py, `chat_stream`: the check of the budget before the stream. The lock on the
-- budget's row is left out.
use rag_foundation.Common.{
  ℕ, ◌+◌, ◌-◌, ◌≤◌, ◌<◌, ◌≡◌, ap, ◌&&◌, Option, none, some, ◌==◌, ltb, leb, if◌then◌else◌, arith,
}
use rag_foundation.Common.Http.{HttpError, Outcome, raised, answered, http}
use rag_foundation.Models.{Database}
use rag_foundation.Costs.Budget.{mtd_spend, user_budget}

abbrev pub budget_exhausted : HttpError
budget_exhausted = http 402 "Monthly budget exhausted"

-- `prompt_cost > remaining_budget_usd`, on what is left after the hold.
unfoldable pub check_prompt : ℕ → ℕ → Outcome (Option ℕ)
check_prompt prompt_cost left =
    if ltb left prompt_cost then raised budget_exhausted else answered (some left)

-- The check before the stream: what is left of the budget, `none` without a limit. `hold` is
-- BUDGET_HOLD_USD.
unfoldable pub check_budget : ℕ → ℕ → ℕ → ℕ → Database → Outcome (Option ℕ)
check_budget month_start hold prompt_cost user_id db = elim (user_budget db user_id) [
  | none ↦ answered none
  | some limit ↦
      let remaining = limit - mtd_spend month_start db user_id in
      if remaining == 0
      then raised budget_exhausted
      else if ltb 0 hold && leb remaining hold
      then raised budget_exhausted
      else check_prompt prompt_cost (remaining - hold)
]

-- A request that passes the check in spite of a limit leaves room: what is left is above zero and
-- pays the prompt, and with the hold and the month's spend it is exactly the limit.
pub check_budget-room :
    (m hold prompt_cost user limit left : ℕ) (db : Database)
    → user_budget db user ≡ some limit
    → check_budget m hold prompt_cost user db ≡ answered (some left)
    → (0 < left) × (prompt_cost ≤ left) × (left + hold + mtd_spend m db user ≡ limit)
unfolding check_budget check_prompt
check_budget-room m hold prompt_cost user limit left db e h =
    let left_of : Outcome (Option ℕ) → ℕ =
      λ o. elim o [ raised _ ↦ 0 | answered a ↦ elim a [ none ↦ 0 | some n ↦ n ] ] in
    let same = ap left_of h in ground arith
