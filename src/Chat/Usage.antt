-- ===== src/Chat/Usage.antt =====
-- backend/app/routes/chat.py: token estimates, the budget check in mid-stream, and what is recorded of a
-- stream in the end. Logs, metrics and the locks are left out.
use rag_foundation.Common.{
  ℕ, ◌/◌, Bool, false, List, [], ◌∷◌, ◌++◌, Option, none, some, ◌==◌, ltb, max, if◌then◌else◌,
  length,
}
use rag_foundation.Common.Str.{Str, is_empty}
use rag_foundation.Models.{QueryLog, Database}
use rag_foundation.Costs.Price.{Rates, query_cost, total_cost_usd}
use rag_foundation.Costs.Budget.{would_exceed_budget, add_log}

unfoldable pub estimate_tokens_from_text : Str → ℕ
estimate_tokens_from_text text = if is_empty text then 0 else max 1 (length text / 4)

-- A response with candidates, as far as it is used: the counts of its usage metadata, if it has any, and
-- the titles of its citations.
pub record Response : Type 0 where
  pub usage : Option (Option ℕ × Option ℕ)
  pub citations : List Str

-- The request that a stream answers: its user, store, model and rates, the estimate for its prompt,
-- what is left of the budget, the start of the month, and whether the commit of its row of the query
-- logs succeeds: where it fails, it is rolled back and the failure is only logged.
pub record Request : Type 0 where
  pub user_id : ℕ
  pub store_id : Option ℕ
  pub model : Str
  pub rates : Rates
  pub prompt_tokens_est : ℕ
  pub remaining_budget_usd : Option ℕ
  pub month_start : ℕ
  pub now : ℕ
  pub log_commits : Bool

abbrev pub cost_of : Request → ℕ → ℕ → ℕ
cost_of r prompt completion = total_cost_usd (query_cost r.rates (some prompt) (some completion))

-- `remaining_budget_usd is not None and _estimated_cost_exceeds(…)`
unfoldable pub estimated_cost_exceeds : Request → ℕ → Bool
estimated_cost_exceeds r completion = elim r.remaining_budget_usd [
  | none ↦ false
  | some left ↦ ltb left (cost_of r r.prompt_tokens_est completion)
]

abbrev pub or_count : Option ℕ → ℕ → ℕ
or_count none d = d
or_count (some n) d = n

abbrev pub concat : List Str → Str
concat [] = []
concat (s ∷ ss) = s ++ concat ss

-- `_resolve_final_usage`; a count of the metadata is a number or missing.
unfoldable pub resolve_final_usage : Option Response → ℕ → ℕ → List Str → ℕ × ℕ
resolve_final_usage none prompt completion parts =
    (prompt, if completion == 0 then estimate_tokens_from_text (concat parts) else completion)
resolve_final_usage (some resp) prompt completion parts = elim resp.usage [
  | none ↦
      (prompt, if completion == 0 then estimate_tokens_from_text (concat parts) else completion)
  | some (p, c) ↦ (or_count p prompt, or_count c completion)
]

unfoldable pub log_row : Request → ℕ → ℕ → ℕ → QueryLog
log_row r prompt completion cost = record {
  user_id = r.user_id;
  store_id = r.store_id;
  prompt_tokens = some prompt;
  completion_tokens = some completion;
  cost_usd = cost;
  model = some r.model;
  created_at = r.now;
}

pub record FinalizeResult : Type 0 where
  pub prompt_tokens : ℕ
  pub completion_tokens : ℕ
  pub over_budget : Bool
  pub db : Database

-- `_finalize_and_persist`, without the chat history.
unfoldable pub finalize_and_persist :
    Request → Option Response → ℕ → List Str → Database → FinalizeResult
finalize_and_persist r final completion_est parts db =
    let (prompt, completion) = resolve_final_usage final r.prompt_tokens_est completion_est parts in
    let cost = cost_of r prompt completion in
    record {
      prompt_tokens = prompt;
      completion_tokens = completion;
      over_budget =
          if ltb 0 cost then would_exceed_budget r.month_start db r.user_id cost else false;
      db = if r.log_commits then add_log (log_row r prompt completion cost) db else db;
    }

-- `_log_failed_stream`
unfoldable pub log_failed_stream : Request → ℕ → Database → Database
log_failed_stream r completion db =
    if r.log_commits
    then add_log
        (log_row r r.prompt_tokens_est completion
          (if ltb 0 completion then cost_of r r.prompt_tokens_est completion else 0))
        db
    else db
