-- ===== src/Chat/Tests.antt =====
-- Streams at concrete inputs.
use rag_foundation.Common.{
  ℕ, zero, suc, ◌≡◌, refl, ◌⊎◌, List, [], ◌∷◌, ◌++◌, none, some, true, false, All,
}
use rag_foundation.Common.Str.{Str, codes}
use rag_foundation.Models.{Database}
use rag_foundation.Costs.Price.{Price, quantize, token_cost, query_cost, total_cost_usd}
use rag_foundation.Costs.Budget.{
  spend_since, mtd_spend, find_budget, user_budget, would_exceed_budget, add_log,
}
use rag_foundation.Chat.Usage.{
  Response, Request, estimate_tokens_from_text, estimated_cost_exceeds, resolve_final_usage,
  log_row, finalize_and_persist, log_failed_stream,
}
use rag_foundation.Chat.Stream.{
  Frame, start, text_start, text_end, finished, text_delta, keepalive, source_document, finish,
  error_frame, stream_capacity_exceeded, upstream_unavailable, budget_exceeded, new_state,
  disconnect, alive, chunk, exhausted, retryable, Attempt, mark_error, fail, emit, count_tokens,
  stop_over_budget, consume, after_attempt, attempts, is_logged_failure, conclude, generator,
}
use rag_foundation.Chat.Emitted.{IsBody, deltas}
use rag_foundation.Chat.Contract.{IsTail, generator-contract, attempts-deltas}

program : Unit {0}
unfolding quantize token_cost query_cost total_cost_usd spend_since mtd_spend find_budget
    user_budget would_exceed_budget add_log estimate_tokens_from_text estimated_cost_exceeds
    resolve_final_usage log_row finalize_and_persist log_failed_stream mark_error fail emit
    count_tokens stop_over_budget consume after_attempt attempts is_logged_failure conclude
    generator
program = tt

abbrev price : ℕ → Price
price n = record { coeff = n; scale = 0 }

abbrev request : Request
request = record {
  user_id = 1;
  store_id = some 3;
  model = codes "gemini-2.5-flash";
  rates = record { input_price = price 1; output_price = price 10; index_price = price 1 };
  prompt_tokens_est = 5;
  remaining_budget_usd = some 40;
  month_start = 100;
  now = 200;
  log_commits = true;
}

abbrev db : Database
db = record {
  users = [];
  stores = [];
  documents = [];
  query_logs = [];
  budgets = record { user_id = 1; monthly_limit_usd = 40 } ∷ [];
}

abbrev answer : Response
answer = record { usage = some (some 6, some 2); citations = codes "a.pdf" ∷ [] }

abbrev good : Attempt
good = record {
  is_disconnected = false;
  events = chunk (some (codes "Hi")) none ∷ alive ∷ chunk (some (codes "!")) (some answer) ∷ [];
  ended = exhausted;
}

abbrev flaky : Attempt
flaky = record { is_disconnected = false; events = []; ended = retryable }

-- The first attempt fails, and the second succeeds.
abbrev second_time : ℕ → Attempt
second_time zero = flaky
second_time (suc i) = good

answered_later :
    (generator request true 2 second_time db).1
    ≡ start
      ∷ text_start
      ∷ text_delta (codes "Hi")
      ∷ keepalive
      ∷ text_delta (codes "!")
      ∷ text_end
      ∷ source_document (codes "a.pdf")
      ∷ finish 6 2
      ∷ finished
      ∷ []
unfolding program
answered_later = refl

abbrev broken : ℕ → Attempt
broken i = record good { ended = retryable }

-- A failure after text is not retried.
suppressed :
    (generator request true 2 broken db).1
    ≡ start
      ∷ text_start
      ∷ text_delta (codes "Hi")
      ∷ keepalive
      ∷ text_delta (codes "!")
      ∷ error_frame upstream_unavailable
      ∷ finished
      ∷ []
unfolding program
suppressed = refl

abbrev long : Str
long = codes "0123456789abcdef"

abbrev talking : ℕ → Attempt
talking i = record good { events = chunk (some (codes "Hi")) none ∷ chunk (some long) none ∷ [] }

-- The second text would cost more than is left: it is not sent.
stopped_by_budget :
    (generator request true 2 talking db).1
    ≡ start ∷ text_start ∷ text_delta (codes "Hi") ∷ error_frame budget_exceeded ∷ finished ∷ []
unfolding program
stopped_by_budget = refl

-- Where the commit of the row fails, the stream ends with success and nothing is charged.
unlogged :
    generator (record request { log_commits = false }) true 2 second_time db
    ≡ (db, (generator request true 2 second_time db).1)
unfolding program
unlogged = refl

abbrev leaving : ℕ → Attempt
leaving i = record good { events = chunk (some (codes "Hi")) none ∷ disconnect ∷ [] }

-- A client that goes away after some text is charged nothing.
left_uncharged : (generator request true 2 leaving db).0 ≡ db
unfolding program
left_uncharged = refl

generator-contract_example :
    ((generator request true 2 broken db).1 ≡ error_frame stream_capacity_exceeded ∷ finished ∷ []
      × ((generator request true 2 broken db).0 ≡ db))
    ⊎ ((body tail : List Frame) × All IsBody body
        × ((generator request true 2 broken db).1 ≡ start ∷ text_start ∷ body ++ tail)
        × IsTail request db (generator request true 2 broken db).0 tail)
generator-contract_example = generator-contract request true 2 broken db

attempts-deltas_example :
    deltas (attempts request second_time 3 0 new_state).1
    ≡ (attempts request second_time 3 0 new_state).0.assistant_text_parts
attempts-deltas_example = attempts-deltas request 2 second_time
