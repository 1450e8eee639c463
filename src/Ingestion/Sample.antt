-- ===== src/Ingestion/Sample.antt =====
-- Concrete data of one ingestion job, which the tests share.
use rag_foundation.Common.{ℕ, zero, suc, ◌*◌, ◌≤◌, refl, true, false, [], ◌∷◌, none, some, arith}
use rag_foundation.Common.Str.{Str, codes}
use rag_foundation.Models.{pending, Store, Document, Database}
use rag_foundation.Costs.Price.{Price}
use rag_foundation.Costs.Rates.{PriceSettings}
use rag_foundation.Ingestion.Wait.{
  Gemini, PollAnswer, polled, poll_raised, Sleeps, pause, next_wait,
}
use rag_foundation.Ingestion.Job.{World, Run, uploaded}
use rag_foundation.Ingestion.Guarantees.{HasTime}

abbrev pub doc : Document
doc = record {
  id = 7;
  store_id = 3;
  filename = codes "a.pdf";
  display_name = none;
  size_bytes = 4_000_000;
  status = pending;
  status_updated_at = 5;
  op_name = none;
  gcs_uri = none;
  gemini_file_id = none;
  last_error = none;
  deleted_at = none;
  deleted_by = none;
  created_at = 5;
}

abbrev pub store : Store
store = record {
  id = 3;
  user_id = 1;
  display_name = codes "docs";
  fs_name = codes "fileSearchStores/x";
  deleted_at = none;
  deleted_by = none;
  created_at = 1;
}

abbrev pub db : Database
db = record { users = []; stores = store ∷ []; documents = doc ∷ []; query_logs = []; budgets = [] }

abbrev pub start : Run
start = record { db = db; uploads = 0; deleted_files = []; removed_paths = [] }

abbrev pub price : ℕ → ℕ → Price
price c s = record { coeff = c; scale = s }

abbrev pub prices : PriceSettings
prices = record {
  model_pricing = [];
  price_input = price 30 2;
  price_output = price 250 2;
  price_index = price 15 4;
  explicit_input = false;
  explicit_output = false;
  explicit_index = false;
}

-- The operation is done at the second poll.
abbrev pub answers : ℕ → PollAnswer
answers zero = poll_raised
answers (suc i) = polled none true

abbrev pub gemini : Gemini
gemini = record { elapsed = λ i. 20_000_000 * i; poll = answers }

abbrev pub world : World
world = record {
  prices = prices;
  default_model = codes "gemini-2.5-flash";
  timeout = 180_000_000;
  fuel = 92;
  claimed_at = 10;
  finished_at = 40;
  client_error = none;
  upload = uploaded (codes "operations/1") none;
  recovered_file_id = some (codes "files/9");
  gemini = gemini;
  timeout_text = λ t. codes "Ingestion timed out";
  failure_text = λ e. codes "Gemini ingestion failed";
  removable = true;
}

pause_le : (i : ℕ) → pause i ≤ 20_000_000
unfolding pause next_wait
pause_le zero = omega arith
pause_le (suc i) = omega arith

pub gemini-Sleeps : Sleeps gemini
gemini-Sleeps i = omega (arith, pause_le i)

abbrev pub path : Str
path = codes "/tmp/a"

pub has_time : HasTime world
has_time = record { rounds = 91; sleeps = gemini-Sleeps; far = omega arith; enough = refl }
