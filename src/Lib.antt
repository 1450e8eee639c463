-- ===== src/Lib.antt =====
-- The back end of rag-foundation, a service in which a user uploads documents to stores, an
-- ingestion worker sends them to Gemini, and chats are answered from them within rate limits and
-- budgets. The parts and the files that model them:
--
-- * RateLimit (backend/app/rate_limit.py). Memory is `InMemoryRateLimiter`: `prune`,
--   `evict_if_needed` and `check` are its methods, `expire` and `admit` the loop and the end of
--   `check`. Redis holds `RedisRateLimiter` and `RateLimiter`; the Redis server is a parameter with
--   the laws of INCR. Keys, Known and Idle hold the invariants behind Bounded (what the limiter
--   keeps) and Window (what it lets through); Fallback is about histories of `RateLimiter.check`.
--   Proxy is the key that a request is counted under, and the middleware.
-- * Models (backend/app/models.py). The tables as records, the database as lists of rows, and the
--   methods that change a row; Models.Rows has the lemmas on reading and writing rows by id.
-- * Costs (backend/app/costs.py). Price has `_quantize` and the costs, Rates has
--   `_resolve_model_rates`, Budget the month's spend and the check of a budget; Rounding and Prefix
--   are about them. Summary is `costs_summary` (backend/app/routes/costs.py).
-- * Ingestion (backend/app/services/ingestion.py). Wait is `_wait_for_operation_completion`, Sanitize
--   `_sanitize_error`, and Job `run_ingestion_sync`, cut at its transactions into `claim`,
--   `transfer` and `settle`. Claims, Transfers and Outcome tell the ways through it apart, and
--   Guarantees, Uploads and Settles are about whole runs.
-- * Tenant (backend/app/security/tenant.py). The three `require_…` checks; Owned and Several are about
--   them.
-- * Stores (backend/app/routes/stores.py, backend/app/routes/documents.py and
--   backend/app/services/cleanup.py). The routes that create, delete and restore, in Stores, and the
--   clean-up in Cleanup; Quota, Unowned, Hidden and Janitor are about them, and
--   Listing has the lists that a user is shown.
-- * Watchdog (backend/app/worker.py and backend/app/routes/admin.py). The task and the route that free
--   documents which have been running for too long; Freed is about them and the next ingestion.
-- * Chat (backend/app/routes/chat.py). Stream is the generator of `chat_stream` with `_mark_error`:
--   `consume` is its loop over the pump, `attempts` the loop over the retries and `conclude` what
--   follows; Usage has the token estimates, `_resolve_final_usage`, `_finalize_and_persist` and
--   `_log_failed_stream`; Requests has the check of the budget before a stream, History
--   `_trim_gemini_contents`, Sessions `_ensure_chat_session`, and Filters `_sanitize_tags`,
--   `_validate_metadata_filter` and `_persist_chat_message`. Emitted, Loop and Contract are
--   about the frames and the charges.
-- * FileTypes (backend/app/file_types.py) has the sets of types, and Uploads
--   (backend/app/routes/uploads.py, backend/app/services/storage.py and the upload profile of
--   backend/app/config.py) what is done with a file: Name is `sanitize_name`, Types `allowed_type`,
--   Magic `validate_file_magic`, Receive the loop over the chunks, Route `upload` from its first check
--   to its answer, and Status `op_status`. Clean, Leaks, Settles and Answers are about them.
-- * Auth (backend/app/auth.py and backend/app/routes/auth.py). Password has the policy and the hashes,
--   Token the tokens and their revocation, Guards `get_current_user` and its companions, Accounts the
--   routes. The JWT library, bcrypt and Redis are records of operations with laws, which Toys fills.
--   Valid, Revoked and Registered are about them.
-- * Admin (backend/app/routes/admin.py and backend/app/services/audit.py) has the routes of
--   administrators; Roles and Budgets are about them. Settings (backend/app/routes/settings.py) has the
--   settings of the application, and Merged what an update makes of them.
-- * Config (backend/app/config.py and backend/app/security_gate.py) has the validators of the settings,
--   Gate the checks at the start, and Charged what the validators give to the costs. Middleware
--   (backend/app/main.py) has the middlewares that refuse a request before its route.
-- * Gemini (backend/app/services/gemini_rag.py) has the values that the API answers with; Operation
--   reads errors and operations from them, FileId is `_extract_uploaded_file_id`, Citations the
--   sources of an answer, and Mentions is about FileId.
-- * Common holds what all of them share: Boolean tests, lists over the native numbers, texts as lists
--   of code points, dictionaries as association lists, HTTP errors as outcomes.
--
-- An upload leaves a waiting row and a job, which Ingestion takes up. Ingestion reads the costs and
-- writes the tables, whose rows the budget check and the summary of the costs add up. The routes of
-- Stores and Uploads go through the checks of Tenant, those of Admin through the guards of Auth, and
-- the watchdog frees what an ingestion that was cut off has left running.
--
-- Times are ticks of one clock and arguments of each call; money is in whole micro-dollars. The
-- polling loop is on fuel: a round for every two seconds of the timeout and two more are enough,
-- since every round but the last sleeps at least two seconds. The attempts of a stream count down
-- the retries that are left. All other loops are structural.
--
-- Not modelled: the database engine (a transaction is a function on the rows; where a failing commit is handled or leaves
-- something behind, as in Uploads, Chat.Usage and Settings, whether it succeeds comes from outside), logging and
-- metrics, HTTP wiring and the schemas' checks of requests, the Gemini SDK (its answers are parameters),
-- the scripts, and the front end.
pub mod Common
pub mod Models
pub mod RateLimit
pub mod Costs
pub mod Ingestion
pub mod Tenant
pub mod Watchdog
pub mod Stores
pub mod Chat
pub mod FileTypes
pub mod Uploads
pub mod Auth
pub mod Admin
pub mod Settings
pub mod Config
pub mod Gemini
pub mod Middleware
