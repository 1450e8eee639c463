-- ===== src/Config/Tests.antt =====
-- The validators at concrete settings.
use rag_foundation.Common.{
  ◌≢◌, ◌≤◌, inr, length, ℕ, ◌≡◌, ◌<◌, refl, inl, true, false, [], ◌∷◌, none, some, arith,
}
use rag_foundation.Common.Sort.{insert_row, order_by}
use rag_foundation.Common.Str.{codes, eq_str, lower, to_lower, strip, lstrip, is_space, starts_with}
use rag_foundation.Costs.Price.{Price, total_cost_usd, quantize, token_cost, query_cost}
use rag_foundation.Costs.Rates.{
  ModelRates, find_model, candidate, longest_prefix, rates_for, pick, resolve_model_rates,
  calc_query_cost,
}
use rag_foundation.Uploads.Types.{
  validate_upload_profile, text_le, lowered, profile_mimes, apply_upload_profile,
}
use rag_foundation.Config.{
  dev_default_jwt_secret, production, is_production, RawSettings, Settings, valid_jwt_secret,
  valid_gemini_api_key, split_comma, comma_list, valid_cors_credentials, normalize_environment,
  add_keys, validate_metadata_filter_keys, positive, valid_rates, valid_model_pricing,
  valid_pricing, production_safety, valid_fields, finish, apply_profile, with_environment, load,
}
use rag_foundation.Config.Charged.{load-charges}
use rag_foundation.Auth.Accounts.{dev_login}
use rag_foundation.Auth.Token.{AuthSettings}
use rag_foundation.Auth.Toys.{jwt}
use rag_foundation.Common.Http.{raised, http}
use rag_foundation.Config.Gate.{
  GateSettings, is_prod_like, weak_secret, gemini_ready, redis_ready, run_security_gate,
  run_security_gate-dev_login,
}
use rag_foundation.Middleware.{Request, missing, csrf_protection}
use rag_foundation.Models.{Database}
use rag_foundation.Uploads.Magic.{occurs_in}

program : Unit {0}
unfolding occurs_in is_prod_like weak_secret gemini_ready redis_ready run_security_gate insert_row
    order_by eq_str lower to_lower strip lstrip is_space starts_with quantize token_cost query_cost
    find_model candidate longest_prefix rates_for pick resolve_model_rates calc_query_cost
    validate_upload_profile text_le lowered profile_mimes apply_upload_profile is_production
    valid_jwt_secret valid_gemini_api_key split_comma comma_list valid_cors_credentials
    normalize_environment add_keys validate_metadata_filter_keys positive valid_rates
    valid_model_pricing valid_pricing production_safety valid_fields finish apply_profile
    with_environment load total_cost_usd
program = tt

abbrev price : ℕ → ℕ → Price
price c s = record { coeff = c; scale = s }

abbrev rates : ModelRates
rates = record {
  input_price = some (price 30 2);
  output_price = some (price 250 2);
  index_price = some (price 15 4);
}

abbrev raw : RawSettings
raw = record {
  environment = codes "Production";
  gemini_mock_mode = false;
  jwt_secret = codes "0123456789abcdef0123456789abcdef";
  gemini_api_key = some (codes "key");
  database_url = codes "postgresql://rag:s3cret@db/rag";
  db_password = some (codes "s3cret");
  redis_url = some (codes "redis://redis");
  require_redis_in_production = true;
  allow_dev_login = false;
  require_csrf_header = true;
  metadata_filter_allowed_keys = codes " topic " ∷ codes "" ∷ codes "topic" ∷ codes "year" ∷ [];
  cors_origins = codes "https://x.org" ∷ [];
  cors_allow_credentials = true;
  upload_profile = codes "Custom";
  allowed_upload_mimes = codes "Text/Plain" ∷ [];
  prices = record {
    model_pricing = (codes "default", rates) ∷ [];
    price_input = price 0 0;
    price_output = price 0 0;
    price_index = price 15 4;
    explicit_input = false;
    explicit_output = false;
    explicit_index = false;
  };
  price_check_strict = true;
}

abbrev loaded : Settings
loaded = record {
  raw = raw;
  environment = production;
  metadata_filter_allowed_keys = codes "topic" ∷ codes "year" ∷ [];
  allowed_upload_mimes = codes "text/plain" ∷ [];
}

loads : load raw ≡ some loaded
unfolding program
loads = refl

no_default_password : load (record raw { db_password = none }) ≡ none
unfolding program
no_default_password = refl

no_star : load (record raw { cors_origins = codes " * " ∷ [] }) ≡ none
unfolding program
no_star = refl

listed : comma_list (codes " a, ,b ") ≡ codes "a" ∷ codes "b" ∷ []
unfolding program
listed = refl

load-charges_example :
    0 < total_cost_usd (calc_query_cost loaded.raw.prices (codes "new-model") (some 0) (some 3))
load-charges_example =
    load-charges raw loaded (codes "new-model") 0 3 loads (inl refl) (inl refl) (omega arith)

-- An explicit price of zero passes the checks of production, and makes such a model free.
abbrev free_raw : RawSettings
free_raw = record raw {
  prices = record raw.prices { explicit_input = true; explicit_output = true };
}

free_loads : load free_raw ≡ some (record loaded { raw = free_raw })
unfolding program
free_loads = refl

free_query :
    total_cost_usd (calc_query_cost free_raw.prices (codes "new-model") (some 9) (some 3)) ≡ 0
unfolding program
free_query = refl

abbrev gate : GateSettings
gate = record { strict_mode = true; allow_mock_in_prod = false; redis_pings = true }

gate_passes : run_security_gate gate loaded ≡ true
unfolding program
gate_passes = refl

mock_stops :
    run_security_gate gate (record loaded { raw = record raw { gemini_mock_mode = true } }) ≡ false
unfolding program
mock_stops = refl

abbrev cfg : AuthSettings
cfg = record {
  jwt = jwt;
  secret = raw.jwt_secret;
  issuer = codes "rag";
  audience = codes "web";
  expire_minutes = 15;
  has_redis = true;
}

abbrev nobody : Database
nobody = record { users = []; stores = []; documents = []; query_logs = []; budgets = [] }

abbrev posted : Request
posted = record {
  method = codes "POST";
  path = codes "/api/chat";
  requested_with = none;
  content_length = missing;
  content_type = none;
  transfer_encoding = none;
  chunks = [];
}

run_security_gate-dev_login_example :
    (dev_login cfg false true 9 (codes "j") 1 (codes "a@x.org") nobody
      ≡ (nobody, raised (http 404 "Not Found")))
    × (csrf_protection loaded.raw.require_csrf_header posted
        ≡ raised (http 403 "CSRF check failed: X-Requested-With header required"))
    × (32 ≤ length loaded.raw.jwt_secret)
    × (loaded.raw.jwt_secret ≢ dev_default_jwt_secret)
unfolding program
run_security_gate-dev_login_example =
    run_security_gate-dev_login gate loaded cfg 9 1 (codes "j") (codes "a@x.org") nobody posted
      gate_passes (inr refl) refl refl (λ e. cc) (λ e. cc)
