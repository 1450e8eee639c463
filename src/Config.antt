-- ===== src/Config.antt =====
-- backend/app/config.py: the validators of `Settings`. The loading of the values, their types, and the
-- parsing of JSON, of URLs and of networks are library code; a setting stands here as it is after that.
-- A price is not negative: a negative one fails the same tests as zero. `none` is a ValueError.
pub mod Charged
pub mod Gate
mod Tests
use rag_foundation.Common.{
  ℕ, Bool, true, false, not, ◌&&◌, ◌||◌, List, [], ◌∷◌, ◌++◌, Option, none, some, String, ◌==◌, ltb,
  leb, if◌then◌else◌, length, take, any, map, keep,
}
use rag_foundation.Common.Str.{Str, codes, eq_str, lower, strip, is_empty, truthy, starts_with}
use rag_foundation.Costs.Price.{Price}
use rag_foundation.Costs.Rates.{ModelRates, PriceSettings, find_model, or_no_rates}
use rag_foundation.FileTypes.{is_one_of}
use rag_foundation.Uploads.Types.{UploadProfile, validate_upload_profile, apply_upload_profile}

pub data Environment : Type 0 where
  development test staging production : Environment

unfoldable pub is_production : Environment → Bool
is_production production = true
is_production _ = false

-- The settings as they are given; `db_password` is the password part of the database's URL.
pub record RawSettings : Type 0 where
  pub environment : Str
  pub gemini_mock_mode : Bool
  pub jwt_secret : Str
  pub gemini_api_key : Option Str
  pub database_url : Str
  pub db_password : Option Str
  pub redis_url : Option Str
  pub require_redis_in_production : Bool
  pub allow_dev_login : Bool
  pub require_csrf_header : Bool
  pub metadata_filter_allowed_keys : List Str
  pub cors_origins : List Str
  pub cors_allow_credentials : Bool
  pub upload_profile : Str
  pub allowed_upload_mimes : List Str
  pub prices : PriceSettings
  pub price_check_strict : Bool

-- What the validators change.
pub record Settings : Type 0 where
  pub raw : RawSettings
  pub environment : Environment
  pub metadata_filter_allowed_keys : List Str
  pub allowed_upload_mimes : List Str

abbrev pub dev_default_jwt_secret : Str
dev_default_jwt_secret =
    codes "dev_secret_DO_NOT_USE_IN_PRODUCTION_generate_real_secret_with_secrets_module"

abbrev pub default_db_passwords : List String
default_db_passwords =
    "changeme_local_only" ∷ "localdev_password_change_in_production" ∷ "postgres" ∷ "password"
    ∷ "changeme_demo_password" ∷ "" ∷ []

unfoldable pub valid_jwt_secret : Str → Bool
valid_jwt_secret value = not (is_empty value) && leb 32 (length value)

unfoldable pub valid_gemini_api_key : Bool → Option Str → Bool
valid_gemini_api_key mock_mode value = mock_mode || truthy value

-- `[v.strip() for v in value.split(",") if v.strip()]`, the list of a text that is no JSON.
unfoldable pub split_comma : Str → Str → List Str
split_comma part [] = part ∷ []
split_comma part (c ∷ s) =
    let rest = split_comma [] s in
    let more = split_comma (part ++ c ∷ []) s in if c == b',' then part ∷ rest else more

unfoldable pub comma_list : Str → List Str
comma_list value = keep (λ v. not (is_empty v)) (map strip (split_comma [] value))

unfoldable pub valid_cors_credentials : List Str → Bool → Bool
valid_cors_credentials origins value =
    not (value && any (λ o. eq_str (strip o) (codes "*")) origins)

unfoldable pub normalize_environment : Str → Option Environment
normalize_environment value =
    let v = lower value in
    if eq_str v (codes "development")
    then some development
    else if eq_str v (codes "test")
    then some test
    else if eq_str v (codes "staging")
    then some staging
    else if eq_str v (codes "production")
    then some production
    else none

-- `normalized` holds the keys so far, in their order.
unfoldable pub add_keys : List Str → List Str → List Str
add_keys normalized [] = normalized
add_keys normalized (k ∷ keys) =
    let key = take 64 (strip k) in
    let kept = add_keys normalized keys in
    let added = add_keys (normalized ++ key ∷ []) keys in
    if is_empty (strip k) || any (eq_str key) normalized then kept else added

unfoldable pub validate_metadata_filter_keys : List Str → List Str
validate_metadata_filter_keys keys = add_keys [] keys

-- `float(rates.get(key, 0)) > 0`
unfoldable pub positive : Option Price → Bool
positive none = false
positive (some p) = ltb 0 p.coeff

unfoldable pub valid_rates : List (Str × ModelRates) → Bool
valid_rates [] = true
valid_rates ((_, r) ∷ mp) =
    let rest = valid_rates mp in positive r.input_price && positive r.output_price && rest

abbrev pub is_some : Option ModelRates → Bool
is_some none = false
is_some (some _) = true

unfoldable pub valid_model_pricing : List (Str × ModelRates) → Bool
valid_model_pricing mp = is_some (find_model (codes "default") mp) && valid_rates mp

-- `float(default_rates.get(key, setting))`
abbrev pub price_or : Option Price → Price → Price
price_or none setting = setting
price_or (some p) setting = p

-- `_validate_pricing`
unfoldable pub valid_pricing : PriceSettings → Bool
valid_pricing s =
    let rates = or_no_rates (find_model (codes "default") s.model_pricing) in
    ltb 0 (price_or rates.input_price s.price_input).coeff
    && ltb 0 (price_or rates.output_price s.price_output).coeff
    && ltb 0 (price_or rates.index_price s.price_index).coeff

abbrev pub text_or_empty : Option Str → Str
text_or_empty none = []
text_or_empty (some s) = s

unfoldable pub production_safety : Environment → RawSettings → Bool
production_safety environment r =
    if is_production environment
    then not r.allow_dev_login
      && not (starts_with r.database_url (codes "sqlite:"))
      && not (is_one_of (text_or_empty r.db_password) default_db_passwords)
      && not (eq_str r.jwt_secret dev_default_jwt_secret)
      && not (r.require_redis_in_production && not (truthy r.redis_url))
      && r.require_csrf_header
      && valid_pricing r.prices
    else (not r.price_check_strict || valid_pricing r.prices)

-- The validators of single fields that only accept or refuse.
unfoldable pub valid_fields : RawSettings → Bool
valid_fields r =
    valid_jwt_secret r.jwt_secret
    && valid_gemini_api_key r.gemini_mock_mode r.gemini_api_key
    && valid_cors_credentials r.cors_origins r.cors_allow_credentials
    && valid_model_pricing r.prices.model_pricing

-- The validators of the whole, once every field has passed.
unfoldable pub finish : RawSettings → Environment → Option (List Str) → Option Settings
finish r environment none = none
finish r environment (some mimes) =
    if production_safety environment r
    then some (record {
      raw = r;
      environment = environment;
      metadata_filter_allowed_keys = validate_metadata_filter_keys r.metadata_filter_allowed_keys;
      allowed_upload_mimes = mimes;
    })
    else none

unfoldable pub apply_profile : RawSettings → Option UploadProfile → Option (List Str)
apply_profile r none = none
apply_profile r (some profile) = apply_upload_profile profile r.allowed_upload_mimes

unfoldable pub with_environment : RawSettings → Option Environment → Option Settings
with_environment r none = none
with_environment r (some environment) =
    finish r environment (apply_profile r (validate_upload_profile r.upload_profile))

-- `Settings()`
unfoldable pub load : RawSettings → Option Settings
load r = if valid_fields r then with_environment r (normalize_environment r.environment) else none
