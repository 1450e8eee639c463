-- ===== src/Costs/Rates.antt =====
-- backend/app/costs.py, `_resolve_model_rates`: the prices of a model, by its name, else by the longest
-- configured prefix of its name, else the defaults. Prices are decimals already, so the conversions
-- of `_as_decimal` do not fail. The pricing part of backend/app/config.py's Settings.
use rag_foundation.Common.{
  ℕ, Bool, true, not, ◌&&◌, List, [], ◌∷◌, Option, none, some, ltb, if◌then◌else◌, length,
}
use rag_foundation.Common.Str.{Str, codes, eq_str, starts_with, strip, is_empty, or_else}
use rag_foundation.Costs.Price.{Price, Rates, QueryCostResult, query_cost, index_cost}

-- A model's entry of MODEL_PRICING: a missing key and a None are the same to `_pick`.
pub record ModelRates : Type 0 where
  pub input_price : Option Price
  pub output_price : Option Price
  pub index_price : Option Price

abbrev pub no_rates : ModelRates
no_rates = record { input_price = none; output_price = none; index_price = none }

-- `explicit_…` says that the setting was given by a field, the environment or a secret file.
pub record PriceSettings : Type 0 where
  pub model_pricing : List (Str × ModelRates)
  pub price_input : Price
  pub price_output : Price
  pub price_index : Price
  pub explicit_input : Bool
  pub explicit_output : Bool
  pub explicit_index : Bool

-- `mp.get(key)`
unfoldable pub find_model : Str → List (Str × ModelRates) → Option ModelRates
find_model key [] = none
find_model key ((k, v) ∷ mp) = if eq_str k key then some v else find_model key mp

-- The test of the loop but for its last part: not the default entry, and a prefix of the model.
unfoldable pub candidate : Str → Str → Bool
candidate model k = not (eq_str k (codes "default")) && starts_with model k

abbrev pub longer : Str → Option (Str × ModelRates) → Bool
longer k none = true
longer k (some (b, _)) = ltb (length b) (length k)

-- The loop over `mp.items()` with `best_key` and `best_rates`.
unfoldable pub longest_prefix :
    Str → List (Str × ModelRates) → Option (Str × ModelRates) → Option (Str × ModelRates)
longest_prefix model [] best = best
longest_prefix model ((k, v) ∷ mp) best =
    longest_prefix model mp (if candidate model k && longer k best then some (k, v) else best)

unfoldable pub rates_for : Option Str → List (Str × ModelRates) → ModelRates
rates_for model mp =
    let key = strip (or_else model []) in
    if is_empty key then no_rates else elim (find_model key mp) [
      | some r ↦ r
      | none ↦ elim (longest_prefix key mp none) [ none ↦ no_rates | some (_, r) ↦ r ]
    ]

-- `_pick`: the model's own price, else the default entry's unless the setting is explicit, else the
-- setting.
unfoldable pub pick : Option Price → Option Price → Bool → Price → Price
pick (some p) default explicit setting = p
pick none (some d) explicit setting = if explicit then setting else d
pick none none explicit setting = setting

-- `mp.get("default", {}) or {}`
abbrev pub or_no_rates : Option ModelRates → ModelRates
or_no_rates none = no_rates
or_no_rates (some r) = r

unfoldable pub resolve_model_rates : PriceSettings → Option Str → Rates
resolve_model_rates s model =
    let rates = rates_for model s.model_pricing in
    let default = or_no_rates (find_model (codes "default") s.model_pricing) in
    record {
      input_price = pick rates.input_price default.input_price s.explicit_input s.price_input;
      output_price = pick rates.output_price default.output_price s.explicit_output s.price_output;
      index_price = pick rates.index_price default.index_price s.explicit_index s.price_index;
    }

unfoldable pub calc_query_cost : PriceSettings → Str → Option ℕ → Option ℕ → QueryCostResult
calc_query_cost s model prompt_tokens completion_tokens =
    query_cost (resolve_model_rates s (some model)) prompt_tokens completion_tokens

-- `default` is `settings.DEFAULT_MODEL`.
unfoldable pub calc_index_cost : PriceSettings → Str → Option ℕ → Option Str → ℕ × ℕ
calc_index_cost s default tokens model =
    index_cost (resolve_model_rates s (some (or_else model default))) tokens
