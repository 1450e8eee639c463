-- ===== src/Costs/Price.antt =====
-- backend/app/costs.py: amounts and costs. Money is counted in whole micro-dollars, the precision
-- COST_PRECISION that every cost is rounded to; a price per million tokens is a decimal
-- `coeff / 10 ^ scale` in dollars, so `tokens * coeff / 10 ^ scale` is a cost in micro-dollars.
-- Prices are not negative, and the 28 digits of Python's decimal context are enough.
use rag_foundation.Common.{
  ℕ, ◌+◌, ◌*◌, ◌/◌, ◌^◌, Option, none, some, ltb, ◌==◌, ◌&&◌, if◌then◌else◌, max,
}
use rag_foundation.Common.Str.{Str, lower, starts_with, codes, is_empty}

pub record Price : Type 0 where
  pub coeff : ℕ
  pub scale : ℕ

-- `_quantize` of the amount `n / d` micro-dollars: half up, and one micro-dollar for anything smaller.
unfoldable pub quantize : ℕ → ℕ → ℕ
quantize n d =
    let quantized = (2 * n + d) / (2 * d) in if ltb 0 n && quantized == 0 then 1 else quantized

-- `_quantize((Decimal(tokens) / MTOK) * price)`
unfoldable pub token_cost : ℕ → Price → ℕ
token_cost tokens p = quantize (tokens * p.coeff) (10 ^ p.scale)

pub record QueryCostResult : Type 0 where
  pub prompt_tokens : ℕ
  pub completion_tokens : ℕ
  pub prompt_cost_usd : ℕ
  pub completion_cost_usd : ℕ

-- The sum is whole already, so `_quantize` leaves it as it is.
unfoldable pub total_cost_usd : QueryCostResult → ℕ
total_cost_usd r = quantize (r.prompt_cost_usd + r.completion_cost_usd) 1

pub record Rates : Type 0 where
  pub input_price : Price
  pub output_price : Price
  pub index_price : Price

-- `prompt_tokens or 0`
abbrev pub or_zero : Option ℕ → ℕ
or_zero none = 0
or_zero (some n) = n

-- `calc_query_cost`, at the rates of its model.
unfoldable pub query_cost : Rates → Option ℕ → Option ℕ → QueryCostResult
query_cost rates prompt_tokens completion_tokens =
    let pt = max (or_zero prompt_tokens) 0 in
    let ct = max (or_zero completion_tokens) 0 in
    record {
      prompt_tokens = pt;
      completion_tokens = ct;
      prompt_cost_usd = token_cost pt rates.input_price;
      completion_cost_usd = token_cost ct rates.output_price;
    }

-- `calc_index_cost`, at the rates of its model: the tokens and the cost.
unfoldable pub index_cost : Rates → Option ℕ → ℕ × ℕ
index_cost rates tokens =
    let tok = max (or_zero tokens) 0 in (tok, token_cost tok rates.index_price)

-- `int((n_bytes / (1024 * 1024)) * 10000)` is exact here; in Python while it fits a double.
unfoldable pub estimate_tokens_from_bytes : ℕ → Option Str → ℕ
estimate_tokens_from_bytes n_bytes mime_type = if n_bytes == 0 then 0 else elim mime_type [
  | none ↦ max 0 (n_bytes / 4)
  | some m ↦
      if is_empty m
      then max 0 (n_bytes / 4)
      else let mt = lower m in
        if starts_with mt (codes "image/")
        then 1200
        else if starts_with mt (codes "audio/")
        then max 1000 (n_bytes * 10_000 / 1_048_576)
        else max 0 (n_bytes / 4)
]
