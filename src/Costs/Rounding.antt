-- ===== src/Costs/Rounding.antt =====
-- backend/app/costs.py: what rounding does to a cost.
use rag_foundation.Common.{
  ℕ, suc, zero, ◌+◌, ◌*◌, ◌/◌, ◌^◌, ◌≤◌, ◌<◌, ◌≡◌, some, arith, ◌⊎◌, inl, inr, max,
}
use native.Mathlib.Nat.{pow-suc}
use rag_foundation.Costs.Price.{
  Price, quantize, token_cost, QueryCostResult, total_cost_usd, Rates, query_cost,
}

-- Half-up rounding is within half a micro-dollar of the amount.
rounded :
    (n d : ℕ)
    → 0 < d
    → let q = (2 * n + d) / (2 * d) in (2 * (d * q) ≤ 2 * n + d) × (2 * n < 2 * (d * q) + d)
rounded n d h = grind arith

-- Whatever is above zero costs at least one micro-dollar, and nothing costs nothing.
pub quantize-pos : (n d : ℕ) → 0 < n → 0 < quantize n d
unfolding quantize
quantize-pos n d h = ground arith

pub quantize-zero : (d : ℕ) → 0 < d → quantize 0 d ≡ 0
unfolding quantize
quantize-zero d h = grind arith

-- A whole amount is not changed.
pub quantize_whole : (n : ℕ) → quantize n 1 ≡ n
unfolding quantize
quantize_whole n = ground arith

div_mono : (a b c : ℕ) → 0 < c → a ≤ b → a / c ≤ b / c
div_mono a b c h le = grind arith

pow-pos : (k : ℕ) → 0 < 10 ^ k
pow-pos zero = omega arith
pow-pos (suc k) = simp pow-suc (omega (arith, pow-pos k))

-- The rounded amount is the nearest whole one, or one micro-dollar where the nearest is zero.
pub quantize_nearest :
    (n d : ℕ)
    → 0 < d
    → let q = quantize n d in (2 * n < 2 * (d * q) + d) × ((2 * (d * q) ≤ 2 * n + d) ⊎ (q ≡ 1))
unfolding quantize
quantize_nearest n d h = ground (arith, rounded n d h)

pub quantize_mono : (m n d : ℕ) → 0 < d → m ≤ n → quantize m d ≤ quantize n d
unfolding quantize
quantize_mono m n d h le = ground (arith, div_mono (2 * m + d) (2 * n + d) (2 * d))

pub token_cost_mono : (t u : ℕ) (p : Price) → t ≤ u → token_cost t p ≤ token_cost u p
unfolding token_cost
token_cost_mono t u p le =
    quantize_mono (t * p.coeff) (u * p.coeff) (10 ^ p.scale) (pow-pos p.scale) (grind arith)

-- A query with no fewer tokens of either kind costs no less, at the same rates.
pub query_cost_mono :
    (r : Rates) (pt pt' ct ct' : ℕ)
    → pt ≤ pt'
    → ct ≤ ct'
    → total_cost_usd (query_cost r (some pt) (some ct))
      ≤ total_cost_usd (query_cost r (some pt') (some ct'))
unfolding total_cost_usd query_cost
query_cost_mono r pt pt' ct ct' p c = quantize_mono _ _ 1 (omega arith) (
    omega (
      arith,
      token_cost_mono (max pt 0) (max pt' 0) r.input_price (omega arith),
      token_cost_mono (max ct 0) (max ct' 0) r.output_price (omega arith),
    ))

-- The total is the sum of the two rounded parts: rounding it again changes nothing.
pub total_cost_usd-sum :
    (r : QueryCostResult) → total_cost_usd r ≡ r.prompt_cost_usd + r.completion_cost_usd
unfolding total_cost_usd
total_cost_usd-sum r = quantize_whole (r.prompt_cost_usd + r.completion_cost_usd)

-- A query with a token whose price is not zero is never free.
pub query_cost-pos :
    (r : Rates) (pt ct : ℕ)
    → (0 < pt * r.input_price.coeff) ⊎ (0 < ct * r.output_price.coeff)
    → 0 < total_cost_usd (query_cost r (some pt) (some ct))
unfolding query_cost token_cost
query_cost-pos r pt ct h =
    rw (total_cost_usd-sum, query_cost, token_cost)
      (elim h [
        | inl p ↦ omega (
          arith,
          quantize-pos (max pt 0 * r.input_price.coeff) (10 ^ r.input_price.scale) (grind arith),
        )
        | inr p ↦ omega (
          arith,
          quantize-pos (max ct 0 * r.output_price.coeff) (10 ^ r.output_price.scale) (grind arith),
        )
      ])
