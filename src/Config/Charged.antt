-- ===== src/Config/Charged.antt =====
-- backend/app/config.py, `validate_model_pricing`, and backend/app/costs.py: with settings that load, no
-- model answers for nothing.
use rag_foundation.Common.{
  ℕ, ◌+◌, ◌*◌, ◌<◌, ◌≡◌, sym, ap, ◌⊎◌, inl, inr, Bool, true, false, List, [], ◌∷◌, Option, none,
  some, ltb, In, arith, subst, Bool-cases, Option-cases,
}
use rag_foundation.Common.Str.{Str, codes, eq_str, strip, is_empty, or_else}
use rag_foundation.Costs.Prefix.{longest_prefix-In}
use rag_foundation.Costs.Price.{Price, total_cost_usd}
use rag_foundation.Costs.Rates.{
  ModelRates, no_rates, PriceSettings, find_model, longest_prefix, rates_for, pick, or_no_rates,
  resolve_model_rates, calc_query_cost,
}
use rag_foundation.Costs.Rounding.{query_cost-pos}
use rag_foundation.Config.{
  Environment, RawSettings, Settings, positive, valid_rates, valid_model_pricing, valid_fields,
  with_environment, finish, load, production_safety, apply_profile, normalize_environment,
}
use rag_foundation.Uploads.Types.{validate_upload_profile}

-- Both prices of an entry are above zero.
abbrev HasPrices : ModelRates → Type 0
HasPrices r = (positive r.input_price ≡ true) × (positive r.output_price ≡ true)

valid_rates-In :
    (mp : List (Str × ModelRates)) (e : Str × ModelRates)
    → valid_rates mp ≡ true
    → In e mp
    → HasPrices e.1
unfolding valid_rates
valid_rates-In [] e h here = elim here [ ]
valid_rates-In ((k, r) ∷ mp) e h (inl same) =
    subst (λ (x : Str × ModelRates). HasPrices x.1) (sym same) (ground arith, ground arith)
valid_rates-In ((k, r) ∷ mp) e h (inr later) = valid_rates-In mp e (ground arith) later

find_model-In :
    (key : Str) (mp : List (Str × ModelRates)) (r : ModelRates)
    → find_model key mp ≡ some r
    → (k : Str) × In (k, r) mp
unfolding find_model
find_model-In key [] r h = absurd cc
find_model-In key ((k, v) ∷ mp) r h = elim (Bool-cases (eq_str k key)) [
  | inl e ↦ let same : v ≡ r = ground arith in (k, inl (ap (λ (x : ModelRates). (k, x)) (sym same)))
  | inr e ↦ let (j, later) = find_model-In key mp r (ground arith) in (j, inr later)
]

none_or_prices :
    (model : Option Str) (mp : List (Str × ModelRates))
    → valid_rates mp ≡ true
    → (rates_for model mp ≡ no_rates) ⊎ HasPrices (rates_for model mp)
unfolding rates_for
none_or_prices model mp valid =
    let key = strip (or_else model []) in
    elim (Bool-cases (is_empty key)) [
      | inl e ↦ inl (rw e)
      | inr e ↦ elim (Option-cases (find_model key mp)) [
        | inr (r, found) ↦
            let (k, here) = find_model-In key mp r found in
            inr (rw (e, found) (valid_rates-In mp (k, r) valid here))
        | inl missing ↦ elim (Option-cases (longest_prefix key mp none)) [
          | inl nothing ↦ inl (rw (e, missing, nothing))
          | inr ((k, r), found) ↦ elim (longest_prefix-In key mp none (k, r) found) [
            | inl same ↦ absurd cc
            | inr (here, _) ↦ inr (rw (e, missing, found) (valid_rates-In mp (k, r) valid here))
          ]
        ]
      ]
    ]

-- An explicit setting is above zero, if it counts at all.
abbrev pub Overrides : Bool → Price → Type 0
Overrides explicit setting = (explicit ≡ false) ⊎ (0 < setting.coeff)

pick-positive :
    (own default : Option Price) (explicit : Bool) (setting : Price)
    → (own ≡ none) ⊎ (positive own ≡ true)
    → positive default ≡ true
    → Overrides explicit setting
    → 0 < (pick own default explicit setting).coeff
unfolding pick positive
pick-positive (some p) default explicit setting h d o = ground arith
pick-positive none none explicit setting h d o = ground arith
pick-positive none (some p) explicit setting h d o = ground arith

finish-raw :
    (r : RawSettings) (environment : Environment) (mimes : Option (List Str)) (s : Settings)
    → finish r environment mimes ≡ some s
    → s.raw ≡ r
unfolding finish
finish-raw r environment none s h = absurd cc
finish-raw r environment (some mimes) s h = elim (Bool-cases (production_safety environment r)) [
  | inl e ↦ ground arith
  | inr e ↦ absurd (ground arith)
]

environment-raw :
    (r : RawSettings) (environment : Option Environment) (s : Settings)
    → with_environment r environment ≡ some s
    → s.raw ≡ r
unfolding with_environment
environment-raw r none s h = absurd cc
environment-raw r (some environment) s h =
    finish-raw r environment (apply_profile r (validate_upload_profile r.upload_profile)) s h

-- Settings that load are those that were given, and their fields have passed.
load-fields :
    (r : RawSettings) (s : Settings) → load r ≡ some s → (s.raw ≡ r) × (valid_fields r ≡ true)
unfolding load
load-fields r s h = elim (Bool-cases (valid_fields r)) [
  | inr e ↦ absurd (ground arith)
  | inl e ↦ (environment-raw r (normalize_environment r.environment) s (ground arith), e)
]

-- The default entry is there and has both prices.
default_prices :
    (mp : List (Str × ModelRates))
    → valid_model_pricing mp ≡ true
    → HasPrices (or_no_rates (find_model (codes "default") mp)) × (valid_rates mp ≡ true)
unfolding valid_model_pricing
default_prices mp h = elim (Option-cases (find_model (codes "default") mp)) [
  | inl e ↦ absurd (ground arith)
  | inr (r, e) ↦
      let valid : valid_rates mp ≡ true = ground arith in
      let (k, here) = find_model-In (codes "default") mp r e in
      (subst (λ o. HasPrices (or_no_rates o)) (sym e) (valid_rates-In mp (k, r) valid here), valid)
]

resolved_prices :
    (p : PriceSettings) (model : Str)
    → valid_model_pricing p.model_pricing ≡ true
    → Overrides p.explicit_input p.price_input
    → Overrides p.explicit_output p.price_output
    → (0 < (resolve_model_rates p (some model)).input_price.coeff)
      × (0 < (resolve_model_rates p (some model)).output_price.coeff)
unfolding resolve_model_rates
resolved_prices p model valid input output =
    let ((d_in, d_out), rates) = default_prices p.model_pricing valid in
    let default = or_no_rates (find_model (codes "default") p.model_pricing) in
    let own = rates_for (some model) p.model_pricing in
    let cases = none_or_prices (some model) p.model_pricing rates in
    (
      pick-positive own.input_price default.input_price p.explicit_input p.price_input
          (elim cases [
            | inl e ↦ inl (ap (λ (x : ModelRates). x.input_price) e)
            | inr has ↦ inr has.0
          ])
          d_in input,
      pick-positive own.output_price default.output_price p.explicit_output p.price_output
          (elim cases [
            | inl e ↦ inl (ap (λ (x : ModelRates). x.output_price) e)
            | inr has ↦ inr has.1
          ])
          d_out output,
    )

positive_product : (n m : ℕ) → 0 < n → 0 < m → 0 < n * m
positive_product n m hn hm = grind arith

-- With settings that load, and in which a price given by itself is above zero: a query with a token is
-- never free, whatever the model is called.
pub load-charges :
    (r : RawSettings) (s : Settings) (model : Str) (prompt completion : ℕ)
    → load r ≡ some s
    → Overrides r.prices.explicit_input r.prices.price_input
    → Overrides r.prices.explicit_output r.prices.price_output
    → 0 < prompt + completion
    → 0 < total_cost_usd (calc_query_cost s.raw.prices model (some prompt) (some completion))
unfolding calc_query_cost valid_fields
load-charges r s model prompt completion h input output some_token =
    let (same, fields) = load-fields r s h in
    let (has_in, has_out) = resolved_prices r.prices model (pricing_field r fields) input output in
    let rates = resolve_model_rates r.prices (some model) in
    subst
      (λ (x : RawSettings).
        0 < total_cost_usd (calc_query_cost x.prices model (some prompt) (some completion)))
      (sym same)
      (query_cost-pos rates prompt completion (elim (Bool-cases (ltb 0 prompt)) [
        | inl e ↦ inl (positive_product prompt rates.input_price.coeff (ground arith) has_in)
        | inr e ↦ inr (positive_product completion rates.output_price.coeff (ground arith) has_out)
      ]))
  where
    pricing_field :
        (x : RawSettings)
        → valid_fields x ≡ true
        → valid_model_pricing x.prices.model_pricing ≡ true
    pricing_field x e = ground arith
