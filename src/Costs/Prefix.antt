-- ===== src/Costs/Prefix.antt =====
-- backend/app/costs.py, `_resolve_model_rates`: the loop finds the longest prefix.
use rag_foundation.Common.{
  ℕ, suc, ◌≡◌, sym, ◌⊎◌, inl, inr, true, ◌&&◌, List, [], ◌∷◌, Option, none, some, if◌then◌else◌,
  length, In, arith, Bool-cases,
}
use rag_foundation.Common.Str.{Str}
use rag_foundation.Costs.Rates.{ModelRates, longest_prefix, candidate, longer}

-- One more than the length of the best key so far.
abbrev reach : Option (Str × ModelRates) → ℕ
reach none = 0
reach (some (b, _)) = suc (length b)

module _ (model : Str) where
  -- What the loop holds is an entry of the table that passes the test, or what it began with.
  pub longest_prefix-In :
      (mp : List (Str × ModelRates)) (best : Option (Str × ModelRates)) (e : Str × ModelRates)
      → longest_prefix model mp best ≡ some e
      → (best ≡ some e) ⊎ (In e mp × (candidate model e.0 ≡ true))
  unfolding longest_prefix
  longest_prefix-In [] best e h = inl h
  longest_prefix-In ((k, v) ∷ mp) best e h =
      elim (longest_prefix-In mp (if candidate model k && longer k best then some (k, v) else best)
        e h) [ inl here ↦ chosen best here | inr later ↦ inr (inr later.0, later.1) ]
    where
      chosen :
          (best : Option (Str × ModelRates))
          → (if candidate model k && longer k best then some (k, v) else best) ≡ some e
          → (best ≡ some e) ⊎ (In e ((k, v) ∷ mp) × (candidate model e.0 ≡ true))
      chosen old here = elim (Bool-cases (candidate model k && longer k old)) [
        | inl p ↦ let same : (k, v) ≡ e = cc in inr (inl (sym same), rw (← same) (ground arith))
        | inr p ↦ inl (ground arith)
      ]
