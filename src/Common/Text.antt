-- ===== src/Common/Text.antt =====
-- Equality of native texts as a decision, so that keys can be texts.
use Prim.Native.String.{String}
use mathlib.Core.Path.{◌≡◌, refl}
use mathlib.Core.Logic.{◌↔◌}
use mathlib.Core.Bool.{Bool, true, false, false≢true}
use text.Mathlib.Text.{◌==◌}
use text.Mathlib.TextEquality.{eq_iff}

unfoldable pub decide_by {ℓ} : {P : Type ℓ} (b : Bool) → ((b ≡ true) ↔ P) → Dec P
decide_by true e = yes (e.0 refl)
decide_by false e = no (λ p. false≢true (e.1 p))

unfoldable pub str_dec : Discrete String
unfolding decide_by
str_dec s t = decide_by (s == t) (eq_iff s t)
