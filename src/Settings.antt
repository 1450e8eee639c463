-- ===== src/Settings.antt =====
-- backend/app/routes/settings.py: the settings that an administrator changes. A key has a name, a value
-- is a text; the defaults are those of the schema `AppSettings`. The details of the errors stand without
-- the values that the code puts into them; of the audit entry, only whether it is written stands here.
pub mod Merged
mod Tests
use rag_foundation.Common.{
  ℕ, zero, suc, ◌+◌, Bool, true, false, not, ◌&&◌, ◌||◌, List, [], ◌∷◌, Option, none, some, String,
  ◌==◌, ltb, leb, if◌then◌else◌, length, any, str_dec,
}
use rag_foundation.Common.Dict.{Dict, lookup, insert, contains}
use rag_foundation.Common.Http.{HttpError, Outcome, raised, answered, http}
use rag_foundation.Common.Str.{Str, codes, strip}
use rag_foundation.FileTypes.{is_one_of}
use rag_foundation.Models.{User}

abbrev pub Values : Type 0
Values = Dict String Str

abbrev pub default_settings : Values
default_settings =
    ("app_name", codes "RAG Assistant")
    ∷ ("app_icon", codes "sparkles")
    ∷ ("theme_preset", codes "minimal")
    ∷ ("primary_color", codes "#2563EB")
    ∷ ("accent_color", codes "#6366F1")
    ∷ ("app_favicon", codes "")
    ∷ ("welcome_message", codes "Hi! I'm your RAG assistant. Ask me anything about your documents.")
    ∷ ("suggested_prompt_1", codes "Summarize the key findings from my uploads.")
    ∷ ("suggested_prompt_2", codes "What are the main risks or open questions?")
    ∷ ("suggested_prompt_3", codes "Create an outline using the latest documents.")
    ∷ []

abbrev pub valid_icons : List String
valid_icons = "sparkles" ∷ "file" ∷ "bot" ∷ "book" ∷ "bolt" ∷ "compass" ∷ []

abbrev pub valid_presets : List String
valid_presets = "minimal" ∷ "gradient" ∷ "classic" ∷ []

unfoldable pub max_length : String → ℕ
max_length key = if is_one_of (codes key) ("app_favicon" ∷ []) then 200_000 else 255

unfoldable pub is_hex_digit : ℕ → Bool
is_hex_digit c =
    (leb b'0' c && leb c b'9') || (leb b'A' c && leb c b'F') || (leb b'a' c && leb c b'f')

-- `n` digits and the end; `$` also matches before a last line break.
unfoldable pub hex_digits : ℕ → Str → Bool
hex_digits zero [] = true
hex_digits zero (c ∷ []) = c == 10
hex_digits zero (c ∷ d ∷ s) = false
hex_digits (suc n) [] = false
hex_digits (suc n) (c ∷ s) = is_hex_digit c && hex_digits n s

unfoldable pub is_hex_color : Str → Bool
is_hex_color [] = false
is_hex_color (c ∷ s) = c == b'#' && hex_digits 6 s

-- What is wrong with a value, in the order of the tests.
unfoldable pub setting_error : String → Str → Option HttpError
setting_error key value =
    if not (contains str_dec key default_settings)
    then some (http 400 "Unknown setting")
    else if is_one_of (codes key) ("primary_color" ∷ "accent_color" ∷ [])
        && not (is_hex_color value)
    then some (http 400 "must be a 6-digit hex color (e.g., #2563EB)")
    else if is_one_of (codes key) ("app_icon" ∷ []) && not (is_one_of value valid_icons)
    then some (http 400 "app_icon must be one of")
    else if is_one_of (codes key) ("theme_preset" ∷ []) && not (is_one_of value valid_presets)
    then some (http 400 "theme_preset must be one of")
    else if ltb (max_length key) (length value)
    then some (http 400 "Setting is too long")
    else none

-- `merged[row.key] = row.value` for each row, over the defaults.
unfoldable pub merge : Values → Values → Values
merge [] merged = merged
merge ((key, value) ∷ rows) merged = merge rows (insert str_dec key value merged)

-- The lengths that the schema `AppSettings` allows.
unfoldable pub schema_length : String → ℕ
schema_length key =
    if is_one_of (codes key) ("app_favicon" ∷ [])
    then 200_000
    else if is_one_of (codes key) ("app_name" ∷ [])
    then 100
    else if is_one_of (codes key) ("app_icon" ∷ [])
    then 50
    else if is_one_of (codes key) ("primary_color" ∷ "accent_color" ∷ [])
    then 20
    else if is_one_of (codes key)
        ("suggested_prompt_1" ∷ "suggested_prompt_2" ∷ "suggested_prompt_3" ∷ [])
    then 180
    else 255

-- A field that `AppSettings` takes; it ignores a key that it does not know.
unfoldable pub is_valid_field : String × Str → Bool
is_valid_field (key, value) =
    not (contains str_dec key default_settings)
    || ((not (is_one_of (codes key) ("theme_preset" ∷ [])) || is_one_of value valid_presets)
        && leb (length value) (schema_length key))

abbrev pub internal_error : HttpError
internal_error = http 500 "Internal Server Error"

-- `AppSettings(**merged)`, whose ValidationError nothing handles.
unfoldable pub validated : Values → Outcome Values
validated merged =
    if any (λ f. not (is_valid_field f)) merged then raised internal_error else answered merged

unfoldable pub load_settings : Values → Outcome Values
load_settings rows = validated (merge rows default_settings)

-- What the outside answers: the rate limiter, the commit of the rows, and that of the audit entry.
pub record SettingsWorld : Type 0 where
  pub within_rate : Bool
  pub commits : Bool
  pub audits : Bool

-- The loop over the updates: the rows so far, or the first error.
unfoldable pub checked : Option HttpError → Outcome Values → Outcome Values
checked none rest = rest
checked (some e) rest = raised e

unfoldable pub apply_updates : Values → Values → Outcome Values
apply_updates [] rows = answered rows
apply_updates ((key, value) ∷ updates) rows =
    checked (setting_error key (strip value))
      (apply_updates updates (insert str_dec key (strip value) rows))

-- Only what is complete is committed.
unfoldable pub commit : SettingsWorld → Values → Outcome Values → Values × Outcome Values
commit w rows (raised e) = (rows, raised e)
commit w rows (answered new) =
    if not w.commits
    then (rows, raised internal_error)
    else if not w.audits
    then (new, raised internal_error)
    else (new, load_settings new)

-- `not updates`
abbrev pub is_empty_update : Values → Bool
is_empty_update [] = true
is_empty_update (_ ∷ _) = false

unfoldable pub update_settings : SettingsWorld → Values → Values → Values × Outcome Values
update_settings w updates rows =
    if not w.within_rate
    then (rows, raised (http 429 "Rate limit exceeded"))
    else if is_empty_update updates
    then (rows, load_settings rows)
    else commit w rows (apply_updates updates rows)
