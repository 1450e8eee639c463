-- ===== src/Settings/Tests.antt =====
-- Settings at concrete inputs.
use rag_foundation.Common.{◌≡◌, refl, true, false, [], ◌∷◌, Option, none, some, str_dec, decide_by}
use rag_foundation.Common.Dict.{lookup}
use rag_foundation.Common.Http.{Outcome, raised, answered, http}
use rag_foundation.Common.Str.{Str, codes, eq_str, is_space, lstrip, strip}
use rag_foundation.Settings.{
  Values, SettingsWorld, internal_error, schema_length, is_valid_field, validated, max_length,
  is_hex_digit, hex_digits, is_hex_color, setting_error, merge, load_settings, checked,
  apply_updates, commit, update_settings,
}
use rag_foundation.Settings.Merged.{Updated, update_settings-Updated}

program : Unit {0}
unfolding str_dec decide_by eq_str is_space lstrip strip max_length is_hex_digit hex_digits
    is_hex_color schema_length is_valid_field validated setting_error merge load_settings checked
    apply_updates commit update_settings
program = tt

abbrev works : SettingsWorld
works = record { within_rate = true; commits = true; audits = true }

abbrev rows : Values
rows = ("app_name", codes "Old") ∷ []

abbrev updates : Values
updates = ("app_name", codes " New ") ∷ ("primary_color", codes "#00ff7F") ∷ []

shown_name : Values × Outcome Values → Option Str
shown_name (new, raised e) = none
shown_name (new, answered shown) = lookup str_dec "app_name" shown

reads_new : shown_name (update_settings works updates rows) ≡ some (codes "New")
unfolding program shown_name
reads_new = refl

-- The audit entry fails after the commit.
unaudited :
    update_settings (record works { audits = false }) (("app_name", codes "New") ∷ []) rows
    ≡ (("app_name", codes "New") ∷ [], raised internal_error)
unfolding program
unaudited = refl

-- A row that the schema does not take makes each reading fail.
bad_preset : load_settings (("theme_preset", codes "plain") ∷ []) ≡ raised internal_error
unfolding program
bad_preset = refl

no_color :
    update_settings works (("app_name", codes "New") ∷ ("accent_color", codes "#12345g") ∷ []) rows
    ≡ (rows, raised (http 400 "must be a 6-digit hex color (e.g., #2563EB)"))
unfolding program
no_color = refl

update_settings-Updated_example : Updated updates rows (update_settings works updates rows)
unfolding program
update_settings-Updated_example =
    update_settings-Updated works updates rows (refl, (refl, tt)) (refl, tt)
