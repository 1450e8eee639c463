-- ===== src/Settings/Merged.antt =====
-- backend/app/routes/settings.py: what is read after an update is what was read before, with the new
-- values over it.
use rag_foundation.Common.{
  inl, inr, ◌⊎◌, not, any, All, Bool-cases, if-both, ◌≡◌, refl, sym, ap, ◌∙◌, true, false, [], ◌∷◌,
  Option, none, some, String, arith, str_dec, subst,
}
use rag_foundation.Common.Dict.{
  lookup, insert, Distinct, insert-Distinct, lookup-insert_self, lookup-insert_ne,
}
use rag_foundation.Common.Http.{HttpError, Outcome, raised, answered}
use rag_foundation.Common.Str.{Str, strip}
use rag_foundation.Settings.{
  Values, SettingsWorld, default_settings, setting_error, merge, is_valid_field, internal_error,
  validated, load_settings, is_empty_update, checked, apply_updates, commit, update_settings,
}

-- The first of two, if there is one.
abbrev pub over : Option Str → Option Str → Option Str
over none below = below
over (some v) below = some v

abbrev pub stripped : Option Str → Option Str
stripped none = none
stripped (some v) = some (strip v)

merge-lookup :
    (k : String) (rows base : Values)
    → Distinct str_dec rows
    → lookup str_dec k (merge rows base) ≡ over (lookup str_dec k rows) (lookup str_dec k base)
unfolding merge
merge-lookup k [] base h = refl
merge-lookup k ((j, v) ∷ rows) base h =
    merge-lookup k rows (insert str_dec j v base) h.1
    ∙ ground (arith, h.0, lookup-insert_self str_dec j v base, lookup-insert_ne str_dec k j v base)

checked_rest :
    (o : Option HttpError) (rest : Outcome Values) (new : Values)
    → checked o rest ≡ answered new
    → rest ≡ answered new
unfolding checked
checked_rest none rest new h = h
checked_rest (some e) rest new h = absurd cc

-- What the loop makes of the rows.
apply_updates-lookup :
    (k : String) (updates rows new : Values)
    → Distinct str_dec updates
    → apply_updates updates rows ≡ answered new
    → lookup str_dec k new ≡ over (stripped (lookup str_dec k updates)) (lookup str_dec k rows)
unfolding apply_updates
apply_updates-lookup k [] rows new h e = cc
apply_updates-lookup k ((j, v) ∷ updates) rows new h e =
    apply_updates-lookup k updates (insert str_dec j (strip v) rows) new h.1
      (checked_rest (setting_error j (strip v)) _ new e)
    ∙ ground (
      arith,
      h.0,
      lookup-insert_self str_dec j (strip v) rows,
      lookup-insert_ne str_dec k j (strip v) rows,
    )

apply_updates-Distinct :
    (updates rows new : Values)
    → Distinct str_dec rows
    → apply_updates updates rows ≡ answered new
    → Distinct str_dec new
unfolding apply_updates
apply_updates-Distinct [] rows new h e =
    let same : rows ≡ new = cc in subst (Distinct str_dec) same h
apply_updates-Distinct ((j, v) ∷ updates) rows new h e =
    apply_updates-Distinct updates (insert str_dec j (strip v) rows) new
      (insert-Distinct str_dec j (strip v) rows h)
      (checked_rest (setting_error j (strip v)) _ new e)

over_assoc : (a b c : Option Str) → over (over a b) c ≡ over a (over b c)
over_assoc none b c = refl
over_assoc (some v) b c = refl

-- Rows with distinct keys, over which each setting has its new value, stripped, or else the one it had.
abbrev pub IsOver : Values → Values → Values → Type 0
IsOver updates rows new =
    Distinct str_dec new
    × ((k : String)
        → lookup str_dec k (merge new default_settings)
          ≡ over (stripped (lookup str_dec k updates))
              (lookup str_dec k (merge rows default_settings)))

-- What an update leaves behind.
abbrev pub Updated : Values → Values → Values × Outcome Values → Type 0
Updated updates rows (new, raised e) =
    (new ≡ rows) ⊎ ((e ≡ internal_error) × IsOver updates rows new)
Updated updates rows (new, answered shown) =
    IsOver updates rows new
    × (shown ≡ merge new default_settings)
    × All (λ f. is_valid_field f ≡ true) shown

none_invalid :
    (fs : Values)
    → any (λ f. not (is_valid_field f)) fs ≡ false
    → All (λ f. is_valid_field f ≡ true) fs
none_invalid [] h = tt
none_invalid (f ∷ fs) h = (ground arith, none_invalid fs (ground arith))

validated-raised :
    (merged : Values) (e : HttpError) → validated merged ≡ raised e → e ≡ internal_error
unfolding validated
validated-raised merged e h = ground arith

validated-All :
    (merged shown : Values)
    → validated merged ≡ answered shown
    → (shown ≡ merged) × All (λ f. is_valid_field f ≡ true) shown
unfolding validated
validated-All merged shown h = elim (Bool-cases (any (λ f. not (is_valid_field f)) merged)) [
  | inl bad ↦ absurd (ground arith)
  | inr good ↦
      let same : merged ≡ shown = ground arith in
      (sym same, subst (All (λ f. is_valid_field f ≡ true)) same (none_invalid merged good))
]

-- What is loaded from rows over the old ones.
loaded-Updated :
    (updates rows new : Values)
    → IsOver updates rows new
    → Updated updates rows (new, load_settings new)
unfolding load_settings
loaded-Updated updates rows new fresh = shown_or (validated (merge new default_settings)) refl
  where
    shown_or :
        (o : Outcome Values)
        → validated (merge new default_settings) ≡ o
        → Updated updates rows (new, o)
    shown_or (raised e) f = inr (validated-raised (merge new default_settings) e f, fresh)
    shown_or (answered shown) f =
        let (same, valid) = validated-All (merge new default_settings) shown f in
        (fresh, same, valid)

-- Where no key stands twice: an update that is answered leaves rows in which no key stands twice, from
-- which each setting reads as it did before with the new values, stripped, over them; the answer is what
-- is read, and valid. One that raises leaves the rows as they were, or is an internal error after the
-- commit, and then the rows are such new ones all the same.
pub update_settings-Updated :
    (w : SettingsWorld) (updates rows : Values)
    → Distinct str_dec updates
    → Distinct str_dec rows
    → Updated updates rows (update_settings w updates rows)
unfolding update_settings commit
update_settings-Updated w updates rows hu hr =
    if-both (Updated updates rows) (not w.within_rate) _ _ (λ _. inl refl)
      (λ _.
        if-both (Updated updates rows) (is_empty_update updates) _ _
          (λ none_given. loaded-Updated updates rows rows (unchanged none_given))
          (λ _. committed (apply_updates updates rows) refl))
  where
    over_nothing :
        (k : String) (us : Values)
        → is_empty_update us ≡ true
        → lookup str_dec k (merge rows default_settings)
          ≡ over (stripped (lookup str_dec k us)) (lookup str_dec k (merge rows default_settings))
    over_nothing k [] h = refl
    over_nothing k (u ∷ us) h = absurd cc

    unchanged : is_empty_update updates ≡ true → IsOver updates rows rows
    unchanged none_given = (hr, λ k. over_nothing k updates none_given)

    fresh : (new : Values) → apply_updates updates rows ≡ answered new → IsOver updates rows new
    fresh new f =
        let keyed = apply_updates-Distinct updates rows new hr f in
        (
          keyed,
          λ k.
              merge-lookup k new default_settings keyed
              ∙ ap (λ o. over o (lookup str_dec k default_settings))
                  (apply_updates-lookup k updates rows new hu f)
              ∙ over_assoc (stripped (lookup str_dec k updates)) (lookup str_dec k rows)
                  (lookup str_dec k default_settings)
              ∙ ap (over (stripped (lookup str_dec k updates)))
                  (sym (merge-lookup k rows default_settings hr)),
        )

    committed :
        (o : Outcome Values)
        → apply_updates updates rows ≡ o
        → Updated updates rows (commit w rows o)
    committed (raised e) f = inl refl
    committed (answered new) f =
        if-both (Updated updates rows) (not w.commits) _ _ (λ _. inl refl)
          (λ _.
            if-both (Updated updates rows) (not w.audits) _ _ (λ _. inr (refl, fresh new f))
              (λ _. loaded-Updated updates rows new (fresh new f)))
