-- ===== src/Chat/Filters.antt =====
-- backend/app/routes/chat.py: the tags and the metadata filter of a request, and the messages that are
-- stored. A JSON value is a scalar (a text, or a number or Boolean by its printed text), a list whose
-- items are scalars or `none`, or anything else.
use rag_foundation.Common.{
  ℕ, ◌≡◌, ap, Bool, true, not, List, [], ◌∷◌, ◌++◌, Option, none, some, leb, any, if◌then◌else◌,
  length, take, All, arith, inl, inr, Bool-cases, subst, String,
}
use rag_foundation.Common.Str.{Str, codes, eq_str, strip, is_empty}
use rag_foundation.Common.Http.{HttpError, Outcome, raised, answered, http, Outcome-cases}
use rag_foundation.Chat.Sessions.{ChatSession, get_session, put_session, trim_title}

pub data Scalar : Type 0 where
  text plain : Str → Scalar

pub data Json : Type 0 where
  scalar : Scalar → Json
  items : List (Option Scalar) → Json
  complex : Json

-- What a request gives: an object, or something else.
pub data Raw : Type 0 where
  object : List (Str × Json) → Raw
  no_object : Raw

abbrev pub bad_request : String → HttpError
bad_request d = http 400 d

-- `cleaned[key] = value`
unfoldable pub put_key : {A : Type 0} → Str → A → List (Str × A) → List (Str × A)
put_key k a [] = (k, a) ∷ []
put_key k a ((j, b) ∷ d) = if eq_str j k then (j, a) ∷ d else (j, b) ∷ put_key k a d

abbrev pub printed : Scalar → Str
printed (text s) = s
printed (plain s) = s

-- The loop of `_sanitize_tags`.
unfoldable pub clean_tags : List (Str × Json) → List (Str × Str) → List (Str × Str)
clean_tags [] cleaned = cleaned
clean_tags ((k, scalar v) ∷ raw) cleaned =
    let key = strip k in
    let next =
      if is_empty key then cleaned else put_key (take 32 key) (take 128 (printed v)) cleaned in
    if leb 5 (length cleaned) then cleaned else clean_tags raw next
clean_tags ((k, items xs) ∷ raw) cleaned =
    if leb 5 (length cleaned) then cleaned else clean_tags raw cleaned
clean_tags ((k, complex) ∷ raw) cleaned =
    if leb 5 (length cleaned) then cleaned else clean_tags raw cleaned

-- `cleaned or None`
abbrev pub or_none {ℓ} : {A : Type ℓ} → List A → Option (List A)
or_none [] = none
or_none (x ∷ xs) = some (x ∷ xs)

unfoldable pub sanitize_tags : Option Raw → Outcome (Option (List (Str × Str)))
sanitize_tags none = answered none
sanitize_tags (some no_object) = raised (bad_request "tags must be an object")
sanitize_tags (some (object raw)) = answered (or_none (clean_tags raw []))

abbrev pub clip : Scalar → Scalar
clip (text s) = text (take 256 s)
clip (plain s) = plain s

unfoldable pub coerce_items : List (Option Scalar) → Outcome (List (Option Scalar))
coerce_items [] = answered []
coerce_items (none ∷ xs) =
    raised
      (bad_request "metadataFilter values must be strings, numbers, booleans, or lists of those")
coerce_items (some v ∷ xs) = elim (coerce_items xs) [
  | raised e ↦ raised e
  | answered ys ↦ answered (some (clip v) ∷ ys)
]

-- The last error also names the key.
unfoldable pub coerce_metadata_value : Json → Outcome Json
coerce_metadata_value (scalar v) = answered (scalar (clip v))
coerce_metadata_value (items []) =
    raised (bad_request "metadataFilter lists must include at least one value")
coerce_metadata_value (items (x ∷ xs)) = elim (coerce_items (x ∷ xs)) [
  | raised e ↦ raised e
  | answered ys ↦ answered (items ys)
]
coerce_metadata_value complex = raised (bad_request "Invalid metadataFilter value")

abbrev pub is_allowed_key : List Str → Str → Bool
is_allowed_key allowed k = any (λ a. eq_str a k) allowed

-- The loop over the filter; the second error also names the key.
unfoldable pub clean_filter :
    List Str → List (Str × Json) → List (Str × Json) → Outcome (List (Str × Json))
clean_filter allowed [] cleaned = answered cleaned
clean_filter allowed ((k, v) ∷ raw) cleaned =
    let key = strip k in
    if is_empty key
    then raised (bad_request "metadataFilter keys must be non-empty strings")
    else if not (is_allowed_key allowed key)
    then raised (bad_request "metadataFilter key is not allowed")
    else elim (coerce_metadata_value v) [
      | raised e ↦ raised e
      | answered w ↦ clean_filter allowed raw (put_key key w cleaned)
    ]

unfoldable pub validate_metadata_filter :
    Bool → List Str → Option Raw → Outcome (Option (List (Str × Json)))
validate_metadata_filter enabled allowed none = answered none
validate_metadata_filter enabled allowed (some raw) =
    if not enabled
    then raised (bad_request "Metadata filters are disabled on this deployment.")
    else elim raw [
      | no_object ↦ raised (bad_request "metadataFilter must be an object")
      | object entries ↦ elim allowed [
        | [] ↦
            raised (
              bad_request "Metadata filters require METADATA_FILTER_ALLOWED_KEYS to be configured.")
        | a ∷ rest ↦ elim (clean_filter (a ∷ rest) entries []) [
          | raised e ↦ raised e
          | answered cleaned ↦ elim cleaned [
            | [] ↦ raised (bad_request "metadataFilter must include at least one allowed key")
            | c ∷ more ↦ answered (some (c ∷ more))
          ]
        ]
      ]
    ]

put_key-All :
    {A : Type 0} (allowed : List Str) (k : Str) (a : A) (d : List (Str × A))
    → is_allowed_key allowed k ≡ true
    → All (λ e. is_allowed_key allowed e.0 ≡ true) d
    → All (λ e. is_allowed_key allowed e.0 ≡ true) (put_key k a d)
unfolding put_key
put_key-All allowed k a [] ok h = (ok, tt)
put_key-All allowed k a ((j, b) ∷ d) ok h = elim (Bool-cases (eq_str j k)) [
  | inl e ↦ rw (e, put_key) (h.0, h.1)
  | inr e ↦ rw (e, put_key) (h.0, put_key-All allowed k a d ok h.1)
]

-- A filter that the loop lets through has allowed keys only, if what it began with has.
pub clean_filter-All :
    (allowed : List Str) (raw cleaned out : List (Str × Json))
    → All (λ e. is_allowed_key allowed e.0 ≡ true) cleaned
    → clean_filter allowed raw cleaned ≡ answered out
    → All (λ e. is_allowed_key allowed e.0 ≡ true) out
unfolding clean_filter
clean_filter-All allowed [] cleaned out h e =
    let out_of : Outcome (List (Str × Json)) → List (Str × Json) =
      λ o. elim o [ raised _ ↦ cleaned | answered x ↦ x ] in
    subst (λ d. All (λ x. is_allowed_key allowed x.0 ≡ true) d) (ap out_of e) h
clean_filter-All allowed ((k, v) ∷ raw) cleaned out h e =
    elim (Outcome-cases (coerce_metadata_value v)) [
      | inl (x, bad) ↦ absurd (ground arith)
      | inr (w, good) ↦
          let allowed_key : is_allowed_key allowed (strip k) ≡ true = ground arith in
          clean_filter-All allowed raw (put_key (strip k) w cleaned) out
            (put_key-All allowed (strip k) w cleaned allowed_key h) (ground arith)
    ]

pub record ChatMessage : Type 0 where
  pub user_id : ℕ
  pub store_id : Option ℕ
  pub session_id : Str
  pub role : Str
  pub content : Str

-- The row of a session that a message is stored for.
unfoldable pub stamped : ℕ → Str → Str → ChatSession → ChatSession
stamped now role content s = record s {
  updated_at = now;
  title = elim s.title [
    | some t ↦ some t
    | none ↦ if eq_str role (codes "user") then trim_title (some content) else none
  ];
}

-- `_persist_chat_message`, where the commit succeeds.
unfoldable pub persist_chat_message :
    ℕ → ChatMessage → List ChatSession × List ChatMessage → List ChatSession × List ChatMessage
persist_chat_message now m (sessions, messages) =
    if is_empty m.content then (sessions, messages) else elim (get_session m.session_id sessions) [
      | none ↦ (sessions, messages ++ m ∷ [])
      | some s ↦ (put_session (stamped now m.role m.content s) sessions, messages ++ m ∷ [])
    ]
