-- ===== src/Uploads/Types.antt =====
-- backend/app/config.py, `validate_upload_profile` and `apply_upload_profile`, and
-- backend/app/routes/uploads.py, `allowed_type`: the types that a deployment takes. `none` is a ValueError
-- of the settings.
use rag_foundation.Common.{
  ◌≡◌, sym, ap, ◌∙◌, subst, ◌⊎◌, inl, inr, Bool, true, false, not, ◌&&◌, ◌||◌, List, [], ◌∷◌,
  Option, none, some, ◌==◌, ltb, if◌then◌else◌, map, any, In, arith, Bool-cases, any-In, In-any,
}
use rag_foundation.Common.Sort.{order_by, In-order_by}
use rag_foundation.Common.Str.{Str, codes, eq_str, eq_str→eq, lower, strip, or_else}
use rag_foundation.FileTypes.{
  is_one_of, gemini_supported_mimes, safe_default_upload_mimes, office_upload_mimes,
  all_supported_upload_mimes,
}

pub data UploadProfile : Type 0 where
  safe office all_supported custom : UploadProfile

unfoldable pub validate_upload_profile : Str → Option UploadProfile
validate_upload_profile value =
    let v = lower value in
    if eq_str v (codes "safe")
    then some safe
    else if eq_str v (codes "office")
    then some office
    else if eq_str v (codes "all-supported")
    then some all_supported
    else if eq_str v (codes "custom")
    then some custom
    else none

-- The list of the profile; a custom profile keeps the configured one.
unfoldable pub profile_mimes : UploadProfile → List Str → List Str
profile_mimes safe configured = map codes safe_default_upload_mimes
profile_mimes office configured = map codes office_upload_mimes
profile_mimes all_supported configured = map codes all_supported_upload_mimes
profile_mimes custom configured = configured

-- The order of texts, by their characters.
unfoldable pub text_le : Str → Str → Bool
text_le [] t = true
text_le (a ∷ s) [] = false
text_le (a ∷ s) (b ∷ t) = ltb a b || (a == b && text_le s t)

-- `{mime.lower() for mime in …}`, each once.
unfoldable pub lowered : List Str → List Str
lowered [] = []
lowered (m ∷ ms) =
    let rest = lowered ms in if any (eq_str (lower m)) rest then rest else lower m ∷ rest

unfoldable pub apply_upload_profile : UploadProfile → List Str → Option (List Str)
apply_upload_profile profile configured =
    let mimes = lowered (profile_mimes profile configured) in
    if any (λ m. not (is_one_of m gemini_supported_mimes)) mimes
    then none
    else some (order_by text_le mimes)

-- `s.split(";")[0]`
unfoldable pub before_semicolon : Str → Str
before_semicolon [] = []
before_semicolon (c ∷ s) = let rest = before_semicolon s in if c == b';' then [] else c ∷ rest

unfoldable pub normalized_type : Option Str → Str
normalized_type content_type = strip (before_semicolon (lower (or_else content_type [])))

unfoldable pub allowed_type : List Str → Option Str → Bool
allowed_type allowed content_type = any (λ m. eq_str m (normalized_type content_type)) allowed

-- Under every profile that the settings accept, a file whose declared type is allowed has a type that
-- Gemini File Search supports, whatever list is configured and whatever type the client declares.
pub allowed_type-supported :
    (profile : UploadProfile) (configured allowed : List Str) (content_type : Option Str)
    → apply_upload_profile profile configured ≡ some allowed
    → allowed_type allowed content_type ≡ true
    → is_one_of (normalized_type content_type) gemini_supported_mimes ≡ true
unfolding apply_upload_profile allowed_type
allowed_type-supported profile configured allowed content_type e h =
    let mimes = lowered (profile_mimes profile configured) in
    let unknown : Str → Bool = λ m. not (is_one_of m gemini_supported_mimes) in
    elim (Bool-cases (any unknown mimes)) [
      | inl bad ↦ absurd (ground arith)
      | inr fine ↦
          let list_of : Option (List Str) → List Str = λ o. elim o [ none ↦ [] | some l ↦ l ] in
          let same : order_by text_le mimes ≡ allowed = ground arith in
          let (m, here, hit) = In-any (λ n. eq_str n (normalized_type content_type)) allowed h in
          let listed = In-order_by text_le m mimes (subst (In m) (sym same) here) in
          supported m listed (eq_str→eq m (normalized_type content_type) hit) fine
            (Bool-cases (is_one_of m gemini_supported_mimes))
    ]
  where
    supported :
        (m : Str)
        → In m (lowered (profile_mimes profile configured))
        → m ≡ normalized_type content_type
        → any
            (λ m. not (is_one_of m gemini_supported_mimes))
            (lowered (profile_mimes profile configured))
          ≡ false
        → (is_one_of m gemini_supported_mimes ≡ true) ⊎ (is_one_of m gemini_supported_mimes ≡ false)
        → is_one_of (normalized_type content_type) gemini_supported_mimes ≡ true
    supported m listed same fine (inl yes_m) =
        ap (λ t. is_one_of t gemini_supported_mimes) (sym same) ∙ yes_m
    supported m listed same fine (inr no_m) = absurd (
        cc (
          any-In (λ m. not (is_one_of m gemini_supported_mimes))
              (lowered (profile_mimes profile configured)) m listed (ap not no_m),
          fine,
        ))
