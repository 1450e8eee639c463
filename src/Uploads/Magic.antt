-- ===== src/Uploads/Magic.antt =====
-- backend/app/routes/uploads.py, `validate_file_magic`: the first and the last bytes of a file whose type
-- is checked. A file that cannot be read is `none`.
use rag_foundation.Common.{
  ℕ, Bool, true, false, not, ◌&&◌, List, [], ◌∷◌, Option, none, some, if◌then◌else◌, take, String,
}
use rag_foundation.Common.Str.{Str, codes, eq_str, lower, starts_with, is_empty, last}
use rag_foundation.FileTypes.{is_one_of}

abbrev pub zip_based_mimes : List String
zip_based_mimes =
    "application/vnd.ms-excel" ∷ "application/vnd.openxmlformats-officedocument.spreadsheetml.sheet"
    ∷ "application/vnd.openxmlformats-officedocument.wordprocessingml.document"
    ∷ "application/vnd.openxmlformats-officedocument.presentationml.presentation"
    ∷ "application/vnd.oasis.opendocument.text" ∷ []

abbrev pub magic_checked_mimes : List String
magic_checked_mimes = "application/pdf" ∷ "application/msword" ∷ zip_based_mimes

-- `part in text`
unfoldable pub occurs_in : Str → Str → Bool
occurs_in part [] = is_empty part
occurs_in part (c ∷ text) =
    let later = occurs_in part text in if starts_with (c ∷ text) part then true else later

abbrev pub zip_header : List ℕ
zip_header = 80 ∷ 75 ∷ 3 ∷ 4 ∷ []

unfoldable pub validate_file_magic : Option (List ℕ) → Str → Bool
validate_file_magic none mime = false
validate_file_magic (some content) mime =
    let m = lower mime in
    let header = take 8 content in
    if eq_str m (codes "application/pdf")
    then starts_with header (codes "%PDF-") && occurs_in (codes "%%EOF") (last 2048 content)
    else if is_one_of m zip_based_mimes
    then starts_with header zip_header
    else not (is_empty header)
