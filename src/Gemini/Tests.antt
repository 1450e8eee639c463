-- ===== src/Gemini/Tests.antt =====
-- Answers of the Gemini API at concrete values.
use rag_foundation.Common.{◌≡◌, refl, true, false, none, some, [], String}
use rag_foundation.Common.Str.{Str, codes, eq_str, strip, lstrip, is_space, starts_with}
use rag_foundation.Gemini.{
  Value, Fields, nothing, text, other, dict, object, end, field, has_key, get, attr, item, is_dict,
  is_truthy, or_value,
}
use rag_foundation.Gemini.FileId.{
  first_id, text_id, files_id, direct_id, file_attr_id, response_id, info_id, metadata_of,
  metadata_id, top_level_id, extract_uploaded_file_id,
}
use rag_foundation.Gemini.Mentions.{Mentions, extract_uploaded_file_id-Mentions}
use rag_foundation.Gemini.Operation.{
  gives, http_error, is_retryable_code, is_retryable_error, is_rate_limit_error, api_error,
  or_missing, get_response_name, extract_error_message, normalize_operation_result, from_sdk,
  op_status,
}

program : Unit {0}
unfolding eq_str strip lstrip is_space starts_with has_key get attr item is_dict is_truthy or_value
    first_id text_id files_id direct_id file_attr_id response_id info_id metadata_of metadata_id
    top_level_id extract_uploaded_file_id is_retryable_code is_retryable_error is_rate_limit_error
    or_missing get_response_name extract_error_message normalize_operation_result from_sdk op_status
program = tt

abbrev one : String → Value → Fields
one key v = field (codes key) v end

abbrev named : Value
named = dict (one "name" (text (codes "files/9")))

abbrev in_metadata : Value
in_metadata = dict (one "metadata" (dict (one "file" named)))

abbrev at_top : Value
at_top = dict (one "file" named)

abbrev wrapped : Value
wrapped = object (one "response" (object (one "file" (object (one "id" (text (codes "files/3")))))))

ids :
    (extract_uploaded_file_id in_metadata ≡ some (codes "files/9"))
    × (extract_uploaded_file_id wrapped ≡ some (codes "files/3"))
    × (extract_uploaded_file_id at_top ≡ none)
unfolding program
ids = (refl, refl, refl)

retried : is_retryable_error (api_error (some 503)) ≡ true
unfolding program
retried = refl

abbrev no_text : Value → Str
no_text v = []

fallen_back :
    op_status no_text true http_error
      (gives (object (field (codes "done") (other true (codes "True")) (one "error" nothing))))
      (codes "operations/1")
    ≡ some (record { name = text (codes "operations/1"); done = true; error = nothing })
unfolding program
fallen_back = refl

extract_uploaded_file_id-Mentions_example :
    ((s : Str) → extract_uploaded_file_id at_top ≡ some s → Mentions s at_top)
    × ((fs : Fields)
        → at_top ≡ dict fs
        → is_dict (get "metadata" fs) ≡ false
        → is_dict (get "result" fs) ≡ false
        → extract_uploaded_file_id at_top ≡ none)
extract_uploaded_file_id-Mentions_example = extract_uploaded_file_id-Mentions at_top
