-- ===== src/Gemini/Operation.antt =====
-- backend/app/services/gemini_rag.py: the errors of the API, and the status of a long operation. `str_of`
-- is Python's `str`; `none` is an exception.
use rag_foundation.Common.{ℕ, Bool, true, false, ◌||◌, ◌==◌, if◌then◌else◌, Option, none, some}
use rag_foundation.Common.Str.{Str}
use rag_foundation.Gemini.{Value, nothing, text, dict, has_key, get, attr, is_truthy, or_value}

-- An exception of a call: one of the SDK's retryable classes, an error of the API with its code, an
-- HTTP status, a timeout, or another one.
pub data CallError : Type 0 where
  retryable_class : CallError
  api_error : Option ℕ → CallError
  http_status : ℕ → CallError
  timeout : CallError
  other_error : CallError

abbrev pub is_code : ℕ → Option ℕ → Bool
is_code c none = false
is_code c (some d) = d == c

unfoldable pub is_rate_limit_error : CallError → Bool
is_rate_limit_error (api_error code) = is_code 429 code
is_rate_limit_error (http_status s) = s == 429
is_rate_limit_error _ = false

unfoldable pub is_retryable_code : Option ℕ → Bool
is_retryable_code code =
    is_code 429 code || is_code 500 code || is_code 502 code || is_code 503 code

unfoldable pub is_retryable_error : CallError → Bool
is_retryable_error retryable_class = true
is_retryable_error (api_error code) = is_retryable_code code
is_retryable_error (http_status s) = is_retryable_code (some s)
is_retryable_error timeout = true
is_retryable_error other_error = false

unfoldable pub or_missing : Value → Option Value
or_missing name = if is_truthy name then some name else none

unfoldable pub get_response_name : Value → Option Value
get_response_name (text s) = some (text s)
get_response_name (dict fs) = or_missing (get "name" fs)
get_response_name response = or_missing (attr "name" response)

unfoldable pub extract_error_message : (Value → Str) → Value → Value
extract_error_message str_of nothing = nothing
extract_error_message str_of (text s) = text s
extract_error_message str_of (dict fs) =
    or_value
      (or_value (or_value (or_value (get "message" fs) (get "msg" fs)) (get "error" fs))
        (get "details" fs))
      (text (str_of (dict fs)))
extract_error_message str_of err =
    if is_truthy (attr "message" err)
    then text (str_of (attr "message" err))
    else if is_truthy (attr "msg" err)
    then text (str_of (attr "msg" err))
    else text (str_of err)

-- The dict of an operation, without its metadata.
pub record Operation : Type 0 where
  pub name : Value
  pub done : Bool
  pub error : Value

unfoldable pub normalize_operation_result : (Value → Str) → Str → Value → Option Operation
normalize_operation_result str_of name (text s) = none
normalize_operation_result str_of name (dict fs) = some (record {
  name = if has_key "name" fs then get "name" fs else text name;
  done = is_truthy (get "done" fs);
  error = extract_error_message str_of (get "error" fs);
})
normalize_operation_result str_of name op = some (record {
  name = or_value (attr "name" op) (text name);
  done = is_truthy (attr "done" op);
  error = extract_error_message str_of (attr "error" op);
})

-- What a call gives: a value, an `httpx.HTTPError`, or another exception.
pub data Called : Type 0 where
  gives : Value → Called
  http_error : Called
  raises : Called

unfoldable pub from_sdk : (Value → Str) → Str → Called → Option Operation
from_sdk str_of name (gives op) = normalize_operation_result str_of name op
from_sdk str_of name http_error = none
from_sdk str_of name raises = none

-- REST is asked first where there is an API key, and the SDK after an HTTP error.
unfoldable pub op_status : (Value → Str) → Bool → Called → Called → Str → Option Operation
op_status str_of false rest sdk name = from_sdk str_of name sdk
op_status str_of true (gives op) sdk name = normalize_operation_result str_of name op
op_status str_of true http_error sdk name = from_sdk str_of name sdk
op_status str_of true raises sdk name = none
