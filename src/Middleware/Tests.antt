-- ===== src/Middleware/Tests.antt =====
-- The middlewares at concrete requests.
use rag_foundation.Common.{◌≡◌, refl, true, [], ◌∷◌, none, some}
use rag_foundation.Common.Http.{raised, answered, http}
use rag_foundation.Common.Str.{codes, eq_str, starts_with, lower, to_lower, strip, lstrip, is_space}
use rag_foundation.Uploads.Magic.{occurs_in}
use rag_foundation.Uploads.Types.{before_semicolon}
use rag_foundation.Middleware.{
  Request, digits, bytes, not_digits, aborted, csrf_protection, is_upload_path, ends_with, is_json,
  read_body, is_read, json_body_limit, sent,
}

program : Unit {0}
unfolding eq_str starts_with lower to_lower strip lstrip is_space occurs_in before_semicolon
    csrf_protection is_upload_path ends_with is_json read_body is_read json_body_limit sent
program = tt

abbrev request : Request
request = record {
  method = codes "POST";
  path = codes "/api/chat";
  requested_with = none;
  content_length = digits 3;
  content_type = some (codes "application/JSON; charset=utf-8");
  transfer_encoding = none;
  chunks = bytes (123 ∷ []) ∷ bytes [] ∷ bytes (32 ∷ 125 ∷ []) ∷ [];
}

forged_form :
    csrf_protection true request
    ≡ raised (http 403 "CSRF check failed: X-Requested-With header required")
unfolding program
forged_form = refl

no_room : json_body_limit 0 request ≡ raised (http 413 "Request body too large")
unfolding program
no_room = refl

problem_json : is_json (some (codes "application/problem+JSON; x=1")) ≡ true
unfolding program
problem_json = refl

-- A length that is no number does not refuse the request, and a form with one is left to its route.
odd_length :
    json_body_limit 0 (record request { content_type = none; content_length = not_digits })
    ≡ answered none
unfolding program
odd_length = refl

lost_client :
    json_body_limit 1 (record request { chunks = aborted ∷ [] })
    ≡ raised (http 500 "Internal Server Error")
unfolding program
lost_client = refl
