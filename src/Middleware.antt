-- ===== src/Middleware.antt =====
-- backend/app/main.py: the middlewares that refuse a request before its route. A body comes in chunks;
-- a chunk can also be an exception of the stream.
mod Tests
use rag_foundation.Common.{
  ℕ, zero, suc, ◌+◌, ◌*◌, ◌≤◌, ◌≡◌, Bool, true, false, not, ◌&&◌, ◌||◌, List, [], ◌∷◌, ◌++◌, Option,
  none, some, String, ◌==◌, ltb, leb, if◌then◌else◌, length, reverse, ◌⊎◌,
}
use rag_foundation.Common.Http.{Outcome, raised, answered, http}
use rag_foundation.Common.Str.{
  Str, codes, eq_str, starts_with, is_empty, truthy, or_else, lower, strip,
}
use rag_foundation.FileTypes.{is_one_of}
use rag_foundation.Uploads.Magic.{occurs_in}
use rag_foundation.Uploads.Types.{before_semicolon}

-- The header Content-Length: none, or an empty one; a text that is no number; or a number.
pub data ContentLength : Type 0 where
  missing : ContentLength
  not_digits : ContentLength
  digits : ℕ → ContentLength

-- What the stream gives next: bytes, a RuntimeError, ValueError or TypeError, or another exception, which
-- no handler of the middleware takes.
pub data Chunk : Type 0 where
  bytes : List ℕ → Chunk
  invalid : Chunk
  aborted : Chunk

pub record Request : Type 0 where
  pub method : Str
  pub path : Str
  pub requested_with : Option Str
  pub content_length : ContentLength
  pub content_type : Option Str
  pub transfer_encoding : Option Str
  pub chunks : List Chunk

-- The body as the route gets it; `none` where it is still to be read.
abbrev pub Body : Type 0
Body = Option (List ℕ)

unfoldable pub csrf_protection : Bool → Request → Outcome (Unit {0})
csrf_protection required r =
    if required
      && is_one_of r.method ("POST" ∷ "PUT" ∷ "PATCH" ∷ "DELETE" ∷ [])
      && not (is_one_of r.path ("/health" ∷ "/metrics" ∷ []))
      && not (is_one_of (or_else r.requested_with []) ("XMLHttpRequest" ∷ []))
    then raised (http 403 "CSRF check failed: X-Requested-With header required")
    else answered tt

unfoldable pub is_upload_path : Str → Bool
is_upload_path path = is_one_of path ("/api/upload" ∷ []) || starts_with path (codes "/api/upload/")

-- `text.endswith(part)`
unfoldable pub ends_with : Str → Str → Bool
ends_with text part = starts_with (reverse text) (reverse part)

unfoldable pub is_json : Option Str → Bool
is_json content_type =
    let ct = lower (strip (before_semicolon (or_else content_type []))) in
    eq_str ct (codes "application/json") || ends_with ct (codes "+json")

-- The loop over the stream, which skips empty chunks.
unfoldable pub read_body : ℕ → List ℕ → List Chunk → Outcome Body
read_body max_bytes received [] = answered (some received)
read_body max_bytes received (invalid ∷ chunks) = raised (http 400 "Invalid request body")
read_body max_bytes received (aborted ∷ chunks) = raised (http 500 "Internal Server Error")
read_body max_bytes received (bytes chunk ∷ chunks) =
    let rest = read_body max_bytes (received ++ chunk) chunks in
    if is_empty chunk
    then rest
    else if ltb max_bytes (length received + length chunk)
    then raised (http 413 "Request body too large")
    else rest

-- `cl.isdigit() and int(cl) > max_bytes`
abbrev pub exceeds : ℕ → ContentLength → Bool
exceeds max_bytes missing = false
exceeds max_bytes not_digits = false
exceeds max_bytes (digits n) = ltb max_bytes n

abbrev pub is_given : ContentLength → Bool
is_given missing = false
is_given not_digits = true
is_given (digits _) = true

-- The stream is read, and not left to the route.
unfoldable pub is_read : Request → Bool
is_read r =
    is_json r.content_type
    || (not (is_upload_path r.path)
        && (not (is_given r.content_length)
            || occurs_in (codes "chunked") (lower (or_else r.transfer_encoding []))))

unfoldable pub json_body_limit : ℕ → Request → Outcome Body
json_body_limit max_json_mb r =
    let max_bytes = max_json_mb * 1024 * 1024 in
    if exceeds max_bytes r.content_length && not (is_upload_path r.path)
    then raised (http 413 "Request body too large")
    else if is_read r
    then read_body max_bytes [] r.chunks
    else answered none

-- All that was sent, up to an exception.
unfoldable pub sent : List Chunk → List ℕ
sent [] = []
sent (invalid ∷ chunks) = []
sent (aborted ∷ chunks) = []
sent (bytes chunk ∷ chunks) = chunk ++ sent chunks

-- A body that was read: what was received before and what was sent, and not too large.
abbrev IsWhole : ℕ → List ℕ → List Chunk → Body → Type 0
IsWhole max_bytes received chunks body =
    (content : List ℕ) × (body ≡ some content)
    × (content ≡ received ++ sent chunks)
    × (length content ≤ max_bytes)

-- The media type of a content type, or an empty text.
abbrev pub media_type : Option Str → Str
media_type content_type = lower (strip (before_semicolon (or_else content_type [])))

-- Requests whose body is read before the route: of a JSON type, and outside of the uploads' paths those
-- without a length, or whose Transfer-Encoding is "chunked".
abbrev pub IsUnbounded : Request → Type 0
IsUnbounded r =
    (media_type r.content_type ≡ codes "application/json")
    ⊎ ((starts_with r.path (codes "/api/upload") ≡ false)
        × ((r.content_length ≡ missing) ⊎ (r.transfer_encoding ≡ some (codes "chunked"))))
