-- ===== src/Uploads/Route.antt =====
-- backend/app/routes/uploads.py, `upload`, and backend/app/services/storage.py. The dependencies of the
-- route have passed: the user is known and prices are configured; the form has its two fields. An
-- exception that is no HTTPException is answered with 500. Log entries are left out.
use rag_foundation.Common.{
  ℕ, ◌+◌, Bool, true, false, not, ◌&&◌, ◌||◌, List, [], ◌∷◌, ◌++◌, Option, none, some, ◌==◌, ltb,
  if◌then◌else◌, take, any, length,
}
use rag_foundation.Common.Decimal.{show}
use rag_foundation.Common.Http.{HttpError, Outcome, raised, answered, http}
use rag_foundation.Common.Str.{Str, codes, eq_str, lower, starts_with, is_empty, truthy, or_else}
use rag_foundation.Costs.Budget.{would_exceed_budget}
use rag_foundation.Costs.Price.{estimate_tokens_from_bytes}
use rag_foundation.Costs.Rates.{PriceSettings, calc_index_cost}
use rag_foundation.FileTypes.{is_one_of}
use rag_foundation.Models.{pending, error, Store, Document, Database, set_status, write_document}
use rag_foundation.Tenant.{require_store_owned_by_user}
use rag_foundation.Uploads.Magic.{magic_checked_mimes, validate_file_magic}
use rag_foundation.Uploads.Name.{sanitize_name, lstrip_dots, tmp_path}
use rag_foundation.Uploads.Receive.{Received, received, too_large, failed, receive}
use rag_foundation.Uploads.Types.{normalized_type, allowed_type}

-- `enqueue_ingestion_job(store_id, document_id, path)`
pub record Job : Type 0 where
  pub store_id : ℕ
  pub document_id : ℕ
  pub path : Str

-- The database, the temporary files and the queue of the ingestion worker.
pub record Server : Type 0 where
  pub db : Database
  pub files : List Str
  pub jobs : List Job

pub record UploadRequest : Type 0 where
  pub authorization : Option Str
  pub user_id : ℕ
  pub store_id : ℕ
  pub filename : Option Str
  pub content_type : Option Str
  pub chunks : List (Option (List ℕ))
  pub display_name : Option Str

-- The settings, and what the outside answers in one call: the rate limiter's verdict, the random part of
-- the file's name, whether the temporary file can be read and removed, whether the flush and commit of the
-- new row, the commit of its archive's URI and the commit of its error succeed, the archive, the queue,
-- the key of the new row and the clock.
pub record UploadWorld : Type 0 where
  pub allowed : List Str
  pub tmp_dir : Str
  pub max_bytes : ℕ
  pub prices : PriceSettings
  pub default_model : Str
  pub budget_hold : ℕ
  pub month_start : ℕ
  pub archive_bucket : Option Str
  pub within_rate : Bool
  pub unique : Str
  pub readable : Bool
  pub removable : Bool
  pub row_commits : Bool
  pub uri_commits : Bool
  pub error_commits : Bool
  pub archive_works : Bool
  pub has_queue : Bool
  pub queue_works : Bool
  pub new_id : ℕ
  pub now : ℕ

pub record UploadResponse : Type 0 where
  pub op_id : Str
  pub document_id : ℕ
  pub file_display_name : Str
  pub estimated_tokens : ℕ
  pub estimated_cost_usd : ℕ

abbrev pub Reply : Type 0
Reply = Server × Outcome UploadResponse

-- `not authz or not authz.lower().startswith("bearer ")` is the negation.
unfoldable pub is_bearer : Option Str → Bool
is_bearer none = false
is_bearer (some authz) = starts_with (lower authz) (codes "bearer ")

unfoldable pub remove_path : Str → List Str → List Str
remove_path path [] = []
remove_path path (f ∷ files) = if eq_str f path then files else f ∷ remove_path path files

-- `os.remove(tmp_path)`, whose OSError is only logged.
unfoldable pub remove_file : UploadWorld → Str → Server → Server
remove_file w path s = if w.removable then record s { files = remove_path path s.files } else s

-- Remove the temporary file and raise.
abbrev pub abort : UploadWorld → Str → Server → HttpError → Reply
abort w path s e = (remove_file w path s, raised e)

-- `os.path.splitext(filename)[1]`, of a name without a slash: from its last dot on, but for leading dots.
unfoldable pub last_ext : Str → Str → Str
last_ext best [] = best
last_ext best (c ∷ s) = last_ext (if c == b'.' then c ∷ s else best) s

unfoldable pub ext_of : Str → Str
ext_of filename = last_ext [] (lstrip_dots filename)

-- The archive's URI; `none` also where the storage client raises, which the caller logs.
unfoldable pub upload_to_gcs_archive : UploadWorld → ℕ → ℕ → Str → Option Str
upload_to_gcs_archive w store_id document_id filename =
    if truthy w.archive_bucket && w.archive_works
    then some (
        codes "gs://"
        ++ or_else w.archive_bucket []
        ++ b'/' ∷ show store_id
        ++ b'/' ∷ show document_id
        ++ ext_of filename)
    else none

unfoldable pub with_archive : UploadWorld → Document → Document
with_archive w d = elim (upload_to_gcs_archive w d.store_id d.id d.filename) [
  | none ↦ d
  | some uri ↦ record d { gcs_uri = some (take 512 uri) }
]

abbrev pub unavailable : HttpError
unavailable = http 503 "Ingestion service busy/unavailable. Please try again later."

unfoldable pub safe_name : UploadRequest → Str
safe_name r = sanitize_name (or_else r.filename (codes "file")) 128

unfoldable pub upload_path : UploadWorld → UploadRequest → Str
upload_path w r = tmp_path w.tmp_dir w.unique (safe_name r)

unfoldable pub new_document : UploadWorld → UploadRequest → Store → ℕ → Document
new_document w r store size = record {
  id = w.new_id;
  store_id = store.id;
  filename = safe_name r;
  display_name = r.display_name;
  size_bytes = size;
  status = pending;
  status_updated_at = w.now;
  op_name = none;
  gcs_uri = none;
  gemini_file_id = none;
  last_error = none;
  deleted_at = none;
  deleted_by = none;
  created_at = w.now;
}

abbrev pub add_document : Document → Database → Database
add_document d db = record db { documents = d ∷ db.documents }

-- `idx_result`, its tokens and its cost.
unfoldable pub index_result : UploadWorld → UploadRequest → ℕ → ℕ × ℕ
index_result w r size =
    let tokens = estimate_tokens_from_bytes size (some (normalized_type r.content_type)) in
    calc_index_cost w.prices w.default_model (some tokens) none

unfoldable pub response : UploadWorld → UploadRequest → ℕ → UploadResponse
response w r size =
    let (counted, cost) = index_result w r size in
    record {
      op_id = codes "doc-" ++ show w.new_id;
      document_id = w.new_id;
      file_display_name = or_else r.display_name (safe_name r);
      estimated_tokens = counted;
      estimated_cost_usd = cost;
    }

-- A commit that fails: what was committed before stays, and so does the temporary file.
abbrev pub uncommitted : Server → Reply
uncommitted s = (s, raised (http 500 "Internal Server Error"))

-- From `enqueue_error` on; the row is in the database.
unfoldable pub enqueue : UploadWorld → UploadRequest → Store → ℕ → Document → Server → Reply
enqueue w r store size doc s =
    if w.has_queue && w.queue_works
    then (
      record s {
        jobs =
            record { store_id = store.id; document_id = doc.id; path = upload_path w r } ∷ s.jobs;
      },
      answered (response w r size),
    )
    else if not w.error_commits
    then uncommitted s
    else abort w (upload_path w r)
        (record s { db = write_document (set_status w.now error doc) s.db }) unavailable

-- There is an archive's URI to commit.
unfoldable pub is_archived : UploadWorld → Document → Bool
is_archived w d = elim (upload_to_gcs_archive w d.store_id d.id d.filename) [
  | none ↦ false
  | some uri ↦ true
]

-- From `doc = Document(…)` on.
unfoldable pub register : UploadWorld → UploadRequest → Store → ℕ → Server → Reply
register w r store size s =
    let new = new_document w r store size in
    let doc = with_archive w new in
    if not w.row_commits
    then uncommitted s
    else if is_archived w new && not w.uri_commits
    then uncommitted (record s { db = add_document new s.db })
    else enqueue w r store size doc (record s { db = add_document doc s.db })

unfoldable pub over_budget : UploadWorld → UploadRequest → ℕ → Server → Bool
over_budget w r size s =
    let cost = (index_result w r size).1 in
    (ltb 0 cost || ltb 0 w.budget_hold)
    && would_exceed_budget w.month_start s.db r.user_id (cost + w.budget_hold)

-- The budget check.
unfoldable pub check_cost : UploadWorld → UploadRequest → Store → ℕ → Server → Reply
check_cost w r store size s =
    if over_budget w r size s
    then abort w (upload_path w r) s (http 402 "Monthly budget exceeded")
    else register w r store size s

-- The file is not what its declared type says.
unfoldable pub is_mismatch : UploadWorld → UploadRequest → List ℕ → Bool
is_mismatch w r content =
    let mime = normalized_type r.content_type in
    not (is_empty mime)
    && is_one_of mime magic_checked_mimes
    && not (validate_file_magic (if w.readable then some content else none) mime)

-- The magic numbers, after the file is saved.
unfoldable pub check_magic : UploadWorld → UploadRequest → Store → List ℕ → Server → Reply
check_magic w r store content s =
    if is_mismatch w r content
    then abort w (upload_path w r) s (http 415 "File content does not match declared type")
    else check_cost w r store (length content) s

unfoldable pub after_receive : UploadWorld → UploadRequest → Store → Server → Received → Reply
after_receive w r store s (received content) = check_magic w r store content s
after_receive w r store s too_large = abort w (upload_path w r) s (http 413 "File too large")
after_receive w r store s failed = abort w (upload_path w r) s (http 500 "Internal Server Error")

-- The temporary file is created where no file has its name.
unfoldable pub save : UploadWorld → UploadRequest → Store → Server → Reply
save w r store s =
    let path = upload_path w r in
    if any (eq_str path) s.files
    then (s, raised (http 500 "Internal Server Error"))
    else after_receive w r store (record s { files = path ∷ s.files })
        (receive w.max_bytes [] r.chunks)

unfoldable pub check_type : UploadWorld → UploadRequest → Server → Outcome Store → Reply
check_type w r s (raised e) = (s, raised e)
check_type w r s (answered store) =
    if allowed_type w.allowed r.content_type
    then save w r store s
    else (s, raised (http 415 "Unsupported media type"))

unfoldable pub upload : UploadWorld → UploadRequest → Server → Reply
upload w r s =
    if not (is_bearer r.authorization)
    then (s, raised (http 401 "Missing bearer token"))
    else if not w.within_rate
    then (s, raised (http 429 "Rate limit exceeded"))
    else check_type w r s (require_store_owned_by_user s.db r.store_id r.user_id)
