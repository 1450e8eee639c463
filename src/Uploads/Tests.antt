-- ===== src/Uploads/Tests.antt =====
-- Uploads at concrete inputs: one small text file into one store.
use rag_foundation.Common.{ℕ, ◌≡◌, refl, true, false, List, [], ◌∷◌, Option, none, some, arith}
use rag_foundation.Common.Decimal.{digits_before, show, read_digits, read_signed, int}
use rag_foundation.Common.Http.{raised, answered}
use rag_foundation.Common.Sort.{insert_row, order_by}
use rag_foundation.Common.Str.{
  Str, codes, eq_str, starts_with, is_space, lstrip, strip, lower, to_lower,
}
use rag_foundation.Costs.Budget.{
  spend_since, mtd_spend, find_budget, user_budget, would_exceed_budget,
}
use rag_foundation.Costs.Price.{quantize, token_cost, estimate_tokens_from_bytes, index_cost}
use rag_foundation.Costs.Rates.{
  find_model, candidate, longest_prefix, rates_for, pick, resolve_model_rates, calc_index_cost,
}
use rag_foundation.FileTypes.{is_one_of, gemini_supported_mimes}
use rag_foundation.Ingestion.Sample.{doc, db, prices, world, has_time}
use rag_foundation.Ingestion.Wait.{polled}
use rag_foundation.Models.{
  pending, done, is_status, Document, Database, set_status, get_document, put_document,
  write_document,
}
use rag_foundation.Tenant.{
  is_usable, is_reachable, require_store_owned_by_user, require_document_owned_by_user,
}
use rag_foundation.Common.{find}
use rag_foundation.Uploads.Answers.{op_status-upload, op_status_final}
use rag_foundation.Uploads.Clean.{IsSafeName, sanitize_name-IsSafeName}
use rag_foundation.Uploads.Leaks.{IsWorking, Leaves, upload-Leaves}
use rag_foundation.Uploads.Magic.{occurs_in, validate_file_magic}
use rag_foundation.Uploads.Name.{
  after_slash, basename, is_name_char, sub_unsafe, underscore, lstrip_dots, sanitize_name,
  ends_with_slash, join_path, tmp_path,
}
use rag_foundation.Uploads.Receive.{receive}
use rag_foundation.Uploads.Route.{
  Server, UploadRequest, UploadWorld, UploadResponse, Reply, is_bearer, remove_path, remove_file,
  last_ext, ext_of, upload_to_gcs_archive, with_archive, safe_name, upload_path, new_document,
  index_result, response, enqueue, is_archived, register, over_budget, check_cost, is_mismatch,
  check_magic, after_receive, save, check_type, upload,
}
use rag_foundation.Uploads.Settles.{Settles, upload-Settles}
use rag_foundation.Uploads.Status.{
  find_operation, is_over, final_error, advance, shown, poll_remote, report, op_status_of,
  op_status,
}
use rag_foundation.Uploads.Types.{
  custom, text_le, lowered, profile_mimes, apply_upload_profile, before_semicolon, normalized_type,
  allowed_type, allowed_type-supported,
}

program : Unit {0}
unfolding digits_before show read_digits read_signed int insert_row order_by eq_str starts_with
    is_space lstrip strip lower to_lower spend_since mtd_spend find_budget user_budget
    would_exceed_budget quantize token_cost estimate_tokens_from_bytes index_cost find_model
    candidate longest_prefix rates_for pick resolve_model_rates calc_index_cost is_status set_status
    get_document put_document write_document is_usable is_reachable require_store_owned_by_user
    require_document_owned_by_user find occurs_in validate_file_magic after_slash basename
    is_name_char sub_unsafe underscore lstrip_dots sanitize_name ends_with_slash join_path tmp_path
    receive is_bearer remove_path remove_file last_ext ext_of upload_to_gcs_archive with_archive
    safe_name upload_path new_document index_result response enqueue is_archived register
    over_budget check_cost is_mismatch check_magic after_receive save check_type upload
    find_operation is_over final_error advance shown poll_remote report op_status_of op_status
    text_le lowered profile_mimes apply_upload_profile before_semicolon normalized_type allowed_type
program = tt

abbrev served : UploadWorld
served = record {
  allowed = codes "text/plain" ∷ codes "application/pdf" ∷ [];
  tmp_dir = codes "/tmp";
  max_bytes = 4;
  prices = prices;
  default_model = codes "gemini-2.5-flash";
  budget_hold = 0;
  month_start = 1;
  archive_bucket = some (codes "keep");
  within_rate = true;
  unique = codes "0a1b2c3d";
  readable = true;
  removable = true;
  row_commits = true;
  uri_commits = true;
  error_commits = true;
  archive_works = true;
  has_queue = true;
  queue_works = true;
  new_id = 12;
  now = 9;
}

abbrev request : UploadRequest
request = record {
  authorization = some (codes "Bearer t");
  user_id = 1;
  store_id = 3;
  filename = some (codes "../my notes.txt");
  content_type = some (codes "Text/Plain; charset=utf-8");
  chunks = some (104 ∷ 105 ∷ []) ∷ some [] ∷ [];
  display_name = none;
}

abbrev before : Server
before = record { db = db; files = []; jobs = [] }

abbrev status_of : Reply → ℕ
status_of (s, raised e) = e.status
status_of (s, answered a) = 200

abbrev archived : Reply → List (Option Str)
archived (s, o) = elim s.db.documents [ [] ↦ [] | d ∷ ds ↦ d.gcs_uri ∷ [] ]

abbrev files_of : Reply → List Str
files_of (s, o) = s.files

cleaned_name : sanitize_name (codes "../.my notes?!.txt") 128 ≡ codes "my_notes_.txt"
unfolding program
cleaned_name = refl

accepted_status : status_of (upload served request before) ≡ 200
unfolding program
accepted_status = refl

archived_as : archived (upload served request before) ≡ some (codes "gs://keep/3/12.txt") ∷ []
unfolding program
archived_as = refl

kept_file : files_of (upload served request before) ≡ codes "/tmp/0a1b2c3d_my_notes.txt" ∷ []
unfolding program
kept_file = refl

too_large_status :
    status_of (
      upload served
        (record request { chunks = some (1 ∷ 2 ∷ 3 ∷ []) ∷ some (4 ∷ 5 ∷ []) ∷ [] })
        before)
    ≡ 413
unfolding program
too_large_status = refl

no_pdf_status :
    status_of
      (upload served (record request { content_type = some (codes "application/pdf") }) before)
    ≡ 415
unfolding program
no_pdf_status = refl

no_queue_files : files_of (upload (record served { has_queue = false }) request before) ≡ []
unfolding program
no_queue_files = refl

abbrev reply : UploadResponse
reply = record {
  op_id = codes "doc-12";
  document_id = 12;
  file_display_name = codes "my_notes.txt";
  estimated_tokens = 0;
  estimated_cost_usd = 0;
}

abbrev state_of : Reply → Server
state_of (s, o) = s

accepted_reply :
    upload served request before ≡ (state_of (upload served request before), answered reply)
unfolding program
accepted_reply = refl

abbrev served_works : IsWorking served
served_works = record {
  removable = refl;
  row_commits = refl;
  uri_commits = refl;
  error_commits = refl;
}

-- A failing commit of the new row leaves the temporary file.
uncommitted_file :
    files_of (upload (record served { row_commits = false }) request before)
    ≡ codes "/tmp/0a1b2c3d_my_notes.txt" ∷ []
unfolding program
uncommitted_file = refl

uncommitted_status : status_of (upload (record served { uri_commits = false }) request before) ≡ 500
unfolding program
uncommitted_status = refl

upload-Leaves_example : Leaves served request before (upload served request before)
upload-Leaves_example = upload-Leaves served request before served_works

upload-Settles_example : Settles world before (state_of (upload served request before)) reply
upload-Settles_example =
    upload-Settles served request before (state_of (upload served request before)) reply world
      served_works (tt, tt) accepted_reply has_time refl

op_status-upload_example :
    op_status 20
      (some (polled none true))
      (state_of (upload served request before)).db
      1
      (codes "doc-12")
    ≡ (
      (state_of (upload served request before)).db,
      answered (record { status = pending; error = none }),
    )
op_status-upload_example =
    op_status-upload served request before (state_of (upload served request before)) reply 20
      (some (polled none true)) served_works accepted_reply

abbrev finished : Document
finished = record doc { status = done; op_name = some (codes "operations/1") }

abbrev finished_db : Database
finished_db = record db { documents = finished ∷ [] }

finished_row : get_document 7 finished_db.documents ≡ some finished
unfolding program
finished_row = refl

finished_over : is_over finished.status ≡ true
unfolding program
finished_over = refl

op_status_final_example :
    get_document 7
      (op_status 20
        (some (polled (some (codes "late")) false))
        finished_db
        1
        (codes "doc-7")).0.documents
    ≡ some finished
op_status_final_example =
    op_status_final 20 (some (polled (some (codes "late")) false)) finished_db 1 (codes "doc-7") 7
      finished (tt, tt) finished_row finished_over

sanitize_name-IsSafeName_example : IsSafeName 4 (sanitize_name (codes "a/../b c") 4)
sanitize_name-IsSafeName_example = sanitize_name-IsSafeName (codes "a/../b c") 4 (omega arith)

plain_profile :
    apply_upload_profile custom (codes "Text/Plain" ∷ []) ≡ some (codes "text/plain" ∷ [])
unfolding program
plain_profile = refl

plain_allowed : allowed_type (codes "text/plain" ∷ []) (some (codes "text/plain;x")) ≡ true
unfolding program
plain_allowed = refl

allowed_type-supported_example :
    is_one_of (normalized_type (some (codes "text/plain;x"))) gemini_supported_mimes ≡ true
allowed_type-supported_example =
    allowed_type-supported custom (codes "Text/Plain" ∷ []) (codes "text/plain" ∷ [])
      (some (codes "text/plain;x")) plain_profile plain_allowed
