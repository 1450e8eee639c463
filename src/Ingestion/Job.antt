-- ===== src/Ingestion/Job.antt =====
-- backend/app/services/ingestion.py, `run_ingestion_sync`: claim a document, upload it, wait for the
-- operation and record how it ended. Each part is one database transaction of the source. What
-- Gemini and the clock answer comes from outside.
use rag_foundation.Common.{
  ℕ, ◌+◌, Bool, not, ◌&&◌, ◌||◌, List, [], ◌∷◌, ◌++◌, Option, none, some, ◌==◌, if◌then◌else◌, take,
}
use rag_foundation.Common.Str.{Str, codes, truthy, or_else}
use rag_foundation.Models.{
  running, done, error, is_status, Store, Document, Database, is_none, set_status, touch_status,
  get_document, get_store, write_document,
}
use rag_foundation.Costs.Price.{estimate_tokens_from_bytes}
use rag_foundation.Costs.Rates.{PriceSettings, calc_index_cost}
use rag_foundation.Ingestion.Sanitize.{sanitize_error}
use rag_foundation.Ingestion.Wait.{
  Gemini, Waited, completed, timed_out, failed, wait_for_operation_completion,
}

-- What `_upload_file_with_retry` gives in the end: the operation's name and the file's id, or the
-- text of an exception.
pub data UploadAnswer : Type 0 where
  uploaded : Str → Option Str → UploadAnswer
  upload_raised : Str → UploadAnswer

-- The settings and the outside world of one run: the times of its three transactions, an error of
-- `get_rag_client`, the upload, the file id recovered from the operation's status, the polling,
-- the texts of the exceptions that `_wait_for_operation_completion` raises, and whether `os.remove` takes
-- the temporary file away, or finds it gone.
pub record World : Type 0 where
  pub prices : PriceSettings
  pub default_model : Str
  pub timeout : ℕ
  pub fuel : ℕ
  pub claimed_at : ℕ
  pub finished_at : ℕ
  pub client_error : Option Str
  pub upload : UploadAnswer
  pub recovered_file_id : Option Str
  pub gemini : Gemini
  pub timeout_text : ℕ → Str
  pub failure_text : Option Str → Str
  pub removable : Bool

-- The database, and what a run did outside of it.
pub record Run : Type 0 where
  pub db : Database
  pub uploads : ℕ
  pub deleted_files : List Str
  pub removed_paths : List Str

pub data Claim : Type 0 where
  skipped : Claim
  claimed : Store → Document → Claim

-- `not store or store.deleted_at is not None or store.id != document.store_id`
unfoldable pub usable_store : Document → Option Store → Option Store
usable_store doc none = none
usable_store doc (some s) = if is_none s.deleted_at && s.id == doc.store_id then some s else none

abbrev pub with_error : Str → ℕ → Document → Document
with_error text now d = set_status now error (record d { last_error = some text })

-- The tests on a document of a usable store, from `ingest_already_done` on.
unfoldable pub claim_document : ℕ → Store → Document → Database → Database × Claim
claim_document now store doc db =
    if is_status doc.status done && not (truthy doc.op_name)
    then (db, skipped)
    else if truthy doc.op_name && (is_status doc.status running || is_status doc.status done)
    then (write_document (touch_status now doc) db, skipped)
    else if is_status doc.status running
    then (db, skipped)
    else let next = set_status now running (record doc { last_error = none }) in
      (write_document next db, claimed store next)

-- The first transaction.
unfoldable pub claim : ℕ → ℕ → ℕ → Database → Database × Claim
claim now store_id document_id db = elim (get_document document_id db.documents) [
  | none ↦ (db, skipped)
  | some doc ↦
      if not (is_none doc.deleted_at)
      then (db, skipped)
      else elim (usable_store doc (get_store store_id db.stores)) [
        | none ↦
            (write_document (with_error (codes "Store missing or deleted") now doc) db, skipped)
        | some store ↦ claim_document now store doc db
      ]
]

-- The second transaction: the document, the operation's name, the id of a file uploaded in this run,
-- and the text of the exception that ended it.
pub record Transfer : Type 0 where
  pub document : Document
  pub op_name : Option Str
  pub uploaded_file_id : Option Str
  pub uploads : ℕ
  pub failure : Option Str

-- The file id that an upload leaves on the document.
unfoldable pub store_file_id : Option Str → Option Str → Document → Document × Option Str
store_file_id file_id recovered doc =
    if truthy file_id && not (truthy doc.gemini_file_id)
    then (
      record doc { gemini_file_id = some (take 255 (or_else file_id [])) },
      some (take 255 (or_else file_id [])),
    )
    else if not (truthy file_id) && truthy recovered
    then (
      record doc { gemini_file_id = some (take 255 (or_else recovered [])) },
      some (take 255 (or_else recovered [])),
    )
    else (doc, none)

unfoldable pub check_op_name : Transfer → Transfer
check_op_name t =
    if truthy t.op_name
    then t
    else record t { failure = some (codes "Gemini ingestion did not return an operation name") }

unfoldable pub transfer : World → Document → Transfer
transfer w doc = elim w.client_error [
  | some text ↦ record {
    document = doc;
    op_name = none;
    uploaded_file_id = none;
    uploads = 0;
    failure = some text;
  }
  | none ↦
      if truthy doc.op_name
      then record {
        document = doc;
        op_name = doc.op_name;
        uploaded_file_id = none;
        uploads = 0;
        failure = none;
      }
      else elim w.upload [
        | upload_raised text ↦ record {
          document = doc;
          op_name = none;
          uploaded_file_id = none;
          uploads = 1;
          failure = some text;
        }
        | uploaded name file_id ↦
            let op = take 255 name in
            let (doc', fid) =
              store_file_id file_id w.recovered_file_id (record doc { op_name = some op }) in
            check_op_name (record {
              document = doc';
              op_name = some op;
              uploaded_file_id = fid;
              uploads = 1;
              failure = none;
            })
      ]
]

-- The document after the third transaction.
unfoldable pub settle : World → Waited → Document → Document
settle w (timed_out t) d = with_error (sanitize_error (w.timeout_text t)) w.finished_at d
settle w (failed e) d = with_error (sanitize_error (w.failure_text e)) w.finished_at d
settle w completed d = set_status w.finished_at done (record d { last_error = none })

-- `_log_index_cost`
unfoldable pub log_index_cost : World → Store → Document → Database → Database
log_index_cost w store doc db =
    let tokens = estimate_tokens_from_bytes doc.size_bytes none in
    let (_, cost) = calc_index_cost w.prices w.default_model (some tokens) none in
    if cost == 0 then db else record db {
      query_logs =
          record {
            user_id = store.user_id;
            store_id = some store.id;
            prompt_tokens = some tokens;
            completion_tokens = none;
            cost_usd = cost;
            model = some (codes "INDEX");
            created_at = w.finished_at;
          }
          ∷ db.query_logs;
    }

abbrev pub to_list : Option Str → List Str
to_list none = []
to_list (some s) = if truthy (some s) then s ∷ [] else []

-- The run after its claim; `none` means that the fuel of the polling ran out.
unfoldable pub ingest : World → Store → Document → Run → Option Run
ingest w store doc r =
    let t = transfer w doc in
    let sent = record r { uploads = r.uploads + t.uploads } in
    elim t.failure [
      | some text ↦ some (record sent {
        db = write_document (with_error (sanitize_error text) w.finished_at t.document) r.db;
        deleted_files = to_list t.uploaded_file_id ++ r.deleted_files;
      })
      | none ↦ elim (wait_for_operation_completion w.fuel w.timeout w.gemini) [
        | none ↦ none
        | some ended ↦
            let final = settle w ended t.document in
            let saved = write_document final r.db in
            some (record sent {
              db =
                  if is_status final.status done then log_index_cost w store final saved else saved;
            })
      ]
    ]

-- `finally: _cleanup_temp_file(local_path)`, which only logs that the path could not be removed.
abbrev pub cleaned : World → Str → Run → Run
cleaned w path r = record r {
  removed_paths = if w.removable then path ∷ r.removed_paths else r.removed_paths;
}

-- The rest of the run, once its first transaction is over.
unfoldable pub conclude : World → Str → Run → Database × Claim → Option Run
conclude w path r (db, skipped) = some (cleaned w path (record r { db = db }))
conclude w path r (db, claimed store doc) = elim (ingest w store doc (record r { db = db })) [
  | none ↦ none
  | some end ↦ some (cleaned w path end)
]

unfoldable pub run_ingestion_sync : World → ℕ → ℕ → Str → Run → Option Run
run_ingestion_sync w store_id document_id path r =
    conclude w path r (claim w.claimed_at store_id document_id r.db)
