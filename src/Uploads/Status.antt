-- ===== src/Uploads/Status.antt =====
-- backend/app/routes/uploads.py, `op_status`: how the ingestion of a document goes.
use rag_foundation.Common.{ℕ, zero, suc, Bool, ◌||◌, ◌++◌, Option, none, some, if◌then◌else◌, drop}
use rag_foundation.Common.Decimal.{Integer, plus, minus, int}
use rag_foundation.Common.Http.{Outcome, raised, answered, http}
use rag_foundation.Common.Str.{Str, codes, starts_with, truthy, or_else}
use rag_foundation.Ingestion.Wait.{PollAnswer, poll_raised, polled}
use rag_foundation.Models.{
  DocumentStatus, pending, running, done, error, is_status, Document, Database, set_status,
  write_document,
}
use rag_foundation.Tenant.{document_not_found, require_document_owned_by_user}

pub record OpStatus : Type 0 where
  pub status : DocumentStatus
  pub error : Option Str

abbrev pub StatusReply : Type 0
StatusReply = Database × Outcome OpStatus

-- The rows' ids are natural numbers: no row has a negative one.
unfoldable pub find_operation : Database → ℕ → Integer → Outcome Document
find_operation db user_id (plus i) = require_document_owned_by_user db i user_id
find_operation db user_id (minus zero) = require_document_owned_by_user db 0 user_id
find_operation db user_id (minus (suc _)) = raised document_not_found

unfoldable pub is_over : DocumentStatus → Bool
is_over st = is_status st done || is_status st error

unfoldable pub final_error : Document → Option Str
final_error doc =
    if is_status doc.status error
    then some (codes "Indexing failed: " ++ or_else doc.last_error (codes "Indexing error"))
    else none

-- The row after what Gemini says.
unfoldable pub advance : ℕ → Option Str → Bool → Document → Document
advance now e finished doc =
    if truthy e then set_status now error doc else if finished then set_status now done doc else doc

unfoldable pub shown : DocumentStatus → DocumentStatus
shown st = if is_status st pending then running else st

unfoldable pub poll_remote : ℕ → Database → Document → Option PollAnswer → StatusReply
poll_remote now db doc none = (db, raised (http 500 "Internal Server Error"))
poll_remote now db doc (some poll_raised) = (
  db,
  answered (record { status = running; error = some (codes "Status check failed; retrying") }),
)
poll_remote now db doc (some (polled e finished)) =
    let next = advance now e finished doc in
    (write_document next db, answered (record { status = shown next.status; error = e }))

unfoldable pub report : ℕ → Option PollAnswer → Database → Outcome Document → StatusReply
report now poll db (raised e) = (db, raised e)
report now poll db (answered doc) =
    if is_over doc.status
    then (db, answered (record { status = doc.status; error = final_error doc }))
    else if truthy doc.op_name
    then poll_remote now db doc poll
    else (db, answered (record { status = doc.status; error = none }))

unfoldable pub op_status_of : ℕ → Option PollAnswer → Database → ℕ → Option Integer → StatusReply
op_status_of now poll db user_id none = (db, raised (http 400 "Invalid op id format"))
op_status_of now poll db user_id (some i) = report now poll db (find_operation db user_id i)

-- `poll` is what `rag.op_status` answers, and `none` where there is no client.
unfoldable pub op_status : ℕ → Option PollAnswer → Database → ℕ → Str → StatusReply
op_status now poll db user_id op_id =
    if starts_with op_id (codes "doc-")
    then op_status_of now poll db user_id (int (drop 4 op_id))
    else (db, raised (http 400 "Invalid op id"))
