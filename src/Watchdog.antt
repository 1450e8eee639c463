-- ===== src/Watchdog.antt =====
-- backend/app/worker.py, `_reset_stuck_documents`, and backend/app/routes/admin.py,
-- `admin_reset_stuck`: documents that have been running for too long are freed. The rate limit, the
-- audit entry and the logs of the route are left out.
pub mod Freed
mod Tests
use rag_foundation.Common.{
  ℕ, zero, suc, ◌+◌, ◌-◌, ◌≡◌, Bool, true, false, ◌&&◌, List, [], ◌∷◌, Option, none, some, ltb,
  ◌==◌, if◌then◌else◌, any, keep, length,
}
use rag_foundation.Models.{
  DocumentStatus, pending, running, error, is_status, Store, Document, Database, is_none,
  set_status, update_documents,
}

-- The join with `stores`: a row with the document's store id that is not deleted, of one user if the
-- request names one.
unfoldable pub is_in_use : Option ℕ → ℕ → Store → Bool
is_in_use none store_id s = s.id == store_id && is_none s.deleted_at
is_in_use (some u) store_id s = s.id == store_id && is_none s.deleted_at && s.user_id == u

-- The filter of both queries. `status_updated_at` is not null.
unfoldable pub is_stuck : ℕ → Option ℕ → List Store → Document → Bool
is_stuck cutoff user stores d =
    is_status d.status running
    && ltb d.status_updated_at cutoff
    && any (is_in_use user d.store_id) stores
    && is_none d.deleted_at

-- `doc.set_status(…); doc.op_name = None`
unfoldable pub free : ℕ → DocumentStatus → Document → Document
free now st d = record (set_status now st d) { op_name = none }

-- The cron task of the worker.
unfoldable pub reset_stuck_documents : ℕ → ℕ → Database → Database
reset_stuck_documents now ttl db = record db {
  documents = update_documents (is_stuck (now - ttl) none db.stores) (free now error) db.documents;
}

-- `if body.user_id:`, which 0 does not pass.
unfoldable pub named_user : Option ℕ → Option ℕ
named_user none = none
named_user (some zero) = none
named_user (some (suc u)) = some (suc u)

-- The route: the database and the number of documents that were reset.
unfoldable pub admin_reset_stuck : ℕ → ℕ → Option ℕ → Database → Database × ℕ
admin_reset_stuck now ttl user_id db =
    let test = is_stuck (now - ttl) (named_user user_id) db.stores in
    (
      record db { documents = update_documents test (free now pending) db.documents },
      length (keep test db.documents),
    )
