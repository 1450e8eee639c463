-- ===== src/Uploads/Settles.antt =====
-- backend/app/routes/uploads.py, `upload`, then backend/app/services/ingestion.py: the worker brings an
-- accepted upload to an end.
use rag_foundation.Common.{◌≡◌, sym, ap, ◌∙◌, inl, true, [], ◌∷◌, some, arith, subst, if◌then◌else◌}
use rag_foundation.Common.Http.{answered}
use rag_foundation.Models.{Store, Document, Database, get_document}
use rag_foundation.Models.Rows.{DistinctIds, get_store-keyed}
use rag_foundation.Tenant.Owned.{Owns, required-Owns}
use rag_foundation.Ingestion.Guarantees.{HasTime}
use rag_foundation.Ingestion.Job.{World, Run, run_ingestion_sync}
use rag_foundation.Ingestion.Outcome.{IsSettled}
use rag_foundation.Ingestion.Settles.{IsWaiting, run_settles}
use rag_foundation.Uploads.Leaks.{IsWorking, IsAccepted, Leaves, upload-Leaves}
use rag_foundation.Uploads.Route.{
  Job, Server, UploadRequest, UploadWorld, UploadResponse, upload, upload_path,
}

-- A worker that starts on a database.
abbrev pub worker_on : Database → Run
worker_on db = record { db = db; uploads = 0; deleted_files = []; removed_paths = [] }

-- What the job of the upload does, when a worker takes it.
abbrev pub Settles : World → Server → Server → UploadResponse → Type 0
Settles run s t a =
    (j : Job) × (t.jobs ≡ j ∷ s.jobs)
    × ((end : Run) × (run_ingestion_sync run j.store_id j.document_id j.path (worker_on t.db)
          ≡ some end)
        × ((d : Document) × (get_document a.document_id end.db.documents ≡ some d) × IsSettled d)
        × (end.removed_paths ≡ j.path ∷ [])
        × (t.files ≡ j.path ∷ s.files))

accepted-IsWaiting :
    (w : UploadWorld) (r : UploadRequest) (db : Database) (store : Store) (doc : Document)
    → DistinctIds db.stores
    → Owns db r.user_id r.store_id store
    → IsAccepted w r store doc
    → IsWaiting store.id doc.id (record db { documents = doc ∷ db.documents })
unfolding get_document
accepted-IsWaiting w r db store doc keyed owns ok = record {
  doc = doc;
  store = store;
  row = ground arith;
  alive = ok.alive;
  store_row = get_store-keyed db.stores store keyed owns.listed;
  store_alive = owns.alive;
  owned = sym ok.same_store;
  free = inl ok.waits;
}

-- Where no two stores have one id, the API's commits and removals work, and the worker can remove the
-- temporary file: after an upload that is answered with a working queue, the job at the head of the queue, run by a worker whose polling has time, returns, leaves
-- the row of the answered id done or failed, and removes the temporary file of the upload.
pub upload-Settles :
    (w : UploadWorld) (r : UploadRequest) (s t : Server) (a : UploadResponse) (run : World)
    → IsWorking w
    → DistinctIds s.db.stores
    → upload w r s ≡ (t, answered a)
    → HasTime run
    → run.removable ≡ true
    → Settles run s t a
unfolding Leaves
upload-Settles w r s t a run works keyed h time removable =
    settles (subst (Leaves w r s) h (upload-Leaves w r s works))
  where
    settles : Leaves w r s (t, answered a) → Settles run s t a
    settles (store, owned, (doc, ok, db, id, op, files, jobs)) =
        let waiting = subst (IsWaiting store.id doc.id) (sym db) (
          accepted-IsWaiting w r s.db store doc keyed
            (required-Owns s.db r.store_id r.user_id store owned) ok) in
        let (end, returned, (d, row, settled), removed) =
          run_settles run store.id doc.id (upload_path w r) (worker_on t.db) time waiting in
        let same : a.document_id ≡ doc.id = id ∙ sym ok.same_id in
        (
          record { store_id = store.id; document_id = doc.id; path = upload_path w r },
          jobs,
          (
            end,
            returned,
            (d, ap (λ i. get_document i end.db.documents) same ∙ row, settled),
            removed ∙ ap (λ b. if b then upload_path w r ∷ [] else []) removable,
            files,
          ),
        )
