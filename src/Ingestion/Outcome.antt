-- ===== src/Ingestion/Outcome.antt =====
-- backend/app/services/ingestion.py, `run_ingestion_sync`: how a run ends.
use rag_foundation.Common.{
  ℕ, ◌+◌, ◌≤◌, ◌≡◌, refl, ◌∙◌, ◌⊎◌, inl, inr, Option, none, some, if◌then◌else◌, arith,
  Option-cases, length,
}
use rag_foundation.Common.Str.{Str, codes}
use rag_foundation.Models.{
  done, error, is_status, Store, Document, Database, set_status, touch_status, get_document,
  write_document,
}
use rag_foundation.Ingestion.Wait.{
  Waited, completed, timed_out, failed, wait_for_operation_completion,
}
use rag_foundation.Ingestion.Sanitize.{sanitize_error, length-sanitize_error-le}
use rag_foundation.Ingestion.Job.{
  World, Run, transfer, settle, with_error, log_index_cost, ingest, cleaned, conclude,
  run_ingestion_sync,
}
use rag_foundation.Ingestion.Claims.{Claimed, claim_cases}
use rag_foundation.Ingestion.Transfers.{transfer-id}

-- A document at the end of a run that claimed it: done, or failed with a bounded text.
unfoldable pub IsSettled : Document → Type 0
IsSettled d =
    ((d.status ≡ done) × (d.last_error ≡ none))
    ⊎ ((d.status ≡ error) × ((text : Str) × (d.last_error ≡ some text) × (length text ≤ 500)))

pub log_index_cost-documents :
    (w : World) (store : Store) (doc : Document) (db : Database)
    → (log_index_cost w store doc db).documents ≡ db.documents
unfolding log_index_cost
log_index_cost-documents w store doc db = ground arith

settle-IsSettled : (w : World) (e : Waited) (d : Document) → IsSettled (settle w e d)
unfolding settle IsSettled set_status
settle-IsSettled w completed d = inl (refl, refl)
settle-IsSettled w (timed_out t) d =
    inr
      (refl, (sanitize_error (w.timeout_text t), refl, length-sanitize_error-le (w.timeout_text t)))
settle-IsSettled w (failed e) d =
    inr
      (refl, (sanitize_error (w.failure_text e), refl, length-sanitize_error-le (w.failure_text e)))

settle-id : (w : World) (e : Waited) (d : Document) → (settle w e d).id ≡ d.id
unfolding settle set_status
settle-id w completed d = refl
settle-id w (timed_out t) d = refl
settle-id w (failed e) d = refl

settle-op_name : (w : World) (e : Waited) (d : Document) → (settle w e d).op_name ≡ d.op_name
unfolding settle set_status
settle-op_name w completed d = refl
settle-op_name w (timed_out t) d = refl
settle-op_name w (failed e) d = refl

-- How `ingest` leaves the run `r` of a document: one row is written, and the index cost is logged
-- exactly if that row is done.
pub record Ended (w : World) (store : Store) (doc : Document) (r end : Run) : Type 0 where
  pub final : Document
  pub same_id : final.id ≡ doc.id
  pub settled : IsSettled final
  pub op_name : final.op_name ≡ (transfer w doc).document.op_name
  pub uploads : end.uploads ≡ r.uploads + (transfer w doc).uploads
  pub written : end.db ≡ (
      if is_status final.status done
      then log_index_cost w store final (write_document final r.db)
      else write_document final r.db)
  pub paths : end.removed_paths ≡ r.removed_paths

-- The ways through `ingest`: the polling runs out of fuel, or the document is settled.
pub ingest_cases {ℓ} :
    (P : Option Run → Type ℓ) (w : World) (store : Store) (doc : Document) (r : Run)
    → (wait_for_operation_completion w.fuel w.timeout w.gemini ≡ none → P none)
    → ((end : Run) → Ended w store doc r end → P (some end))
    → P (ingest w store doc r)
unfolding ingest set_status is_status IsSettled
ingest_cases P w store doc r stuck ended = elim (Option-cases (transfer w doc).failure) [
  | inr (text, e) ↦
      let cleaned_text = sanitize_error text in
      rw (e, ingest)
        (ended _ (record {
          final = with_error cleaned_text w.finished_at (transfer w doc).document;
          same_id = failed-id cleaned_text;
          settled = failed-IsSettled text;
          op_name = failed-op_name cleaned_text;
          uploads = refl;
          written = failed-written cleaned_text;
          paths = refl;
        }))
  | inl e ↦ elim (Option-cases (wait_for_operation_completion w.fuel w.timeout w.gemini)) [
    | inl dry ↦ rw (e, ingest, dry) (stuck dry)
    | inr (result, over) ↦
        rw (e, ingest, over)
          (ended _ (record {
            final = settle w result (transfer w doc).document;
            same_id = settle-id w result (transfer w doc).document ∙ (transfer-id w doc).0;
            settled = settle-IsSettled w result (transfer w doc).document;
            op_name = settle-op_name w result (transfer w doc).document;
            uploads = refl;
            written = refl;
            paths = refl;
          }))
  ]
]
  where
    failed-id : (text : Str) → (with_error text w.finished_at (transfer w doc).document).id ≡ doc.id
    failed-id text = (transfer-id w doc).0

    failed-op_name :
        (text : Str)
        → (with_error text w.finished_at (transfer w doc).document).op_name
          ≡ (transfer w doc).document.op_name
    failed-op_name text = refl

    failed-IsSettled :
        (text : Str)
        → IsSettled (with_error (sanitize_error text) w.finished_at (transfer w doc).document)
    failed-IsSettled text = inr (refl, (sanitize_error text, refl, length-sanitize_error-le text))

    failed-written :
        (text : Str)
        → let f = with_error text w.finished_at (transfer w doc).document in
          write_document f r.db ≡ (
            if is_status f.status done
            then log_index_cost w store f (write_document f r.db)
            else write_document f r.db)
    failed-written text = refl

-- A run of which the first transaction claimed `doc`, where the row was `old`.
pub record Finished (w : World) (store_id i : ℕ) (path : Str) (r end : Run) : Type 0 where
  pub store : Store
  pub old : Document
  pub doc : Document
  pub claim_of : Claimed w.claimed_at store_id i r.db store old doc
  pub last : Run
  pub ended : Ended w store doc (record r { db = write_document doc r.db }) last
  pub closed : end ≡ cleaned w path last

-- The ways through a run: it claims nothing and leaves the rows but for the time of a heartbeat or an
-- error, or it settles the document, or the fuel of its polling runs out.
pub run_cases {ℓ} :
    (P : Option Run → Type ℓ) (w : World) (store_id i : ℕ) (path : Str) (r : Run)
    → (wait_for_operation_completion w.fuel w.timeout w.gemini ≡ none → P none)
    → P (some (cleaned w path r))
    → ((d : Document)
        → get_document i r.db.documents ≡ some d
        → P (
            some (
              cleaned w path
                (record r { db = write_document (touch_status w.claimed_at d) r.db }))))
    → ((d : Document)
        → get_document i r.db.documents ≡ some d
        → P (
            some (
              cleaned w path (record r {
                db =
                    write_document
                      (with_error (codes "Store missing or deleted") w.claimed_at d)
                      r.db;
              }))))
    → ((end : Run) → Finished w store_id i path r end → P (some end))
    → P (run_ingestion_sync w store_id i path r)
unfolding run_ingestion_sync conclude
run_cases P w store_id i path r stuck keep touch orphan finish =
    claim_cases (λ c. P (conclude w path r c)) w.claimed_at store_id i r.db keep touch orphan
      (λ store old doc c.
        ingest_cases (λ o. P (elim o [ none ↦ none | some end ↦ some (cleaned w path end) ])) w
          store doc (record r { db = write_document doc r.db }) stuck
          (λ last ended. finish (cleaned w path last) (record {
            store = store;
            old = old;
            doc = doc;
            claim_of = c;
            last = last;
            ended = ended;
            closed = refl;
          })))
