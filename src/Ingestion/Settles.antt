-- ===== src/Ingestion/Settles.antt =====
-- backend/app/services/ingestion.py, `run_ingestion_sync`: a waiting document is brought to an end.
use rag_foundation.Common.{
  ℕ, ◌≡◌, refl, sym, ap, ◌∙◌, ◌≢◌, ◌⊎◌, ◌∷◌, none, some, arith, subst, if◌then◌else◌,
}
use rag_foundation.Common.Str.{Str, codes}
use rag_foundation.Models.{
  pending, running, error, is_status, Store, Document, Database, set_status, touch_status,
  get_document, get_store, write_document,
}
use rag_foundation.Models.Rows.{get_document-put, get_document-id}
use rag_foundation.Ingestion.Job.{
  World, Run, claimed, claim, usable_store, claim_document, conclude, with_error, cleaned,
  run_ingestion_sync,
}
use rag_foundation.Ingestion.Claims.{Claimed, marked_running}
use rag_foundation.Ingestion.Outcome.{IsSettled, Finished, run_cases, ingest_cases}
use rag_foundation.Ingestion.Guarantees.{HasTime, run_total, Each, Finished-row}

-- A document that waits for ingestion, in a store that is in use.
pub record IsWaiting (store_id i : ℕ) (db : Database) : Type 0 where
  pub doc : Document
  pub store : Store
  pub row : get_document i db.documents ≡ some doc
  pub alive : doc.deleted_at ≡ none
  pub store_row : get_store store_id db.stores ≡ some store
  pub store_alive : store.deleted_at ≡ none
  pub owned : store.id ≡ doc.store_id
  pub free : (doc.status ≡ pending) ⊎ (doc.status ≡ error)

claim_free :
    (now : ℕ) (s : Store) (d : Document) (db : Database)
    → (d.status ≡ pending) ⊎ (d.status ≡ error)
    → claim_document now s d db
      ≡ (write_document (marked_running now d) db, claimed s (marked_running now d))
unfolding claim_document is_status
claim_free now s d db free = ground arith

claim_waiting :
    (now store_id i : ℕ) (db : Database) (w : IsWaiting store_id i db)
    → claim now store_id i db
      ≡ (write_document (marked_running now w.doc) db, claimed w.store (marked_running now w.doc))
unfolding claim usable_store
claim_waiting now store_id i db w = ground (
  arith,
  w.row,
  w.alive,
  w.store_row,
  w.store_alive,
  w.owned,
  claim_free now w.store w.doc db w.free,
)

waiting-Claimed :
    (now store_id i : ℕ) (db : Database) (w : IsWaiting store_id i db)
    → Claimed now store_id i db w.store w.doc (marked_running now w.doc)
waiting-Claimed now store_id i db w = record {
  row = w.row;
  alive = w.alive;
  store_row = w.store_row;
  store_alive = w.store_alive;
  owned = w.owned;
  free = w.free;
  marked = refl;
}

-- A run on a waiting document finishes it, or runs out of fuel.
run_waiting :
    (w : World) (store_id i : ℕ) (path : Str) (r : Run)
    → IsWaiting store_id i r.db
    → Each (Finished w store_id i path r) (run_ingestion_sync w store_id i path r)
unfolding run_ingestion_sync conclude
run_waiting w store_id i path r waiting =
    let doc = marked_running w.claimed_at waiting.doc in
    subst (λ c. Each (Finished w store_id i path r) (conclude w path r c))
      (sym (claim_waiting w.claimed_at store_id i r.db waiting))
      (ingest_cases
        (λ o.
          Each (Finished w store_id i path r)
            (elim o [ none ↦ none | some end ↦ some (cleaned w path end) ]))
        w waiting.store doc (record r { db = write_document doc r.db }) (λ _. tt)
        (λ last ended. record {
          store = waiting.store;
          old = waiting.doc;
          doc = doc;
          claim_of = waiting-Claimed w.claimed_at store_id i r.db waiting;
          last = last;
          ended = ended;
          closed = refl;
        }))

-- A run whose polling has time returns, and leaves a waiting document done without an error text, or
-- failed with one of at most 500 characters; the temporary file has been removed if it can be, and else
-- no file has been.
pub run_settles :
    (w : World) (store_id i : ℕ) (path : Str) (r : Run)
    → HasTime w
    → IsWaiting store_id i r.db
    → (end : Run) × (run_ingestion_sync w store_id i path r ≡ some end)
      × ((d : Document) × (get_document i end.db.documents ≡ some d) × IsSettled d)
      × (end.removed_paths ≡ (if w.removable then path ∷ r.removed_paths else r.removed_paths))
run_settles w store_id i path r time waiting =
    let (end, returned) = run_total w store_id i path r time in
    let f =
      subst (Each (Finished w store_id i path r)) returned
        (run_waiting w store_id i path r waiting) in
    (
      end,
      returned,
      (f.ended.final, Finished-row w store_id i path r end f, f.ended.settled),
      ap (λ (x : Run). x.removed_paths) f.closed
          ∙ ap (λ ps. if w.removable then path ∷ ps else ps) f.ended.paths,
    )

IsIdle : ℕ → Run → Type 0
IsIdle i r = (d : Document) → get_document i r.db.documents ≡ some d → d.status ≢ running

-- A document that was not running before a run of it that returns is not running after it.
pub run_never_running :
    (w : World) (store_id i : ℕ) (path : Str) (r end : Run) (old new : Document)
    → get_document i r.db.documents ≡ some old
    → old.status ≢ running
    → run_ingestion_sync w store_id i path r ≡ some end
    → get_document i end.db.documents ≡ some new
    → new.status ≢ running
unfolding IsSettled IsIdle write_document touch_status set_status
run_never_running w store_id i path r end old new row idle returned after =
    subst (Each (IsIdle i)) returned
      (run_cases (Each (IsIdle i)) w store_id i path r (λ _. tt) (λ d e. ground (arith, idle))
        (λ e found d again.
          let written =
            get_document-put i (touch_status w.claimed_at e) e r.db.documents found
              (get_document-id i r.db.documents e found) in
          ground (arith, idle))
        (λ e found d again.
          let lost = with_error (codes "Store missing or deleted") w.claimed_at e in
          let written =
            get_document-put i lost e r.db.documents found
              (get_document-id i r.db.documents e found) in
          ground arith)
        (λ x f d again. ground (arith, Finished-row w store_id i path r x f, f.ended.settled)))
      new after
