-- ===== src/Watchdog/Freed.antt =====
-- The watchdog leaves nothing stuck, and what it frees can be ingested again.
use rag_foundation.Common.{
  ℕ, ◌-◌, ◌<◌, ◌≡◌, refl, ap, ◌∙◌, ◌⊎◌, inl, inr, Bool, true, false, List, [], ◌∷◌, Option, none,
  some, if◌then◌else◌, All, arith, Bool-cases, any-In,
}
use rag_foundation.Common.Str.{Str}
use rag_foundation.Models.{
  DocumentStatus, pending, running, error, is_status, Store, Document, Database, set_status,
  update_documents, get_document, get_store,
}
use rag_foundation.Models.Rows.{get_document-update_documents, get_store-In}
use rag_foundation.Ingestion.Job.{World, Run, run_ingestion_sync}
use rag_foundation.Ingestion.Outcome.{IsSettled}
use rag_foundation.Ingestion.Guarantees.{HasTime}
use rag_foundation.Ingestion.Settles.{IsWaiting, run_settles}
use rag_foundation.Watchdog.{
  is_in_use, is_stuck, free, reset_stuck_documents, named_user, admin_reset_stuck,
}

-- Rows that an update with `free` changes do not pass the test any more.
update-All :
    (test : Document → Bool) (f : Document → Document) (ds : List Document)
    → ((d : Document) → test (f d) ≡ false)
    → All (λ d. test d ≡ false) (update_documents test f ds)
unfolding update_documents
update-All test f [] h = tt
update-All test f (d ∷ ds) h = (here (Bool-cases (test d)), update-All test f ds h)
  where
    here : (test d ≡ true) ⊎ (test d ≡ false) → test (if test d then f d else d) ≡ false
    here (inl e) = rw e (h d)
    here (inr e) = rw (e, if◌then◌else◌) e

free-not_stuck :
    (cutoff now : ℕ) (user : Option ℕ) (st : DocumentStatus) (stores : List Store) (d : Document)
    → is_status st running ≡ false
    → is_stuck cutoff user stores (free now st d) ≡ false
unfolding is_stuck free set_status
free-not_stuck cutoff now user st stores d e = rw e

-- No row that the worker's task leaves passes the filter of its query again, and no row that the
-- route leaves passes the filter of the route's, whether a user is named or not.
pub reset-none_stuck :
    (now ttl : ℕ) (user : Option ℕ) (db : Database)
    → All
        (λ d. is_stuck (now - ttl) none db.stores d ≡ false)
        (reset_stuck_documents now ttl db).documents
      × All
          (λ d. is_stuck (now - ttl) (named_user user) db.stores d ≡ false)
          (admin_reset_stuck now ttl user db).0.documents
unfolding reset_stuck_documents admin_reset_stuck is_status
reset-none_stuck now ttl user db = (
  update-All _ _ db.documents (λ d. free-not_stuck (now - ttl) now none error db.stores d refl),
  update-All _ _ db.documents
      (λ d. free-not_stuck (now - ttl) now (named_user user) pending db.stores d refl),
)

-- A document that has been running since before the cutoff, in a store that is in use.
pub record IsStuck (cutoff store_id i : ℕ) (db : Database) : Type 0 where
  pub doc : Document
  pub store : Store
  pub row : get_document i db.documents ≡ some doc
  pub alive : doc.deleted_at ≡ none
  pub store_row : get_store store_id db.stores ≡ some store
  pub store_alive : store.deleted_at ≡ none
  pub owned : store.id ≡ doc.store_id
  pub busy : doc.status ≡ running
  pub old : doc.status_updated_at < cutoff

module _ (now ttl store_id i : ℕ) (db : Database) (s : IsStuck (now - ttl) store_id i db) where
  stuck-test : is_stuck (now - ttl) none db.stores s.doc ≡ true
  unfolding is_stuck is_in_use is_status
  stuck-test =
      let joined =
        any-In (is_in_use none s.doc.store_id) db.stores s.store
          (get_store-In store_id db.stores s.store s.store_row)
          (ground (arith, s.owned, s.store_alive)) in
      ground (arith, s.busy, s.old, s.alive)

  reset-IsWaiting : IsWaiting store_id i (reset_stuck_documents now ttl db)
  unfolding reset_stuck_documents free set_status
  reset-IsWaiting = record {
    doc = free now error s.doc;
    store = s.store;
    row =
        get_document-update_documents (is_stuck (now - ttl) none db.stores) (free now error) i
          db.documents s.doc (λ e. refl) s.row
        ∙ ap (λ b. some (if b then free now error s.doc else s.doc)) stuck-test;
    alive = s.alive;
    store_row = s.store_row;
    store_alive = s.store_alive;
    owned = s.owned;
    free = inr refl;
  }

-- A document that is stuck in a store in use is freed by the worker's task, and the next ingestion
-- run for it whose polling has time brings it to an end, and removes the temporary file if it can be.
pub reset-settles :
    (now ttl store_id i : ℕ) (w : World) (path : Str) (r : Run)
    → IsStuck (now - ttl) store_id i r.db
    → HasTime w
    → (end : Run) × (run_ingestion_sync w store_id i path
          (record r { db = reset_stuck_documents now ttl r.db })
        ≡ some end)
      × ((d : Document) × (get_document i end.db.documents ≡ some d) × IsSettled d)
      × (end.removed_paths ≡ (if w.removable then path ∷ r.removed_paths else r.removed_paths))
reset-settles now ttl store_id i w path r s time =
    run_settles w store_id i path (record r { db = reset_stuck_documents now ttl r.db }) time
      (reset-IsWaiting now ttl store_id i r.db s)
