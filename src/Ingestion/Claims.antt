-- ===== src/Ingestion/Claims.antt =====
-- backend/app/services/ingestion.py, the first transaction of `run_ingestion_sync`: which documents a
-- run claims, and what a run that claims none leaves behind.
use rag_foundation.Common.{
  ℕ, ◌≡◌, refl, ◌⊎◌, inl, inr, Bool, true, false, not, ◌&&◌, ◌||◌, Option, none, some, arith,
  Option-cases, Bool-cases,
}
use rag_foundation.Common.Str.{codes, truthy}
use rag_foundation.Models.{
  DocumentStatus, pending, running, done, error, is_status, Store, Document, Database, set_status,
  touch_status, get_document, get_store, write_document,
}
use rag_foundation.Ingestion.Job.{
  Claim, skipped, claimed, usable_store, claim_document, claim, with_error,
}

-- What a claim of `doc` for `store` says of the database it was made on, where the row was `old`.
pub record Claimed (now store_id i : ℕ) (db : Database) (store : Store) (old doc : Document)
    : Type 0 where
  pub row : get_document i db.documents ≡ some old
  pub alive : old.deleted_at ≡ none
  pub store_row : get_store store_id db.stores ≡ some store
  pub store_alive : store.deleted_at ≡ none
  pub owned : store.id ≡ old.store_id
  pub free : (old.status ≡ pending) ⊎ (old.status ≡ error)
  pub marked : doc ≡ set_status now running (record old { last_error = none })

status_free :
    (s : DocumentStatus) (op : Bool)
    → is_status s done && not op ≡ false
    → op && (is_status s running || is_status s done) ≡ false
    → is_status s running ≡ false
    → (s ≡ pending) ⊎ (s ≡ error)
unfolding is_status
status_free pending op a b c = inl refl
status_free running op a b c = cc
status_free done op a b c = ground arith
status_free error op a b c = inr refl

abbrev pub marked_running : ℕ → Document → Document
marked_running now doc = set_status now running (record doc { last_error = none })

-- The ways through `claim_document`.
claim_document_cases {ℓ} :
    (P : Database × Claim → Type ℓ) (now : ℕ) (store : Store) (doc : Document) (db : Database)
    → P (db, skipped)
    → (truthy doc.op_name ≡ true → P (write_document (touch_status now doc) db, skipped))
    → ((doc.status ≡ pending) ⊎ (doc.status ≡ error)
        → P (write_document (marked_running now doc) db, claimed store (marked_running now doc)))
    → P (claim_document now store doc db)
unfolding claim_document
claim_document_cases P now store doc db keep touch take =
    elim (Bool-cases (is_status doc.status done && not (truthy doc.op_name))) [
      | inl a ↦ rw (a, claim_document) keep
      | inr a ↦
          elim (Bool-cases
            (truthy doc.op_name && (is_status doc.status running || is_status doc.status done))) [
              | inl b ↦ rw (a, claim_document, b) (touch (ground arith))
              | inr b ↦ elim (Bool-cases (is_status doc.status running)) [
                | inl c ↦ rw (a, claim_document, b, c) keep
                | inr c ↦
                    rw (a, claim_document, b, c)
                      (take (status_free doc.status (truthy doc.op_name) a b c))
              ]
            ]
    ]

usable_store_cases :
    (doc : Document) (o : Option Store) (store : Store)
    → usable_store doc o ≡ some store
    → (o ≡ some store) × (store.deleted_at ≡ none) × (store.id ≡ doc.store_id)
unfolding usable_store
usable_store_cases doc none store h = cc
usable_store_cases doc (some s) store h = ground arith

-- The ways through the first transaction: nothing is written, the heartbeat of a document whose
-- operation is known is refreshed, a document whose store is gone is marked with an error, or the
-- document is claimed.
pub claim_cases {ℓ} :
    (P : Database × Claim → Type ℓ) (now store_id i : ℕ) (db : Database)
    → P (db, skipped)
    → ((d : Document)
        → get_document i db.documents ≡ some d
        → P (write_document (touch_status now d) db, skipped))
    → ((d : Document)
        → get_document i db.documents ≡ some d
        → P (write_document (with_error (codes "Store missing or deleted") now d) db, skipped))
    → ((store : Store) (old doc : Document)
        → Claimed now store_id i db store old doc
        → P (write_document doc db, claimed store doc))
    → P (claim now store_id i db)
unfolding claim usable_store
claim_cases P now store_id i db keep touch orphan take =
    elim (Option-cases (get_document i db.documents)) [
      | inl e ↦ rw (e, claim) keep
      | inr (d, e) ↦ elim (Option-cases d.deleted_at) [
        | inr (_, gone) ↦ rw (e, claim, gone) keep
        | inl alive ↦ elim (Option-cases (usable_store d (get_store store_id db.stores))) [
          | inl none_usable ↦ rw (e, claim, alive, none_usable) (orphan d e)
          | inr (s, usable) ↦
              let (row, store_alive, owned) = usable_store_cases d _ s usable in
              rw (e, claim, alive, usable)
                (claim_document_cases P now s d db keep (λ _. touch d e)
                  (λ free. take s d (marked_running now d) (record {
                    row = e;
                    alive = alive;
                    store_row = row;
                    store_alive = store_alive;
                    owned = owned;
                    free = free;
                    marked = refl;
                  })))
        ]
      ]
    ]
