-- ===== src/Ingestion/Guarantees.antt =====
-- backend/app/services/ingestion.py, `run_ingestion_sync`: what every run guarantees.
use rag_foundation.Common.{
  ℕ, suc, ◌*◌, ◌<◌, ◌≡◌, refl, sym, ap, ◌∙◌, Option, none, some, if◌then◌else◌, arith,
}
use rag_foundation.Common.Str.{Str}
use rag_foundation.Models.{
  done, is_status, Document, Database, set_status, get_document, write_document, put_document,
}
use rag_foundation.Models.Rows.{get_document-put_self, get_document-id}
use rag_foundation.Ingestion.Wait.{Sleeps, first_wait, wait_total, wait_for_operation_completion}
use rag_foundation.Ingestion.Job.{World, Run, log_index_cost, run_ingestion_sync}
use rag_foundation.Ingestion.Outcome.{Finished, run_cases, log_index_cost-documents}

-- The polling has a round for every two seconds of the timeout and two more, and its sleeps last.
pub record HasTime (w : World) : Type 0 where
  pub rounds : ℕ
  pub sleeps : Sleeps w.gemini
  pub far : w.timeout < first_wait * rounds
  pub enough : w.fuel ≡ suc rounds

-- A run whose polling has time returns, whatever it finds in the database.
pub run_total :
    (w : World) (store_id i : ℕ) (path : Str) (r : Run)
    → HasTime w
    → (end : Run) × (run_ingestion_sync w store_id i path r ≡ some end)
run_total w store_id i path r t =
    let (x, ends) = wait_total w.timeout t.rounds w.gemini t.sleeps t.far in
    run_cases (λ o. (end : Run) × (o ≡ some end)) w store_id i path r
      (λ dry.
        absurd (cc (ends, ap (λ n. wait_for_operation_completion n w.timeout w.gemini) t.enough)))
      (_, refl) (λ d e. (_, refl)) (λ d e. (_, refl)) (λ end f. (end, refl))

-- A property of the run that is returned, if one is.
abbrev pub Each {ℓ} : (Run → Type ℓ) → Option Run → Type ℓ
Each P none = Unit
Each P (some end) = P end

module _ (w : World) (store_id i : ℕ) (path : Str) (r end : Run) where
  pub Finished-ids :
      (f : Finished w store_id i path r end) → (f.doc.id ≡ i) × (f.ended.final.id ≡ i)
  unfolding set_status
  Finished-ids f =
      let c = f.claim_of in
      let same : f.doc.id ≡ i =
        ap (λ (d : Document). d.id) c.marked ∙ get_document-id i _ f.old c.row in
      (same, f.ended.same_id ∙ same)

  pub Finished-documents :
      (f : Finished w store_id i path r end)
      → end.db.documents ≡ put_document f.ended.final (put_document f.doc r.db.documents)
  unfolding write_document
  Finished-documents f =
      ap (λ (x : Run). x.db.documents) f.closed
      ∙ ap (λ (x : Database). x.documents) f.ended.written
      ∙ logged
    where
      logged :
          (if is_status f.ended.final.status done
            then log_index_cost w f.store f.ended.final
                (write_document f.ended.final (write_document f.doc r.db))
            else write_document f.ended.final (write_document f.doc r.db)).documents
          ≡ put_document f.ended.final (put_document f.doc r.db.documents)
      logged = ground (
        arith,
        log_index_cost-documents w f.store f.ended.final
            (write_document f.ended.final (write_document f.doc r.db)),
      )

  pub Finished-row :
      (f : Finished w store_id i path r end) → get_document i end.db.documents ≡ some f.ended.final
  Finished-row f =
      let ids = Finished-ids f in
      let first = get_document-put_self f.doc f.old r.db.documents (rw ids.0 f.claim_of.row) in
      ap (get_document i) (Finished-documents f)
      ∙ ap (λ n. get_document n (put_document f.ended.final (put_document f.doc r.db.documents)))
          (sym ids.1)
      ∙ get_document-put_self f.ended.final f.doc (put_document f.doc r.db.documents)
          (ap (λ n. get_document n (put_document f.doc r.db.documents)) f.ended.same_id ∙ first)
