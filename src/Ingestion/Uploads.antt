-- ===== src/Ingestion/Uploads.antt =====
-- backend/app/services/ingestion.py, `run_ingestion_sync`: what runs do to the rows, and how often
-- they upload.
use rag_foundation.Common.{
  ℕ, ◌≡◌, refl, ap, ◌∙◌, ◌≢◌, true, List, [], ◌∷◌, Option, none, some, arith, subst,
}
use rag_foundation.Common.Str.{Str, codes, truthy}
use rag_foundation.Models.{
  Document, set_status, touch_status, get_document, write_document, put_document,
}
use rag_foundation.Models.Rows.{get_document-put_ne, get_document-put, get_document-id}
use rag_foundation.Ingestion.Job.{World, Run, with_error, run_ingestion_sync}
use rag_foundation.Ingestion.Transfers.{transfer-known}
use rag_foundation.Ingestion.Outcome.{Finished, run_cases}
use rag_foundation.Ingestion.Guarantees.{
  HasTime, run_total, Each, Finished-ids, Finished-documents, Finished-row,
}

-- A run that returns writes no document's row but that of its own document.
pub run_frame :
    (w : World) (store_id i j : ℕ) (path : Str) (r end : Run)
    → j ≢ i
    → run_ingestion_sync w store_id i path r ≡ some end
    → get_document j end.db.documents ≡ get_document j r.db.documents
unfolding write_document touch_status set_status
run_frame w store_id i j path r end ne returned =
    subst (Each (λ (x : Run). get_document j x.db.documents ≡ get_document j r.db.documents))
      returned
      (run_cases (Each (λ (x : Run). get_document j x.db.documents ≡ get_document j r.db.documents))
        w store_id i path r (λ _. tt) refl
        (λ d e. get_document-put_ne (touch_status w.claimed_at d) j r.db.documents (other d e))
        (λ d e.
          get_document-put_ne (with_error (codes "Store missing or deleted") w.claimed_at d) j
            r.db.documents (other d e))
        finished)
  where
    other : (d : Document) → get_document i r.db.documents ≡ some d → j ≢ d.id
    other d e same = ne (same ∙ get_document-id i r.db.documents d e)

    finished :
        (x : Run)
        → Finished w store_id i path r x
        → get_document j x.db.documents ≡ get_document j r.db.documents
    finished x f =
        let ids = Finished-ids w store_id i path r x f in
        ap (get_document j) (Finished-documents w store_id i path r x f)
        ∙ get_document-put_ne f.ended.final j (put_document f.doc r.db.documents)
            (λ same. ne (same ∙ ids.1))
        ∙ get_document-put_ne f.doc j r.db.documents (λ same. ne (same ∙ ids.0))

-- The row of a document whose operation is known, and the number of uploads made.
abbrev pub Knows : ℕ → Option Str → ℕ → Run → Type 0
Knows i op uploads x =
    (x.uploads ≡ uploads)
    × ((d : Document) × (get_document i x.db.documents ≡ some d) × (d.op_name ≡ op))

-- A run on a document whose operation is known makes no upload and keeps the operation's name.
pub run-Knows :
    (w : World) (store_id i : ℕ) (path : Str) (r end : Run) (op : Option Str) (uploads : ℕ)
    → truthy op ≡ true
    → Knows i op uploads r
    → run_ingestion_sync w store_id i path r ≡ some end
    → Knows i op uploads end
unfolding write_document touch_status set_status
run-Knows w store_id i path r end op uploads known (count, (d, row, name)) returned =
    subst (Each (Knows i op uploads)) returned (
      run_cases (Each (Knows i op uploads)) w store_id i path r (λ _. tt) (count, (d, row, name))
        (λ e found. (
          count,
          (
            touch_status w.claimed_at e,
            written e (touch_status w.claimed_at e) found refl,
            (same_name e found),
          ),
        ))
        (λ e found.
          let lost = with_error (codes "Store missing or deleted") w.claimed_at e in
          (count, (lost, written e lost found refl, (same_name e found))))
        finished)
  where
    same_name : (e : Document) → get_document i r.db.documents ≡ some e → e.op_name ≡ op
    same_name e found = cc

    written :
        (e x : Document)
        → get_document i r.db.documents ≡ some e
        → x.id ≡ e.id
        → get_document i (put_document x r.db.documents) ≡ some x
    written e x found same =
        get_document-put i x e r.db.documents found
          (same ∙ get_document-id i r.db.documents e found)

    doc_known : (x : Run) (f : Finished w store_id i path r x) → f.doc.op_name ≡ op
    doc_known x f =
        ap (λ (a : Document). a.op_name) f.claim_of.marked ∙ same_name f.old f.claim_of.row

    finished : (x : Run) → Finished w store_id i path r x → Knows i op uploads x
    finished x f =
        let sent = transfer-known w f.doc (ap truthy (doc_known x f) ∙ known) in
        (
          ap (λ (a : Run). a.uploads) f.closed ∙ omega (arith, f.ended.uploads, sent.0, count),
          (
            f.ended.final,
            Finished-row w store_id i path r x f,
            f.ended.op_name ∙ ap (λ (a : Document). a.op_name) sent.1 ∙ doc_known x f,
          ),
        )

-- Any number of runs for one document, one after another.
unfoldable pub rerun : List World → ℕ → ℕ → Str → Run → Option Run
rerun [] store_id i path r = some r
rerun (w ∷ ws) store_id i path r = elim (run_ingestion_sync w store_id i path r) [
  | none ↦ none
  | some end ↦ rerun ws store_id i path end
]

abbrev pub AllHaveTime : List World → Type 0
AllHaveTime [] = Unit
AllHaveTime (w ∷ ws) = HasTime w × AllHaveTime ws

rerun-Knows :
    (ws : List World) (store_id i : ℕ) (path : Str) (r : Run) (op : Option Str) (uploads : ℕ)
    → truthy op ≡ true
    → AllHaveTime ws
    → Knows i op uploads r
    → (end : Run) × (rerun ws store_id i path r ≡ some end) × Knows i op uploads end
unfolding rerun
rerun-Knows [] store_id i path r op uploads known time k = (r, refl, k)
rerun-Knows (w ∷ ws) store_id i path r op uploads known time k =
    let (x, e) = run_total w store_id i path r time.0 in
    let (end, ends, kept) =
      rerun-Knows ws store_id i path x op uploads known time.1
        (run-Knows w store_id i path r x op uploads known k e) in
    (end, rw (e, rerun) ends, kept)

-- Once a document's operation is known, any number of further runs whose polling has time return,
-- keep the operation's name and upload nothing.
pub rerun-uploads :
    (ws : List World) (store_id i : ℕ) (path : Str) (r : Run) (d : Document)
    → get_document i r.db.documents ≡ some d
    → truthy d.op_name ≡ true
    → AllHaveTime ws
    → (end : Run) × (rerun ws store_id i path r ≡ some end)
      × (end.uploads ≡ r.uploads)
      × ((e : Document) × (get_document i end.db.documents ≡ some e) × (e.op_name ≡ d.op_name))
rerun-uploads ws store_id i path r d row known time =
    let (end, ends, kept) =
      rerun-Knows ws store_id i path r d.op_name r.uploads known time (refl, (d, row, refl)) in
    (end, ends, kept.0, kept.1)
