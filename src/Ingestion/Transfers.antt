-- ===== src/Ingestion/Transfers.antt =====
-- backend/app/services/ingestion.py, the second and third transaction of `run_ingestion_sync`: what
-- an upload and the end of its operation do to the document.
use rag_foundation.Common.{◌≡◌, refl, ◌⊎◌, inl, inr, true, Option, none, arith}
use rag_foundation.Common.Str.{Str, truthy}
use rag_foundation.Models.{Document}
use rag_foundation.Ingestion.Job.{
  World, UploadAnswer, uploaded, upload_raised, store_file_id, check_op_name, transfer,
}

store_file_id-id :
    (f r : Option Str) (doc : Document)
    → let d = (store_file_id f r doc).0 in
      (d.id ≡ doc.id)
      × (d.op_name ≡ doc.op_name)
      × (d.status ≡ doc.status)
      × (d.store_id ≡ doc.store_id)
unfolding store_file_id
store_file_id-id f r doc = ground arith

upload_cases :
    (u : UploadAnswer)
    → ((text : Str) × (u ≡ upload_raised text))
      ⊎ ((name : Str) × (f : Option Str) × (u ≡ uploaded name f))
upload_cases (uploaded name f) = inr (name, f, refl)
upload_cases (upload_raised text) = inl (text, refl)

-- The transfer changes neither the document's key nor its status.
pub transfer-id :
    (w : World) (doc : Document)
    → let d = (transfer w doc).document in
      (d.id ≡ doc.id) × (d.status ≡ doc.status) × (d.store_id ≡ doc.store_id)
unfolding transfer check_op_name store_file_id
transfer-id w doc = ground arith

-- A document whose operation is known is not uploaded and stays as it is.
pub transfer-known :
    (w : World) (doc : Document)
    → truthy doc.op_name ≡ true
    → ((transfer w doc).uploads ≡ 0) × ((transfer w doc).document ≡ doc)
unfolding transfer
transfer-known w doc h = ground arith

-- If the transfer does not fail, the document has an operation name.
pub transfer-op_name :
    (w : World) (doc : Document)
    → (transfer w doc).failure ≡ none
    → truthy (transfer w doc).document.op_name ≡ true
unfolding transfer check_op_name store_file_id
transfer-op_name w doc h = ground arith
