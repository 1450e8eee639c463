-- ===== src/Uploads/Answers.antt =====
-- backend/app/routes/uploads.py, `op_status`: the id that an upload answers with names its row, and a
-- row whose ingestion is over stays as it is.
use rag_foundation.Common.{
  ℕ, zero, suc, ◌≡◌, refl, sym, ap, ◌∙◌, ◌≢◌, inl, inr, Bool, true, ◌&&◌, ◌∷◌, Option, none, some,
  ◌==◌, In, drop, arith, subst, any-In, find, if-both,
}
use rag_foundation.Common.Decimal.{Integer, plus, minus, int, int-show}
use rag_foundation.Common.Http.{Outcome, raised, answered}
use rag_foundation.Common.Str.{Str, codes, starts_with, truthy}
use rag_foundation.Ingestion.Wait.{PollAnswer, poll_raised, polled}
use rag_foundation.Models.{
  pending, is_status, Store, Document, Database, set_status, get_document, write_document,
}
use rag_foundation.Models.Rows.{DistinctDocuments, get_document-keyed, get_document-put_ne}
use rag_foundation.Tenant.{
  document_not_found, is_usable, is_reachable, require_document_owned_by_user,
}
use rag_foundation.Tenant.Owned.{Owns, required-Owns, require_document_owned_by_user-exact}
use rag_foundation.Uploads.Leaks.{IsWorking, IsAccepted, Leaves, upload-Leaves}
use rag_foundation.Uploads.Route.{UploadRequest, UploadWorld, UploadResponse, Server, upload}
use rag_foundation.Uploads.Status.{
  StatusReply, find_operation, is_over, advance, poll_remote, report, op_status_of, op_status,
}

-- The row of an accepted upload is found.
accepted_found :
    (w : UploadWorld) (r : UploadRequest) (db : Database) (store : Store) (doc : Document)
    → Owns db r.user_id r.store_id store
    → IsAccepted w r store doc
    → require_document_owned_by_user (record db { documents = doc ∷ db.documents }) doc.id r.user_id
      ≡ answered doc
unfolding require_document_owned_by_user is_reachable find is_usable
accepted_found w r db store doc owns ok =
    let reach =
      any-In (λ (s : Store). s.id == doc.store_id && is_usable r.user_id s) db.stores store
        owns.listed (ground (arith, ok.same_store, owns.owner, owns.alive)) in
    ground (arith, reach, ok.alive)

-- Where the API's commits and removals work: the operation's id that an upload answers with, asked for by
-- the same user before any other change, is answered with PENDING, the status of the row that the upload
-- has made, and nothing changes.
pub op_status-upload :
    (w : UploadWorld) (r : UploadRequest) (s t : Server) (a : UploadResponse) (now : ℕ)
    (poll : Option PollAnswer)
    → IsWorking w
    → upload w r s ≡ (t, answered a)
    → op_status now poll t.db r.user_id a.op_id
      ≡ (t.db, answered (record { status = pending; error = none }))
unfolding Leaves op_status op_status_of find_operation report is_over is_status starts_with
op_status-upload w r s t a now poll works h =
    asked (subst (Leaves w r s) h (upload-Leaves w r s works))
  where
    asked :
        Leaves w r s (t, answered a)
        → op_status now poll t.db r.user_id a.op_id
          ≡ (t.db, answered (record { status = pending; error = none }))
    asked (store, owned, (doc, ok, db, id, op, files, jobs)) =
        let found : require_document_owned_by_user t.db w.new_id r.user_id ≡ answered doc =
          ap (λ x. require_document_owned_by_user x w.new_id r.user_id) db
          ∙ ap
              (λ i.
                require_document_owned_by_user (record s.db { documents = doc ∷ s.db.documents }) i
                  r.user_id)
              (sym ok.same_id)
          ∙ accepted_found w r s.db store doc (required-Owns s.db r.store_id r.user_id store owned)
              ok in
        ap (op_status now poll t.db r.user_id) op
        ∙ ap (op_status_of now poll t.db r.user_id) (int-show w.new_id)
        ∙ ap (report now poll t.db) found
        ∙ ground (arith, ok.waits, ok.unsent)

module _ (now : ℕ) (poll : Option PollAnswer) (db : Database) (user i : ℕ) (d : Document)
    (row : get_document i db.documents ≡ some d) (over : is_over d.status ≡ true) where
  Kept : StatusReply → Type 0
  Kept reply = get_document i reply.0.documents ≡ some d

  advance-id :
      (e : Option Str) (finished : Bool) (doc : Document) → (advance now e finished doc).id ≡ doc.id
  unfolding advance set_status
  advance-id e finished doc = ground arith

  poll_remote-Kept :
      (doc : Document) → i ≢ doc.id → (p : Option PollAnswer) → Kept (poll_remote now db doc p)
  unfolding Kept poll_remote write_document
  poll_remote-Kept doc ne none = row
  poll_remote-Kept doc ne (some poll_raised) = row
  poll_remote-Kept doc ne (some (polled e finished)) =
      get_document-put_ne (advance now e finished doc) i db.documents
        (λ same. ne (same ∙ advance-id e finished doc))
      ∙ row

  report-Kept :
      (o : Outcome Document)
      → ((doc : Document) → o ≡ answered doc → get_document doc.id db.documents ≡ some doc)
      → Kept (report now poll db o)
  unfolding Kept report
  report-Kept (raised e) h = row
  report-Kept (answered doc) h =
      if-both Kept (is_over doc.status) _ _ (λ _. row)
        (λ going.
          if-both Kept (truthy doc.op_name) _ _
            (λ _.
              poll_remote-Kept doc
                (λ same.
                  cc (ap (λ j. get_document j db.documents) same, row, h doc refl, over, going))
                poll)
            (λ _. row))

  required_row :
      DistinctDocuments db.documents
      → (j : ℕ) (doc : Document) → require_document_owned_by_user db j user ≡ answered doc
      → get_document doc.id db.documents ≡ some doc
  required_row keyed j doc h = elim (require_document_owned_by_user-exact db j user) [
    | inl (found, e, reaches) ↦
        let same : found ≡ doc = cc (sym e ∙ h) in
        get_document-keyed db.documents doc keyed
          (subst (λ x. In x db.documents) same reaches.listed)
    | inr (e, _) ↦ absurd (cc (sym e ∙ h))
  ]

  asked-Kept :
      DistinctDocuments db.documents → (o : Option Integer) → Kept (op_status_of now poll db user o)
  unfolding op_status_of find_operation Kept
  asked-Kept keyed none = row
  asked-Kept keyed (some (plus j)) = report-Kept _ (required_row keyed j)
  asked-Kept keyed (some (minus zero)) = report-Kept _ (required_row keyed 0)
  asked-Kept keyed (some (minus (suc j))) =
      report-Kept (raised document_not_found) (λ doc e. absurd cc)

-- Where no two rows have one id: a row that is done or failed is not changed by asking for the status
-- of any operation, whoever asks and whatever Gemini answers.
pub op_status_final :
    (now : ℕ) (poll : Option PollAnswer) (db : Database) (user : ℕ) (op_id : Str) (i : ℕ)
    (d : Document)
    → DistinctDocuments db.documents
    → get_document i db.documents ≡ some d
    → is_over d.status ≡ true
    → get_document i (op_status now poll db user op_id).0.documents ≡ some d
unfolding op_status Kept
op_status_final now poll db user op_id i d keyed row over =
    if-both (Kept now poll db user i d row over) (starts_with op_id (codes "doc-")) _ _
      (λ _. asked-Kept now poll db user i d row over keyed (int (drop 4 op_id))) (λ _. row)
