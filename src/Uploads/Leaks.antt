-- ===== src/Uploads/Leaks.antt =====
-- backend/app/routes/uploads.py, `upload`: what each way out of the route leaves behind, and what the
-- ingestion worker makes of an upload that is answered.
use rag_foundation.Common.{
  ℕ, ◌≤◌, ◌≡◌, refl, sym, ap, ◌∙◌, ◌⊎◌, inl, inr, true, not, ◌&&◌, List, [], ◌∷◌, ◌++◌, Option,
  none, some, if◌then◌else◌, take, length, any, arith, subst, if-both,
}
use rag_foundation.Common.Decimal.{show}
use rag_foundation.Common.Http.{HttpError, Outcome, raised, answered}
use rag_foundation.Common.Str.{Str, codes, eq_str, eq_str_refl}
use rag_foundation.Models.{
  pending, error, Store, Document, Database, set_status, write_document, put_document,
}
use rag_foundation.Tenant.{require_store_owned_by_user}
use rag_foundation.Uploads.Types.{allowed_type}
use rag_foundation.Uploads.Receive.{
  Received, received, too_large, failed, receive, receive-AtMost, AtMost,
}
use rag_foundation.Uploads.Route.{
  Server, UploadRequest, UploadWorld, Reply, remove_path, remove_file, abort, with_archive,
  upload_to_gcs_archive, upload_path, new_document, add_document, response, enqueue, is_archived,
  register, check_cost, check_magic, after_receive, save, check_type, upload, unavailable,
  is_mismatch, is_bearer, over_budget,
}

-- The row of an accepted file: it waits in the caller's store, and is no larger than allowed.
pub record IsAccepted (w : UploadWorld) (r : UploadRequest) (store : Store) (doc : Document)
    : Type 0 where
  pub same_id : doc.id ≡ w.new_id
  pub same_store : doc.store_id ≡ store.id
  pub waits : doc.status ≡ pending
  pub alive : doc.deleted_at ≡ none
  pub unsent : doc.op_name ≡ none
  pub fits : doc.size_bytes ≤ w.max_bytes

-- The temporary file can be removed, and the database commits.
pub record IsWorking (w : UploadWorld) : Type 0 where
  pub removable : w.removable ≡ true
  pub row_commits : w.row_commits ≡ true
  pub uri_commits : w.uri_commits ≡ true
  pub error_commits : w.error_commits ≡ true

-- One file, one row and one job, where the upload is answered. Else the files and the jobs are as
-- before, and at most a row with an error is new.
unfoldable pub Leaves : UploadWorld → UploadRequest → Server → Reply → Type 0
Leaves w r s (t, raised e) =
    (t.files ≡ s.files)
    × (t.jobs ≡ s.jobs)
    × ((t.db.documents ≡ s.db.documents)
        ⊎ ((doc : Document) × (doc.status ≡ error) × (t.db.documents ≡ doc ∷ s.db.documents)))
Leaves w r s (t, answered a) =
    (store : Store) × (require_store_owned_by_user s.db r.store_id r.user_id ≡ answered store)
    × ((doc : Document) × IsAccepted w r store doc
        × (t.db ≡ record s.db { documents = doc ∷ s.db.documents })
        × (a.document_id ≡ w.new_id)
        × (a.op_id ≡ codes "doc-" ++ show w.new_id)
        × (t.files ≡ upload_path w r ∷ s.files)
        × (t.jobs
            ≡ record { store_id = store.id; document_id = doc.id; path = upload_path w r }
              ∷ s.jobs))

module _ (w : UploadWorld) (r : UploadRequest) (s : Server) (works : IsWorking w) where
  abbrev created : Server
  created = record s { files = upload_path w r ∷ s.files }

  remove_created : remove_path (upload_path w r) (upload_path w r ∷ s.files) ≡ s.files
  unfolding remove_path
  remove_created = rw (eq_str_refl (upload_path w r))

  removed :
      (db : Database)
      → remove_file w (upload_path w r) (record created { db = db }) ≡ record s { db = db }
  unfolding remove_file
  removed db =
      let left : List Str → Server = λ files. record s { db = db; files = files } in
      ap (λ b. if b then left (remove_path (upload_path w r) created.files) else left created.files)
        works.removable
      ∙ ap left remove_created

  -- The documents after a way out that raises.
  abbrev AtMostError : Database → Type 0
  AtMostError db =
      (db.documents ≡ s.db.documents)
      ⊎ ((doc : Document) × (doc.status ≡ error) × (db.documents ≡ doc ∷ s.db.documents))

  aborted :
      (db : Database) (e : HttpError)
      → AtMostError db
      → Leaves w r s (abort w (upload_path w r) (record created { db = db }) e)
  unfolding Leaves
  aborted db e h = subst (λ t. Leaves w r s (t, raised e)) (sym (removed db)) (refl, refl, h)

  archived-IsAccepted :
      (store : Store) (size : ℕ)
      → size ≤ w.max_bytes
      → IsAccepted w r store (with_archive w (new_document w r store size))
  unfolding with_archive new_document
  archived-IsAccepted store size h =
      with_uri (new_document w r store size)
        (upload_to_gcs_archive w store.id w.new_id (new_document w r store size).filename)
        (record {
          same_id = refl;
          same_store = refl;
          waits = refl;
          alive = refl;
          unsent = refl;
          fits = h;
        })
    where
      with_uri :
          (d : Document) (o : Option Str)
          → IsAccepted w r store d
          → IsAccepted w r store
              (elim o [ none ↦ d | some uri ↦ record d { gcs_uri = some (take 512 uri) } ])
      with_uri d none a = a
      with_uri d (some uri) a = record {
        same_id = a.same_id;
        same_store = a.same_store;
        waits = a.waits;
        alive = a.alive;
        unsent = a.unsent;
        fits = a.fits;
      }

  -- The queue does not take the job: its row becomes one with an error.
  failed_row :
      (doc : Document)
      → (write_document (set_status w.now error doc) (add_document doc s.db)).documents
        ≡ set_status w.now error doc ∷ s.db.documents
  unfolding write_document set_status put_document
  failed_row doc = ground arith

  failed_status : (doc : Document) → (set_status w.now error doc).status ≡ error
  unfolding set_status
  failed_status doc = refl

  refused : (e : HttpError) → Leaves w r s (s, raised e)
  unfolding Leaves
  refused e = (refl, refl, inl refl)

  module _ (store : Store)
      (owned : require_store_owned_by_user s.db r.store_id r.user_id ≡ answered store) where
    accepted :
        (doc : Document) (size : ℕ)
        → IsAccepted w r store doc
        → Leaves w r s (
          record {
            db = add_document doc s.db;
            files = upload_path w r ∷ s.files;
            jobs =
                record { store_id = store.id; document_id = doc.id; path = upload_path w r }
                ∷ s.jobs;
          },
          answered (response w r size),
        )
    unfolding Leaves response
    accepted doc size h = (store, owned, (doc, h, refl, refl, refl, refl, refl))

    enqueue-Leaves :
        (size : ℕ)
        → size ≤ w.max_bytes
        → let doc = with_archive w (new_document w r store size) in
          Leaves w r s (enqueue w r store size doc (record created { db = add_document doc s.db }))
    unfolding enqueue
    enqueue-Leaves size h =
        let doc = with_archive w (new_document w r store size) in
        if-both (Leaves w r s) (w.has_queue && w.queue_works) _ _
          (λ _. accepted doc size (archived-IsAccepted store size h))
          (λ _.
            if-both (Leaves w r s) (not w.error_commits) _ _
              (λ e. absurd (ground (arith, works.error_commits)))
              (λ _.
                aborted (write_document (set_status w.now error doc) (add_document doc s.db))
                  unavailable
                  (inr (set_status w.now error doc, failed_status doc, failed_row doc))))

    register-Leaves :
        (size : ℕ) → size ≤ w.max_bytes → Leaves w r s (register w r store size created)
    unfolding register
    register-Leaves size h =
        let new = new_document w r store size in
        if-both (Leaves w r s) (not w.row_commits) _ _
          (λ e. absurd (ground (arith, works.row_commits)))
          (λ _.
            if-both (Leaves w r s) (is_archived w new && not w.uri_commits) _ _
              (λ e. absurd (ground (arith, works.uri_commits))) (λ _. enqueue-Leaves size h))

    check_cost-Leaves :
        (size : ℕ) → size ≤ w.max_bytes → Leaves w r s (check_cost w r store size created)
    unfolding check_cost
    check_cost-Leaves size h =
        if-both (Leaves w r s) (over_budget w r size created) _ _ (λ _. aborted s.db _ (inl refl))
          (λ _. register-Leaves size h)

    check_magic-Leaves :
        (content : List ℕ)
        → length content ≤ w.max_bytes
        → Leaves w r s (check_magic w r store content created)
    unfolding check_magic
    check_magic-Leaves content h =
        if-both (Leaves w r s) (is_mismatch w r content) _ _ (λ _. aborted s.db _ (inl refl))
          (λ _. check_cost-Leaves (length content) h)

    after_receive-Leaves :
        (got : Received)
        → AtMost w.max_bytes got
        → Leaves w r s (after_receive w r store created got)
    unfolding after_receive
    after_receive-Leaves (received content) h = check_magic-Leaves content h
    after_receive-Leaves too_large h = aborted s.db _ (inl refl)
    after_receive-Leaves failed h = aborted s.db _ (inl refl)

    save-Leaves : Leaves w r s (save w r store s)
    unfolding save
    save-Leaves =
        if-both (Leaves w r s) (any (eq_str (upload_path w r)) s.files) _ _ (λ _. refused _)
          (λ _.
            after_receive-Leaves (receive w.max_bytes [] r.chunks)
              (receive-AtMost w.max_bytes [] r.chunks (omega arith)))

  check_type-Leaves :
      (o : Outcome Store)
      → require_store_owned_by_user s.db r.store_id r.user_id ≡ o
      → Leaves w r s (check_type w r s o)
  unfolding check_type
  check_type-Leaves (raised e) h = refused e
  check_type-Leaves (answered store) h =
      if-both (Leaves w r s) (allowed_type w.allowed r.content_type) _ _ (λ _. save-Leaves store h)
        (λ _. refused _)

-- Whatever the request and the outside answer, as long as the temporary file can be removed and the
-- database commits: an upload
-- that is answered leaves one temporary file, one job for it and one waiting row, in a store of the
-- caller and of an allowed size; one that raises leaves the files and the jobs as they were, and adds
-- at most one row, whose status is an error.
pub upload-Leaves :
    (w : UploadWorld) (r : UploadRequest) (s : Server) → IsWorking w → Leaves w r s (upload w r s)
unfolding upload
upload-Leaves w r s h =
    if-both (Leaves w r s) (not (is_bearer r.authorization)) _ _ (λ _. refused w r s h _)
      (λ _.
        if-both (Leaves w r s) (not w.within_rate) _ _ (λ _. refused w r s h _)
          (λ _. check_type-Leaves w r s h _ refl))
