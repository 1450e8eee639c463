-- ===== src/Stores/Tests.antt =====
-- The routes of stores and documents, and the janitor, at concrete inputs.
use rag_foundation.Common.{
  ℕ, ◌+◌, ◌≤◌, ◌≡◌, refl, ◌⊎◌, inl, inr, [], ◌∷◌, none, some, All, In, arith, true, Bool, find, ap,
}
use rag_foundation.Common.Sort.{insert_row, order_by}
use rag_foundation.Common.Str.{Str, codes, eq_str, starts_with}
use rag_foundation.Common.Http.{raised, answered, http}
use rag_foundation.Models.{
  Store, Document, Database, soft_delete_store, soft_delete_document, update_stores,
  update_documents, get_store, get_document,
}
use rag_foundation.Models
use rag_foundation.Tenant.{
  is_usable, require_store_owned_by_user, is_reachable, require_document_owned_by_user,
}
use rag_foundation.Stores.{
  named, valid_fs_name, create_store, without_store, delete_store, restore_store, delete_document,
  restore_document,
}
use rag_foundation.Stores.Quota.{
  Step, created, store_deleted, finished, step, WithinQuota, Steps-WithinQuota,
}
use rag_foundation.Stores.Hidden.{restore_store-revives}
use rag_foundation.Stores.Cleanup.{
  is_stale, deleted_first, candidates, has_active_docs, detach, remove_store, clean_stores,
  cleanup_stale_stores,
}
use rag_foundation.Stores.Janitor.{DeletedBefore, IsEmptied, cleanup_stale_stores-guarded}
use rag_foundation.Ingestion.Sample.{doc, store, db}

program : Unit {0}
unfolding find is_usable require_store_owned_by_user is_reachable require_document_owned_by_user
    soft_delete_store soft_delete_document update_stores update_documents get_store get_document
    Models.restore_store Models.restore_document valid_fs_name create_store without_store
    delete_store restore_store delete_document restore_document eq_str starts_with is_stale
    deleted_first candidates has_active_docs detach remove_store clean_stores cleanup_stale_stores
    insert_row order_by
program = tt

abbrev new_name : Str
new_name = codes "corpora/y"

abbrev added : Store
added = record store { id = 4; display_name = codes "new"; fs_name = new_name; created_at = 20 }

abbrev grown : Database
grown = record db { stores = store ∷ added ∷ [] }

creations :
    (create_store 2 20 4 1 (codes "new") (named (some new_name)) db ≡ answered grown)
    × (create_store 1 20 4 1 (codes "new") (named (some new_name)) db
        ≡ raised (http 429 "Maximum stores per user"))
    × (create_store 2 20 4 1 (codes "new") (named (some store.fs_name)) db
        ≡ raised (http 409 "Store with this name already exists"))
unfolding program
creations = (refl, refl, refl)

abbrev emptied : Database
emptied = record grown {
  stores = record store { deleted_at = some 30; deleted_by = some 1 } ∷ added ∷ [];
  documents = record doc { deleted_at = some 30; deleted_by = some 1 } ∷ [];
}

abbrev cleanup_task : Database × ℕ × Str
cleanup_task = (emptied, 3, store.fs_name)

deletion : delete_store 30 3 1 grown ≡ answered cleanup_task
unfolding program
deletion = refl

first-Step : Step 2 db grown
unfolding program
first-Step = created 20 4 1 (codes "new") (named (some new_name)) refl

second-Step : Step 2 grown emptied
second-Step = store_deleted 30 3 1 3 store.fs_name deletion

db-WithinQuota : WithinQuota 2 db
unfolding is_usable
db-WithinQuota = record { bounded = λ u. ground arith; names = (tt, tt) }

Steps-WithinQuota_example : WithinQuota 2 emptied
Steps-WithinQuota_example =
    Steps-WithinQuota 2 db emptied (step first-Step (step second-Step finished)) db-WithinQuota

restoration : restore_store 3 emptied ≡ answered grown
unfolding program
restoration = refl

restore_store-revives_example :
    (s t : Store) × (get_store 3 emptied.stores ≡ some s)
    × (require_store_owned_by_user grown 3 s.user_id ≡ answered t)
    × All (λ d. d.store_id ≡ 3 → d.deleted_at ≡ none) grown.documents
restore_store-revives_example = restore_store-revives 3 emptied grown restoration

abbrev always : Store → Bool
always s = true

cleaned_up : (cleanup_stale_stores always 100 48 50 emptied).db.stores ≡ added ∷ []
unfolding program
cleaned_up = refl

keyed : (s t : Store) → In s emptied.stores → In t emptied.stores → s.id ≡ t.id → s ≡ t
keyed s t (inl e) (inl f) same = cc
keyed s t (inl e) (inr (inl f)) same =
    absurd (omega (arith, same, ap (λ (x : Store). x.id) e, ap (λ (x : Store). x.id) f))
keyed s t (inr (inl e)) (inl f) same =
    absurd (omega (arith, same, ap (λ (x : Store). x.id) e, ap (λ (x : Store). x.id) f))
keyed s t (inr (inl e)) (inr (inl f)) same = cc
keyed s t (inl e) (inr (inr f)) same = elim f [ ]
keyed s t (inr (inl e)) (inr (inr f)) same = elim f [ ]
keyed s t (inr (inr e)) f same = elim e [ ]

cleanup_stale_stores-guarded_example :
    let c = cleanup_stale_stores always 100 48 50 emptied in
    ((s : Store)
      → In s emptied.stores
      → In s c.db.stores ⊎ (DeletedBefore 52 s × IsEmptied s emptied))
    × (c.deleted + c.skipped ≤ 50)
cleanup_stale_stores-guarded_example = cleanup_stale_stores-guarded always 100 48 50 emptied keyed
