-- ===== src/Stores.antt =====
-- backend/app/routes/stores.py and backend/app/routes/documents.py: creating, deleting and restoring
-- stores and documents. `raised` is the HTTPException; the rate limit of the administrators' routes,
-- their audit entries and the logs are left out.
pub mod Listing
pub mod Unowned
pub mod Quota
pub mod Hidden
pub mod Cleanup
pub mod Janitor
mod Tests
use rag_foundation.Common.{
  ℕ, ◌+◌, ◌≡◌, Bool, true, false, not, ◌&&◌, ◌||◌, List, [], ◌∷◌, ◌++◌, Option, none, some, ◌==◌,
  leb, if◌then◌else◌, keep, any, length,
}
use rag_foundation.Common.Str.{Str, codes, eq_str, starts_with}
use rag_foundation.Common.Http.{HttpError, Outcome, raised, answered, http}
use rag_foundation.Models.{
  Store, Document, Database, is_none, soft_delete_store, soft_delete_document, update_stores,
  update_documents, get_store, get_document,
}
use rag_foundation.Models
use rag_foundation.Tenant.{
  is_usable, store_not_found, document_not_found, require_store_owned_by_user,
  require_document_owned_by_user,
}

-- What `rag.create_store` gives: an error of the API, or the name, `none` if it is no text.
pub data StoreAnswer : Type 0 where
  unreachable : StoreAnswer
  named : Option Str → StoreAnswer

-- The test on `fs_name`.
unfoldable pub valid_fs_name : Str → Bool
valid_fs_name s = starts_with s (codes "corpora/") || starts_with s (codes "fileSearchStores/")

-- The detail of the first error also has the number; `new_id` is the key that the database assigns.
unfoldable pub create_store : ℕ → ℕ → ℕ → ℕ → Str → StoreAnswer → Database → Outcome Database
create_store max_stores now new_id user_id display_name answer db =
    if leb max_stores (length (keep (is_usable user_id) db.stores))
    then raised (http 429 "Maximum stores per user")
    else elim answer [
      | unreachable ↦ raised (http 503 "Gemini API is currently unreachable; please retry shortly.")
      | named none ↦ raised (http 500 "Store creation failed: invalid store name format")
      | named (some fs_name) ↦
          if not (valid_fs_name fs_name)
          then raised (http 500 "Store creation failed: invalid store name format")
          else if any (λ s. eq_str s.fs_name fs_name) db.stores
          then raised (http 409 "Store with this name already exists")
          else answered (record db {
            stores =
                db.stores
                ++ record {
                  id = new_id;
                  user_id = user_id;
                  display_name = display_name;
                  fs_name = fs_name;
                  deleted_at = none;
                  deleted_by = none;
                  created_at = now;
                }
                  ∷ [];
          })
    ]

-- The rows after the deletion of a store at `ts`.
unfoldable pub without_store : ℕ → ℕ → Store → Database → Database
without_store ts user_id store db = record db {
  stores = update_stores (λ t. t.id == store.id) (soft_delete_store ts (some user_id)) db.stores;
  documents =
      update_documents (λ d. d.store_id == store.id && is_none d.deleted_at)
        (soft_delete_document ts (some user_id)) db.documents;
}

-- The database and the clean-up task that is scheduled: the store's id and remote name.
unfoldable pub delete_store : ℕ → ℕ → ℕ → Database → Outcome (Database × ℕ × Str)
delete_store ts store_id user_id db = elim (require_store_owned_by_user db store_id user_id) [
  | raised e ↦ raised e
  | answered store ↦ answered (without_store ts user_id store db, store.id, store.fs_name)
]

unfoldable pub restore_store : ℕ → Database → Outcome Database
restore_store store_id db = elim (get_store store_id db.stores) [
  | none ↦ raised store_not_found
  | some store ↦ answered (record db {
    stores = update_stores (λ t. t.id == store.id) Models.restore_store db.stores;
    documents = update_documents (λ d. d.store_id == store.id) Models.restore_document db.documents;
  })
]

-- The database and the id of the document whose remote file is to be cleaned up.
unfoldable pub delete_document : ℕ → ℕ → ℕ → Database → Outcome (Database × ℕ)
delete_document ts document_id user_id db =
    elim (require_document_owned_by_user db document_id user_id) [
      | raised e ↦ raised e
      | answered d ↦ answered (
        record db {
          documents =
              update_documents (λ e. e.id == d.id) (soft_delete_document ts (some user_id))
                db.documents;
        },
        d.id,
      )
    ]

unfoldable pub restore_document : ℕ → Database → Outcome Database
restore_document document_id db = elim (get_document document_id db.documents) [
  | none ↦ raised document_not_found
  | some d ↦ answered (record db {
    documents = update_documents (λ e. e.id == d.id) Models.restore_document db.documents;
  })
]
