-- ===== src/Stores/Cleanup.antt =====
-- backend/app/services/cleanup.py: the remote clean-up after a deletion, and the janitor of stores that
-- were deleted a while ago. What Gemini answers, and whether the database commits, comes from outside.
use rag_foundation.Common.{
  ℕ, ◌+◌, ◌-◌, Bool, true, false, not, ◌&&◌, List, [], ◌∷◌, Option, none, some, ◌==◌, ltb, leb,
  if◌then◌else◌, keep, any, take, map,
}
use rag_foundation.Common.Sort.{order_by}
use rag_foundation.Common.Str.{Str, truthy, or_else}
use rag_foundation.Models.{Store, QueryLog, Database, is_none, get_document, get_store}

-- A call of `rag.delete_document_from_store`.
pub record RemoteDelete : Type 0 where
  pub fs_name : Str
  pub document_id : ℕ
  pub filename : Str
  pub file_id : Str

-- `_delete_remote_document`: the call that it makes, if any; errors of the call are logged.
unfoldable pub delete_remote_document : ℕ → Database → Option RemoteDelete
delete_remote_document document_id db = elim (get_document document_id db.documents) [
  | none ↦ none
  | some doc ↦ elim (get_store doc.store_id db.stores) [
    | none ↦ none
    | some store ↦
        if truthy doc.gemini_file_id
        then some (record {
          fs_name = store.fs_name;
          document_id = doc.id;
          filename = doc.filename;
          file_id = or_else doc.gemini_file_id [];
        })
        else none
  ]
]

-- `deleted_at is not None and deleted_at < cutoff`
unfoldable pub is_stale : ℕ → Option ℕ → Bool
is_stale cutoff none = false
is_stale cutoff (some t) = ltb t cutoff

-- `ORDER BY deleted_at ASC`, on rows where it is not null.
unfoldable pub deleted_first : Store → Store → Bool
deleted_first s t = elim s.deleted_at [
  | none ↦ false
  | some a ↦ elim t.deleted_at [ none ↦ true | some b ↦ leb a b ]
]

unfoldable pub candidates : ℕ → ℕ → List Store → List Store
candidates cutoff batch_size ss =
    take batch_size (order_by deleted_first (keep (λ s. is_stale cutoff s.deleted_at) ss))

-- The count of active documents, as a test.
unfoldable pub has_active_docs : Store → Database → Bool
has_active_docs s db = any (λ d. d.store_id == s.id && is_none d.deleted_at) db.documents

unfoldable pub detach : ℕ → QueryLog → QueryLog
detach store_id q = elim q.store_id [
  | none ↦ q
  | some i ↦ if i == store_id then record q { store_id = none } else q
]

-- `db.delete(store)`, which takes the store's id out of the query logs.
unfoldable pub remove_store : Store → Database → Database
remove_store s db = record db {
  stores = keep (λ t. not (t.id == s.id)) db.stores;
  query_logs = map (detach s.id) db.query_logs;
}

pub record Cleaned : Type 0 where
  pub db : Database
  pub deleted : ℕ
  pub skipped : ℕ

-- The loop; `succeeds s` says that the remote deletion and the commit for `s` went through.
unfoldable pub clean_stores : (Store → Bool) → List Store → Cleaned → Cleaned
clean_stores succeeds [] c = c
clean_stores succeeds (s ∷ ss) c = clean_stores succeeds ss (
    if has_active_docs s c.db
    then record c { skipped = c.skipped + 1 }
    else if succeeds s
    then record c { db = remove_store s c.db; deleted = c.deleted + 1 }
    else c)

unfoldable pub cleanup_stale_stores : (Store → Bool) → ℕ → ℕ → ℕ → Database → Cleaned
cleanup_stale_stores succeeds now grace batch_size db =
    clean_stores succeeds (candidates (now - grace) batch_size db.stores)
      (record { db = db; deleted = 0; skipped = 0 })
