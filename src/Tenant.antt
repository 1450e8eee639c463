-- ===== src/Tenant.antt =====
-- backend/app/security/tenant.py: which stores and documents a user may reach. `raised` is the
-- HTTPException; the log entries are left out.
pub mod Owned
pub mod Several
mod Tests
use rag_foundation.Common.{
  ℕ, ◌≡◌, Bool, true, false, not, ◌&&◌, List, [], ◌∷◌, Option, none, some, ◌==◌, if◌then◌else◌,
  keep, any, find,
}
use rag_foundation.Common.Http.{HttpError, Outcome, raised, answered, http}
use rag_foundation.Models.{Store, Document, Database, is_none}

-- The filter on `stores`: the user's, and not deleted.
unfoldable pub is_usable : ℕ → Store → Bool
is_usable user_id s = s.user_id == user_id && is_none s.deleted_at

abbrev pub store_not_found : HttpError
store_not_found = http 404 "Store not found"

abbrev pub document_not_found : HttpError
document_not_found = http 404 "Document not found"

-- `or_raise (find …) e`: what `one_or_none` found, or the error.
abbrev pub or_raise {ℓ} : {A : Type ℓ} → Option A → HttpError → Outcome A
or_raise none e = raised e
or_raise (some a) e = answered a

unfoldable pub require_store_owned_by_user : Database → ℕ → ℕ → Outcome Store
require_store_owned_by_user db store_id user_id =
    or_raise (find (λ s. s.id == store_id && is_usable user_id s) db.stores) store_not_found

-- `Store.id.in_(ids)`
abbrev pub is_listed : ℕ → List ℕ → Bool
is_listed i ids = any (λ j. j == i) ids

-- The rows that the query finds; `sid not in found_ids` is the test on each id.
unfoldable pub stores_found : Database → List ℕ → ℕ → List Store
stores_found db ids user_id = keep (λ s. is_listed s.id ids && is_usable user_id s) db.stores

unfoldable pub is_missing : List Store → ℕ → Bool
is_missing stores sid = not (any (λ s. s.id == sid) stores)

unfoldable pub require_stores_owned_by_user : Database → List ℕ → ℕ → Outcome (List Store)
require_stores_owned_by_user db [] user_id = raised (http 400 "Missing storeIds")
require_stores_owned_by_user db (i ∷ ids) user_id =
    let stores = stores_found db (i ∷ ids) user_id in
    if any (is_missing stores) (i ∷ ids) then raised store_not_found else answered stores

-- The join with `stores`, and the filter on both rows.
unfoldable pub is_reachable : List Store → ℕ → Document → Bool
is_reachable stores user_id d =
    any (λ s. s.id == d.store_id && is_usable user_id s) stores && is_none d.deleted_at

unfoldable pub require_document_owned_by_user : Database → ℕ → ℕ → Outcome Document
require_document_owned_by_user db document_id user_id =
    or_raise (find (λ d. d.id == document_id && is_reachable db.stores user_id d) db.documents)
      document_not_found
