-- ===== src/Tenant/Tests.antt =====
-- The tenant's checks at a concrete database.
use rag_foundation.Common.{◌≡◌, refl, ◌⊎◌, List, [], ◌∷◌, find}
use rag_foundation.Common.Http.{HttpError, raised, answered}
use rag_foundation.Models.{Store, Document}
use rag_foundation.Tenant.{
  is_usable, store_not_found, document_not_found, require_store_owned_by_user, stores_found,
  is_missing, require_stores_owned_by_user, is_reachable, require_document_owned_by_user,
}
use rag_foundation.Tenant.Owned.{Reaches, require_document_owned_by_user-exact}
use rag_foundation.Tenant.Several.{Answers, Refuses, require_stores_owned_by_user-exact}
use rag_foundation.Ingestion.Sample.{doc, store, db}

program : Unit {0}
unfolding find is_usable require_store_owned_by_user stores_found is_missing
    require_stores_owned_by_user is_reachable require_document_owned_by_user
program = tt

-- User 1 owns store 3 with document 7, and user 2 owns neither.
checks :
    (require_store_owned_by_user db 3 1 ≡ answered store)
    × (require_store_owned_by_user db 3 2 ≡ raised store_not_found)
    × (require_stores_owned_by_user db (3 ∷ 4 ∷ []) 1 ≡ raised store_not_found)
    × (require_stores_owned_by_user db (3 ∷ 3 ∷ []) 1 ≡ answered (store ∷ []))
    × (require_document_owned_by_user db 7 1 ≡ answered doc)
    × (require_document_owned_by_user db 7 2 ≡ raised document_not_found)
unfolding program
checks = (refl, refl, refl, refl, refl, refl)

require_stores_owned_by_user-exact_example :
    ((ss : List Store) × (require_stores_owned_by_user db (3 ∷ 4 ∷ []) 1 ≡ answered ss)
      × Answers db 1 (3 ∷ 4 ∷ []) ss)
    ⊎ ((e : HttpError) × (require_stores_owned_by_user db (3 ∷ 4 ∷ []) 1 ≡ raised e)
        × Refuses db 1 (3 ∷ 4 ∷ []))
require_stores_owned_by_user-exact_example = require_stores_owned_by_user-exact db (3 ∷ 4 ∷ []) 1

require_document_owned_by_user-exact_example :
    ((d : Document) × (require_document_owned_by_user db 7 1 ≡ answered d) × Reaches db 1 7 d)
    ⊎ ((require_document_owned_by_user db 7 1 ≡ raised document_not_found)
        × ((d : Document) → Reaches db 1 7 d → ⊥))
require_document_owned_by_user-exact_example = require_document_owned_by_user-exact db 7 1
