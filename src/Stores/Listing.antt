-- ===== src/Stores/Listing.antt =====
-- backend/app/routes/stores.py, `list_stores`, and backend/app/routes/documents.py,
-- `list_documents_for_store`: what a user is shown is what they can reach.
use rag_foundation.Common.{
  ℕ, ◌≡◌, refl, sym, Bool, ◌&&◌, List, ◌==◌, leb, keep, In, keep-In, arith, subst,
}
use rag_foundation.Common.Http.{Outcome, raised, answered}
use rag_foundation.Common.Sort.{order_by, In-order_by}
use rag_foundation.Models.{Store, Document, Database, is_none}
use rag_foundation.Tenant.{is_usable, require_store_owned_by_user}
use rag_foundation.Tenant.Owned.{Owns, Reaches, usable-Owns, required-Owns, alive_lem}

-- `order_by(Store.id.desc())`
unfoldable pub list_stores : Database → ℕ → List Store
list_stores db user_id =
    order_by (λ (a : Store) (b : Store). leb b.id a.id) (keep (is_usable user_id) db.stores)

unfoldable pub is_live_of : ℕ → Document → Bool
is_live_of store_id d = d.store_id == store_id && is_none d.deleted_at

unfoldable pub documents_of : Database → ℕ → Outcome Store → Outcome (List Document)
documents_of db store_id (raised e) = raised e
documents_of db store_id (answered s) = answered (
    order_by (λ (a : Document) (b : Document). leb b.created_at a.created_at)
      (keep (is_live_of store_id) db.documents))

unfoldable pub list_documents_for_store : Database → ℕ → ℕ → Outcome (List Document)
list_documents_for_store db store_id user_id =
    documents_of db store_id (require_store_owned_by_user db store_id user_id)

-- Every store of the list is one that the user owns.
pub list_stores-Owns :
    (db : Database) (user : ℕ) (s : Store) → In s (list_stores db user) → Owns db user s.id s
unfolding list_stores is_usable
list_stores-Owns db user s h =
    let kept =
      In-order_by (λ (a : Store) (b : Store). leb b.id a.id) s (keep (is_usable user) db.stores)
        h in
    let (listed, passes) = keep-In (is_usable user) db.stores s kept in
    usable-Owns db user s.id s listed (ground (arith, passes))

listed-Reaches :
    (db : Database) (user store_id : ℕ) (d : Document) (ds : List Document) (o : Outcome Store)
    → require_store_owned_by_user db store_id user ≡ o
    → documents_of db store_id o ≡ answered ds
    → In d ds
    → Reaches db user d.id d
unfolding documents_of is_live_of
listed-Reaches db user store_id d ds (raised e) found h here = absurd cc
listed-Reaches db user store_id d ds (answered s) found h here =
    let newest : Document → Document → Bool = λ a b. leb b.created_at a.created_at in
    let rows = keep (is_live_of store_id) db.documents in
    let same : order_by newest rows ≡ ds = cc in
    let kept = In-order_by newest d rows (subst (In d) (sym same) here) in
    let (listed, passes) = keep-In (is_live_of store_id) db.documents d kept in
    let in_store : d.store_id ≡ store_id = ground (arith, passes) in
    record {
      listed = listed;
      same_id = refl;
      alive = alive_lem d.deleted_at (ground (arith, passes));
      store = s;
      owned = subst (λ i. Owns db user i s) (sym in_store) (required-Owns db store_id user s found);
    }

-- Every document of the list is one that the user reaches.
pub list_documents_for_store-Reaches :
    (db : Database) (user store_id : ℕ) (d : Document) (ds : List Document)
    → list_documents_for_store db store_id user ≡ answered ds
    → In d ds
    → Reaches db user d.id d
unfolding list_documents_for_store
list_documents_for_store-Reaches db user store_id d ds h here =
    listed-Reaches db user store_id d ds (require_store_owned_by_user db store_id user) refl h here
