-- ===== src/Stores/Unowned.antt =====
-- backend/app/routes/stores.py, documents.py and chat.py: how the routes answer for a store that no user
-- owns any more.
use rag_foundation.Common.{ℕ, ◌≡◌, ◌≢◌, sym, ap, ◌∙◌, inl, inr, List, none, In, All, subst}
use rag_foundation.Common.Http.{Outcome, raised, answered}
use rag_foundation.Models.{Store, Document, Database}
use rag_foundation.Tenant.{
  store_not_found, require_store_owned_by_user, require_document_owned_by_user,
  require_stores_owned_by_user,
}
use rag_foundation.Tenant.Owned.{
  Owns, Reaches, require_store_owned_by_user-exact, require_document_owned_by_user-exact,
}
use rag_foundation.Tenant.Several.{require_stores_owned_by_user-exact}
use rag_foundation.Stores.Listing.{
  list_stores, documents_of, list_documents_for_store, list_stores-Owns,
}

-- The store is hidden from every user: it is refused, not listed and not searched, and its documents are
-- neither listed nor handed out, and marked as deleted.
pub record IsHidden (store_id : ℕ) (db : Database) : Type 0 where
  pub refused : (v : ℕ) → require_store_owned_by_user db store_id v ≡ raised store_not_found
  pub unlisted : (v : ℕ) (t : Store) → In t (list_stores db v) → t.id ≢ store_id
  pub unsearched :
      (ids : List ℕ) (v : ℕ) (ss : List Store)
      → In store_id ids
      → require_stores_owned_by_user db ids v ≢ answered ss
  pub undocumented : (v : ℕ) → list_documents_for_store db store_id v ≡ raised store_not_found
  pub unread :
      (document_id v : ℕ) (d : Document)
      → require_document_owned_by_user db document_id v ≡ answered d
      → d.store_id ≢ store_id
  pub marked : All (λ d. d.store_id ≡ store_id → d.deleted_at ≢ none) db.documents

-- What is answered is handed out by the exact law of the tenant's check.
pub answered-Owns :
    (db : Database) (store_id user : ℕ) (s : Store)
    → require_store_owned_by_user db store_id user ≡ answered s
    → Owns db user store_id s
answered-Owns db store_id user s h = elim (require_store_owned_by_user-exact db store_id user) [
  | inl (t, e, o) ↦
      let row : Outcome Store → Store = λ x. elim x [ raised _ ↦ s | answered y ↦ y ] in
      subst (Owns db user store_id) (ap row (sym e ∙ h)) o
  | inr (e, nobody) ↦ absurd (cc (e, h))
]

answered-Reaches :
    (db : Database) (document_id user : ℕ) (d : Document)
    → require_document_owned_by_user db document_id user ≡ answered d
    → Reaches db user document_id d
answered-Reaches db document_id user d h =
    elim (require_document_owned_by_user-exact db document_id user) [
      | inl (t, e, o) ↦
          let row : Outcome Document → Document = λ x. elim x [ raised _ ↦ d | answered y ↦ y ] in
          subst (Reaches db user document_id) (ap row (sym e ∙ h)) o
      | inr (e, nobody) ↦ absurd (cc (e, h))
    ]

module _ (store_id : ℕ) (db : Database)
    (unowned : (v : ℕ) (t : Store) → Owns db v store_id t → ⊥) where
  unowned-refused : (v : ℕ) → require_store_owned_by_user db store_id v ≡ raised store_not_found
  unowned-refused v = elim (require_store_owned_by_user-exact db store_id v) [
    | inl (t, e, o) ↦ absurd (unowned v t o)
    | inr (e, nobody) ↦ e
  ]

  unowned-unsearched :
      (ids : List ℕ) (v : ℕ) (ss : List Store)
      → In store_id ids
      → require_stores_owned_by_user db ids v ≢ answered ss
  unowned-unsearched ids v ss asked h = elim (require_stores_owned_by_user-exact db ids v) [
    | inl (ts, e, a) ↦ let (t, here, o) = a.complete store_id asked in unowned v t o
    | inr (error, e, refuses) ↦ absurd (cc (e, h))
  ]

  -- A store that no user owns is hidden, if its documents are marked.
  pub unowned-IsHidden :
      All (λ d. d.store_id ≡ store_id → d.deleted_at ≢ none) db.documents → IsHidden store_id db
  unfolding list_documents_for_store documents_of
  unowned-IsHidden marked = record {
    refused = unowned-refused;
    unlisted = λ v t here same.
        unowned v t (subst (λ i. Owns db v i t) same (list_stores-Owns db v t here));
    unsearched = unowned-unsearched;
    undocumented = λ v. ap (documents_of db store_id) (unowned-refused v);
    unread = λ document_id v d e same.
        let r = answered-Reaches db document_id v d e in
        unowned v r.store (subst (λ i. Owns db v i r.store) same r.owned);
    marked = marked;
  }
