-- ===== src/Stores/Hidden.antt =====
-- backend/app/routes/stores.py: a deleted store is out of reach with its documents, until it is
-- restored.
use rag_foundation.Common.{
  ℕ, ◌≡◌, refl, sym, ap, ◌∙◌, subst, Bool, true, List, [], ◌∷◌, Option, none, some, ◌==◌, inl, inr,
  if◌then◌else◌, In, All, arith, Option-cases,
}
use rag_foundation.Common.Str.{Str}
use rag_foundation.Common.Http.{Outcome, raised, answered}
use rag_foundation.Models.{Store, Document, Database, update_stores, update_documents, get_store}
use rag_foundation.Models
use rag_foundation.Models.Rows.{get_store-id, get_store-In}
use rag_foundation.Tenant.{store_not_found, require_store_owned_by_user}
use rag_foundation.Tenant.Owned.{require_store_owned_by_user-exact}
use rag_foundation.Stores.{restore_store}

module _ (test : Store → Bool) (f : Store → Store) where
  In-update_stores :
      (ss : List Store) (s : Store)
      → In s ss
      → In (if test s then f s else s) (update_stores test f ss)
  unfolding update_stores
  In-update_stores [] s h = elim h [ ]
  In-update_stores (u ∷ ss) s h = elim h [
    | inl same ↦ inl (ap (λ x. if test x then f x else x) same)
    | inr later ↦ inr (In-update_stores ss s later)
  ]

restored_id : (s : Store) → (Models.restore_store s).id ≡ s.id
unfolding Models.restore_store
restored_id s = refl

restored_owner : (s : Store) → (Models.restore_store s).user_id ≡ s.user_id
unfolding Models.restore_store
restored_owner s = refl

restored_alive : (s : Store) → (Models.restore_store s).deleted_at ≡ none
unfolding Models.restore_store
restored_alive s = refl

restored_row :
    (i : ℕ) (ss : List Store) (s : Store)
    → get_store i ss ≡ some s
    → In (Models.restore_store s) (update_stores (λ t. t.id == s.id) Models.restore_store ss)
restored_row i ss s e =
    let same : s.id == s.id ≡ true = ground arith in
    subst
      (λ b.
        In (if b then Models.restore_store s else s)
          (update_stores (λ t. t.id == s.id) Models.restore_store ss))
      same (In-update_stores (λ t. t.id == s.id) Models.restore_store ss s (get_store-In i ss s e))

update_documents-restored :
    (i : ℕ) (ds : List Document)
    → All
        (λ d. d.store_id ≡ i → d.deleted_at ≡ none)
        (update_documents (λ d. d.store_id == i) Models.restore_document ds)
unfolding update_documents Models.restore_document
update_documents-restored i [] = tt
update_documents-restored i (d ∷ ds) = (λ e. ground arith, update_documents-restored i ds)

-- A store that is restored is its owner's again, and none of its documents is deleted any more, not
-- even one that had been deleted before the store.
pub restore_store-revives :
    (store_id : ℕ) (db next : Database)
    → restore_store store_id db ≡ answered next
    → (s t : Store) × (get_store store_id db.stores ≡ some s)
      × (require_store_owned_by_user next store_id s.user_id ≡ answered t)
      × All (λ d. d.store_id ≡ store_id → d.deleted_at ≡ none) next.documents
unfolding restore_store
restore_store-revives store_id db next h = elim (Option-cases (get_store store_id db.stores)) [
  | inl e ↦ absurd (ground arith)
  | inr (s, e) ↦ revived s e
]
  where
    with_store : Store → Database
    with_store store = record db {
      stores = update_stores (λ t. t.id == store.id) Models.restore_store db.stores;
      documents =
          update_documents (λ d. d.store_id == store.id) Models.restore_document db.documents;
    }

    restored : Option Store → Outcome Database
    restored o = elim o [ none ↦ raised store_not_found | some store ↦ answered (with_store store) ]

    rows_of : Outcome Database → Database
    rows_of (raised e) = next
    rows_of (answered d) = d

    handed_out :
        (s : Store)
        → get_store store_id db.stores ≡ some s
        → s.id ≡ store_id
        → (t : Store) × (require_store_owned_by_user (with_store s) store_id s.user_id ≡ answered t)
    handed_out s e id_of =
        elim (require_store_owned_by_user-exact (with_store s) store_id s.user_id) [
          | inl (t, found, o) ↦ (t, found)
          | inr (e', nobody) ↦ absurd (
              nobody (Models.restore_store s) (record {
                listed = restored_row store_id db.stores s e;
                same_id = restored_id s ∙ id_of;
                owner = restored_owner s;
                alive = restored_alive s;
              }))
        ]

    revived :
        (s : Store)
        → get_store store_id db.stores ≡ some s
        → (s t : Store) × (get_store store_id db.stores ≡ some s)
          × (require_store_owned_by_user next store_id s.user_id ≡ answered t)
          × All (λ d. d.store_id ≡ store_id → d.deleted_at ≡ none) next.documents
    revived s e =
        let opened : restored (some s) ≡ answered next =
          subst (λ (o : Option Store). restored o ≡ answered next) e h in
        let same : with_store s ≡ next = ap rows_of opened in
        let id_of = get_store-id store_id db.stores s e in
        let (t, found) = handed_out s e id_of in
        (
          s,
          t,
          e,
          subst (λ d. require_store_owned_by_user d store_id s.user_id ≡ answered t) same found,
          subst (λ d. All (λ x. x.store_id ≡ store_id → x.deleted_at ≡ none) d.documents) same
              (subst
                (λ i.
                  All (λ x. x.store_id ≡ store_id → x.deleted_at ≡ none)
                    (update_documents (λ d. d.store_id == i) Models.restore_document db.documents))
                (sym id_of) (update_documents-restored store_id db.documents)),
        )
