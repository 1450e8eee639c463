-- ===== src/Tenant/Owned.antt =====
-- backend/app/security/tenant.py: a request is answered exactly if the user owns what it asks for.
use rag_foundation.Common.{
  ℕ, ◌≡◌, refl, sym, ◌∙◌, subst, ◌⊎◌, inl, inr, Bool, true, ◌&&◌, Option, none, some, ◌==◌, find,
  In, arith, Option-cases, find-In, any-In, In-any, find-some,
}
use rag_foundation.Common.Http.{raised, answered}
use rag_foundation.Models.{Store, Document, Database, is_none}
use rag_foundation.Tenant.{
  is_usable, store_not_found, document_not_found, require_store_owned_by_user, is_reachable,
  require_document_owned_by_user,
}

-- The row is in the table, has the id, belongs to the user and is not deleted.
pub record Owns (db : Database) (user store_id : ℕ) (s : Store) : Type 0 where
  pub listed : In s db.stores
  pub same_id : s.id ≡ store_id
  pub owner : s.user_id ≡ user
  pub alive : s.deleted_at ≡ none

pub alive_lem : (o : Option ℕ) → is_none o ≡ true → o ≡ none
alive_lem none e = refl
alive_lem (some n) e = cc

pub usable-Owns :
    (db : Database) (user store_id : ℕ) (s : Store)
    → In s db.stores
    → (s.id == store_id && is_usable user s) ≡ true
    → Owns db user store_id s
unfolding is_usable
usable-Owns db user store_id s listed e = record {
  listed = listed;
  same_id = ground arith;
  owner = ground arith;
  alive = alive_lem s.deleted_at (ground arith);
}

pub Owns-usable :
    (db : Database) (user store_id : ℕ) (s : Store)
    → Owns db user store_id s
    → (s.id == store_id && is_usable user s) ≡ true
unfolding is_usable
Owns-usable db user store_id s o = ground (arith, o.same_id, o.owner, o.alive)

-- A store is handed out if and only if it is a row of the table with that id, of that user and not
-- deleted; otherwise the answer is 404, and there is no such row.
pub require_store_owned_by_user-exact :
    (db : Database) (store_id user : ℕ)
    → ((s : Store) × (require_store_owned_by_user db store_id user ≡ answered s)
        × Owns db user store_id s)
      ⊎ ((require_store_owned_by_user db store_id user ≡ raised store_not_found)
          × ((s : Store) → Owns db user store_id s → ⊥))
unfolding require_store_owned_by_user
require_store_owned_by_user-exact db store_id user =
    let test : Store → Bool = λ s. s.id == store_id && is_usable user s in
    elim (Option-cases (find test db.stores)) [
      | inr (s, e) ↦
          let (listed, passes) = find-In test db.stores s e in
          inl (s, rw e, usable-Owns db user store_id s listed passes)
      | inl e ↦ inr (
        rw e,
        λ s o.
            let (b, found) =
              find-some test db.stores s o.listed (Owns-usable db user store_id s o) in
            cc,
      )
    ]

-- The document is in the table and not deleted, and its store is one that the user owns.
pub record Reaches (db : Database) (user document_id : ℕ) (d : Document) : Type 0 where
  pub listed : In d db.documents
  pub same_id : d.id ≡ document_id
  pub alive : d.deleted_at ≡ none
  pub store : Store
  pub owned : Owns db user d.store_id store

module _ (db : Database) (user document_id : ℕ) where
  reach_test : Document → Bool
  reach_test d = d.id == document_id && is_reachable db.stores user d

  test-Reaches :
      (d : Document) → In d db.documents → reach_test d ≡ true → Reaches db user document_id d
  unfolding reach_test is_reachable
  test-Reaches d listed e =
      let (s, here, usable) =
        In-any (λ s. s.id == d.store_id && is_usable user s) db.stores (ground arith) in
      record {
        listed = listed;
        same_id = ground arith;
        alive = alive_lem d.deleted_at (ground arith);
        store = s;
        owned = usable-Owns db user d.store_id s here usable;
      }

  Reaches-test : (d : Document) → Reaches db user document_id d → reach_test d ≡ true
  unfolding reach_test is_reachable
  Reaches-test d r =
      let joined =
        any-In (λ s. s.id == d.store_id && is_usable user s) db.stores r.store r.owned.listed
          (Owns-usable db user d.store_id r.store r.owned) in
      ground (arith, r.same_id, r.alive)

-- A document is handed out if and only if it has that id, is not deleted, and is in a store of the
-- user that is not deleted; otherwise the answer is 404, and there is no such document.
pub require_document_owned_by_user-exact :
    (db : Database) (document_id user : ℕ)
    → ((d : Document) × (require_document_owned_by_user db document_id user ≡ answered d)
        × Reaches db user document_id d)
      ⊎ ((require_document_owned_by_user db document_id user ≡ raised document_not_found)
          × ((d : Document) → Reaches db user document_id d → ⊥))
unfolding require_document_owned_by_user reach_test
require_document_owned_by_user-exact db document_id user =
    let test : Document → Bool = reach_test db user document_id in
    elim (Option-cases (find test db.documents)) [
      | inr (d, e) ↦
          let (listed, passes) = find-In test db.documents d e in
          inl (d, rw e, test-Reaches db user document_id d listed passes)
      | inl e ↦ inr (
        rw e,
        λ d r.
            let (b, found) =
              find-some test db.documents d r.listed (Reaches-test db user document_id d r) in
            cc,
      )
    ]

-- A store that is handed out is one that the user owns.
pub required-Owns :
    (db : Database) (store_id user : ℕ) (s : Store)
    → require_store_owned_by_user db store_id user ≡ answered s
    → Owns db user store_id s
required-Owns db store_id user s h = elim (require_store_owned_by_user-exact db store_id user) [
  | inl (found, e, owns) ↦ subst (Owns db user store_id) (answered_inj found s (sym e ∙ h)) owns
  | inr (e, _) ↦ absurd (cc (sym e ∙ h))
]
  where
    answered_inj : (x y : Store) → answered x ≡ answered y → x ≡ y
    answered_inj x y e = cc
