-- ===== src/Tenant/Several.antt =====
-- backend/app/security/tenant.py, `require_stores_owned_by_user`: all the stores, or none.
use rag_foundation.Common.{
  ℕ, ◌≡◌, refl, ap, ◌⊎◌, inl, inr, Bool, true, false, not, ◌&&◌, List, [], ◌∷◌, ◌==◌, any, In,
  arith, Bool-cases, keep-In, In-keep, any-In, In-any, subst,
}
use rag_foundation.Common.Http.{HttpError, raised, answered}
use rag_foundation.Models.{Store, Database}
use rag_foundation.Tenant.{
  is_usable, store_not_found, is_listed, stores_found, is_missing, require_stores_owned_by_user,
}
use rag_foundation.Tenant.Owned.{Owns, usable-Owns, Owns-usable}

-- The stores answer the ids: each id has a row among them, and each of them is owned and asked for.
pub record Answers (db : Database) (user : ℕ) (ids : List ℕ) (ss : List Store) : Type 0 where
  pub complete : (i : ℕ) → In i ids → (s : Store) × In s ss × Owns db user i s
  pub sound : (s : Store) → In s ss → In s.id ids × Owns db user s.id s

-- An id without a row that the user owns.
abbrev pub Refuses : Database → ℕ → List ℕ → Type 0
Refuses db user ids = (ids ≡ []) ⊎ ((i : ℕ) × In i ids × ((s : Store) → Owns db user i s → ⊥))

module _ (db : Database) (user : ℕ) (ids : List ℕ) where
  test : Store → Bool
  test s = is_listed s.id ids && is_usable user s

  found-Owns : (s : Store) → In s (stores_found db ids user) → In s.id ids × Owns db user s.id s
  unfolding stores_found test
  found-Owns s here =
      let (listed, passes) = keep-In test db.stores s here in
      let (j, there, same) = In-any (λ j. j == s.id) ids (ground arith) in
      let id_of : j ≡ s.id = ground arith in
      (subst (λ n. In n ids) id_of there, usable-Owns db user s.id s listed (ground arith))

  Owns-found : (i : ℕ) (s : Store) → In i ids → Owns db user i s → In s (stores_found db ids user)
  unfolding stores_found test
  Owns-found i s here o =
      let asked : is_listed s.id ids ≡ true =
        any-In (λ j. j == s.id) ids i here (ground (arith, o.same_id)) in
      let usable = Owns-usable db user i s o in
      In-keep test db.stores s o.listed (ground (arith, o.same_id))

  none_missing :
      any (is_missing (stores_found db ids user)) ids ≡ false
      → Answers db user ids (stores_found db ids user)
  unfolding is_missing
  none_missing all_there = record {
    complete = λ i here. elim (Bool-cases (any (λ s. s.id == i) (stores_found db ids user))) [
      | inl found ↦
          let (s, there, same) = In-any (λ s. s.id == i) (stores_found db ids user) found in
          let id_of : s.id ≡ i = ground arith in
          (s, there, subst (λ n. Owns db user n s) id_of (found-Owns s there).1)
      | inr lost ↦
          absurd (
            cc (any-In (is_missing (stores_found db ids user)) ids i here (ap not lost), all_there))
    ];
    sound = found-Owns;
  }

  one_missing :
      any (is_missing (stores_found db ids user)) ids ≡ true
      → (i : ℕ) × In i ids × ((s : Store) → Owns db user i s → ⊥)
  unfolding is_missing
  one_missing lost =
      let (i, here, missing) = In-any (is_missing (stores_found db ids user)) ids lost in
      (
        i,
        here,
        λ s o.
            let there =
              any-In (λ s. s.id == i) (stores_found db ids user) s (Owns-found i s here o)
                (ground (arith, o.same_id)) in
            absurd (cc (missing, ap not there)),
      )

-- Either the answer holds exactly the user's stores among the ids, and one for each id, or the
-- request is refused, and there is no id or one that the user owns no store with.
pub require_stores_owned_by_user-exact :
    (db : Database) (ids : List ℕ) (user : ℕ)
    → ((ss : List Store) × (require_stores_owned_by_user db ids user ≡ answered ss)
        × Answers db user ids ss)
      ⊎ ((e : HttpError) × (require_stores_owned_by_user db ids user ≡ raised e)
          × Refuses db user ids)
unfolding require_stores_owned_by_user
require_stores_owned_by_user-exact db [] user = inr (_, refl, inl refl)
require_stores_owned_by_user-exact db (i ∷ ids) user =
    elim (Bool-cases (any (is_missing (stores_found db (i ∷ ids) user)) (i ∷ ids))) [
      | inl lost ↦ inr (store_not_found, rw lost, inr (one_missing db user (i ∷ ids) lost))
      | inr there ↦
          inl (stores_found db (i ∷ ids) user, rw there, none_missing db user (i ∷ ids) there)
    ]
