-- ===== src/Stores/Quota.antt =====
-- backend/app/routes/stores.py and documents.py: what every history of the users' requests keeps.
use rag_foundation.Common.{
  ℕ, ◌+◌, ◌≤◌, ◌<◌, ◌≡◌, refl, sym, ap, subst, Bool, false, List, [], ◌∷◌, ◌++◌, Option, none, some,
  ◌==◌, inl, inr, if◌then◌else◌, keep, any, length, All, arith, Bool-cases,
}
use rag_foundation.Common.Str.{Str, eq_str}
use rag_foundation.Common.Http.{Outcome, raised, answered, Outcome-cases}
use rag_foundation.Models.{Store, Database, soft_delete_store, update_stores}
use rag_foundation.Tenant.{is_usable, require_store_owned_by_user, require_document_owned_by_user}
use rag_foundation.Stores.{
  StoreAnswer, unreachable, named, create_store, without_store, delete_store, delete_document,
}

-- One request of a user that succeeds, at some time and whatever Gemini answers.
pub data Step (max_stores : ℕ) : Database → Database → Type 0 where
  created :
      {db next : Database}
      → (now new_id user : ℕ) (display_name : Str) (answer : StoreAnswer)
      → create_store max_stores now new_id user display_name answer db ≡ answered next
      → Step max_stores db next
  store_deleted :
      {db next : Database}
      → (now store_id user key : ℕ) (name : Str)
      → delete_store now store_id user db ≡ answered (next, key, name)
      → Step max_stores db next
  document_deleted :
      {db next : Database}
      → (now document_id user task : ℕ)
      → delete_document now document_id user db ≡ answered (next, task)
      → Step max_stores db next

pub data Steps (max_stores : ℕ) : Database → Database → Type 0 where
  finished : {db : Database} → Steps max_stores db db
  step :
      {db mid end : Database}
      → Step max_stores db mid
      → Steps max_stores mid end
      → Steps max_stores db end

-- How many stores a user has that are not deleted.
abbrev pub live_stores : ℕ → List Store → ℕ
live_stores user ss = length (keep (is_usable user) ss)

-- No two rows have the same remote name.
abbrev pub DistinctNames : List Store → Type 0
DistinctNames [] = Unit
DistinctNames (s ∷ ss) = All (λ t. eq_str s.fs_name t.fs_name ≡ false) ss × DistinctNames ss

-- What the requests keep: every user is within the quota, and the remote names are unique.
pub record WithinQuota (max_stores : ℕ) (db : Database) : Type 0 where
  pub bounded : (user : ℕ) → live_stores user db.stores ≤ max_stores
  pub names : DistinctNames db.stores

live_stores-append :
    (user : ℕ) (ss : List Store) (s : Store)
    → live_stores user (ss ++ s ∷ []) ≡ live_stores user ss + (if is_usable user s then 1 else 0)
live_stores-append user [] s = ground arith
live_stores-append user (t ∷ ss) s = ground (arith, live_stores-append user ss s)

names_append :
    (ss : List Store) (s : Store)
    → DistinctNames ss
    → any (λ t. eq_str t.fs_name s.fs_name) ss ≡ false
    → DistinctNames (ss ++ s ∷ [])
names_append [] s d fresh = (tt, tt)
names_append (t ∷ ss) s d fresh =
    let other : eq_str t.fs_name s.fs_name ≡ false = ground arith in
    (all_append ss d.0 other, names_append ss s d.1 (ground arith))
  where
    all_append :
        (us : List Store)
        → All (λ u. eq_str t.fs_name u.fs_name ≡ false) us
        → eq_str t.fs_name s.fs_name ≡ false
        → All (λ u. eq_str t.fs_name u.fs_name ≡ false) (us ++ s ∷ [])
    all_append [] h last = (last, tt)
    all_append (u ∷ us) h last = (h.0, all_append us h.1 last)

module _ (test : Store → Bool) (ts : ℕ) (by : Option ℕ) where
  live_stores-deleted :
      (user : ℕ) (ss : List Store)
      → live_stores user (update_stores test (soft_delete_store ts by) ss) ≤ live_stores user ss
  unfolding update_stores soft_delete_store is_usable
  live_stores-deleted user [] = omega arith
  live_stores-deleted user (s ∷ ss) = ground (arith, live_stores-deleted user ss)

  All-deleted :
      (name : Str) (ss : List Store)
      → All (λ t. eq_str name t.fs_name ≡ false) ss
      → All (λ t. eq_str name t.fs_name ≡ false) (update_stores test (soft_delete_store ts by) ss)
  unfolding update_stores soft_delete_store
  All-deleted name [] h = tt
  All-deleted name (s ∷ ss) h = (ground (arith, h.0), All-deleted name ss h.1)

  names_deleted :
      (ss : List Store)
      → DistinctNames ss
      → DistinctNames (update_stores test (soft_delete_store ts by) ss)
  unfolding update_stores soft_delete_store
  names_deleted [] d = tt
  names_deleted (s ∷ ss) d = elim (Bool-cases (test s)) [
    | inl e ↦ rw e (All-deleted s.fs_name ss d.0, names_deleted ss d.1)
    | inr e ↦ rw e (All-deleted s.fs_name ss d.0, names_deleted ss d.1)
  ]

-- A store that is created: the quota had room and the name was free, and a row of the user is added.
record Created (max_stores user : ℕ) (db next : Database) : Type 0 where
  row : Store
  room : live_stores user db.stores < max_stores
  owner : row.user_id ≡ user
  fresh : any (λ s. eq_str s.fs_name row.fs_name) db.stores ≡ false
  added : next.stores ≡ db.stores ++ row ∷ []

create_store-Created :
    (max_stores now new_id user : ℕ) (display_name : Str) (answer : StoreAnswer)
    (db next : Database)
    → create_store max_stores now new_id user display_name answer db ≡ answered next
    → Created max_stores user db next
unfolding create_store
create_store-Created max_stores now new_id user display_name unreachable db next h =
    absurd (ground arith)
create_store-Created max_stores now new_id user display_name (named none) db next h =
    absurd (ground arith)
create_store-Created max_stores now new_id user display_name (named (some fs_name)) db next h =
    let stores_of : Outcome Database → List Store =
      λ o. elim o [ raised e ↦ [] | answered d ↦ d.stores ] in
    record {
      row = record {
        id = new_id;
        user_id = user;
        display_name = display_name;
        fs_name = fs_name;
        deleted_at = none;
        deleted_by = none;
        created_at = now;
      };
      room = ground arith;
      owner = refl;
      fresh = ground arith;
      added = ground (arith, ap stores_of h);
    }

Created-WithinQuota :
    (max_stores user : ℕ) (db next : Database)
    → Created max_stores user db next
    → WithinQuota max_stores db
    → WithinQuota max_stores next
unfolding is_usable
Created-WithinQuota max_stores user db next c q = record {
  bounded = λ u.
      let count = live_stores-append u db.stores c.row in
      let before = q.bounded u in
      subst (λ ss. live_stores u ss ≤ max_stores) (sym c.added) (ground (arith, c.room, c.owner));
  names = subst DistinctNames (sym c.added) (names_append db.stores c.row q.names c.fresh);
}

deleted-WithinQuota :
    (max_stores ts : ℕ) (by : Option ℕ) (test : Store → Bool) (db next : Database)
    → next.stores ≡ update_stores test (soft_delete_store ts by) db.stores
    → WithinQuota max_stores db
    → WithinQuota max_stores next
deleted-WithinQuota max_stores ts by test db next same q = record {
  bounded = λ u.
      subst (λ ss. live_stores u ss ≤ max_stores) (sym same)
        (omega (arith, live_stores-deleted test ts by u db.stores, q.bounded u));
  names = subst DistinctNames (sym same) (names_deleted test ts by db.stores q.names);
}

Step-WithinQuota :
    (max_stores : ℕ) (db next : Database)
    → Step max_stores db next
    → WithinQuota max_stores db
    → WithinQuota max_stores next
unfolding delete_store delete_document without_store
Step-WithinQuota max_stores db next (created now new_id user display_name answer h) q =
    Created-WithinQuota max_stores user db next
      (create_store-Created max_stores now new_id user display_name answer db next h) q
Step-WithinQuota max_stores db next (store_deleted now store_id user key name h) q =
    elim (Outcome-cases (require_store_owned_by_user db store_id user)) [
      | inl (e, bad) ↦ absurd (ground arith)
      | inr (s, good) ↦
          deleted-WithinQuota max_stores now (some user) (λ t. t.id == s.id) db next (ground arith)
            q
    ]
Step-WithinQuota max_stores db next (document_deleted now document_id user task h) q =
    elim (Outcome-cases (require_document_owned_by_user db document_id user)) [
      | inl (e, bad) ↦ absurd (ground arith)
      | inr (d, good) ↦
          let same : next.stores ≡ db.stores = ground arith in
          record {
            bounded = λ u. subst (λ ss. live_stores u ss ≤ max_stores) (sym same) (q.bounded u);
            names = subst DistinctNames (sym same) q.names;
          }
    ]

-- From a state in which every user is within the quota of stores that are not deleted, and the remote
-- names of all stores are unique, any history of the users' successful requests keeps both.
pub Steps-WithinQuota :
    (max_stores : ℕ) (db end : Database)
    → Steps max_stores db end
    → WithinQuota max_stores db
    → WithinQuota max_stores end
Steps-WithinQuota max_stores db end finished q = q
Steps-WithinQuota max_stores db end (step {mid = mid} first rest) q =
    Steps-WithinQuota max_stores mid end rest (Step-WithinQuota max_stores db mid first q)
