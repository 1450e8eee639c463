-- ===== src/Models/Rows.antt =====
-- backend/app/models.py: reading a row after a write.
use rag_foundation.Common.{
  ℕ, ◌≡◌, refl, ◌≢◌, List, [], ◌∷◌, some, arith, length, if◌then◌else◌, ◌==◌, In, inl, inr, sym,
  Bool-cases, All, Bool, false, subst,
}
use rag_foundation.Models.{
  Document, User, get_user, Store, get_document, get_store, put_document, update_documents,
}

pub get_document-id :
    (i : ℕ) (ds : List Document) (d : Document) → get_document i ds ≡ some d → d.id ≡ i
unfolding get_document
get_document-id i [] d h = cc
get_document-id i (e ∷ ds) d h = ground (arith, get_document-id i ds d)

pub get_document-put_self :
    (d e : Document) (ds : List Document)
    → get_document d.id ds ≡ some e
    → get_document d.id (put_document d ds) ≡ some d
unfolding get_document put_document
get_document-put_self d e [] h = cc
get_document-put_self d e (x ∷ ds) h = ground (arith, get_document-put_self d e ds)

pub get_document-put_ne :
    (d : Document) (i : ℕ) (ds : List Document)
    → i ≢ d.id
    → get_document i (put_document d ds) ≡ get_document i ds
unfolding get_document put_document
get_document-put_ne d i [] h = refl
get_document-put_ne d i (x ∷ ds) h = ground (arith, get_document-put_ne d i ds)

pub get_store-id : (i : ℕ) (ss : List Store) (s : Store) → get_store i ss ≡ some s → s.id ≡ i
unfolding get_store
get_store-id i [] s h = cc
get_store-id i (t ∷ ss) s h = ground (arith, get_store-id i ss s)

pub length-put_document :
    (d : Document) (ds : List Document) → length (put_document d ds) ≡ length ds
unfolding put_document
length-put_document d [] = refl
length-put_document d (x ∷ ds) = ground (arith, length-put_document d ds)

-- A second write of the same row replaces the first.
pub put_document-put :
    (d e : Document) (ds : List Document)
    → d.id ≡ e.id
    → put_document e (put_document d ds) ≡ put_document e ds
unfolding put_document
put_document-put d e [] h = refl
put_document-put d e (x ∷ ds) h = ground (arith, put_document-put d e ds)

-- The row that is read back after it was written.
pub get_document-put :
    (i : ℕ) (d e : Document) (ds : List Document)
    → get_document i ds ≡ some e
    → d.id ≡ i
    → get_document i (put_document d ds) ≡ some d
unfolding get_document put_document
get_document-put i d e [] h same = cc
get_document-put i d e (x ∷ ds) h same = ground (arith, get_document-put i d e ds)

-- An update of many rows, read at one id.
pub get_document-update_documents :
    (test : Document → Bool) (f : Document → Document) (i : ℕ) (ds : List Document) (d : Document)
    → ((e : Document) → (f e).id ≡ e.id)
    → get_document i ds ≡ some d
    → get_document i (update_documents test f ds) ≡ some (if test d then f d else d)
unfolding get_document update_documents
get_document-update_documents test f i [] d same h = cc
get_document-update_documents test f i (e ∷ ds) d same h =
    ground (arith, same e, get_document-update_documents test f i ds d same)

pub get_store-In : (i : ℕ) (ss : List Store) (s : Store) → get_store i ss ≡ some s → In s ss
unfolding get_store
get_store-In i [] s h = cc
get_store-In i (t ∷ ss) s h = elim (Bool-cases (t.id == i)) [
  | inl e ↦ inl (ground arith)
  | inr e ↦ inr (get_store-In i ss s (ground arith))
]

pub get_user-id : (i : ℕ) (us : List User) (u : User) → get_user i us ≡ some u → u.id ≡ i
unfolding get_user
get_user-id i [] u h = cc
get_user-id i (v ∷ us) u h = ground (arith, get_user-id i us u)

-- The key of a table: no two rows have one id.
module _ {A : Type 0} (key : A → ℕ) where
  abbrev pub Keyed : List A → Type 0
  Keyed [] = Unit
  Keyed (s ∷ ss) = All (λ t. (key s == key t) ≡ false) ss × Keyed ss

  fresh_id :
      (s t : A) (ss : List A)
      → All (λ u. (key s == key u) ≡ false) ss
      → In t ss
      → (key s == key t) ≡ false
  fresh_id s t [] fresh here = elim here [ ]
  fresh_id s t (u ∷ ss) fresh (inl same) = subst (λ v. (key s == key v) ≡ false) (sym same) fresh.0
  fresh_id s t (u ∷ ss) fresh (inr later) = fresh_id s t ss fresh.1 later

abbrev pub DistinctIds : List Store → Type 0
DistinctIds = Keyed (λ (s : Store). s.id)

abbrev pub DistinctDocuments : List Document → Type 0
DistinctDocuments = Keyed (λ (d : Document). d.id)

-- A row is found by its key.
pub get_store-keyed :
    (ss : List Store) (s : Store) → DistinctIds ss → In s ss → get_store s.id ss ≡ some s
unfolding get_store
get_store-keyed [] s keyed here = elim here [ ]
get_store-keyed (t ∷ ss) s keyed (inl same) = ground (arith, same)
get_store-keyed (t ∷ ss) s keyed (inr later) =
    ground (
      arith,
      fresh_id (λ (u : Store). u.id) t s ss keyed.0 later,
      get_store-keyed ss s keyed.1 later,
    )

pub get_document-keyed :
    (ds : List Document) (d : Document)
    → DistinctDocuments ds
    → In d ds
    → get_document d.id ds ≡ some d
unfolding get_document
get_document-keyed [] d keyed here = elim here [ ]
get_document-keyed (e ∷ ds) d keyed (inl same) = ground (arith, same)
get_document-keyed (e ∷ ds) d keyed (inr later) = ground (
  arith,
  fresh_id (λ (u : Document). u.id) e d ds keyed.0 later,
  get_document-keyed ds d keyed.1 later,
)
