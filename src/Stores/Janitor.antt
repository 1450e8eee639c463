-- ===== src/Stores/Janitor.antt =====
-- backend/app/services/cleanup.py, `cleanup_stale_stores`: its guard rails.
use rag_foundation.Common.{
  ℕ, zero, suc, ◌+◌, ◌-◌, ◌≤◌, ◌<◌, ◌≡◌, refl, sym, ap, ◌∙◌, subst, Bool, true, false, not, ◌&&◌,
  List, [], ◌∷◌, Option, none, some, ◌==◌, ◌⊎◌, inl, inr, if◌then◌else◌, keep, take, length, In,
  arith, Bool-cases, keep-In, In-keep, any-In, length-take,
}
use rag_foundation.Common.Sort.{order_by, In-order_by}
use rag_foundation.Models.{Store, Document, Database, is_none}
use rag_foundation.Stores.Cleanup.{
  is_stale, deleted_first, candidates, has_active_docs, remove_store, Cleaned, clean_stores,
  cleanup_stale_stores,
}

In-take : {A : Type 0} (n : ℕ) (xs : List A) (a : A) → In a (take n xs) → In a xs
In-take zero xs a h = elim h [ ]
In-take (suc n) [] a h = elim h [ ]
In-take (suc n) (x ∷ xs) a h = elim h [
  | inl same ↦ inl same
  | inr later ↦ inr (In-take n xs a later)
]

-- The store was deleted before the cutoff.
abbrev pub DeletedBefore : ℕ → Store → Type 0
DeletedBefore cutoff s = (t : ℕ) × (s.deleted_at ≡ some t) × (t < cutoff)

-- None of the store's documents is left.
abbrev pub IsEmptied : Store → Database → Type 0
IsEmptied s db = (d : Document) → In d db.documents → d.store_id ≡ s.id → d.deleted_at ≡ none → ⊥

stale-DeletedBefore :
    (cutoff : ℕ) (s : Store) → is_stale cutoff s.deleted_at ≡ true → DeletedBefore cutoff s
unfolding is_stale
stale-DeletedBefore cutoff s e = go s.deleted_at refl e
  where
    go : (o : Option ℕ) → s.deleted_at ≡ o → is_stale cutoff o ≡ true → DeletedBefore cutoff s
    go none same h = cc
    go (some t) same h = (t, same, ground arith)

candidates-In :
    (cutoff batch_size : ℕ) (ss : List Store) (s : Store)
    → In s (candidates cutoff batch_size ss)
    → In s ss × DeletedBefore cutoff s
unfolding candidates
candidates-In cutoff batch_size ss s h =
    let (here, stale) =
      keep-In (λ t. is_stale cutoff t.deleted_at) ss s
        (In-order_by deleted_first s (keep (λ t. is_stale cutoff t.deleted_at) ss) (
          In-take batch_size (order_by deleted_first (keep (λ t. is_stale cutoff t.deleted_at) ss))
            s h)) in
    (here, stale-DeletedBefore cutoff s stale)

length-candidates :
    (cutoff batch_size : ℕ) (ss : List Store)
    → length (candidates cutoff batch_size ss) ≤ batch_size
unfolding candidates
length-candidates cutoff batch_size ss =
    let rows = order_by deleted_first (keep (λ s. is_stale cutoff s.deleted_at) ss) in
    omega (arith, length-take batch_size rows)

no_active-IsEmptied : (s : Store) (db : Database) → has_active_docs s db ≡ false → IsEmptied s db
unfolding has_active_docs
no_active-IsEmptied s db e d here same alive = cc (
  any-In (λ x. x.store_id == s.id && is_none x.deleted_at) db.documents d here
      (ground (arith, same, alive)),
  e,
)

-- A store after some rounds of the loop: still there, or of the id of one that had to go.
abbrev Kept : List Store → Store → Database → Cleaned → Type 0
Kept cs s db c = In s c.db.stores ⊎ ((t : Store) × In t cs × (s.id ≡ t.id) × IsEmptied t db)

module _ (succeeds : Store → Bool) (db : Database) where
  after_round : Store → Cleaned → Cleaned
  after_round s c =
      if has_active_docs s c.db
      then record c { skipped = c.skipped + 1 }
      else if succeeds s
      then record c { db = remove_store s c.db; deleted = c.deleted + 1 }
      else c

  round-documents : (t : Store) (c : Cleaned) → (after_round t c).db.documents ≡ c.db.documents
  unfolding after_round remove_store
  round-documents t c = ground arith

  round-count :
      (t : Store) (c : Cleaned)
      → (after_round t c).deleted + (after_round t c).skipped ≤ c.deleted + c.skipped + 1
  unfolding after_round remove_store
  round-count t c = ground arith

  round-Kept :
      (s t : Store) (c : Cleaned)
      → c.db.documents ≡ db.documents
      → In s c.db.stores
      → In s (after_round t c).db.stores ⊎ ((s.id ≡ t.id) × IsEmptied t db)
  unfolding after_round remove_store
  round-Kept s t c docs here = elim (Bool-cases (has_active_docs t c.db)) [
    | inl busy ↦ inl (rw busy here)
    | inr idle ↦ elim (Bool-cases (succeeds t)) [
      | inr failed ↦ inl (rw (idle, if◌then◌else◌, failed) here)
      | inl gone ↦ elim (Bool-cases (s.id == t.id)) [
        | inl same ↦ inr (
          ground arith,
          λ d h. no_active-IsEmptied t c.db idle d (subst (λ ds. In d ds) (sym docs) h),
        )
        | inr other ↦ inl (
            rw (idle, if◌then◌else◌, gone)
              (In-keep (λ x. not (x.id == t.id)) c.db.stores s here (ap not other)))
      ]
    ]
  ]

  loop-Kept :
      (s : Store) (cs : List Store) (c : Cleaned)
      → c.db.documents ≡ db.documents
      → In s c.db.stores
      → Kept cs s db (clean_stores succeeds cs c)
  unfolding clean_stores after_round
  loop-Kept s [] c docs here = inl here
  loop-Kept s (t ∷ cs) c docs here = elim (round-Kept s t c docs here) [
    | inr (same, emptied) ↦ inr (t, inl refl, same, emptied)
    | inl still ↦ elim (loop-Kept s cs (after_round t c) (round-documents t c ∙ docs) still) [
      | inl left ↦ inl left
      | inr (u, later, same, emptied) ↦ inr (u, inr later, same, emptied)
    ]
  ]

  loop-count :
      (cs : List Store) (c : Cleaned)
      → let e = clean_stores succeeds cs c in
        e.deleted + e.skipped ≤ c.deleted + c.skipped + length cs
  unfolding clean_stores after_round
  loop-count [] c = omega arith
  loop-count (t ∷ cs) c = omega (arith, loop-count cs (after_round t c), round-count t c)

-- Where no two stores have the same id: a store that the janitor takes away was deleted before the
-- cutoff and has no document that is not deleted, whatever Gemini and the database answer; and it
-- counts no more than a batch.
pub cleanup_stale_stores-guarded :
    (succeeds : Store → Bool) (now grace batch_size : ℕ) (db : Database)
    → ((s t : Store) → In s db.stores → In t db.stores → s.id ≡ t.id → s ≡ t)
    → let c = cleanup_stale_stores succeeds now grace batch_size db in
      ((s : Store)
        → In s db.stores
        → In s c.db.stores ⊎ (DeletedBefore (now - grace) s × IsEmptied s db))
      × (c.deleted + c.skipped ≤ batch_size)
unfolding cleanup_stale_stores
cleanup_stale_stores-guarded succeeds now grace batch_size db keyed =
    let start : Cleaned = record { db = db; deleted = 0; skipped = 0 } in
    let cs = candidates (now - grace) batch_size db.stores in
    (
      λ s here. elim (loop-Kept succeeds db s cs start refl here) [
        | inl left ↦ inl left
        | inr (t, chosen, same, emptied) ↦
            let (listed, before) = candidates-In (now - grace) batch_size db.stores t chosen in
            let one : t ≡ s = sym (keyed s t here listed same) in
            inr (subst (λ x. DeletedBefore (now - grace) x × IsEmptied x db) one (before, emptied))
      ],
      omega (
        arith,
        loop-count succeeds db cs start,
        length-candidates (now - grace) batch_size db.stores,
      ),
    )
