-- ===== src/RateLimit/Keys.antt =====
-- backend/app/rate_limit.py, `InMemoryRateLimiter`: the bookkeeping of its two dicts.
use rag_foundation.Common.{
  ℕ, ◌+◌, ◌≤◌, ◌<◌, ◌≡◌, refl, String, List, [], ◌∷◌, some, ltb, leb, length, str_dec, All, Bool,
  true, false, arith, ◌⊎◌, inl, inr, Option-cases, Bool-cases, subst, ◌≢◌,
}
use rag_foundation.Common.Dict.{
  Dict, lookup, insert, contains, Distinct, contains-insert, contains-erase, All-contains,
  insert-Distinct, erase-Distinct, length-erase, length-insert,
}
use rag_foundation.RateLimit.Memory.{
  InMemoryRateLimiter, new, forget, forget_all, stale, prune, oldest_from, oldest_key,
  evict_if_needed, expire, admit,
}

abbrev pub tracked : String → InMemoryRateLimiter → Bool
tracked k s = contains str_dec k s.store

-- The two dicts hold the same keys, each once, and no more than `max_keys`.
pub record IsValid (s : InMemoryRateLimiter) : Type 0 where
  pub store_distinct : Distinct str_dec s.store
  pub seen_distinct : Distinct str_dec s.last_seen
  pub same_keys : (k : String) → contains str_dec k s.store ≡ contains str_dec k s.last_seen
  pub same_size : length s.store ≡ length s.last_seen
  pub bounded : length s.last_seen ≤ s.max_keys

pub new-IsValid : (n ttl : ℕ) → IsValid (new n ttl)
unfolding new
new-IsValid n ttl = record {
  store_distinct = tt;
  seen_distinct = tt;
  same_keys = λ k. refl;
  same_size = refl;
  bounded = omega arith;
}

pub forget-IsValid : (k : String) (s : InMemoryRateLimiter) → IsValid s → IsValid (forget k s)
unfolding forget
forget-IsValid k s v = record {
  store_distinct = erase-Distinct str_dec k s.store v.store_distinct;
  seen_distinct = erase-Distinct str_dec k s.last_seen v.seen_distinct;
  same_keys = λ j. rw (
    contains-erase str_dec j k s.store v.store_distinct,
    contains-erase str_dec j k s.last_seen v.seen_distinct,
    v.same_keys j,
  );
  same_size =
      ground
        (arith, length-erase str_dec k s.store, length-erase str_dec k s.last_seen, v.same_keys k);
  bounded = ground (arith, length-erase str_dec k s.last_seen);
}

pub forget_all-IsValid :
    (ks : List String) (s : InMemoryRateLimiter) → IsValid s → IsValid (forget_all ks s)
unfolding forget_all
forget_all-IsValid [] s v = v
forget_all-IsValid (k ∷ ks) s v = forget_all-IsValid ks (forget k s) (forget-IsValid k s v)

oldest_from-contains :
    (best : String) (t : ℕ) (d e : Dict String ℕ)
    → contains str_dec best e ≡ true
    → All (λ x. contains str_dec x.0 e ≡ true) d
    → contains str_dec (oldest_from best t d) e ≡ true
unfolding oldest_from
oldest_from-contains best t [] e h a = h
oldest_from-contains best t (x ∷ d) e h a = elim (Bool-cases (ltb x.1 t)) [
  | inl p ↦ rw p (oldest_from-contains x.0 x.1 d e a.0 a.1)
  | inr p ↦ rw p (oldest_from-contains best t d e h a.1)
]

oldest_key-contains :
    (d : Dict String ℕ) (k : String) → oldest_key d ≡ some k → contains str_dec k d ≡ true
unfolding oldest_key
oldest_key-contains [] k h = cc
oldest_key-contains (x ∷ d) k h =
    let all = All-contains str_dec (x ∷ d) in
    ground (arith, oldest_from-contains x.0 x.1 d (x ∷ d) all.0 all.1)

-- An eviction forgets a key that was tracked, and happens only when the limit is reached.
pub evict_if_needed_cases :
    (s r : InMemoryRateLimiter)
    → evict_if_needed s ≡ some r
    → ((length s.last_seen < s.max_keys) × (s ≡ r))
      ⊎ ((k : String) × (oldest_key s.last_seen ≡ some k) × (forget k s ≡ r))
unfolding evict_if_needed
evict_if_needed_cases s r h = elim (Bool-cases (ltb (length s.last_seen) s.max_keys)) [
  | inl p ↦ inl (ground arith, ground arith)
  | inr p ↦ elim (Option-cases (oldest_key s.last_seen)) [
    | inl e ↦ absurd (ground arith)
    | inr (k, e) ↦ inr (k, e, ground arith)
  ]
]

-- Forgetting a tracked key makes room for another.
forget-room :
    (k : String) (s : InMemoryRateLimiter)
    → IsValid s
    → contains str_dec k s.last_seen ≡ true
    → length (forget k s).last_seen < (forget k s).max_keys
unfolding forget
forget-room k s v h = ground (arith, length-erase str_dec k s.last_seen, v.bounded)

pub evict_if_needed-IsValid :
    (s r : InMemoryRateLimiter)
    → IsValid s
    → evict_if_needed s ≡ some r
    → IsValid r × (length r.last_seen < r.max_keys)
evict_if_needed-IsValid s r v h = elim (evict_if_needed_cases s r h) [
  | inl (room, e) ↦ subst (λ x. IsValid x × (length x.last_seen < x.max_keys)) e (v, room)
  | inr (k, old, e) ↦
      subst (λ x. IsValid x × (length x.last_seen < x.max_keys)) e
        (forget-IsValid k s v, forget-room k s v (oldest_key-contains s.last_seen k old))
]

pub prune-IsValid :
    (s : InMemoryRateLimiter) (now window : ℕ) → IsValid s → IsValid (prune s now window)
unfolding prune
prune-IsValid s now window v = forget_all-IsValid (stale _ s.last_seen) s v

-- What `admit` needs: the key is in the store, and in `last_seen` unless it is new.
pub record IsReady (key : String) (s : InMemoryRateLimiter) : Type 0 where
  store_distinct : Distinct str_dec s.store
  seen_distinct : Distinct str_dec s.last_seen
  in_store : contains str_dec key s.store ≡ true
  same_keys : (k : String) → k ≢ key → contains str_dec k s.store ≡ contains str_dec k s.last_seen
  same_size :
      length s.store
      ≡ length s.last_seen + (elim (contains str_dec key s.last_seen) [ true ↦ 0 | false ↦ 1 ])
  bounded : length s.store ≤ s.max_keys

admit-IsValid_allowed :
    (key : String) (now : ℕ) (q : List ℕ) (s : InMemoryRateLimiter)
    → IsReady key s
    → IsValid (record s {
      store = insert str_dec key q s.store;
      last_seen = insert str_dec key now s.last_seen;
    })
admit-IsValid_allowed key now q s v = record {
  store_distinct = insert-Distinct str_dec key q s.store v.store_distinct;
  seen_distinct = insert-Distinct str_dec key now s.last_seen v.seen_distinct;
  same_keys = λ j. ground (
    arith,
    contains-insert str_dec j key q s.store,
    contains-insert str_dec j key now s.last_seen,
    v.same_keys j,
  );
  same_size = ground (
    arith,
    v.in_store,
    v.same_size,
    length-insert str_dec key q s.store,
    length-insert str_dec key now s.last_seen,
  );
  bounded = ground (arith, v.bounded, v.same_size, length-insert str_dec key now s.last_seen);
}

pub IsReady-found :
    (key : String) (q : List ℕ) (s : InMemoryRateLimiter)
    → IsValid s
    → lookup str_dec key s.store ≡ some q
    → IsReady key s
IsReady-found key q s v h = record {
  store_distinct = v.store_distinct;
  seen_distinct = v.seen_distinct;
  in_store = ground arith;
  same_keys = λ k _. v.same_keys k;
  same_size = ground (arith, v.same_keys key, v.same_size);
  bounded = omega (arith, v.same_size, v.bounded);
}

pub IsReady-new :
    (key : String) (s : InMemoryRateLimiter)
    → IsValid s
    → length s.last_seen < s.max_keys
    → contains str_dec key s.store ≡ false
    → IsReady key (record s { store = insert str_dec key [] s.store })
IsReady-new key s v room h = record {
  store_distinct = insert-Distinct str_dec key [] s.store v.store_distinct;
  seen_distinct = v.seen_distinct;
  in_store = ground (arith, contains-insert str_dec key key [] s.store);
  same_keys = λ k ne. ground (arith, contains-insert str_dec k key [] s.store, v.same_keys k);
  same_size = ground (arith, length-insert str_dec key [] s.store, v.same_keys key, v.same_size);
  bounded = ground (arith, length-insert str_dec key [] s.store, v.same_size);
}

pub evict_if_needed-absent :
    (key : String) (s r : InMemoryRateLimiter)
    → IsValid s
    → evict_if_needed s ≡ some r
    → contains str_dec key s.store ≡ false
    → contains str_dec key r.store ≡ false
unfolding forget
evict_if_needed-absent key s r v h absent = elim (evict_if_needed_cases s r h) [
  | inl (_, e) ↦ subst (λ x. contains str_dec key x.store ≡ false) e absent
  | inr (k, _, e) ↦
      subst (λ x. contains str_dec key x.store ≡ false) e
        (ground (arith, contains-erase str_dec key k s.store v.store_distinct))
]

pub admit-IsValid :
    (now : ℕ) (key : String) (limit window : ℕ) (q : List ℕ) (s : InMemoryRateLimiter)
    → IsReady key s
    → (leb limit (length (expire now window q)) ≡ true → IsValid s)
    → IsValid (admit now key limit window q s).0
unfolding admit
admit-IsValid now key limit window q s ready full =
    elim (Bool-cases (leb limit (length (expire now window q)))) [
      | inl p ↦ rw p (rejected (full p))
      | inr p ↦ rw p (admit-IsValid_allowed key now _ s ready)
    ]
  where
    rejected :
        IsValid s → IsValid (record s { store = insert str_dec key (expire now window q) s.store })
    rejected v = record {
      store_distinct = insert-Distinct str_dec key _ s.store v.store_distinct;
      seen_distinct = v.seen_distinct;
      same_keys = λ j. ground (
        arith,
        contains-insert str_dec j key (expire now window q) s.store,
        v.same_keys j,
        ready.in_store,
      );
      same_size = ground (
        arith,
        v.same_size,
        ready.in_store,
        length-insert str_dec key (expire now window q) s.store,
      );
      bounded = v.bounded;
    }
