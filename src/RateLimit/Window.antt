-- ===== src/RateLimit/Window.antt =====
-- backend/app/rate_limit.py, `InMemoryRateLimiter.check`: how many requests a window lets through.
use rag_foundation.Common.{
  ℕ, ◌≤◌, ◌<◌, ◌≡◌, refl, sym, String, List, [], ◌∷◌, ◌++◌, none, some, leb, length, str_dec, true,
  arith, ◌⊎◌, inl, inr, Bool-cases, subst, ◌≢◌, ite, if_pos, if_neg,
}
use rag_foundation.Common.Dict.{lookup, insert, contains, lookup-insert_self, lookup-insert_ne}
use rag_foundation.RateLimit.Memory.{
  InMemoryRateLimiter, Verdict, allowed, too_many, value_error, new, prune, evict_if_needed, expire,
  admit, check, check_cases,
}
use rag_foundation.RateLimit.Keys.{IsValid, new-IsValid}
use rag_foundation.RateLimit.Bounded.{check-IsValid}
use rag_foundation.RateLimit.Known.{live, Known, Known-later, Known-expire, Known-admit, Known-live}
use rag_foundation.RateLimit.Idle.{queue, seen_at, Tracks, prune-Tracks}

-- The requests of `k` that were let through, in order: a call at `now` for `key` may add one.
abbrev pub note : String → ℕ → String → Verdict → List ℕ → List ℕ
note k now key (allowed _ _) h = ite (str_dec key k) (h ++ now ∷ []) h
note k now key (too_many _ _) h = h
note k now key value_error h = h

module _ (k : String) (limit window now : ℕ) (h : List ℕ) where
  admit-Tracks_self :
      (q : List ℕ) (s : InMemoryRateLimiter)
      → Known limit window now h q (seen_at k s)
      → let r = admit now k limit window q s in Tracks k limit window now (note k now k r.1 h) r.0
  unfolding admit
  admit-Tracks_self q s r =
      let next = Known-expire q r in
      elim (Bool-cases (leb limit (length (expire now window q)))) [
        | inl full ↦ rw (full, lookup-insert_self str_dec k (expire now window q) s.store) next
        | inr room ↦
            rw
              (
                room,
                lookup-insert_self str_dec k (expire now window q ++ now ∷ []) s.store,
                lookup-insert_self str_dec k now s.last_seen,
                if_pos (str_dec k k) refl,
              )
              (Known-admit (ground arith) next)
      ]

  admit-Tracks_ne :
      (key : String) (l : ℕ) (q : List ℕ) (s : InMemoryRateLimiter)
      → key ≢ k
      → Tracks k limit window now h s
      → let r = admit now key l window q s in Tracks k limit window now (note k now key r.1 h) r.0
  unfolding admit
  admit-Tracks_ne key l q s ne r =
      let other : k ≢ key = λ e. ne (sym e) in
      elim (Bool-cases (leb l (length (expire now window q)))) [
        | inl full ↦ rw (full, lookup-insert_ne str_dec k key (expire now window q) s.store other) r
        | inr room ↦
            rw
              (
                room,
                lookup-insert_ne str_dec k key (expire now window q ++ now ∷ []) s.store other,
                lookup-insert_ne str_dec k key now s.last_seen other,
                if_neg (str_dec key k) ne,
              )
              r
      ]

-- The key was tracked already, or fewer than `max_keys` are: nothing is evicted.
abbrev pub HasRoom : ℕ → String → ℕ → InMemoryRateLimiter → Type 0
HasRoom now key window s =
    let p = prune s now window in
    (contains str_dec key p.store ≡ true) ⊎ (length p.last_seen < p.max_keys)

evict_if_needed-room :
    (s r : InMemoryRateLimiter)
    → length s.last_seen < s.max_keys
    → evict_if_needed s ≡ some r
    → s ≡ r
unfolding evict_if_needed
evict_if_needed-room s r room h = ground arith

room_left :
    (key : String) (p : InMemoryRateLimiter)
    → (contains str_dec key p.store ≡ true) ⊎ (length p.last_seen < p.max_keys)
    → lookup str_dec key p.store ≡ none
    → length p.last_seen < p.max_keys
room_left key p room e = ground arith

-- The state in which a new key has its empty deque.
abbrev opened : String → InMemoryRateLimiter → InMemoryRateLimiter
opened key p = record p { store = insert str_dec key [] p.store }

queue-opened :
    (k key : String) (p : InMemoryRateLimiter)
    → lookup str_dec key p.store ≡ none
    → queue k (opened key p) ≡ queue k p
queue-opened k key p e = elim (str_dec key k) [
  | yes same ↦ rw (← same, e, lookup-insert_self str_dec key [] p.store)
  | no ne ↦ rw (lookup-insert_ne str_dec k key [] p.store (λ s. ne (sym s)))
]

module _ (k : String) (limit window now : ℕ) (h : List ℕ) where
  admit-Tracks :
      (key : String) (l : ℕ) (q : List ℕ) (s : InMemoryRateLimiter)
      → (key ≡ k → l ≡ limit)
      → (key ≡ k → q ≡ queue k s)
      → Tracks k limit window now h s
      → let r = admit now key l window q s in Tracks k limit window now (note k now key r.1 h) r.0
  admit-Tracks key l q s same_limit same_queue r = elim (str_dec key k) [
    | yes p ↦
        rw (p, same_limit p) (admit-Tracks_self k limit window now h q s (rw (same_queue p) r))
    | no p ↦ admit-Tracks_ne k limit window now h key l q s p r
  ]

  check-Tracks :
      (key : String) (l : ℕ) (s : InMemoryRateLimiter)
      → (key ≡ k → l ≡ limit)
      → HasRoom now key window s
      → IsValid s
      → Tracks k limit window now h s
      → let r = check now key l window s in Tracks k limit window now (note k now key r.1 h) r.0
  check-Tracks key l s same_limit room v r =
      let p = prune s now window in
      let rp = prune-Tracks k limit window now h s v r in
      check_cases (λ x. Tracks k limit window now (note k now key x.1 h) x.0) now key l window s
        (λ q e. admit-Tracks key l q p same_limit (λ same. rw (← same, e)) rp)
        (λ x e made.
          let same_state = evict_if_needed-room p x (room_left key p room e) made in
          subst
            (λ y.
              let a = admit now key l window [] (opened key y) in
              Tracks k limit window now (note k now key a.1 h) a.0)
            same_state
            (admit-Tracks key l [] (opened key p) same_limit
              (λ same. rw (← same, queue-opened key key p e, e)) (rw (queue-opened k key p e) rp)))
        (λ e failed. rp)

-- The histories of a limiter whose calls all have one window and whose calls for `k` all have one
-- limit, with a clock that does not go back and no eviction: the limiter, the time of the last
-- call, and the times of the requests of `k` that were let through.
pub data History (k : String) (limit window : ℕ) : InMemoryRateLimiter → ℕ → List ℕ → Type 0 where
  start : (max_keys ttl : ℕ) → History k limit window (new max_keys ttl) 0 []
  call :
      {s : InMemoryRateLimiter} {t : ℕ} {h : List ℕ}
      → History k limit window s t h
      → (now : ℕ) (key : String) (l : ℕ) → t ≤ now
      → 0 < l
      → (key ≡ k → l ≡ limit)
      → HasRoom now key window s
      → History k limit window
          (check now key l window s).0
          now
          (note k now key (check now key l window s).1 h)

new-Tracks : (k : String) (limit window n ttl : ℕ) → Tracks k limit window 0 [] (new n ttl)
unfolding new
new-Tracks k limit window n ttl = record {
  old = [];
  split = refl;
  expired = tt;
  within = omega arith;
  seen = tt;
  past = omega arith;
}

History-Tracks :
    {k : String} {limit window : ℕ} {s : InMemoryRateLimiter} {t : ℕ} {h : List ℕ}
    → History k limit window s t h
    → IsValid s × Tracks k limit window t h s
History-Tracks {k} {limit} {window} (start n ttl) =
    (new-IsValid n ttl, new-Tracks k limit window n ttl)
History-Tracks {k} {limit} {window}
      (call {s = s} {t = t} {h = h} before now key l le pos same room) =
    let (v, r) = History-Tracks before in
    (
      check-IsValid now key l window s pos v,
      check-Tracks k limit window now h key l s same room v (Known-later le r),
    )

-- In every history of calls of one window, with one positive limit for `k`, a clock that does not go
-- back and no eviction: of the requests of `k` that were let through, at most `limit` are no older
-- than the window at the time of the last call, whatever other keys did.
pub History-limit :
    {k : String} {limit window : ℕ} {s : InMemoryRateLimiter} {t : ℕ} {h : List ℕ}
    → History k limit window s t h
    → length (live t window h) ≤ limit
History-limit before = Known-live (History-Tracks before).1
