-- ===== src/RateLimit/Idle.antt =====
-- backend/app/rate_limit.py, `InMemoryRateLimiter.check`: what `prune` may forget.
use rag_foundation.Common.{
  ℕ, ◌+◌, ◌-◌, ◌<◌, ◌≡◌, String, List, [], ◌∷◌, Option, none, some, max, ltb, str_dec, arith, inl,
  inr, Bool-cases, ◌≢◌, All, All-map,
}
use rag_foundation.Common.Dict.{Dict, lookup, Distinct, lookup-erase_self, lookup-erase_ne}
use rag_foundation.RateLimit.Memory.{InMemoryRateLimiter, forget, forget_all, stale, prune}
use rag_foundation.RateLimit.Keys.{IsValid, forget-IsValid}
use rag_foundation.RateLimit.Known.{Known, Known-drop}

-- The deque of a key, empty if there is none, and the time that it was last seen at.
abbrev pub deque : Option (List ℕ) → List ℕ
deque none = []
deque (some q) = q

abbrev pub queue : String → InMemoryRateLimiter → List ℕ
queue k s = deque (lookup str_dec k s.store)

abbrev pub time : Option ℕ → ℕ
time none = 0
time (some t) = t

abbrev pub seen_at : String → InMemoryRateLimiter → ℕ
seen_at k s = time (lookup str_dec k s.last_seen)

abbrev pub Tracks : String → ℕ → ℕ → ℕ → List ℕ → InMemoryRateLimiter → Type 0
Tracks k limit window t h s = Known limit window t h (queue k s) (seen_at k s)

-- The keys that `prune` drops were last seen before the cutoff.
stale-seen :
    (cutoff : ℕ) (d : Dict String ℕ)
    → Distinct str_dec d
    → All (λ j. (t : ℕ) × (lookup str_dec j d ≡ some t) × (t < cutoff)) (stale cutoff d)
unfolding stale
stale-seen cutoff [] h = tt
stale-seen cutoff (e ∷ d) h = elim (Bool-cases (ltb e.1 cutoff)) [
  | inl p ↦ rw (p, All) ((e.1, ground arith, ground arith), rest (stale-seen cutoff d h.1))
  | inr p ↦ rw (p, All) (rest (stale-seen cutoff d h.1))
]
  where
    rest :
        All (λ j. (t : ℕ) × (lookup str_dec j d ≡ some t) × (t < cutoff)) (stale cutoff d)
        → All (λ j. (t : ℕ) × (lookup str_dec j (e ∷ d) ≡ some t) × (t < cutoff)) (stale cutoff d)
    rest =
        All-map (λ j. (t : ℕ) × (lookup str_dec j d ≡ some t) × (t < cutoff))
          (λ j. (t : ℕ) × (lookup str_dec j (e ∷ d) ≡ some t) × (t < cutoff))
          (λ j w. (w.0, ground arith, w.2)) (stale cutoff d)

queue-forget_self :
    (k : String) (s : InMemoryRateLimiter)
    → IsValid s
    → (queue k (forget k s) ≡ []) × (seen_at k (forget k s) ≡ 0)
unfolding forget
queue-forget_self k s v = (
  ground (arith, lookup-erase_self str_dec k s.store v.store_distinct),
  ground (arith, lookup-erase_self str_dec k s.last_seen v.seen_distinct),
)

queue-forget_ne :
    (k j : String) (s : InMemoryRateLimiter)
    → j ≢ k
    → (queue k (forget j s) ≡ queue k s) × (seen_at k (forget j s) ≡ seen_at k s)
unfolding forget
queue-forget_ne k j s ne = (
  ground (arith, lookup-erase_ne str_dec k j s.store),
  ground (arith, lookup-erase_ne str_dec k j s.last_seen),
)

module _ (k : String) (limit window now : ℕ) (h : List ℕ) where
  -- Forgetting `k` when it is idle for longer than the window, or another key.
  forget-Tracks :
      (j : String) (s : InMemoryRateLimiter)
      → IsValid s
      → (j ≡ k → seen_at k s + window < now)
      → Tracks k limit window now h s
      → Tracks k limit window now h (forget j s)
  forget-Tracks j s v idle r = elim (str_dec j k) [
    | yes p ↦ let gone = queue-forget_self k s v in rw (p, gone.0, gone.1) (Known-drop (idle p) r)
    | no p ↦ let same = queue-forget_ne k j s p in rw (same.0, same.1) r
  ]

  forget-idle :
      (i j : String) (s : InMemoryRateLimiter)
      → IsValid s
      → (i ≡ k → seen_at k s + window < now)
      → i ≡ k
      → seen_at k (forget j s) + window < now
  forget-idle i j s v idle e = elim (str_dec j k) [
    | yes p ↦ rw (p, (queue-forget_self k s v).1) (omega (arith, idle e))
    | no p ↦ rw (queue-forget_ne k j s p).1 (idle e)
  ]

  forget_all-Tracks :
      (js : List String) (s : InMemoryRateLimiter)
      → IsValid s
      → All (λ j. j ≡ k → seen_at k s + window < now) js
      → Tracks k limit window now h s
      → Tracks k limit window now h (forget_all js s)
  unfolding forget_all
  forget_all-Tracks [] s v idle r = r
  forget_all-Tracks (j ∷ js) s v idle r =
      forget_all-Tracks js (forget j s) (forget-IsValid j s v)
        (All-map (λ i. i ≡ k → seen_at k s + window < now)
          (λ i. i ≡ k → seen_at k (forget j s) + window < now) (λ i w. forget-idle i j s v w) js
          idle.1)
        (forget-Tracks j s v idle.0 r)

  pub prune-Tracks :
      (s : InMemoryRateLimiter)
      → IsValid s
      → Tracks k limit window now h s
      → Tracks k limit window now h (prune s now window)
  unfolding prune
  prune-Tracks s v r =
      let cutoff = now - max window s.key_ttl_seconds in
      forget_all-Tracks (stale cutoff s.last_seen) s v
        (All-map (λ j. (t : ℕ) × (lookup str_dec j s.last_seen ≡ some t) × (t < cutoff))
          (λ j. j ≡ k → seen_at k s + window < now) (λ j w e. ground arith)
          (stale cutoff s.last_seen) (stale-seen cutoff s.last_seen v.seen_distinct))
        r
