-- ===== src/RateLimit/Memory.antt =====
-- backend/app/rate_limit.py, `InMemoryRateLimiter`: a deque of request times for each key, with idle
-- keys pruned and the oldest key evicted when too many are tracked. Times, the window and the idle
-- time are in one unit, the clock's ticks; the clock is an argument of each call.
use rag_foundation.Common.{
  ℕ, ◌-◌, String, List, [], ◌∷◌, ◌++◌, Option, none, some, max, ltb, leb, if◌then◌else◌, length,
  keep, str_dec, ◌≡◌, inl, inr, Option-cases,
}
use rag_foundation.Common.Dict.{Dict, lookup, insert, erase, keys}

pub record InMemoryRateLimiter : Type 0 where
  pub store : Dict String (List ℕ)
  pub last_seen : Dict String ℕ
  pub max_keys : ℕ
  pub key_ttl_seconds : ℕ

-- What `check` answers: the pair (remaining, limit), the HTTP error 429 with its Retry-After and
-- limit headers, or the ValueError that `min` raises on an empty dict.
pub data Verdict : Type 0 where
  allowed : ℕ → ℕ → Verdict
  too_many : ℕ → ℕ → Verdict
  value_error : Verdict

unfoldable pub new : ℕ → ℕ → InMemoryRateLimiter
new max_keys ttl = record { store = []; last_seen = []; max_keys = max_keys; key_ttl_seconds = ttl }

-- `self.store.pop(key, None); self.last_seen.pop(key, None)`
unfoldable pub forget : String → InMemoryRateLimiter → InMemoryRateLimiter
forget key s = record s {
  store = erase str_dec key s.store;
  last_seen = erase str_dec key s.last_seen;
}

unfoldable pub forget_all : List String → InMemoryRateLimiter → InMemoryRateLimiter
unfolding forget
forget_all [] s = s
forget_all (k ∷ ks) s = forget_all ks (forget k s)

unfoldable pub stale : ℕ → Dict String ℕ → List String
stale cutoff d = keys (keep (λ e. ltb e.1 cutoff) d)

unfoldable pub prune : InMemoryRateLimiter → ℕ → ℕ → InMemoryRateLimiter
prune s now window =
    let cutoff = now - max window s.key_ttl_seconds in forget_all (stale cutoff s.last_seen) s

-- `min(d, key=lambda k: d[k])`: the first key with the least value.
unfoldable pub oldest_from : String → ℕ → Dict String ℕ → String
oldest_from best t [] = best
oldest_from best t (e ∷ d) =
    oldest_from (if ltb e.1 t then e.0 else best) (if ltb e.1 t then e.1 else t) d

unfoldable pub oldest_key : Dict String ℕ → Option String
unfolding oldest_from
oldest_key [] = none
oldest_key (e ∷ d) = some (oldest_from e.0 e.1 d)

-- `none` is the ValueError of `min`.
unfoldable pub evict_if_needed : InMemoryRateLimiter → Option InMemoryRateLimiter
evict_if_needed s =
    if ltb (length s.last_seen) s.max_keys
    then some s
    else elim (oldest_key s.last_seen) [ none ↦ none | some k ↦ some (forget k s) ]

-- `while q and now - q[0] > window: q.popleft()`
unfoldable pub expire : ℕ → ℕ → List ℕ → List ℕ
expire now window [] = []
expire now window (t ∷ q) = if ltb window (now - t) then expire now window q else t ∷ q

-- The rest of `check`, once the key has its deque `q`.
unfoldable pub admit :
    ℕ → String → ℕ → ℕ → List ℕ → InMemoryRateLimiter → InMemoryRateLimiter × Verdict
admit now key limit window q s =
    let live = expire now window q in
    if leb limit (length live)
    then (record s { store = insert str_dec key live s.store }, too_many window limit)
    else (
      record s {
        store = insert str_dec key (live ++ now ∷ []) s.store;
        last_seen = insert str_dec key now s.last_seen;
      },
      allowed (limit - length (live ++ now ∷ [])) limit,
    )

unfoldable pub check : ℕ → String → ℕ → ℕ → InMemoryRateLimiter → InMemoryRateLimiter × Verdict
check now key limit window s =
    let pruned = prune s now window in
    elim (lookup str_dec key pruned.store) [
      | some q ↦ admit now key limit window q pruned
      | none ↦ elim (evict_if_needed pruned) [
        | none ↦ (pruned, value_error)
        | some room ↦
            admit now key limit window [] (record room { store = insert str_dec key [] room.store })
      ]
    ]

-- The ways through `check`: the key has a deque, or gets one, or nothing can be evicted.
pub check_cases {ℓ} :
    (P : InMemoryRateLimiter × Verdict → Type ℓ) (now : ℕ) (key : String) (limit window : ℕ)
    (s : InMemoryRateLimiter)
    → ((q : List ℕ)
        → lookup str_dec key (prune s now window).store ≡ some q
        → P (admit now key limit window q (prune s now window)))
    → ((r : InMemoryRateLimiter)
        → lookup str_dec key (prune s now window).store ≡ none
        → evict_if_needed (prune s now window) ≡ some r
        → P (admit now key limit window [] (record r { store = insert str_dec key [] r.store })))
    → (lookup str_dec key (prune s now window).store ≡ none
        → evict_if_needed (prune s now window) ≡ none
        → P (prune s now window, value_error))
    → P (check now key limit window s)
unfolding check
check_cases P now key limit window s found created failed =
    let p = prune s now window in
    elim (Option-cases (lookup str_dec key p.store)) [
      | inr (q, e) ↦ rw (e, check) (found q e)
      | inl e ↦ elim (Option-cases (evict_if_needed p)) [
        | inl bad ↦ rw (e, check, bad) (failed e bad)
        | inr (r, room) ↦ rw (e, check, room) (created r e room)
      ]
    ]
