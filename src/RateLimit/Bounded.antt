-- ===== src/RateLimit/Bounded.antt =====
-- backend/app/rate_limit.py, `InMemoryRateLimiter.check`: the memory that the limiter keeps.
use rag_foundation.Common.{ℕ, ◌≤◌, ◌<◌, ◌≡◌, String, List, [], ◌∷◌, leb, length, true, arith}
use rag_foundation.RateLimit.Memory.{InMemoryRateLimiter, new, prune, expire, check, check_cases}
use rag_foundation.RateLimit.Keys.{
  IsValid, IsReady-found, IsReady-new, new-IsValid, prune-IsValid, evict_if_needed-IsValid,
  evict_if_needed-absent, admit-IsValid,
}

-- Every call of `check` with a positive limit, whatever it answers, keeps the two dicts on the same
-- keys, each once, and at most `max_keys` of them.
pub check-IsValid :
    (now : ℕ) (key : String) (limit window : ℕ) (s : InMemoryRateLimiter)
    → 0 < limit
    → IsValid s
    → IsValid (check now key limit window s).0
unfolding expire
check-IsValid now key limit window s pos v =
    let p = prune s now window in
    let vp = prune-IsValid s now window v in
    check_cases (λ r. IsValid r.0) now key limit window s
      (λ q e. admit-IsValid now key limit window q p (IsReady-found key q p vp e) (λ _. vp))
      (λ r e room.
        let vr = evict_if_needed-IsValid p r vp room in
        admit-IsValid now key limit window [] _
          (IsReady-new key r vr.0 vr.1 (evict_if_needed-absent key p r vp room (ground arith)))
          (λ full. absurd (nothing_live full)))
      (λ _ _. vp)
  where
    nothing_live : leb limit (length (expire now window [])) ≡ true → ⊥
    nothing_live full = ground arith

-- A history of calls, each at its own time, for its own key, limit and window.
pub record Call : Type 0 where
  pub now : ℕ
  pub key : String
  pub limit : ℕ
  pub window : ℕ

pub run : List Call → InMemoryRateLimiter → InMemoryRateLimiter
run [] s = s
run (c ∷ cs) s = run cs (check c.now c.key c.limit c.window s).0

abbrev pub IsPositive : List Call → Type 0
IsPositive [] = Unit
IsPositive (c ∷ cs) = (0 < c.limit) × IsPositive cs

run-IsValid :
    (cs : List Call) (s : InMemoryRateLimiter) → IsPositive cs → IsValid s → IsValid (run cs s)
unfolding run
run-IsValid [] s pos v = v
run-IsValid (c ∷ cs) s pos v =
    run-IsValid cs _ pos.1 (check-IsValid c.now c.key c.limit c.window s pos.0 v)

-- After any history of calls with positive limits on a fresh limiter, the number of deques and of
-- last-seen times is the same, and at most the limiter's `max_keys`.
pub run-bounded :
    (max_keys ttl : ℕ) (cs : List Call)
    → IsPositive cs
    → let s = run cs (new max_keys ttl) in
      (length s.store ≡ length s.last_seen) × (length s.last_seen ≤ s.max_keys)
run-bounded max_keys ttl cs pos =
    let v = run-IsValid cs (new max_keys ttl) pos (new-IsValid max_keys ttl) in
    (v.same_size, v.bounded)
