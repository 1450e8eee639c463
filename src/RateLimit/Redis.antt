-- ===== src/RateLimit/Redis.antt =====
-- backend/app/rate_limit.py, `RedisRateLimiter` and `RateLimiter`: a counter for each key and fixed
-- window, with the in-memory limiter when there is no Redis or it fails. Redis is not part of the
-- repository: it is the parameter `Redis`, whose laws are those of the INCR command.
use rag_foundation.Common.{
  ℕ, ◌+◌, ◌-◌, ◌*◌, ◌/◌, ◌≡◌, ◌≢◌, String, Option, none, some, ltb, if◌then◌else◌, Bool, true, not,
  ◌&&◌, max, ◌⊎◌,
}
use rag_foundation.RateLimit.Memory.{InMemoryRateLimiter, Verdict, allowed, too_many, value_error}
use rag_foundation.RateLimit.Memory

-- A server of counters, by key and window number. `incr` is the pipeline of INCR and EXPIRE: `none`
-- is a connection error. Its laws are those of INCR on one counter, while no counter expires.
pub record Redis : Type 1 where
  pub Server : Type 0
  pub value : Server → String → ℕ → ℕ
  pub incr : Server → String → ℕ → ℕ → Option (ℕ × Server)
  pub incr_counts :
      (s s' : Server) (k : String) (b ttl n : ℕ)
      → incr s k b ttl ≡ some (n, s')
      → (n ≡ value s k b + 1) × (value s' k b ≡ n)
  pub incr_others :
      (s s' : Server) (k j : String) (b c ttl n : ℕ)
      → incr s k b ttl ≡ some (n, s')
      → (j ≢ k) ⊎ (c ≢ b)
      → value s' j c ≡ value s j c

-- The verdict on the counter's new value.
unfoldable pub count_verdict : ℕ → ℕ → ℕ → Verdict
count_verdict count limit window =
    if ltb limit count then too_many window limit else allowed (max 0 (limit - count)) limit

module _ (r : Redis) where
  open r use {Server, value, incr, incr_counts, incr_others}

  -- `RedisRateLimiter.check`; `none` is an exception of the client.
  unfoldable pub redis_check : ℕ → String → ℕ → ℕ → Server → Option (Server × Verdict)
  redis_check now key limit window s = elim (incr s key (now / window) (window * 2)) [
    | none ↦ none
    | some (count, s') ↦ some (s', count_verdict count limit window)
  ]

  -- `RateLimiter`, with `settings.REDIS_URL` as a flag; the logs count the degradation warnings.
  pub record RateLimiter : Type 0 where
    pub memory : InMemoryRateLimiter
    pub redis : Option Server
    pub redis_url : Bool
    pub fallback_logged : Bool
    pub no_redis_logged : Bool
    pub warnings : ℕ

  with_memory : RateLimiter → InMemoryRateLimiter × Verdict → RateLimiter × Verdict
  with_memory l (m, v) = (record l { memory = m }, v)

  log_no_redis : RateLimiter → RateLimiter
  log_no_redis l =
      if l.redis_url && not l.no_redis_logged
      then record l { no_redis_logged = true; warnings = l.warnings + 1 }
      else l

  log_fallback : RateLimiter → RateLimiter
  log_fallback l =
      if l.fallback_logged
      then l
      else record l { fallback_logged = true; warnings = l.warnings + 1 }

  unfoldable pub check : ℕ → String → ℕ → ℕ → RateLimiter → RateLimiter × Verdict
  unfolding with_memory log_no_redis log_fallback
  check now key limit window l = elim l.redis [
    | none ↦ with_memory (log_no_redis l) (Memory.check now key limit window l.memory)
    | some s ↦ elim (redis_check now key limit window s) [
      | some (s', v) ↦ (record l { redis = some s' }, v)
      | none ↦ with_memory (log_fallback l) (Memory.check now key limit window l.memory)
    ]
  ]
