-- ===== src/RateLimit/Fallback.antt =====
-- backend/app/rate_limit.py, `RedisRateLimiter.check` and `RateLimiter.check` over histories of calls.
use rag_foundation.Common.{
  ℕ, ◌+◌, ◌*◌, ◌/◌, ◌≤◌, ◌≡◌, sym, String, List, [], ◌∷◌, none, some, Bool, true, false, arith, min,
  inl, inr, Option-cases, ℕ_discrete, ite,
}
use rag_foundation.RateLimit.Memory.{Verdict, allowed, too_many, value_error}
use rag_foundation.RateLimit.Bounded.{Call}
use rag_foundation.RateLimit.Redis.{Redis, count_verdict, redis_check, RateLimiter, check}

abbrev pub is_allowed : Verdict → ℕ
is_allowed (allowed _ _) = 1
is_allowed (too_many _ _) = 0
is_allowed value_error = 0

module _ (r : Redis) where
  open r use {Server, value, incr, incr_counts, incr_others}

  -- Calls of `redis_check` for one key, limit and window at the given times, in turn: how many of
  -- those in window number `b` were let through. It stops at a connection error.
  pub let_through : String → ℕ → ℕ → ℕ → List ℕ → Server → ℕ
  let_through key limit window b [] s = 0
  let_through key limit window b (now ∷ times) s = elim (redis_check r now key limit window s) [
    | none ↦ 0
    | some (s', v) ↦
        ite (ℕ_discrete (now / window) b) (is_allowed v) 0 + let_through key limit window b times s'
  ]

  -- One more request in the window: the counter and the number let through keep in step.
  count_step :
      (limit window n : ℕ) (rest : ℕ)
      → rest + min limit (n + 1) ≤ limit
      → is_allowed (count_verdict (n + 1) limit window) + rest + min limit n ≤ limit
  unfolding count_verdict
  count_step limit window n rest h = ground arith

  let_through-step :
      (key : String) (limit window b : ℕ) (now : ℕ) (times : List ℕ) (s : Server)
      → ((s' : Server)
          → let_through key limit window b times s' + min limit (value s' key b) ≤ limit)
      → let_through key limit window b (now ∷ times) s + min limit (value s key b) ≤ limit
  unfolding let_through redis_check
  let_through-step key limit window b now times s ih =
      elim (Option-cases (incr s key (now / window) (window * 2))) [
        | inl e ↦ rw (e, let_through, redis_check) (omega arith)
        | inr ((n, s'), e) ↦
            let counts = incr_counts s s' key (now / window) (window * 2) n e in
            elim (ℕ_discrete (now / window) b) [
              | yes same ↦ ground (
                arith,
                ih s',
                counts,
                count_step limit window (value s key b) (let_through key limit window b times s'),
              )
              | no other ↦ ground (
                arith,
                ih s',
                incr_others s s' key key (now / window) b (window * 2) n e
                    (inr (λ x. other (sym x))),
              )
            ]
      ]

  let_through-min :
      (key : String) (limit window b : ℕ) (times : List ℕ) (s : Server)
      → let_through key limit window b times s + min limit (value s key b) ≤ limit
  unfolding let_through
  let_through-min key limit window b [] s = omega arith
  let_through-min key limit window b (now ∷ times) s =
      let_through-step key limit window b now times s (let_through-min key limit window b times)

  -- Whatever the times of the calls for a key with one limit and window, a window of the clock lets at
  -- most `limit` of them through, while Redis counts and no counter expires.
  pub let_through-le :
      (key : String) (limit window b : ℕ) (times : List ℕ) (s : Server)
      → let_through key limit window b times s ≤ limit
  let_through-le key limit window b times s =
      omega (arith, let_through-min key limit window b times s)

  pub limiter_run : List Call → RateLimiter r → RateLimiter r
  limiter_run [] l = l
  limiter_run (c ∷ cs) l = limiter_run cs (check r c.now c.key c.limit c.window l).0

module _ (r : Redis) where
  to_ℕ : Bool → ℕ
  to_ℕ true = 1
  to_ℕ false = 0

  abbrev IsCounted : RateLimiter r → Type 0
  IsCounted l = l.warnings ≡ to_ℕ l.fallback_logged + to_ℕ l.no_redis_logged

  check-IsCounted :
      (now : ℕ) (key : String) (limit window : ℕ) (l : RateLimiter r)
      → IsCounted l
      → IsCounted (check r now key limit window l).0
  unfolding check to_ℕ
  check-IsCounted now key limit window l h = ground (arith)

  limiter_run-IsCounted :
      (cs : List Call) (l : RateLimiter r) → IsCounted l → IsCounted (limiter_run r cs l)
  unfolding limiter_run
  limiter_run-IsCounted [] l h = h
  limiter_run-IsCounted (c ∷ cs) l h =
      limiter_run-IsCounted cs _ (check-IsCounted c.now c.key c.limit c.window l h)

  -- A limiter that has logged nothing yet warns at most twice in any history of calls: once of each
  -- way in which it is degraded.
  pub limiter_run-warnings :
      (cs : List Call) (l : RateLimiter r)
      → l.fallback_logged ≡ false
      → l.no_redis_logged ≡ false
      → l.warnings ≡ 0
      → (limiter_run r cs l).warnings ≤ 2
  unfolding to_ℕ
  limiter_run-warnings cs l f n w =
      let counted = limiter_run-IsCounted cs l (ground arith) in ground arith
