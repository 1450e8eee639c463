-- ===== src/RateLimit/Tests.antt =====
-- The limiters at concrete inputs, with a Redis server that always answers.
use rag_foundation.Common.{
  ℕ, ◌+◌, ◌≤◌, ◌≡◌, refl, sym, ap, ◌∙◌, ◌≢◌, ◌⊎◌, inl, inr, String, List, [], ◌∷◌, Option, none,
  some, Bool, ◌++◌, true, false, arith, length, str_dec, ℕ_discrete, ite, ◌≢◌,
}
use rag_foundation.RateLimit.Memory.{
  allowed, too_many, new, forget, forget_all, stale, prune, oldest_from, oldest_key,
  evict_if_needed, expire, admit, check,
}
use rag_foundation.RateLimit.Bounded.{Call, run, run-bounded}
use rag_foundation.RateLimit.Window.{start, call, History-limit}
use rag_foundation.RateLimit.Known.{live}
use rag_foundation.RateLimit.Redis.{Redis}
use rag_foundation.RateLimit.Fallback.{let_through, let_through-le}
use rag_foundation.Auth.Token.{AuthSettings}
use rag_foundation.Auth.Toys.{jwt}
use rag_foundation.Common.Str.{Str, codes, eq_str, starts_with, lower}
use rag_foundation.RateLimit.Proxy.{resolved_client_ip, request_key, IsBare, request_key-client}

program : Unit {0}
unfolding new forget forget_all stale prune oldest_from oldest_key evict_if_needed expire admit
    check str_dec
program = tt

-- The third request within the window is refused; after it the first has expired.
limited :
    let s = (check 30 "a" 2 60 (check 20 "a" 2 60 (check 10 "a" 2 60 (new 5 900)).0).0) in
    (s.1 ≡ too_many 60 2) × ((check 75 "a" 2 60 s.0).1 ≡ allowed 0 2)
unfolding program
limited = (refl, refl)

-- With one tracked key at most, a second key evicts the first, which then starts afresh.
evicted :
    (check 12 "a" 1 60 (check 11 "b" 1 60 (check 10 "a" 1 60 (new 1 900)).0).0).1 ≡ allowed 0 1
unfolding program
evicted = refl

abbrev calls : List Call
calls =
    record { now = 10; key = "a"; limit = 2; window = 60 }
    ∷ record { now = 20; key = "b"; limit = 1; window = 60 }
    ∷ []

run-bounded_example :
    let s = run calls (new 5 900) in
    (length s.store ≡ length s.last_seen) × (length s.last_seen ≤ s.max_keys)
run-bounded_example = run-bounded 5 900 calls (omega arith)

History-limit_example : length (live 20 60 (10 ∷ 20 ∷ [])) ≤ 2
unfolding program
History-limit_example = History-limit {k = "a"} {limit = 2} {window = 60} (
    call (call (start 5 900) 10 "a" 2 (omega arith) (omega arith) (λ _. refl) (inr (omega arith)))
      20 "a" 2 (omega arith) (omega arith) (λ _. refl) (inl refl))

-- A server of counters as a function.
abbrev Counters : Type 0
Counters = String → ℕ → ℕ

abbrev bump : Counters → String → ℕ → Counters
bump s k b j c = ite (str_dec j k) (ite (ℕ_discrete c b) (s k b + 1) (s j c)) (s j c)

abbrev answer : Counters → String → ℕ → ℕ → Option (ℕ × Counters)
answer s k b ttl = some (s k b + 1, bump s k b)

bump_self : (s : Counters) (k : String) (b : ℕ) → bump s k b k b ≡ s k b + 1
bump_self s k b = ground arith

bump_other : (s : Counters) (k j : String) (b c : ℕ) → (j ≢ k) ⊎ (c ≢ b) → bump s k b j c ≡ s j c
bump_other s k j b c other = ground arith

abbrev count_of : Option (ℕ × Counters) → ℕ
count_of none = 0
count_of (some (n, _)) = n

abbrev state_of : Option (ℕ × Counters) → Counters
state_of none k b = 0
state_of (some (_, s)) k b = s k b

answer-counts :
    (s s' : Counters) (k : String) (b ttl n : ℕ)
    → answer s k b ttl ≡ some (n, s')
    → (n ≡ s k b + 1) × (s' k b ≡ n)
answer-counts s s' k b ttl n e =
    (sym (ap count_of e), sym (ap (λ o. state_of o k b) e) ∙ bump_self s k b ∙ ap count_of e)

answer-others :
    (s s' : Counters) (k j : String) (b c ttl n : ℕ)
    → answer s k b ttl ≡ some (n, s')
    → (j ≢ k) ⊎ (c ≢ b)
    → s' j c ≡ s j c
answer-others s s' k j b c ttl n e other =
    sym (ap (λ o. state_of o j c) e) ∙ bump_other s k j b c other

abbrev counting : Redis
counting = record {
  Server = Counters;
  value = λ s. s;
  incr = answer;
  incr_counts = answer-counts;
  incr_others = answer-others;
}

abbrev fresh : Counters
fresh k b = 0

let_through-le_example : let_through counting "a" 2 60 0 (10 ∷ 20 ∷ 30 ∷ 70 ∷ []) fresh ≤ 2
let_through-le_example = let_through-le counting "a" 2 60 0 (10 ∷ 20 ∷ 30 ∷ 70 ∷ []) fresh

abbrev settings : AuthSettings
settings = record {
  jwt = jwt;
  secret = codes "secret";
  issuer = codes "rag";
  audience = codes "web";
  expire_minutes = 15;
  has_redis = false;
}

abbrev is_proxy : Str → Bool
is_proxy ip = eq_str ip (codes "10.0.0.1")

the_proxy : is_proxy (codes "10.0.0.1") ≡ true
unfolding eq_str
the_proxy = refl

-- The client has written "1.2.3.4", and the proxy has appended the client's address.
request_key-client_example :
    ((xff : Option Str)
      → is_proxy (codes "10.0.0.1") ≡ false
      → request_key settings 5
          (some (codes "Basic YTpi"))
          (resolved_client_ip some is_proxy (some (codes "10.0.0.1")) xff)
        ≡ codes "ip:" ++ codes "10.0.0.1")
    × (is_proxy (codes "10.0.0.1") ≡ true
        → IsBare (codes "1.2.3.4")
        → some (codes "1.2.3.4") ≡ some (codes "1.2.3.4")
        → request_key settings 5 (some (codes "Basic YTpi")) (
            resolved_client_ip some is_proxy
              (some (codes "10.0.0.1"))
              (some (codes "1.2.3.4" ++ b',' ∷ codes " 9.9.9.9")))
          ≡ codes "ip:" ++ codes "1.2.3.4")
unfolding program starts_with lower
request_key-client_example =
    request_key-client some is_proxy settings 5 b'1' b'1' (codes "0.0.0.1") (codes "10.0.0.1")
      (codes ".2.3.4") (codes "1.2.3.4") (codes " 9.9.9.9") (some (codes "Basic YTpi")) refl refl
