-- ===== src/RateLimit/Proxy.antt =====
-- backend/app/rate_limit.py, `_resolved_client_ip` and `rate_limit_middleware`: the key that a request is
-- counted under. `parse` is `str(ipaddress.ip_address(text))`, `none` where it raises, and `trusted` the
-- test on the networks of the trusted proxies.
use rag_foundation.Common.{
  ℕ, ◌≡◌, refl, ap, ◌∙◌, Bool, true, false, ◌&&◌, [], ◌∷◌, ◌++◌, Option, none, some, ◌==◌,
  if◌then◌else◌, All, All-map, arith,
}
use rag_foundation.Common.Http.{Outcome, raised, answered}
use rag_foundation.Common.Str.{
  Str, codes, lower, starts_with, strip, strip_plain, truthy, or_else, is_space, is_empty,
}
use rag_foundation.Auth.Guards.{after_space}
use rag_foundation.Auth.Token.{Payload, AuthSettings, decode_token}

-- `s.split(",")[0]`
unfoldable pub before_comma : Str → Str
before_comma [] = []
before_comma (c ∷ s) = let rest = before_comma s in if c == b',' then [] else c ∷ rest

-- The first address of the header, where it is one.
unfoldable pub forwarded : (Str → Option Str) → Str → Option Str → Str
forwarded parse ip none = ip
forwarded parse ip (some xff) =
    if is_empty xff then ip else elim (parse (strip (before_comma xff))) [ none ↦ ip | some f ↦ f ]

-- `ip` is the client's address, where it is one.
unfoldable pub client_ip : (Str → Option Str) → (Str → Bool) → Str → Option Str → Option Str → Str
client_ip parse trusted host xff none = host
client_ip parse trusted host xff (some ip) = if trusted ip then forwarded parse ip xff else ip

unfoldable pub resolved_client_ip :
    (Str → Option Str) → (Str → Bool) → Option Str → Option Str → Str
resolved_client_ip parse trusted host xff =
    if truthy host
    then client_ip parse trusted (or_else host []) xff (parse (or_else host []))
    else codes "unknown"

-- The user of a token, where it is decoded and has a subject.
unfoldable pub subject_key : Str → Option Payload → Str
subject_key ip_key none = ip_key
subject_key ip_key (some p) = if truthy p.sub then codes "user:" ++ or_else p.sub [] else ip_key

unfoldable pub request_key : AuthSettings → ℕ → Option Str → Str → Str
request_key cfg now authz ip =
    if truthy authz && starts_with (lower (or_else authz [])) (codes "bearer ")
    then subject_key (codes "ip:" ++ ip) (decode_token cfg now (after_space (or_else authz [])))
    else codes "ip:" ++ ip

-- A response with its two headers.
pub record Response : Type 0 where
  pub status : ℕ
  pub limit : ℕ
  pub remaining : ℕ

module _ {S : Type 0} where
  unfoldable pub respond : ℕ → (S → S × ℕ) → S × Outcome ℕ → S × Response
  respond limit call_next (s, raised e) =
      (s, record { status = e.status; limit = limit; remaining = 0 })
  respond limit call_next (s, answered remaining) =
      let (t, status) = call_next s in
      (t, record { status = status; limit = limit; remaining = remaining })

  -- `check` is the limiter, and `call_next` the rest of the application.
  unfoldable pub rate_limit_middleware :
      (Str → ℕ → S → S × Outcome ℕ) → ℕ → Str → (S → S × ℕ) → S → S × Response
  rate_limit_middleware check limit key call_next s = respond limit call_next (check key limit s)

-- No comma and no white space.
abbrev pub IsBare : Str → Type 0
IsBare = All (λ c. (c == b',' ≡ false) × (is_space c ≡ false))

before_comma-append : (a rest : Str) → IsBare a → before_comma (a ++ b',' ∷ rest) ≡ a
unfolding before_comma
before_comma-append [] rest h = refl
before_comma-append (c ∷ a) rest h = ground (arith, h.0, before_comma-append a rest h.1)

forwarded_first :
    (parse : Str → Option Str) (ip : Str) (b : ℕ) (a forged rest : Str)
    → IsBare (b ∷ a)
    → parse (b ∷ a) ≡ some forged
    → forwarded parse ip (some ((b ∷ a) ++ b',' ∷ rest)) ≡ forged
unfolding forwarded
forwarded_first parse ip b a forged rest bare known =
    let first = before_comma-append (b ∷ a) rest bare in
    let plain = strip_plain (b ∷ a) (All-map _ _ (λ c h. h.1) (b ∷ a) bare) in
    let read = ap (λ s. parse (strip s)) first ∙ ap parse plain ∙ known in
    ap (λ o. elim o [ none ↦ ip | some f ↦ f ]) read

no_bearer :
    (cfg : AuthSettings) (now : ℕ) (authz : Option Str) (ip : Str)
    → starts_with (lower (or_else authz [])) (codes "bearer ") ≡ false
    → request_key cfg now authz ip ≡ codes "ip:" ++ ip
unfolding request_key
no_bearer cfg now authz ip h = ground (arith, h)

-- A request whose Authorization header, if it has one, does not begin with "Bearer " in any case, from a peer with the address `ip`, is counted under that address, if
-- the peer is no trusted proxy. If it is one that appends to the header what it has received, the
-- request is counted under whatever address the client has written into the header.
pub request_key-client :
    (parse : Str → Option Str) (trusted : Str → Bool) (cfg : AuthSettings) (now h b : ℕ)
    (host ip a forged appended : Str) (authz : Option Str)
    → parse (h ∷ host) ≡ some ip
    → starts_with (lower (or_else authz [])) (codes "bearer ") ≡ false
    → ((xff : Option Str)
        → trusted ip ≡ false
        → request_key cfg now authz (resolved_client_ip parse trusted (some (h ∷ host)) xff)
          ≡ codes "ip:" ++ ip)
      × (trusted ip ≡ true
          → IsBare (b ∷ a)
          → parse (b ∷ a) ≡ some forged
          → request_key cfg now authz (
              resolved_client_ip parse trusted
                (some (h ∷ host))
                (some ((b ∷ a) ++ b',' ∷ appended)))
            ≡ codes "ip:" ++ forged)
unfolding resolved_client_ip client_ip
request_key-client parse trusted cfg now h b host ip a forged appended authz peer other = (
  λ xff foreign.
      anonymous _ ∙ ap (λ s. codes "ip:" ++ s) (known_peer xff ∙ ap (choice xff) foreign),
  λ proxy bare known.
      anonymous _
      ∙ ap (λ s. codes "ip:" ++ s)
          (known_peer (some ((b ∷ a) ++ b',' ∷ appended))
            ∙ ap (choice (some ((b ∷ a) ++ b',' ∷ appended))) proxy
            ∙ forwarded_first parse ip b a forged appended bare known),
)
  where
    anonymous : (key : Str) → request_key cfg now authz key ≡ codes "ip:" ++ key
    anonymous key = no_bearer cfg now authz key other

    choice : Option Str → Bool → Str
    choice xff t = if t then forwarded parse ip xff else ip

    known_peer :
        (xff : Option Str)
        → resolved_client_ip parse trusted (some (h ∷ host)) xff ≡ choice xff (trusted ip)
    known_peer xff = ap (client_ip parse trusted (h ∷ host) xff) peer
