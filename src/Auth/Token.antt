-- ===== src/Auth/Token.antt =====
-- backend/app/auth.py: access tokens, and the store of revoked ones. The JWT library and Redis are
-- parameters.
use rag_foundation.Common.{
  ℕ, ◌+◌, ◌-◌, ◌*◌, ◌≤◌, ◌<◌, ◌≡◌, ◌≢◌, Bool, true, ◌&&◌, [], ◌++◌, Option, some, ltb,
  if◌then◌else◌,
}
use rag_foundation.Common.Decimal.{show}
use rag_foundation.Common.Str.{Str, codes, truthy, or_else}

-- The claims of a token; `sub` and `jti` are `none` where there is no text.
pub record Payload : Type 0 where
  pub sub : Option Str
  pub iss : Str
  pub aud : Str
  pub iat : ℕ
  pub exp : ℕ
  pub jti : Option Str

-- `jwt.encode`, with the secret, and `jwt.decode`, with the secret, the audience, the issuer and the
-- time; `none` is an exception.
pub record Jwt : Type 0 where
  pub encode : Str → Payload → Str
  pub decode : Str → Str → Str → ℕ → Str → Option Payload

-- A token is decoded to the claims that it was made of, until it expires; one that is decoded has not
-- expired.
pub record JwtLaws (j : Jwt) : Type 0 where
  pub decode-encode :
      (secret : Str) (p : Payload) (now : ℕ)
      → now < p.exp
      → j.decode secret p.aud p.iss now (j.encode secret p) ≡ some p
  pub alive :
      (secret aud iss : Str) (now : ℕ) (token : Str) (p : Payload)
      → j.decode secret aud iss now token ≡ some p
      → now ≤ p.exp
  pub timeless :
      (secret aud iss : Str) (now later : ℕ) (token : Str) (p q : Payload)
      → j.decode secret aud iss now token ≡ some p
      → j.decode secret aud iss later token ≡ some q
      → p ≡ q

-- `setex(key, ttl, "1")` at a time, and `exists(key)` at a time.
pub record RevocationClient (R : Type 0) : Type 0 where
  pub setex : Str → ℕ → ℕ → R → R
  pub exists : Str → ℕ → R → Bool

-- A key is there until its time to live is over, and other keys do not matter to it.
pub record RevocationLaws {R : Type 0} (c : RevocationClient R) : Type 0 where
  pub exists-setex :
      (key : Str) (ttl now later : ℕ) (r : R)
      → now ≤ later
      → later < now + ttl
      → c.exists key later (c.setex key ttl now r) ≡ true
  pub exists-other :
      (key other : Str) (ttl now later : ℕ) (r : R)
      → key ≢ other
      → c.exists key later (c.setex other ttl now r) ≡ c.exists key later r

pub record AuthSettings : Type 0 where
  pub jwt : Jwt
  pub secret : Str
  pub issuer : Str
  pub audience : Str
  pub expire_minutes : ℕ
  pub has_redis : Bool

-- `jti` is the random text `uuid.uuid4()`.
unfoldable pub claims : AuthSettings → ℕ → Str → ℕ → Payload
claims cfg now jti user_id = record {
  sub = some (show user_id);
  iss = cfg.issuer;
  aud = cfg.audience;
  iat = now;
  exp = now + cfg.expire_minutes * 60;
  jti = some jti;
}

unfoldable pub create_access_token : AuthSettings → ℕ → Str → ℕ → Str
create_access_token cfg now jti user_id = cfg.jwt.encode cfg.secret (claims cfg now jti user_id)

unfoldable pub decode_token : AuthSettings → ℕ → Str → Option Payload
decode_token cfg now token = cfg.jwt.decode cfg.secret cfg.audience cfg.issuer now token

abbrev pub revoked_key : Str → Str
revoked_key jti = codes "revoked:" ++ jti

-- Without Redis, or where it raises, nothing is stored.
unfoldable pub revoke_jti :
    {R : Type 0} → RevocationClient R → AuthSettings → Bool → ℕ → Option Str → ℕ → R → R
revoke_jti c cfg redis_works now jti exp r =
    if cfg.has_redis && redis_works && truthy jti && ltb 0 (exp - now)
    then c.setex (revoked_key (or_else jti [])) (exp - now) now r
    else r
