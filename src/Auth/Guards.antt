-- ===== src/Auth/Guards.antt =====
-- backend/app/auth.py: `get_authorization`, `get_current_user` and `require_admin`.
use rag_foundation.Common.{
  ℕ, zero, suc, Bool, not, ◌&&◌, [], ◌∷◌, Option, none, some, ◌==◌, if◌then◌else◌,
}
use rag_foundation.Common.Decimal.{Integer, plus, minus, int}
use rag_foundation.Common.Http.{HttpError, Outcome, raised, answered, http}
use rag_foundation.Common.Str.{Str, codes, lower, starts_with, strip, is_empty, truthy, or_else}
use rag_foundation.Models.{User, Database, get_user}
use rag_foundation.Auth.Token.{Payload, RevocationClient, AuthSettings, decode_token, revoked_key}

-- `authorization.split(" ", 1)[1]`
unfoldable pub after_space : Str → Str
after_space [] = []
after_space (c ∷ s) = let rest = after_space s in if c == 32 then s else rest

unfoldable pub get_authorization : Option Str → Outcome Str
get_authorization authorization =
    if truthy authorization && starts_with (lower (or_else authorization [])) (codes "bearer ")
    then answered (after_space (or_else authorization []))
    else raised (http 401 "Missing bearer token")

abbrev pub invalid_token : HttpError
invalid_token = http 401 "Invalid token"

abbrev pub invalid_payload : HttpError
invalid_payload = http 401 "Invalid token payload"

-- `sub` as a number.
unfoldable pub subject : Option Str → Outcome Integer
subject none = raised invalid_payload
subject (some sub) =
    if is_empty (strip sub)
    then raised invalid_payload
    else elim (int sub) [ none ↦ raised invalid_token | some i ↦ answered i ]

unfoldable pub active_user : Option User → Outcome User
active_user none = raised (http 401 "User not found")
active_user (some user) =
    if user.is_active then answered user else raised (http 403 "User is inactive")

-- The row of the user; no row has a negative id.
unfoldable pub load_user : Database → Integer → Outcome User
load_user db (plus zero) = raised invalid_payload
load_user db (minus zero) = raised invalid_payload
load_user db (minus (suc _)) = raised (http 401 "User not found")
load_user db (plus (suc n)) = active_user (get_user (suc n) db.users)

-- The user, where the subject is a number and the token has not been revoked.
unfoldable pub admitted : Database → Outcome Integer → Option HttpError → Outcome User
admitted db (raised e) verdict = raised e
admitted db (answered i) (some e) = raised e
admitted db (answered i) none = load_user db i

module _ {R : Type 0} (c : RevocationClient R) where
  -- Whether the token has been revoked; an exception of Redis is an error.
  unfoldable pub check_revoked : AuthSettings → Bool → ℕ → R → Option Str → Option HttpError
  check_revoked cfg redis_works now r jti =
      if cfg.has_redis && truthy jti
      then if not redis_works
        then some (http 503 "Revocation service unavailable; please retry shortly")
        else if c.exists (revoked_key (or_else jti [])) now r
        then some (http 401 "Token revoked")
        else none
      else none

  unfoldable pub check_payload :
      AuthSettings → Bool → ℕ → R → Database → Option Payload → Outcome User
  check_payload cfg redis_works now r db none = raised invalid_token
  check_payload cfg redis_works now r db (some p) =
      admitted db (subject p.sub) (check_revoked cfg redis_works now r p.jti)

  unfoldable pub get_current_user : AuthSettings → Bool → ℕ → R → Database → Str → Outcome User
  get_current_user cfg redis_works now r db token =
      check_payload cfg redis_works now r db (decode_token cfg now token)

unfoldable pub require_admin : User → Outcome User
require_admin user =
    if user.is_admin then answered user else raised (http 403 "Admin access required")
