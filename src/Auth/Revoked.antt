-- ===== src/Auth/Revoked.antt =====
-- backend/app/routes/auth.py, `logout`, and backend/app/auth.py, `get_current_user`: a token that has
-- logged out is refused.
use rag_foundation.Common.{
  ℕ, ◌-◌, ◌≤◌, ◌<◌, ◌≡◌, ◌≢◌, refl, sym, ap, ◌∙◌, Bool, true, false, List, [], ◌∷◌, ◌++◌, Option,
  none, some, arith, subst, Bool-cases, All, inl, inr,
}
use rag_foundation.Common.Decimal.{Integer}
use rag_foundation.Common.Http.{HttpError, Outcome, raised, answered, http}
use rag_foundation.Common.Str.{Str, codes, truthy, or_else}
use rag_foundation.Models.{User, Database}
use rag_foundation.Auth.Accounts.{logout, logout_token, end_session, revoke_payload}
use rag_foundation.Auth.Guards.{subject, admitted, check_revoked, check_payload, get_current_user}
use rag_foundation.Auth.Token.{
  Payload, JwtLaws, RevocationClient, RevocationLaws, AuthSettings, decode_token, revoke_jti,
  revoked_key,
}
use rag_foundation.Auth.Valid.{get_authorization-bearer}

Refused : Outcome User → Type 0
Refused o = (e : HttpError) × (o ≡ raised e)

module _ {R : Type 0} (c : RevocationClient R) (laws : RevocationLaws c) (cfg : AuthSettings)
    (tokens : JwtLaws cfg.jwt) (redis : cfg.has_redis ≡ true) where
  -- Keys stored after the logout: key, time to live and time.
  abbrev pub store_all : List (Str × ℕ × ℕ) → R → R
  store_all [] r = r
  store_all ((key, ttl, at) ∷ keys) r = store_all keys (c.setex key ttl at r)

  store_all-exists :
      (key : Str) (later : ℕ) (keys : List (Str × ℕ × ℕ)) (r : R)
      → All (λ k. key ≢ k.0) keys
      → c.exists key later r ≡ true
      → c.exists key later (store_all keys r) ≡ true
  store_all-exists key later [] r other h = h
  store_all-exists key later ((k, ttl, at) ∷ keys) r other h =
      store_all-exists key later keys (c.setex k ttl at r) other.1
        (laws.exists-other key k ttl at later r other.0 ∙ h)

  abbrev key_of : Payload → Str
  key_of p = revoked_key (or_else p.jti [])

  revoked_exists :
      (now later : ℕ) (r : R) (p : Payload)
      → now ≤ later
      → later < p.exp
      → truthy p.jti ≡ true
      → c.exists (key_of p) later (revoke_payload c cfg true now r (some p)) ≡ true
  unfolding revoke_payload revoke_jti
  revoked_exists now later r p past soon named =
      let stored = laws.exists-setex (key_of p) (p.exp - now) now later r past (omega arith) in
      ground (arith, redis, named, stored)

  -- A key that is not stored.
  revoke_payload-failed :
      (now : ℕ) (r : R) (o : Option Payload) → revoke_payload c cfg false now r o ≡ r
  unfolding revoke_payload revoke_jti
  revoke_payload-failed now r none = refl
  revoke_payload-failed now r (some p) = ground arith

  admitted-Refused :
      (db : Database) (o : Outcome Integer) (e : HttpError) → Refused (admitted db o (some e))
  unfolding admitted Refused
  admitted-Refused db (raised e) f = (e, refl)
  admitted-Refused db (answered i) f = (f, refl)

  check_revoked-some :
      (works : Bool) (later : ℕ) (r : R) (p : Payload)
      → truthy p.jti ≡ true
      → c.exists (key_of p) later r ≡ true
      → (e : HttpError) × (check_revoked c cfg works later r p.jti ≡ some e)
  unfolding check_revoked
  check_revoked-some works later r p named there = elim (Bool-cases works) [
    | inl e ↦ (http 401 "Token revoked", ground (arith, redis, named, there, e))
    | inr e ↦ (
      http 503 "Revocation service unavailable; please retry shortly",
      ground (arith, redis, named, e),
    )
  ]

  -- At a later second than `now`, but for that of the expiry, a token with the claims `p` is refused, if
  -- its key is stored as long as it has not expired.
  later-Refused :
      (now later : ℕ) (works : Bool) (r : R) (db : Database) (token : Str) (p : Payload)
      → decode_token cfg now token ≡ some p
      → truthy p.jti ≡ true
      → later ≢ p.exp
      → (later < p.exp → c.exists (key_of p) later r ≡ true)
      → Refused (get_current_user c cfg works later r db token)
  unfolding get_current_user check_payload decode_token Refused
  later-Refused now later works r db token p decoded named moment stored =
      decided (decode_token cfg later token) refl
    where
      decided :
          (o : Option Payload)
          → decode_token cfg later token ≡ o
          → Refused (check_payload c cfg works later r db o)
      decided none e = (_, refl)
      decided (some q) e =
          let same : p ≡ q =
            tokens.timeless cfg.secret cfg.audience cfg.issuer now later token p q decoded e in
          let alive = tokens.alive cfg.secret cfg.audience cfg.issuer later token q e in
          let exp : p.exp ≡ q.exp = ap (λ (x : Payload). x.exp) same in
          let (f, verdict) =
            check_revoked-some works later r p named (stored (omega (arith, moment, exp, alive))) in
          subst
            (λ (x : Payload).
              Refused (admitted db (subject x.sub) (check_revoked c cfg works later r x.jti)))
            same
            (subst (λ v. Refused (admitted db (subject p.sub) v)) (sym verdict)
              (admitted-Refused db (subject p.sub) f))

  -- Where the settings name Redis, and a logout with a token that has an id is answered: if Redis stores
  -- the key of the token at the logout, the token is refused at every later second but that of its
  -- expiry, on any database, whether Redis works then or not, and whatever has been stored under other
  -- keys since; and if Redis cannot store the key, the logout is answered as well, and revokes nothing.
  pub logout-refused :
      (now later : ℕ) (asked works : Bool) (r s : R) (db db' : Database) (token : Str) (p : Payload)
      (keys : List (Str × ℕ × ℕ))
      → decode_token cfg now token ≡ some p
      → truthy p.jti ≡ true
      → logout c cfg asked true now db (some (codes "Bearer " ++ token)) r ≡ (s, answered tt)
      → now ≤ later
      → later ≢ p.exp
      → All (λ k. key_of p ≢ k.0) keys
      → ((e : HttpError) × (get_current_user c cfg works later (store_all keys s) db' token
            ≡ raised e))
        × (logout c cfg asked false now db (some (codes "Bearer " ++ token)) r ≡ (r, answered tt))
  unfolding logout logout_token Refused end_session
  logout-refused now later asked works r s db db' token p keys decoded named out past moment other =
      (
        later-Refused now later works (store_all keys s) db' token p decoded named moment (λ soon.
            store_all-exists (key_of p) later keys s other (
              subst (λ x. c.exists (key_of p) later x ≡ true) (sym stored)
                (revoked_exists now later r p past soon named))),
        ap (logout_token c cfg asked false now db r) (get_authorization-bearer token)
            ∙ unstored (get_current_user c cfg asked now r db token) (
                sym (ap (logout_token c cfg asked true now db r) (get_authorization-bearer token))
                ∙ out),
      )
    where
      ended :
          (o : Outcome User)
          → end_session c cfg true now token r o ≡ (s, answered tt)
          → s ≡ revoke_payload c cfg true now r (decode_token cfg now token)
      ended (raised e) h = absurd cc
      ended (answered u) h = cc

      unstored :
          (o : Outcome User)
          → end_session c cfg true now token r o ≡ (s, answered tt)
          → end_session c cfg false now token r o ≡ (r, answered tt)
      unstored (raised e) h = absurd cc
      unstored (answered u) h =
          ap (λ x. (x, answered tt)) (revoke_payload-failed now r (decode_token cfg now token))

      stored : s ≡ revoke_payload c cfg true now r (some p)
      stored =
          ended (get_current_user c cfg asked now r db token) (
            sym (ap (logout_token c cfg asked true now db r) (get_authorization-bearer token))
            ∙ out)
          ∙ ap (revoke_payload c cfg true now r) decoded
