-- ===== src/Config/Gate.antt =====
-- backend/app/security_gate.py, `run_security_gate`: the checks at the start of the application. `none` is a
-- RuntimeError. Redis answers, or does not, from outside.
use rag_foundation.Common.{
  ℕ, ◌≡◌, ◌≢◌, ◌≤◌, ◌⊎◌, inl, inr, ap, ◌∙◌, Bool, true, false, not, ◌&&◌, ◌||◌, ltb, if◌then◌else◌,
  length, arith, none, [], ◌∷◌,
}
use rag_foundation.Common.Http.{raised, http}
use rag_foundation.Common.Str.{
  Str, codes, eq_str, eq_str_refl, eq_str→eq, or_else, is_empty, truthy,
}
use rag_foundation.Auth.Accounts.{dev_login}
use rag_foundation.Auth.Token.{AuthSettings}
use rag_foundation.Config.{
  Environment, staging, production, is_production, RawSettings, Settings, dev_default_jwt_secret,
}
use rag_foundation.FileTypes.{is_one_of}
use rag_foundation.Middleware.{Request, csrf_protection}
use rag_foundation.Models.{Database}
use rag_foundation.Uploads.Magic.{occurs_in}

-- The settings that only the gate looks at, and whether Redis answers a ping.
pub record GateSettings : Type 0 where
  pub strict_mode : Bool
  pub allow_mock_in_prod : Bool
  pub redis_pings : Bool

unfoldable pub is_prod_like : Environment → Bool
is_prod_like staging = true
is_prod_like production = true
is_prod_like _ = false

unfoldable pub weak_secret : Str → Bool
weak_secret secret =
    ltb (length secret) 32
    || eq_str secret dev_default_jwt_secret
    || occurs_in (codes "dev_secret") secret

unfoldable pub gemini_ready : Bool → GateSettings → RawSettings → Bool
gemini_ready prod_like g r =
    if r.gemini_mock_mode then (not prod_like || g.allow_mock_in_prod) else truthy r.gemini_api_key

unfoldable pub redis_ready : Bool → GateSettings → RawSettings → Bool
redis_ready prod_like g r =
    not prod_like || not r.require_redis_in_production || (truthy r.redis_url && g.redis_pings)

unfoldable pub run_security_gate : GateSettings → Settings → Bool
run_security_gate g s =
    let r = s.raw in
    let prod_like = is_prod_like s.environment in
    not (prod_like && not g.strict_mode)
    && not (r.allow_dev_login && prod_like)
    && not (is_empty r.jwt_secret)
    && not (prod_like && weak_secret r.jwt_secret)
    && gemini_ready prod_like g r
    && (r.require_csrf_header || not prod_like)
    && redis_ready prod_like g r

prod_like : (e : Environment) → (e ≡ staging) ⊎ (e ≡ production) → is_prod_like e ≡ true
unfolding is_prod_like
prod_like e (inl h) = ap is_prod_like h
prod_like e (inr h) = ap is_prod_like h

gate_facts :
    (g : GateSettings) (s : Settings)
    → run_security_gate g s ≡ true
    → (s.environment ≡ staging) ⊎ (s.environment ≡ production)
    → (s.raw.allow_dev_login ≡ false)
      × (s.raw.require_csrf_header ≡ true)
      × (32 ≤ length s.raw.jwt_secret)
      × (eq_str s.raw.jwt_secret dev_default_jwt_secret ≡ false)
unfolding run_security_gate weak_secret
gate_facts g s passed prod =
    let strict = prod_like s.environment prod in
    (
      ground (arith, passed, strict),
      ground (arith, passed, strict),
      ground (arith, passed, strict),
      ground (arith, passed, strict),
    )

other_path :
    (path : Str)
    → path ≢ codes "/health"
    → path ≢ codes "/metrics"
    → is_one_of path ("/health" ∷ "/metrics" ∷ []) ≡ false
other_path path health metrics =
    ground (arith, eq_str→eq (codes "/health") path, eq_str→eq (codes "/metrics") path)

unheaded :
    (q : Request)
    → q.method ≡ codes "POST"
    → q.requested_with ≡ none
    → q.path ≢ codes "/health"
    → q.path ≢ codes "/metrics"
    → csrf_protection true q
      ≡ raised (http 403 "CSRF check failed: X-Requested-With header required")
unfolding csrf_protection eq_str
unheaded q post bare health metrics =
    let posts : is_one_of q.method ("POST" ∷ "PUT" ∷ "PATCH" ∷ "DELETE" ∷ []) ≡ true =
      ap (λ m. is_one_of m ("POST" ∷ "PUT" ∷ "PATCH" ∷ "DELETE" ∷ [])) post in
    let headless : is_one_of (or_else q.requested_with []) ("XMLHttpRequest" ∷ []) ≡ false =
      ap (λ o. is_one_of (or_else o []) ("XMLHttpRequest" ∷ [])) bare in
    rw (posts, headless, other_path q.path health metrics)

-- Where the gate has let the application start in staging or production: the login without a password is
-- refused whatever is sent to it, a POST without the header of the CSRF check is refused, but for the
-- paths of health and metrics, and the secret of the tokens has at least 32 characters and is not the
-- default one.
pub run_security_gate-dev_login :
    (g : GateSettings) (s : Settings) (cfg : AuthSettings) (now new_id : ℕ) (jti email : Str)
    (db : Database) (q : Request)
    → run_security_gate g s ≡ true
    → (s.environment ≡ staging) ⊎ (s.environment ≡ production)
    → q.method ≡ codes "POST"
    → q.requested_with ≡ none
    → q.path ≢ codes "/health"
    → q.path ≢ codes "/metrics"
    → (dev_login cfg s.raw.allow_dev_login (is_production s.environment) now jti new_id email db
        ≡ (db, raised (http 404 "Not Found")))
      × (csrf_protection s.raw.require_csrf_header q
          ≡ raised (http 403 "CSRF check failed: X-Requested-With header required"))
      × (32 ≤ length s.raw.jwt_secret)
      × (s.raw.jwt_secret ≢ dev_default_jwt_secret)
unfolding dev_login
run_security_gate-dev_login g s cfg now new_id jti email db q passed prod post bare health metrics =
    let (off, csrf, long, other) = gate_facts g s passed prod in
    (
      ap (λ a. dev_login cfg a (is_production s.environment) now jti new_id email db) off,
      ap (λ b. csrf_protection b q) csrf ∙ unheaded q post bare health metrics,
      long,
      λ same. cc (
        other,
        ap (λ k. eq_str k dev_default_jwt_secret) same,
        eq_str_refl dev_default_jwt_secret,
      ),
    )
