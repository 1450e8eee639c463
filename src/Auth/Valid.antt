-- ===== src/Auth/Valid.antt =====
-- backend/app/auth.py: a request with a token is from the user whom the token was made for.
use rag_foundation.Common.{
  ℕ, zero, suc, ◌+◌, ◌*◌, ◌<◌, ◌≡◌, refl, sym, ap, ◌∙◌, inl, inr, Bool, true, [], ◌∷◌, ◌++◌, Option,
  none, some, arith, subst, Bool-cases, Option-cases, List, false, ◌⊎◌, In, ◌==◌, if◌then◌else◌,
}
use rag_foundation.Common.Decimal.{Integer, plus, minus, int, read_signed, show, int-show}
use rag_foundation.Common.Http.{HttpError, Outcome, raised, answered, http, if-answered}
use rag_foundation.Common.Str.{Str, codes, is_empty, strip, lower, starts_with}
use rag_foundation.Models.{User, Database, get_user}
use rag_foundation.Models.Rows.{get_user-id}
use rag_foundation.Auth.Guards.{
  after_space, get_authorization, subject, admitted, active_user, load_user, check_revoked,
  check_payload, get_current_user,
}
use rag_foundation.Auth.Token.{
  Payload, JwtLaws, RevocationClient, AuthSettings, claims, create_access_token, decode_token,
  revoked_key,
}

-- The header of a token.
pub get_authorization-bearer :
    (token : Str) → get_authorization (some (codes "Bearer " ++ token)) ≡ answered token
unfolding get_authorization after_space lower starts_with
get_authorization-bearer token = refl

subject-show : (n : ℕ) → subject (some (show n)) ≡ answered (plus n)
unfolding subject int read_signed
subject-show n = elim (Bool-cases (is_empty (strip (show n)))) [
  | inl blank ↦ absurd (ground (arith, int-show n, nothing (strip (show n)) blank))
  | inr text ↦ rw (text, int-show n)
]
  where
    nothing : (s : Str) → is_empty s ≡ true → read_signed s ≡ none
    nothing [] h = refl
    nothing (a ∷ s) h = absurd cc

-- Redis has been asked for the token's key, has answered, and does not hold it; or there is nothing to ask
-- for.
abbrev pub IsUnrevoked :
    {R : Type 0} → RevocationClient R → AuthSettings → Bool → ℕ → R → Option Str → Type 0
IsUnrevoked c cfg redis_works now r none = Unit {0}
IsUnrevoked c cfg redis_works now r (some jti) =
    (cfg.has_redis ≡ false)
    ⊎ (jti ≡ [])
    ⊎ ((redis_works ≡ true) × (c.exists (revoked_key jti) now r ≡ false))

-- A user that a token is from: its signature and claims are right, its subject is a text that reads as
-- the number of the user, who is in the table with this number and active, and the token has not been
-- revoked.
pub record IsGenuine {R : Type 0} (c : RevocationClient R) (cfg : AuthSettings) (redis_works : Bool)
    (now : ℕ) (r : R) (db : Database) (token : Str) (user : User) : Type 0 where
  pub payload : Payload
  pub decoded : decode_token cfg now token ≡ some payload
  pub sub : Str
  pub named : payload.sub ≡ some sub
  pub number : int sub ≡ some (plus user.id)
  pub listed : In user db.users
  pub active : user.is_active ≡ true
  pub unrevoked : IsUnrevoked c cfg redis_works now r payload.jti

subject-text :
    (o : Option Str) (i : Integer)
    → subject o ≡ answered i
    → (sub : Str) × (o ≡ some sub) × (int sub ≡ some i)
unfolding subject
subject-text none i h = absurd cc
subject-text (some s) i h = elim (Option-cases (int s)) [
  | inl e ↦ absurd (ground (arith, e))
  | inr (j, e) ↦ (s, refl, ground (arith, e))
]

pub get_user-In : (i : ℕ) (us : List User) (u : User) → get_user i us ≡ some u → In u us
unfolding get_user
get_user-In i [] u h = cc
get_user-In i (v ∷ us) u h = elim (Bool-cases (v.id == i)) [
  | inl e ↦ inl (ground arith)
  | inr e ↦ inr (get_user-In i us u (ground arith))
]

check_revoked-none :
    {R : Type 0} (c : RevocationClient R) (cfg : AuthSettings) (redis_works : Bool) (now : ℕ)
    (r : R) (jti : Option Str)
    → check_revoked c cfg redis_works now r jti ≡ none
    → IsUnrevoked c cfg redis_works now r jti
unfolding check_revoked
check_revoked-none c cfg works now r none h = tt
check_revoked-none c cfg works now r (some []) h = inr (inl refl)
check_revoked-none c cfg works now r (some (a ∷ s)) h = elim (Bool-cases cfg.has_redis) [
  | inr e ↦ inl e
  | inl e ↦ inr (inr (ground (arith, e), ground (arith, e)))
]

pub IsUnrevoked-check :
    {R : Type 0} (c : RevocationClient R) (cfg : AuthSettings) (redis_works : Bool) (now : ℕ)
    (r : R) (jti : Option Str)
    → IsUnrevoked c cfg redis_works now r jti
    → check_revoked c cfg redis_works now r jti ≡ none
unfolding check_revoked
IsUnrevoked-check c cfg works now r none h = ground arith
IsUnrevoked-check c cfg works now r (some []) h = ground arith
IsUnrevoked-check c cfg works now r (some (a ∷ s)) h = elim h [
  | inl e ↦ ground (arith, e)
  | inr (inl e) ↦ cc
  | inr (inr (up, free)) ↦ ground (arith, up, free)
]

active_user-row :
    (o : Option User) (user : User)
    → active_user o ≡ answered user
    → (o ≡ some user) × (user.is_active ≡ true)
unfolding active_user
active_user-row none user h = absurd cc
active_user-row (some v) user h =
    let (same, active) = if-answered v.is_active v user (http 403 "User is inactive") h in
    (ap some same, subst (λ (u : User). u.is_active ≡ true) same active)

pub load_user-row :
    (db : Database) (i : Integer) (user : User)
    → load_user db i ≡ answered user
    → (i ≡ plus user.id) × (get_user user.id db.users ≡ some user) × (user.is_active ≡ true)
unfolding load_user
load_user-row db (plus zero) user h = absurd cc
load_user-row db (minus zero) user h = absurd cc
load_user-row db (minus (suc _)) user h = absurd cc
load_user-row db (plus (suc n)) user h =
    let (row, active) = active_user-row (get_user (suc n) db.users) user h in
    let id : user.id ≡ suc n = get_user-id (suc n) db.users user row in
    (ap plus (sym id), ap (λ j. get_user j db.users) id ∙ row, active)

admitted-row :
    (db : Database) (o : Outcome Integer) (verdict : Option HttpError) (user : User)
    → admitted db o verdict ≡ answered user
    → (o ≡ answered (plus user.id))
      × (verdict ≡ none)
      × (get_user user.id db.users ≡ some user)
      × (user.is_active ≡ true)
unfolding admitted
admitted-row db (raised e) verdict user h = absurd cc
admitted-row db (answered i) (some e) user h = absurd cc
admitted-row db (answered i) none user h =
    let (same, row, active) = load_user-row db i user h in (ap answered same, refl, row, active)

module _ {R : Type 0} (c : RevocationClient R) where
  -- Whoever a request is said to be from is the user whom its token names: the token is decoded, its
  -- subject reads as the number of the user, who is in the table and active; and where Redis is used and
  -- the token has an id, Redis has answered, and does not hold the token's key.
  pub get_current_user-IsGenuine :
      (cfg : AuthSettings) (redis_works : Bool) (now : ℕ) (r : R) (db : Database) (token : Str)
      (user : User)
      → get_current_user c cfg redis_works now r db token ≡ answered user
      → IsGenuine c cfg redis_works now r db token user
  unfolding get_current_user check_payload
  get_current_user-IsGenuine cfg redis_works now r db token user h =
      genuine (decode_token cfg now token) refl h
    where
      genuine :
          (o : Option Payload)
          → decode_token cfg now token ≡ o
          → check_payload c cfg redis_works now r db o ≡ answered user
          → IsGenuine c cfg redis_works now r db token user
      genuine none e h = absurd cc
      genuine (some p) e h =
          let (named, unrevoked, row, active) =
            admitted-row db (subject p.sub) (check_revoked c cfg redis_works now r p.jti) user h in
          let text = subject-text p.sub (plus user.id) named in
          record {
            payload = p;
            decoded = e;
            sub = text.0;
            named = text.1;
            number = text.2;
            listed = get_user-In user.id db.users user row;
            active = active;
            unrevoked = check_revoked-none c cfg redis_works now r p.jti unrevoked;
          }

  -- A token that was made for an active user, and has neither expired nor been revoked, is from that
  -- user. The settings give it a life, and the user's number is not 0.
  pub get_current_user-create_access_token :
      (cfg : AuthSettings)
      → JwtLaws cfg.jwt
      → (redis_works : Bool) (made now : ℕ) (r : R) (db : Database) (jti : Str) (user : User)
        (n : ℕ)
      → user.id ≡ suc n
      → get_user user.id db.users ≡ some user
      → user.is_active ≡ true
      → now < made + cfg.expire_minutes * 60
      → check_revoked c cfg redis_works now r (some jti) ≡ none
      → get_current_user c cfg redis_works now r db (create_access_token cfg made jti user.id)
        ≡ answered user
  unfolding get_current_user create_access_token decode_token claims check_payload admitted
      load_user active_user
  get_current_user-create_access_token cfg laws redis_works made now r db jti user n id row active
        soon unrevoked =
      let p = claims cfg made jti user.id in
      ap (check_payload c cfg redis_works now r db) (laws.decode-encode cfg.secret p now soon)
      ∙ ap (λ o. admitted db o (check_revoked c cfg redis_works now r p.jti)) (subject-show user.id)
      ∙ ap (admitted db (answered (plus user.id))) unrevoked
      ∙ ap (λ i. load_user db (plus i)) id
      ∙ ap active_user (ap (λ i. get_user i db.users) (sym id) ∙ row)
      ∙ ap (λ b. if b then answered user else raised (http 403 "User is inactive")) active
