-- ===== src/Auth/Accounts.antt =====
-- backend/app/routes/auth.py: the routes that create accounts, log in and log out. The rate limiter's
-- verdict, the salt, the token's id and the key of a new row come from outside; a mail address is a text
-- that the schema has accepted.
use rag_foundation.Common.{
  ℕ, Bool, true, false, not, ◌&&◌, ◌||◌, List, [], ◌∷◌, Option, none, some, String, if◌then◌else◌,
  find,
}
use rag_foundation.Common.Http.{HttpError, Outcome, raised, answered, http}
use rag_foundation.Common.Str.{Str, eq_str, lower, strip, truthy}
use rag_foundation.Models.{User, Database}
use rag_foundation.Auth.Guards.{get_authorization, get_current_user}
use rag_foundation.Auth.Password.{
  CharClasses, Bcrypt, validate_password_policy, hash_password, verify_password,
}
use rag_foundation.Auth.Token.{
  Payload, RevocationClient, AuthSettings, create_access_token, decode_token, revoke_jti,
}

unfoldable pub normal_email : Str → Str
normal_email email = strip (lower email)

-- `User.email == email`; the column is unique.
unfoldable pub find_email : Str → List User → Option User
find_email email users = find (λ u. eq_str u.email email) users

abbrev pub add_user : User → Database → Database
add_user u db = record db { users = u ∷ db.users }

abbrev pub plain_user : ℕ → Str → Str → User
plain_user new_id email hashed = record {
  id = new_id;
  email = email;
  hashed_password = hashed;
  is_active = true;
  email_verified = false;
  is_admin = false;
  admin_notes = none;
}

unfoldable pub create_account : User → Database → Option User → Database × Outcome (Unit {0})
create_account user db (some _) = (db, raised (http 400 "Email already registered"))
create_account user db none = (add_user user db, answered tt)

unfoldable pub after_policy :
    Bcrypt → ℕ → Str → Str → Str → Database → Option String → Database × Outcome (Unit {0})
after_policy b new_id salt email password db (some reason) = (db, raised (http 400 reason))
after_policy b new_id salt email password db none =
    create_account (plain_user new_id (normal_email email) (hash_password b salt password)) db
      (find_email (normal_email email) db.users)

unfoldable pub register :
    CharClasses → Bcrypt → ℕ → Str → Str → Str → Database → Database × Outcome (Unit {0})
register cls b new_id salt email password db =
    after_policy b new_id salt email password db (validate_password_policy cls password)

abbrev pub invalid_credentials : HttpError
invalid_credentials = http 401 "Invalid credentials"

-- The access token, where the credentials are right.
unfoldable pub issue : AuthSettings → Bcrypt → ℕ → Str → Str → Option User → Outcome Str
issue cfg b now jti password none = raised invalid_credentials
issue cfg b now jti password (some user) =
    if not (verify_password b password user.hashed_password) || not user.is_active
    then raised invalid_credentials
    else answered (create_access_token cfg now jti user.id)

unfoldable pub login : AuthSettings → Bcrypt → Bool → ℕ → Str → Str → Str → Database → Outcome Str
login cfg b within_rate now jti email password db =
    if within_rate
    then issue cfg b now jti password (find_email (normal_email email) db.users)
    else raised (http 429 "Rate limit exceeded")

-- The route exists only where the settings allow it, and never in production.
unfoldable pub dev_login :
    AuthSettings → Bool → Bool → ℕ → Str → ℕ → Str → Database → Database × Outcome Str
dev_login cfg allow_dev_login is_production now jti new_id email db =
    if allow_dev_login && not is_production
    then elim (find_email (lower email) db.users) [
      | some user ↦ (db, answered (create_access_token cfg now jti user.id))
      | none ↦
          let user = plain_user new_id (normal_email email) [] in
          (add_user user db, answered (create_access_token cfg now jti user.id))
    ]
    else (db, raised (http 404 "Not Found"))

module _ {R : Type 0} (c : RevocationClient R) where
  unfoldable pub revoke_payload : AuthSettings → Bool → ℕ → R → Option Payload → R
  revoke_payload cfg stores now r none = r
  revoke_payload cfg stores now r (some p) =
      if truthy p.jti then revoke_jti c cfg stores now p.jti p.exp r else r

  unfoldable pub end_session :
      AuthSettings → Bool → ℕ → Str → R → Outcome User → R × Outcome (Unit {0})
  end_session cfg stores now token r (raised e) = (r, raised e)
  end_session cfg stores now token r (answered user) =
      (revoke_payload cfg stores now r (decode_token cfg now token), answered tt)

  -- With its two dependencies: the token of the header, and the user. Redis answers the check of the
  -- user's token or fails, and then stores the key of the token or fails: the answer is the same.
  unfoldable pub logout_token :
      AuthSettings → Bool → Bool → ℕ → Database → R → Outcome Str → R × Outcome (Unit {0})
  logout_token cfg redis_works stores now db r (raised e) = (r, raised e)
  logout_token cfg redis_works stores now db r (answered token) =
      end_session cfg stores now token r (get_current_user c cfg redis_works now r db token)

  unfoldable pub logout :
      AuthSettings → Bool → Bool → ℕ → Database → Option Str → R → R × Outcome (Unit {0})
  logout cfg redis_works stores now db authorization r =
      logout_token cfg redis_works stores now db r (get_authorization authorization)
