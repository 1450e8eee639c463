-- ===== src/Auth/Registered.antt =====
-- backend/app/routes/auth.py: who has registered can log in, and a request with the token is theirs.
use rag_foundation.Common.{
  ℕ, suc, ◌+◌, ◌*◌, ◌<◌, ◌≡◌, refl, ap, ◌∙◌, Bool, true, false, Option, none, some, String, arith,
  find,
}
use rag_foundation.Common.Http.{answered}
use rag_foundation.Common.Str.{Str, eq_str_refl}
use rag_foundation.Models.{User, Database, get_user}
use rag_foundation.Auth.Accounts.{
  normal_email, find_email, add_user, plain_user, create_account, after_policy, register, issue,
  login,
}
use rag_foundation.Auth.Guards.{get_current_user}
use rag_foundation.Auth.Password.{
  CharClasses, Bcrypt, BcryptLaws, validate_password_policy, hash_password, verify-hash_password,
}
use rag_foundation.Auth.Token.{JwtLaws, RevocationClient, AuthSettings, create_access_token}
use rag_foundation.Auth.Valid.{IsUnrevoked, IsUnrevoked-check, get_current_user-create_access_token}

module _ (b : Bcrypt) (new_id : ℕ) (salt email password : Str) (db : Database) where
  abbrev pub registered : User
  registered = plain_user new_id (normal_email email) (hash_password b salt password)

  -- A registration that is answered adds this row, where there was none with its mail address.
  registered_row :
      (o : Option String) (t : Database)
      → after_policy b new_id salt email password db o ≡ (t, answered tt)
      → (t ≡ add_user registered db) × (find_email (normal_email email) db.users ≡ none)
  unfolding after_policy create_account
  registered_row (some reason) t h = absurd cc
  registered_row none t h = made (find_email (normal_email email) db.users) refl h
    where
      made :
          (o : Option User)
          → find_email (normal_email email) db.users ≡ o
          → create_account registered db o ≡ (t, answered tt)
          → (t ≡ add_user registered db) × (find_email (normal_email email) db.users ≡ none)
      made (some u) e h = absurd cc
      made none e h = (cc, e)

  registered_found :
      find_email (normal_email email) (add_user registered db).users ≡ some registered
  unfolding find_email find
  registered_found = rw (eq_str_refl (normal_email email))

  issued :
      BcryptLaws b
      → (cfg : AuthSettings) (now : ℕ) (jti : Str)
      → issue cfg b now jti password (some registered)
        ≡ answered (create_access_token cfg now jti new_id)
  unfolding issue
  issued laws cfg now jti = rw (verify-hash_password b laws salt password)

-- After a registration that is answered, a login with the same mail address and password, which the rate
-- limit lets through, is answered with a token; a request with it, before it expires and where Redis, if
-- it is used, answers and does not hold the token's key, is from the registered user, who is active and
-- no administrator; and no row had the mail address before.
pub register-login :
    {R : Type 0} (c : RevocationClient R) (cls : CharClasses) (b : Bcrypt) (cfg : AuthSettings)
    (n now later : ℕ) (salt email password jti : Str) (db t : Database) (works : Bool) (r : R)
    → BcryptLaws b
    → JwtLaws cfg.jwt
    → register cls b (suc n) salt email password db ≡ (t, answered tt)
    → later < now + cfg.expire_minutes * 60
    → IsUnrevoked c cfg works later r (some jti)
    → (token : Str) × (user : User) × (login cfg b true now jti email password t ≡ answered token)
      × (get_current_user c cfg works later r t token ≡ answered user)
      × (user.email ≡ normal_email email)
      × (user.is_admin ≡ false)
      × (find_email (normal_email email) db.users ≡ none)
unfolding register login get_user
register-login c cls b cfg n now later salt email password jti db t works r laws tokens h soon
      unrevoked =
    let user = registered b (suc n) salt email password db in
    let (same, fresh) =
      registered_row b (suc n) salt email password db (validate_password_policy cls password) t h in
    (
      create_access_token cfg now jti (suc n),
      user,
      ap (λ (x : Database). issue cfg b now jti password (find_email (normal_email email) x.users))
            same
          ∙ ap (issue cfg b now jti password) (registered_found b (suc n) salt email password db)
          ∙ issued b (suc n) salt email password db laws cfg now jti,
      get_current_user-create_access_token c cfg tokens works now later r t jti user n refl
          (ap (λ (x : Database). get_user (suc n) x.users) same ∙ ground arith) refl soon
          (IsUnrevoked-check c cfg works later r (some jti) unrevoked),
      refl,
      refl,
      fresh,
    )
