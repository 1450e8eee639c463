-- ===== src/Auth/Tests.antt =====
-- Accounts and tokens at concrete inputs.
use rag_foundation.Common.{
  inr, ◌≡◌, refl, true, false, ◌&&◌, [], ◌∷◌, ◌++◌, none, some, leb, arith, find,
}
use rag_foundation.Common.Decimal.{digits_before, show, read_digits, read_signed, int}
use rag_foundation.Common.Http.{HttpError, raised, answered, http}
use rag_foundation.Common.Str.{
  Str, codes, eq_str, starts_with, is_space, lstrip, strip, lower, to_lower,
}
use rag_foundation.Models.{User, Database, get_user}
use rag_foundation.Auth.Accounts.{
  normal_email, find_email, plain_user, create_account, after_policy, register, issue, login,
  dev_login, revoke_payload, end_session, logout_token, logout,
}
use rag_foundation.Auth.Guards.{
  after_space, get_authorization, subject, active_user, load_user, admitted, check_revoked,
  check_payload, get_current_user, require_admin,
}
use rag_foundation.Auth.Password.{
  CharClasses, utf8_size, utf8_length, cut_bytes, bcrypt_safe, shorter_than,
  validate_password_policy, hash_password, verify_password,
}
use rag_foundation.Auth.Registered.{register-login}
use rag_foundation.Auth.Revoked.{logout-refused}
use rag_foundation.Auth.Token.{
  AuthSettings, claims, create_access_token, decode_token, revoke_jti, revoked_key,
}
use rag_foundation.Auth.Toys.{
  pack, unpack, of_option, to_option, write_token, read_claims, read_token, not_expired, jwt,
  jwt_laws, Keys, redis, redis_laws, bcrypt, bcrypt_laws,
}
use rag_foundation.Auth.Valid.{IsGenuine, get_current_user-IsGenuine}

program : Unit {0}
unfolding digits_before show read_digits read_signed int eq_str starts_with is_space lstrip strip
    lower to_lower find get_user normal_email find_email create_account after_policy register issue
    login dev_login revoke_payload end_session logout_token logout after_space get_authorization
    subject active_user load_user admitted check_revoked check_payload get_current_user
    require_admin utf8_size utf8_length cut_bytes bcrypt_safe shorter_than validate_password_policy
    hash_password verify_password claims create_access_token decode_token revoke_jti pack unpack
    of_option to_option write_token read_claims read_token not_expired
program = tt

abbrev ascii : CharClasses
ascii = record {
  is_lower = λ c. leb b'a' c && leb c b'z';
  is_upper = λ c. leb b'A' c && leb c b'Z';
  is_digit = λ c. leb b'0' c && leb c b'9';
}

abbrev cfg : AuthSettings
cfg = record {
  jwt = jwt;
  secret = codes "secret";
  issuer = codes "rag";
  audience = codes "web";
  expire_minutes = 15;
  has_redis = true;
}

abbrev nobody : Database
nobody = record { users = []; stores = []; documents = []; query_logs = []; budgets = [] }

abbrev ada : User
ada = plain_user 1 (codes "ada@x.org") (1 ∷ codes "Passw0rd!")

abbrev with_ada : Database
with_ada = record nobody { users = ada ∷ [] }

weak :
    validate_password_policy ascii (codes "password1!")
    ≡ some "Weak password: require upper, lower, digit"
unfolding program
weak = refl

ada_registers :
    register ascii bcrypt 1 (codes "salt") (codes "Ada@X.org") (codes "Passw0rd!") nobody
    ≡ (with_ada, answered tt)
unfolding program
ada_registers = refl

taken :
    register ascii bcrypt 2 (codes "salt") (codes " ada@x.org ") (codes "Passw0rd!") with_ada
    ≡ (with_ada, raised (http 400 "Email already registered"))
unfolding program
taken = refl

abbrev token : Str
token = write_token (claims cfg 100 (codes "j1") 1)

wrong_password :
    login cfg bcrypt true 100 (codes "j1") (codes "ada@x.org") (codes "Passw0rd?") with_ada
    ≡ raised (http 401 "Invalid credentials")
unfolding program
wrong_password = refl

no_dev_login :
    dev_login cfg true true 100 (codes "j1") 2 (codes "ada@x.org") with_ada
    ≡ (with_ada, raised (http 404 "Not Found"))
unfolding program
no_dev_login = refl

ada_asks : get_current_user redis cfg true 200 [] with_ada token ≡ answered ada
unfolding program
ada_asks = refl

expired : get_current_user redis cfg true 1001 [] with_ada token ≡ raised (http 401 "Invalid token")
unfolding program
expired = refl

get_current_user-IsGenuine_example : IsGenuine redis cfg true 200 [] with_ada token ada
get_current_user-IsGenuine_example =
    get_current_user-IsGenuine redis cfg true 200 [] with_ada token ada ada_asks

abbrev revoked : Keys
revoked = (revoked_key (codes "j1"), 1000) ∷ []

decoded_token : decode_token cfg 200 token ≡ some (claims cfg 100 (codes "j1") 1)
unfolding program
decoded_token = refl

ada_leaves :
    logout redis cfg true true 200 with_ada (some (codes "Bearer " ++ token)) []
    ≡ (revoked, answered tt)
unfolding program
ada_leaves = refl

logout-refused_example :
    ((e : HttpError) × (get_current_user redis cfg true 300
          ((codes "other", 310) ∷ revoked)
          with_ada
          token
        ≡ raised e))
    × (logout redis cfg true false 200 with_ada (some (codes "Bearer " ++ token)) []
        ≡ ([], answered tt))
unfolding program
logout-refused_example =
    logout-refused redis redis_laws cfg jwt_laws refl 200 300 true true [] revoked with_ada with_ada
      token (claims cfg 100 (codes "j1") 1) ((codes "other", 60, 250) ∷ []) decoded_token refl
      ada_leaves (omega arith) (omega arith) (λ e. cc, tt)

register-login_example :
    (t : Str) × (u : User) × (login cfg bcrypt true 100
        (codes "j1")
        (codes "Ada@X.org")
        (codes "Passw0rd!")
        with_ada
      ≡ answered t)
    × (get_current_user redis cfg true 200 [] with_ada t ≡ answered u)
    × (u.email ≡ normal_email (codes "Ada@X.org"))
    × (u.is_admin ≡ false)
    × (find_email (normal_email (codes "Ada@X.org")) nobody.users ≡ none)
unfolding program
register-login_example =
    register-login redis ascii bcrypt cfg 0 100 200 (codes "salt") (codes "Ada@X.org")
      (codes "Passw0rd!") (codes "j1") nobody with_ada true [] bcrypt_laws jwt_laws ada_registers
      (omega arith) (inr (inr (refl, refl)))
