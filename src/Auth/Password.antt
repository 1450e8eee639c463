-- ===== src/Auth/Password.antt =====
-- backend/app/auth.py: the password policy, and passwords hashed and verified with bcrypt. Python's
-- character classes and bcrypt are parameters.
use rag_foundation.Common.{
  ℕ, ◌+◌, ◌-◌, ◌≤◌, ◌≡◌, Bool, true, false, not, ◌&&◌, [], ◌∷◌, Option, none, some, ◌==◌, ltb, leb,
  if◌then◌else◌, any, String, arith, length,
}
use rag_foundation.Common.Str.{Str, codes, is_empty}

-- `c.islower()`, `c.isupper()` and `c.isdigit()`.
pub record CharClasses : Type 0 where
  pub is_lower : ℕ → Bool
  pub is_upper : ℕ → Bool
  pub is_digit : ℕ → Bool

-- The bytes of a character in UTF-8.
unfoldable pub utf8_size : ℕ → ℕ
utf8_size c = if ltb c 128 then 1 else if ltb c 2048 then 2 else if ltb c 65536 then 3 else 4

-- `len(password.encode("utf-8"))`
unfoldable pub utf8_length : Str → ℕ
utf8_length [] = 0
utf8_length (c ∷ s) = utf8_size c + utf8_length s

abbrev pub bcrypt_max_bytes : ℕ
bcrypt_max_bytes = 72

-- `encoded[:n].decode("utf-8", errors="ignore")`: a character that is cut is dropped.
unfoldable pub cut_bytes : ℕ → Str → Str
cut_bytes n [] = []
cut_bytes n (c ∷ s) =
    let rest = cut_bytes (n - utf8_size c) s in if leb (utf8_size c) n then c ∷ rest else []

unfoldable pub bcrypt_safe : Str → Str
bcrypt_safe password =
    if leb (utf8_length password) bcrypt_max_bytes
    then password
    else cut_bytes bcrypt_max_bytes password

-- `len(password) < n`
unfoldable pub shorter_than : ℕ → Str → Bool
shorter_than n s = ltb (length s) n

abbrev pub special_chars : Str
special_chars = codes "!@#$%^&*()_+-=[]{}|;:,.<>?/~`"

-- The text of the PasswordValidationError, if there is one.
unfoldable pub validate_password_policy : CharClasses → Str → Option String
validate_password_policy cls password =
    if is_empty password
    then some "Password cannot be empty."
    else if shorter_than 6 password
    then some "Password too short: minimum 6 characters."
    else if ltb bcrypt_max_bytes (utf8_length password)
    then some "Password too long: must be 72 bytes or fewer."
    else if not
        (any cls.is_lower password && any cls.is_upper password && any cls.is_digit password)
    then some "Weak password: require upper, lower, digit"
    else if not (any (λ c. any (λ x. c == x) special_chars) password)
    then some "Weak password: require a special character"
    else none

-- `bcrypt.hashpw(password, salt)`, and `bcrypt.checkpw(password, hashed)`, where an exception is `false`.
pub record Bcrypt : Type 0 where
  pub hashpw : Str → Str → Str
  pub checkpw : Str → Str → Bool

-- A hash is a text, and fits the password that it was made of.
pub record BcryptLaws (b : Bcrypt) : Type 0 where
  pub hash_text : (password salt : Str) → is_empty (b.hashpw password salt) ≡ false
  pub check-hash : (password salt : Str) → b.checkpw password (b.hashpw password salt) ≡ true

unfoldable pub hash_password : Bcrypt → Str → Str → Str
hash_password b salt password = b.hashpw (bcrypt_safe password) salt

unfoldable pub verify_password : Bcrypt → Str → Str → Bool
verify_password b plain hashed =
    if is_empty hashed then false else b.checkpw (bcrypt_safe plain) hashed

pub verify-hash_password :
    (b : Bcrypt)
    → BcryptLaws b
    → (salt password : Str) → verify_password b password (hash_password b salt password) ≡ true
unfolding verify_password hash_password
verify-hash_password b laws salt password =
    ground (
      arith,
      laws.hash_text (bcrypt_safe password) salt,
      laws.check-hash (bcrypt_safe password) salt,
    )

cut_bytes_le : (n : ℕ) (s : Str) → utf8_length (cut_bytes n s) ≤ n
unfolding cut_bytes utf8_length
cut_bytes_le n [] = omega arith
cut_bytes_le n (c ∷ s) = ground (arith, cut_bytes_le (n - utf8_size c) s)

-- What is handed to bcrypt never exceeds its limit, and a password that the policy accepts is handed to
-- it as it is.
pub bcrypt_safe-fits :
    (cls : CharClasses) (password : Str)
    → (utf8_length (bcrypt_safe password) ≤ bcrypt_max_bytes)
      × (validate_password_policy cls password ≡ none → bcrypt_safe password ≡ password)
unfolding bcrypt_safe validate_password_policy
bcrypt_safe-fits cls password =
    (ground (arith, cut_bytes_le bcrypt_max_bytes password), λ h. ground arith)
