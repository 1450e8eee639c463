-- ===== src/Auth/Toys.antt =====
-- Concrete functions that fill the parameters of the authentication: a token that writes its claims
-- out, a list of revoked keys, and a hash that keeps the password.
use rag_foundation.Common.{
  ℕ, ◌+◌, ◌≡◌, refl, sym, ap, ◌∙◌, Bool, true, false, ◌&&◌, List, [], ◌∷◌, ◌++◌, Option, none, some,
  ltb, leb, if◌then◌else◌, length, take, drop, any, arith, Bool-cases, inl, inr,
}
use rag_foundation.Common.Str.{Str, eq_str, eq_str_refl, eq_str→eq}
use rag_foundation.Auth.Password.{Bcrypt, BcryptLaws}
use rag_foundation.Auth.Token.{Payload, Jwt, JwtLaws, RevocationClient, RevocationLaws}

-- A text after its length.
unfoldable pub pack : Str → Str → Str
pack s rest = length s ∷ s ++ rest

unfoldable pub unpack : Str → Str × Str
unpack [] = ([], [])
unpack (n ∷ s) = (take n s, drop n s)

abbrev split_at : ℕ → Str → Str × Str
split_at n s = (take n s, drop n s)

abbrev both : Str → Str → Str × Str
both s rest = (s, rest)

split_append : (s rest : Str) → split_at (length s) (s ++ rest) ≡ both s rest
split_append [] rest = refl
split_append (c ∷ s) rest = ap (λ (x : Str × Str). (c ∷ x.0, x.1)) (split_append s rest)

unpack-pack : (s rest : Str) → unpack (pack s rest) ≡ both s rest
unfolding unpack pack
unpack-pack s rest = split_append s rest

unfoldable pub of_option : Option Str → Str
of_option none = []
of_option (some s) = 1 ∷ s

unfoldable pub to_option : Str → Option Str
to_option [] = none
to_option (_ ∷ s) = some s

to-of_option : (o : Option Str) → to_option (of_option o) ≡ o
unfolding to_option of_option
to-of_option none = refl
to-of_option (some s) = refl

unfoldable pub write_token : Payload → Str
write_token p =
    p.iat ∷ p.exp ∷ pack (of_option p.sub) (pack (of_option p.jti) (pack p.iss (pack p.aud [])))

unfoldable pub read_claims : ℕ → ℕ → Str → Payload
read_claims iat exp s =
    let sub = unpack s in
    let jti = unpack sub.1 in
    let iss = unpack jti.1 in
    let aud = unpack iss.1 in
    record {
      sub = to_option sub.0;
      iss = iss.0;
      aud = aud.0;
      iat = iat;
      exp = exp;
      jti = to_option jti.0;
    }

unfoldable pub read_token : Str → Option Payload
read_token [] = none
read_token (iat ∷ []) = none
read_token (iat ∷ exp ∷ s) = some (read_claims iat exp s)

read-write_token : (p : Payload) → read_token (write_token p) ≡ some p
unfolding read_token write_token read_claims
read-write_token p = simp (unpack-pack, to-of_option)

-- A token is alive until its expiry.
unfoldable pub not_expired : ℕ → Option Payload → Option Payload
not_expired now none = none
not_expired now (some p) = if leb now p.exp then some p else none

abbrev pub jwt : Jwt
jwt = record {
  encode = λ secret p. write_token p;
  decode = λ secret aud iss now token. not_expired now (read_token token);
}

if-some : (b : Bool) (q p : Payload) → (if b then some q else none) ≡ some p → (q ≡ p) × (b ≡ true)
if-some true q p h = (cc, refl)
if-some false q p h = absurd cc

alive_lem :
    (now : ℕ) (o : Option Payload) (p : Payload)
    → not_expired now o ≡ some p
    → (o ≡ some p) × (leb now p.exp ≡ true)
unfolding not_expired
alive_lem now none p h = absurd cc
alive_lem now (some q) p h =
    let (same, alive) = if-some (leb now q.exp) q p h in
    (ap some same, ap (λ (x : Payload). leb now x.exp) (sym same) ∙ alive)

pub jwt_laws : JwtLaws jwt
unfolding not_expired
jwt_laws = record {
  decode-encode = λ secret p now soon. ap (not_expired now) (read-write_token p) ∙ ground arith;
  alive = λ secret aud iss now token p h.
      let (row, alive) = alive_lem now (read_token token) p h in ground arith;
  timeless = λ secret aud iss now later token p q h k.
      let (row, _) = alive_lem now (read_token token) p h in
      let (other, _) = alive_lem later (read_token token) q k in cc;
}

abbrev pub Keys : Type 0
Keys = List (Str × ℕ)

abbrev is_live : Str → ℕ → Str × ℕ → Bool
is_live key now e = eq_str e.0 key && ltb now e.1

abbrev pub redis : RevocationClient Keys
redis = record {
  setex = λ key ttl now r. (key, now + ttl) ∷ r;
  exists = λ key now r. any (is_live key now) r;
}

pub redis_laws : RevocationLaws redis
redis_laws = record {
  exists-setex = λ key ttl now later r past soon. ground (arith, eq_str_refl key);
  exists-other = λ key other ttl now later r ne. elim (Bool-cases (eq_str other key)) [
    | inl e ↦ absurd (ne (sym (eq_str→eq other key e)))
    | inr e ↦ ground (arith, e)
  ];
}

abbrev pub bcrypt : Bcrypt
bcrypt = record {
  hashpw = λ password salt. 1 ∷ password;
  checkpw = λ password hashed. eq_str (1 ∷ password) hashed;
}

pub bcrypt_laws : BcryptLaws bcrypt
bcrypt_laws = record {
  hash_text = λ password salt. refl;
  check-hash = λ password salt. eq_str_refl (1 ∷ password);
}
