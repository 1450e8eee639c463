-- ===== src/Uploads/Clean.antt =====
-- backend/app/routes/uploads.py, `sanitize_name`: every name is made safe, and a safe one is kept.
use rag_foundation.Common.{
  ℕ, zero, suc, ◌≤◌, ◌<◌, ◌≡◌, ◌≢◌, refl, ap, ◌∙◌, inl, inr, Bool, true, false, [], ◌∷◌, ◌==◌,
  if◌then◌else◌, map, length, take, All, arith, Bool-cases, length-take,
}
use rag_foundation.Common.Str.{Str, strip, is_space, strip_plain}
use rag_foundation.Uploads.Name.{
  after_slash, basename, is_name_char, sub_unsafe, underscore, lstrip_dots, or_file, sanitize_name,
}

abbrev pub IsNameText : Str → Type 0
IsNameText = All (λ c. is_name_char c ≡ true)

-- No dot at the head.
abbrev pub NoDot : Str → Type 0
NoDot [] = Unit
NoDot (c ∷ s) = c ≢ b'.'

-- A name that can stand in a path: not empty, of safe characters, and no hidden file.
pub record IsSafeName (max_len : ℕ) (s : Str) : Type 0 where
  pub safe : IsNameText s
  pub no_dot : NoDot s
  pub some_char : 0 < length s
  pub bounded : length s ≤ max_len

sub_unsafe-IsNameText : (inside : Bool) (s : Str) → IsNameText (sub_unsafe inside s)
unfolding sub_unsafe is_name_char
sub_unsafe-IsNameText inside [] = tt
sub_unsafe-IsNameText inside (c ∷ s) = elim (Bool-cases (is_name_char c)) [
  | inl e ↦ rw (e, sub_unsafe) (e, sub_unsafe-IsNameText false s)
  | inr e ↦ elim (Bool-cases inside) [
    | inl i ↦ rw (e, sub_unsafe, i) (sub_unsafe-IsNameText true s)
    | inr i ↦ rw (e, sub_unsafe, i) (underscore_safe, sub_unsafe-IsNameText true s)
  ]
]
  where
    underscore_safe : is_name_char b'_' ≡ true
    underscore_safe = refl

lstrip_dots-IsNameText :
    (s : Str) → IsNameText s → IsNameText (lstrip_dots s) × NoDot (lstrip_dots s)
unfolding lstrip_dots
lstrip_dots-IsNameText [] h = (tt, tt)
lstrip_dots-IsNameText (c ∷ s) h = elim (Bool-cases (c == b'.')) [
  | inl e ↦ rw (e, lstrip_dots) (lstrip_dots-IsNameText s h.1)
  | inr e ↦ rw (e, lstrip_dots) (h, λ d. ground arith)
]

take-IsNameText :
    (n : ℕ) (s : Str) → IsNameText s → NoDot s → IsNameText (take n s) × NoDot (take n s)
take-IsNameText zero s h d = (tt, tt)
take-IsNameText (suc n) [] h d = (tt, tt)
take-IsNameText (suc n) (c ∷ s) h d = ((h.0, safe_take n s h.1), d)
  where
    safe_take : (n : ℕ) (s : Str) → IsNameText s → IsNameText (take n s)
    safe_take zero s h = tt
    safe_take (suc n) [] h = tt
    safe_take (suc n) (c ∷ s) h = (h.0, safe_take n s h.1)

or_file-IsSafeName :
    (n : ℕ) (s : Str) → 4 ≤ n → IsNameText s → NoDot s → length s ≤ n → IsSafeName n (or_file s)
unfolding is_name_char
or_file-IsSafeName n [] four h d b = record {
  safe = (refl, (refl, (refl, (refl, tt))));
  no_dot = λ e. omega arith;
  some_char = omega arith;
  bounded = four;
}
or_file-IsSafeName n (c ∷ s) four h d b = record {
  safe = h;
  no_dot = d;
  some_char = omega arith;
  bounded = b;
}

-- Whatever the client calls a file, its name becomes a safe one: of letters, digits, dots, dashes and
-- underscores, with no dot at its head, not empty and not too long.
pub sanitize_name-IsSafeName :
    (name : Str) (max_len : ℕ) → 4 ≤ max_len → IsSafeName max_len (sanitize_name name max_len)
unfolding sanitize_name
sanitize_name-IsSafeName name max_len four =
    let text = sub_unsafe false (map underscore (strip (basename name))) in
    let (h, d) = lstrip_dots-IsNameText text (sub_unsafe-IsNameText false _) in
    let (h', d') = take-IsNameText max_len (lstrip_dots text) h d in
    or_file-IsSafeName max_len (take max_len (lstrip_dots text)) four h' d'
      (omega (arith, length-take max_len (lstrip_dots text)))

after_slash-IsNameText : (best s : Str) → IsNameText s → after_slash best s ≡ best
unfolding after_slash is_name_char
after_slash-IsNameText best [] h = refl
after_slash-IsNameText best (c ∷ s) h =
    let here = h.0 in
    let rest = after_slash-IsNameText best s h.1 in
    let no_slash : c == b'/' ≡ false = ground arith in rw (no_slash, after_slash) rest

map-underscore : (s : Str) → IsNameText s → map underscore s ≡ s
unfolding underscore is_name_char
map-underscore [] h = refl
map-underscore (c ∷ s) h =
    let here = h.0 in
    let same : (if c == 32 then b'_' else c) ≡ c = ground arith in rw (same, map-underscore s h.1)

sub_unsafe_safe : (s : Str) → IsNameText s → sub_unsafe false s ≡ s
unfolding sub_unsafe is_name_char
sub_unsafe_safe [] h = refl
sub_unsafe_safe (c ∷ s) h = let here = h.0 in rw (here, sub_unsafe_safe s h.1)

lstrip_dots-NoDot : (s : Str) → NoDot s → lstrip_dots s ≡ s
unfolding lstrip_dots
lstrip_dots-NoDot [] d = refl
lstrip_dots-NoDot (c ∷ s) d = ground arith

take_all : (n : ℕ) (s : Str) → length s ≤ n → take n s ≡ s
take_all zero [] h = refl
take_all zero (c ∷ s) h = absurd (omega arith)
take_all (suc n) [] h = refl
take_all (suc n) (c ∷ s) h = rw (take_all n s (omega arith))

or_file-some : (s : Str) → 0 < length s → or_file s ≡ s
or_file-some [] h = absurd (omega arith)
or_file-some (c ∷ s) h = refl

plain : (s : Str) → IsNameText s → All (λ c. is_space c ≡ false) s
unfolding is_name_char is_space
plain [] h = tt
plain (c ∷ s) h = let here = h.0 in (ground arith, plain s h.1)

-- A safe name is kept as it is, so that cleaning a name twice is cleaning it once.
pub sanitize_name-IsSafeName_id :
    (name : Str) (max_len : ℕ) → IsSafeName max_len name → sanitize_name name max_len ≡ name
unfolding sanitize_name basename
sanitize_name-IsSafeName_id name max_len n =
    let tail : Str → Str =
      λ s. or_file (take max_len (lstrip_dots (sub_unsafe false (map underscore s)))) in
    ap (λ s. tail (strip s)) (after_slash-IsNameText name name n.safe)
    ∙ ap tail (strip_plain name (plain name n.safe))
    ∙ ap (λ s. or_file (take max_len (lstrip_dots (sub_unsafe false s))))
        (map-underscore name n.safe)
    ∙ ap (λ s. or_file (take max_len (lstrip_dots s))) (sub_unsafe_safe name n.safe)
    ∙ ap (λ s. or_file (take max_len s)) (lstrip_dots-NoDot name n.no_dot)
    ∙ ap or_file (take_all max_len name n.bounded)
    ∙ or_file-some name n.some_char
