-- ===== src/Ingestion/Sanitize.antt =====
-- backend/app/services/ingestion.py, `_sanitize_error`: the text that a user may see of an error.
use rag_foundation.Common.{
  ℕ, zero, suc, ◌+◌, ◌-◌, ◌≤◌, ◌≡◌, refl, Bool, ◌&&◌, ◌||◌, not, [], ◌∷◌, ◌++◌, Option, none, some,
  leb, ◌==◌, if◌then◌else◌, ◌≢◌, ◌∙◌, ap, true, false, All, All-map, length, take, drop, arith,
  length-take,
}
use rag_foundation.Common.Str.{Str, codes, starts_with}

-- `[A-Za-z0-9._-]`
unfoldable pub is_path_char : ℕ → Bool
is_path_char c =
    (leb b'A' c && leb c b'Z')
    || (leb b'a' c && leb c b'z')
    || (leb b'0' c && leb c b'9')
    || c == b'.'
    || c == b'_'
    || c == b'-'

-- `[^\\s]`, in a raw string: neither a backslash nor the letter s.
unfoldable pub is_tail_char : ℕ → Bool
is_tail_char c = not (c == 92 || c == b's')

-- The number of leading characters that pass a test.
unfoldable pub span : (ℕ → Bool) → Str → ℕ
span p [] = 0
span p (c ∷ s) = if p c then suc (span p s) else 0

-- `/(tmp|var|app)[^\\s]*` at the head of a text: the length of the match.
unfoldable pub match_root : Str → Option ℕ
match_root s =
    let rest = drop 4 s in
    if starts_with s (codes "/tmp") || starts_with s (codes "/var") || starts_with s (codes "/app")
    then some (4 + span is_tail_char rest)
    else none

-- `/[A-Za-z0-9._-]+/(tmp|var|app)[^\\s]*` at the head of a text. The directory's characters do not
-- include the slash, so the greedy run has one length at which the rest can match.
unfoldable pub match_path : Str → Option ℕ
match_path [] = none
match_path (c ∷ s) =
    let n = span is_path_char s in
    if c == b'/' && not (n == 0)
    then elim (match_root (drop n s)) [ none ↦ none | some m ↦ some (suc (n + m)) ]
    else none

-- `re.sub(…, "[path]", msg)`: `skip` characters of the last match are still to be passed over.
unfoldable pub sub_paths : ℕ → Str → Str
sub_paths skip [] = []
sub_paths (suc skip) (c ∷ s) = sub_paths skip s
sub_paths zero (c ∷ s) = elim (match_path (c ∷ s)) [
  | none ↦ c ∷ sub_paths zero s
  | some m ↦ codes "[path]" ++ sub_paths (m - 1) s
]

unfoldable pub sanitize_error : Str → Str
sanitize_error msg = take 500 (sub_paths 0 msg)

-- What is stored of an error has at most 500 characters.
pub length-sanitize_error-le : (msg : Str) → length (sanitize_error msg) ≤ 500
unfolding sanitize_error
length-sanitize_error-le msg = omega (arith, length-take 500 (sub_paths 0 msg))

span-stop :
    (p : ℕ → Bool) (a : Str) (c : ℕ) (s : Str)
    → All (λ x. p x ≡ true) a
    → p c ≡ false
    → span p (a ++ c ∷ s) ≡ length a
unfolding span
span-stop p [] c s h stop = ground arith
span-stop p (x ∷ a) c s h stop = ground (arith, h.0, span-stop p a c s h.1 stop)

drop-prefix : (a s : Str) → drop (length a) (a ++ s) ≡ s
drop-prefix [] s = refl
drop-prefix (x ∷ a) s = drop-prefix a s

sub_paths-prefix : (k : ℕ) (a s : Str) → sub_paths (length a + k) (a ++ s) ≡ sub_paths k s
unfolding sub_paths
sub_paths-prefix k [] s =
    let none_left : length {A = ℕ} [] + k ≡ k = omega arith in ap (λ n. sub_paths n s) none_left
sub_paths-prefix k (x ∷ a) s =
    let one_less : length (x ∷ a) + k ≡ suc (length a + k) = omega arith in
    ap (λ n. sub_paths n (x ∷ (a ++ s))) one_less ∙ sub_paths-prefix k a s

tail_stop : is_tail_char b's' ≡ false
unfolding is_tail_char
tail_stop = refl

dir_stop : is_path_char b'/' ≡ false
unfolding is_path_char
dir_stop = refl

tail_char : (c : ℕ) → (c ≢ b's') × (c ≢ 92) → is_tail_char c ≡ true
unfolding is_tail_char
tail_char c h = ground (arith, h.0, h.1)

sub_paths-tail : (a s : Str) → sub_paths (length a) (a ++ s) ≡ sub_paths 0 s
unfolding sub_paths
sub_paths-tail [] s = refl
sub_paths-tail (x ∷ a) s = sub_paths-tail a s

match_root-tmp :
    (tail rest : Str)
    → All (λ c. is_tail_char c ≡ true) tail
    → match_root (codes "/tmp" ++ (tail ++ b's' ∷ rest)) ≡ some (4 + length tail)
unfolding match_root starts_with
match_root-tmp tail rest h =
    ap (λ n. some (4 + n)) (span-stop is_tail_char tail b's' rest h tail_stop)

match_path-tmp :
    (d : ℕ) (dir tail rest : Str)
    → All (λ c. is_path_char c ≡ true) (d ∷ dir)
    → All (λ c. is_tail_char c ≡ true) tail
    → match_path (b'/' ∷ ((d ∷ dir) ++ (codes "/tmp" ++ (tail ++ b's' ∷ rest))))
      ≡ some (suc (length (d ∷ dir) + (4 + length tail)))
unfolding match_path
match_path-tmp d dir tail rest path h =
    let after = codes "/tmp" ++ (tail ++ b's' ∷ rest) in
    let s = (d ∷ dir) ++ after in
    let dirs = span-stop is_path_char (d ∷ dir) b'/' (drop 1 after) path dir_stop in
    let root = ap match_root (drop-prefix (d ∷ dir) after) ∙ match_root-tmp tail rest h in
    ap (λ n. if not (n == 0) then matched s n else none) dirs
    ∙ nonempty s
    ∙ ap (λ o. elim o [ none ↦ none | some m ↦ some (suc (length (d ∷ dir) + m)) ]) root
  where
    matched : Str → ℕ → Option ℕ
    matched s n = elim (match_root (drop n s)) [ none ↦ none | some m ↦ some (suc (n + m)) ]

    nonempty :
        (s : Str)
        → (if not (length (d ∷ dir) == 0) then matched s (length (d ∷ dir)) else none)
          ≡ matched s (length (d ∷ dir))
    nonempty s =
        let some_char : length (d ∷ dir) == 0 ≡ false = ground arith in
        ap (λ b. if not b then matched s (length (d ∷ dir)) else none) some_char

-- In a text that begins with the path of a temporary file, `/` and a directory's name and `/tmp` and more,
-- the path is cut only up to the first letter s after `/tmp`, where no backslash comes before it: the rest
-- of the path is kept as if it were no part of it.
pub sub_paths-leak :
    (d : ℕ) (dir tail rest : Str)
    → All (λ c. is_path_char c ≡ true) (d ∷ dir)
    → All (λ c. (c ≢ b's') × (c ≢ 92)) tail
    → sub_paths 0 (b'/' ∷ ((d ∷ dir) ++ (codes "/tmp" ++ (tail ++ b's' ∷ rest))))
      ≡ codes "[path]" ++ sub_paths 0 (b's' ∷ rest)
unfolding sub_paths
sub_paths-leak d dir tail rest path h =
    let tail_chars = All-map _ _ tail_char tail h in
    let found = match_path-tmp d dir tail rest path tail_chars in
    let whole = (d ∷ dir) ++ (codes "/tmp" ++ (tail ++ b's' ∷ rest)) in
    let less : suc (length (d ∷ dir) + (4 + length tail)) - 1
        ≡ length (d ∷ dir) + (4 + length tail) =
      omega arith in
    ap
      (λ o. elim o [
        | none ↦ b'/' ∷ sub_paths zero whole
        | some m ↦ codes "[path]" ++ sub_paths (m - 1) whole
      ])
      found
    ∙ ap (λ s. codes "[path]" ++ s)
        (ap (λ n. sub_paths n whole) less
          ∙ sub_paths-prefix (4 + length tail) (d ∷ dir) (codes "/tmp" ++ (tail ++ b's' ∷ rest))
          ∙ sub_paths-prefix (length tail) (codes "/tmp") (tail ++ b's' ∷ rest)
          ∙ sub_paths-tail tail (b's' ∷ rest))
