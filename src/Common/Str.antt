-- ===== src/Common/Str.antt =====
-- Python's `str` where the program looks inside a text: a list of code points. `codes` reads a
-- literal. `lower` is that of ASCII; `strip` removes every character that Python calls whitespace.
use Prim.Native.Char.{code}
use Prim.Native.String.{String}
use Prim.Native.Nat.{ℕ, ◌+◌, ◌-◌, ◌≤◌}
use mathlib.Core.Path.{◌≡◌, refl, sym, ap, ◌∙◌, subst}
use mathlib.Core.Bool.{Bool, true, false, ◌&&◌, ◌||◌, not}
use mathlib.Core.List.{List, [], ◌∷◌, ◌++◌, map, reverse, reverse-cons, reverse-reverse}
use mathlib.Core.Logic.{inl, inr}
use mathlib.Core.Option.{Option, none, some}
use native.Mathlib.Omega.{arith}
use native.Mathlib.Decide.{ℕ_discrete}
use rag_foundation.Common.Tests.{leb, ◌==◌, if◌then◌else◌, Bool-cases}
use rag_foundation.Common.Lists.{length, drop, length-reverse, All, All-append}

abbrev pub Str : Type 0
Str = List ℕ

abbrev pub codes : String → Str
codes String.[] = []
codes (String.◌∷◌ c s) = code c ∷ codes s

pub Str-discrete : Discrete Str
Str-discrete = hlevel ℕ_discrete

-- Equality of texts, character by character.
unfoldable pub eq_str : Str → Str → Bool
eq_str [] [] = true
eq_str [] (_ ∷ _) = false
eq_str (_ ∷ _) [] = false
eq_str (a ∷ s) (b ∷ t) = a == b && eq_str s t

pub eq_str→eq : (s t : Str) → eq_str s t ≡ true → s ≡ t
unfolding eq_str
eq_str→eq [] [] h = refl
eq_str→eq [] (_ ∷ _) h = cc
eq_str→eq (_ ∷ _) [] h = cc
eq_str→eq (a ∷ s) (b ∷ t) h = ground (arith, eq_str→eq s t)

pub eq_str_refl : (s : Str) → eq_str s s ≡ true
unfolding eq_str
eq_str_refl [] = refl
eq_str_refl (a ∷ s) = ground (arith, eq_str_refl s)

unfoldable pub starts_with : Str → Str → Bool
starts_with s [] = true
starts_with [] (_ ∷ _) = false
starts_with (a ∷ s) (b ∷ p) = a == b && starts_with s p

-- A text begins with `p` exactly if it is `p` and a rest.
pub starts_with-append : (s p : Str) → starts_with s p ≡ true → s ≡ p ++ drop (length p) s
unfolding starts_with
starts_with-append s [] h = refl
starts_with-append [] (_ ∷ _) h = cc
starts_with-append (a ∷ s) (b ∷ p) h = ground (arith, starts_with-append s p)

unfoldable pub is_space : ℕ → Bool
is_space c =
    (leb 9 c && leb c 13)
    || (leb 28 c && leb c 32)
    || c == 133
    || c == 160
    || c == 5760
    || (leb 8192 c && leb c 8202)
    || c == 8232
    || c == 8233
    || c == 8239
    || c == 8287
    || c == 12288

unfoldable pub lstrip : Str → Str
unfolding is_space
lstrip [] = []
lstrip (c ∷ s) = elim (is_space c) [ true ↦ lstrip s | false ↦ c ∷ s ]

unfoldable pub strip : Str → Str
unfolding lstrip
strip s = reverse (lstrip (reverse (lstrip s)))

unfoldable pub to_lower : ℕ → ℕ
to_lower c = if leb b'A' c && leb c b'Z' then c + 32 else c

unfoldable pub lower : Str → Str
unfolding to_lower
lower = map to_lower

-- `not s` for a text, and for a text or None.
abbrev pub is_empty : Str → Bool
is_empty [] = true
is_empty (_ ∷ _) = false

abbrev pub truthy : Option Str → Bool
truthy none = false
truthy (some s) = not (is_empty s)

-- `a or b` on texts or None.
abbrev pub or_else : Option Str → Str → Str
or_else none d = d
or_else (some s) d = if is_empty s then d else s

-- `s[-n:]`
abbrev pub last : ℕ → Str → Str
last n s = drop (length s - n) s

pub length-lstrip-le : (s : Str) → length (lstrip s) ≤ length s
unfolding lstrip
length-lstrip-le [] = omega arith
length-lstrip-le (c ∷ s) = elim (Bool-cases (is_space c)) [
  | inl p ↦ rw (p, lstrip) (omega (arith, length-lstrip-le s))
  | inr p ↦ rw (p, lstrip) (omega arith)
]

pub length-strip-le : (s : Str) → length (strip s) ≤ length s
unfolding strip
length-strip-le s = omega (
  arith,
  length-reverse (lstrip (reverse (lstrip s))),
  length-lstrip-le (reverse (lstrip s)),
  length-reverse (lstrip s),
  length-lstrip-le s,
)

lstrip_plain : (s : Str) → All (λ c. is_space c ≡ false) s → lstrip s ≡ s
unfolding lstrip
lstrip_plain [] h = refl
lstrip_plain (c ∷ s) h = let here = h.0 in rw (here, lstrip)

reverse_plain :
    (s : Str) → All (λ c. is_space c ≡ false) s → All (λ c. is_space c ≡ false) (reverse s)
reverse_plain [] h = tt
reverse_plain (c ∷ s) h =
    subst (All (λ d. is_space d ≡ false)) (sym (reverse-cons c s))
      (All-append (λ d. is_space d ≡ false) (reverse s) (c ∷ []) (reverse_plain s h.1) (h.0, tt))

-- A text without white space is kept by `strip`.
pub strip_plain : (s : Str) → All (λ c. is_space c ≡ false) s → strip s ≡ s
unfolding strip
strip_plain s h =
    ap (λ t. reverse (lstrip (reverse t))) (lstrip_plain s h)
    ∙ ap reverse (lstrip_plain (reverse s) (reverse_plain s h))
    ∙ reverse-reverse s
