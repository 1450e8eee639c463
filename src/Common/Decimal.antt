-- ===== src/Common/Decimal.antt =====
-- `str(n)` and `int(s)` of Python, on texts whose digits are ASCII. `int` takes white space around the
-- number, a sign, and single underscores between digits.
use Prim.Native.Nat.{ℕ, zero, suc, ◌+◌, ◌-◌, ◌*◌, ◌/◌, ◌%◌, ◌<◌}
use mathlib.Core.Path.{◌≡◌, ap, ◌∙◌}
use mathlib.Core.Bool.{Bool, true, false, ◌&&◌}
use mathlib.Core.Option.{Option, none, some}
use mathlib.Core.List.{[], ◌∷◌}
use native.Mathlib.Omega.{arith}
use rag_foundation.Common.Tests.{ltb, leb, ◌==◌, if◌then◌else◌, Bool-cases}
use mathlib.Core.Logic.{inl, inr}
use rag_foundation.Common.Lists.{All}
use rag_foundation.Common.Str.{Str, is_space, strip, strip_plain}

-- The digits of `n` before those in `acc`; `fuel` above `n` is enough.
unfoldable pub digits_before : ℕ → ℕ → Str → Str
digits_before zero n acc = acc
digits_before (suc fuel) n acc =
    let more = digits_before fuel (n / 10) ((48 + n % 10) ∷ acc) in
    if ltb n 10 then (48 + n % 10) ∷ acc else more

unfoldable pub show : ℕ → Str
show n = digits_before (suc n) n []

-- A number with its sign; minus zero is zero.
pub data Integer : Type 0 where
  plus minus : ℕ → Integer

abbrev pub is_digit : ℕ → Bool
is_digit c = leb 48 c && leb c 57

-- The digits from here on; the flag says that a digit came last.
unfoldable pub read_digits : Bool → ℕ → Str → Option ℕ
read_digits true n [] = some n
read_digits false n [] = none
read_digits after n (c ∷ s) =
    let next = read_digits true (n * 10 + (c - 48)) s in
    let skipped = read_digits false n s in
    if is_digit c then next else if after && c == b'_' then skipped else none

unfoldable pub read_signed : Str → Option Integer
read_signed [] = none
read_signed (c ∷ s) =
    if c == b'-'
    then elim (read_digits false 0 s) [ none ↦ none | some n ↦ some (minus n) ]
    else let digits = if c == b'+' then s else c ∷ s in
      elim (read_digits false 0 digits) [ none ↦ none | some n ↦ some (plus n) ]

unfoldable pub int : Str → Option Integer
int s = read_signed (strip s)

abbrev IsDigits : Str → Type 0
IsDigits = All (λ c. is_digit c ≡ true)

digits_before-IsDigits :
    (fuel n : ℕ) (acc : Str) → IsDigits acc → IsDigits (digits_before fuel n acc)
unfolding digits_before
digits_before-IsDigits zero n acc h = h
digits_before-IsDigits (suc fuel) n acc h =
    let digit : is_digit (48 + n % 10) ≡ true = ground arith in
    let more = digits_before-IsDigits fuel (n / 10) ((48 + n % 10) ∷ acc) (digit, h) in
    elim (Bool-cases (ltb n 10)) [
      | inl e ↦ rw (e, digits_before) (digit, h)
      | inr e ↦ rw (e, digits_before) more
    ]

digits_plain : (s : Str) → IsDigits s → All (λ c. is_space c ≡ false) s
unfolding is_space
digits_plain [] h = tt
digits_plain (c ∷ s) h = let digit = h.0 in (ground arith, digits_plain s h.1)

read_digits-digits_before :
    (fuel n : ℕ) (acc : Str) (after : Bool)
    → n < fuel
    → read_digits after 0 (digits_before fuel n acc) ≡ read_digits true n acc
unfolding digits_before read_digits
read_digits-digits_before zero n acc after h = absurd (omega arith)
read_digits-digits_before (suc fuel) n acc after h = elim (Bool-cases (ltb n 10)) [
  | inl e ↦ rw (e, digits_before) (ground arith)
  | inr e ↦
      let below : n / 10 < fuel = ground arith in
      rw (e, digits_before)
        (read_digits-digits_before fuel (n / 10) ((48 + n % 10) ∷ acc) after below ∙ ground arith)
]

show-IsDigits : (n : ℕ) → IsDigits (show n)
unfolding show
show-IsDigits n = digits_before-IsDigits (suc n) n [] tt

read_signed_digits :
    (s : Str) (n : ℕ) → IsDigits s → read_digits false 0 s ≡ some n → read_signed s ≡ some (plus n)
unfolding read_signed read_digits
read_signed_digits [] n h e = cc
read_signed_digits (c ∷ s) n h e = let digit = h.0 in ground arith

-- `int` reads back what `str` writes of a number.
pub int-show : (n : ℕ) → int (show n) ≡ some (plus n)
unfolding int show read_digits
int-show n =
    ap read_signed (strip_plain (show n) (digits_plain (show n) (show-IsDigits n)))
    ∙ read_signed_digits (show n) n (show-IsDigits n)
        (read_digits-digits_before (suc n) n [] false (omega arith) ∙ read_digits_end)
  where
    read_digits_end : read_digits true n [] ≡ some n
    read_digits_end = ground arith
