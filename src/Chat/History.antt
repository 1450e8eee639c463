-- ===== src/Chat/History.antt =====
-- backend/app/routes/chat.py: the history that a request sends to Gemini, cut to a number of
-- characters; a message is its role and text.
use rag_foundation.Common.{
  ℕ, ◌+◌, ◌-◌, ◌≤◌, ◌<◌, ◌≡◌, refl, ap, ◌∙◌, ◌||◌, List, [], ◌∷◌, ◌++◌, ◌==◌, leb, if◌then◌else◌,
  length, length-drop, reverse, arith,
}
use mathlib.Core.List.{reverse-cons, reverse-reverse}
use rag_foundation.Common.Str.{Str, codes, eq_str, last, lower}

pub record Message : Type 0 where
  pub role : Str
  pub text : Str

unfoldable pub normalize_gemini_role : Str → Str
normalize_gemini_role role =
    if eq_str (lower role) (codes "assistant") || eq_str (lower role) (codes "model")
    then codes "model"
    else codes "user"

-- The loop over the reversed messages: those that fit, and the end of the first that does not.
unfoldable pub fit : ℕ → List Message → List Message
fit remaining [] = []
fit remaining (m ∷ ms) =
    let rest = fit (remaining - length m.text) ms in
    if leb (length m.text) remaining
    then m ∷ rest
    else if remaining == 0
    then []
    else record { role = normalize_gemini_role m.role; text = last remaining m.text } ∷ []

unfoldable pub trim_gemini_contents : List Message → ℕ → List Message
trim_gemini_contents contents max_chars =
    if max_chars == 0 then [] else reverse (fit max_chars (reverse contents))

-- The characters of all the messages.
unfoldable pub chars : List Message → ℕ
chars [] = 0
chars (m ∷ ms) = length m.text + chars ms

chars-append : (xs ys : List Message) → chars (xs ++ ys) ≡ chars xs + chars ys
unfolding chars
chars-append [] ys = omega arith
chars-append (x ∷ xs) ys = omega (arith, chars-append xs ys)

chars-reverse : (xs : List Message) → chars (reverse xs) ≡ chars xs
unfolding chars
chars-reverse [] = refl
chars-reverse (x ∷ xs) =
    omega
      (arith, ap chars (reverse-cons x xs), chars-append (reverse xs) (x ∷ []), chars-reverse xs)

length-last : (n : ℕ) (s : Str) → n ≤ length s → length (last n s) ≡ n
length-last n s h = omega (arith, length-drop (length s - n) s)

chars-fit : (n : ℕ) (ms : List Message) → chars (fit n ms) ≤ n
unfolding fit chars
chars-fit n [] = omega arith
chars-fit n (m ∷ ms) =
    let rest = chars-fit (n - length m.text) ms in let cut = length-last n m.text in ground arith

fit_all : (n : ℕ) (ms : List Message) → chars ms ≤ n → fit n ms ≡ ms
unfolding fit chars
fit_all n [] h = refl
fit_all n (m ∷ ms) h = let rest = fit_all (n - length m.text) ms (omega arith) in ground arith

-- What is sent of a history never has more than the given number of characters, and a history that
-- has no more is sent unchanged unless that number is zero.
pub trim_gemini_contents-fits :
    (contents : List Message) (max_chars : ℕ)
    → (chars (trim_gemini_contents contents max_chars) ≤ max_chars)
      × (chars contents ≤ max_chars
          → 0 < max_chars
          → trim_gemini_contents contents max_chars ≡ contents)
unfolding trim_gemini_contents chars
trim_gemini_contents-fits contents max_chars =
    let kept = fit max_chars (reverse contents) in
    let bound = chars-fit max_chars (reverse contents) in
    let turned = chars-reverse kept in
    let before = chars-reverse contents in
    (
      ground arith,
      λ h pos.
          let all = fit_all max_chars (reverse contents) (omega arith) in
          let back : reverse kept ≡ contents = ap reverse all ∙ reverse-reverse contents in
          ground arith,
    )
