-- ===== src/Uploads/Receive.antt =====
-- backend/app/routes/uploads.py, `upload`: the loop that reads the file in chunks and writes them to the
-- temporary file. A chunk that cannot be read or written is `none`.
use rag_foundation.Common.{
  ℕ, ◌+◌, ◌≤◌, inl, inr, List, [], ◌∷◌, ◌++◌, Option, none, some, ltb, if◌then◌else◌, length, arith,
  Bool-cases, length-append,
}

-- What was written, where nothing raised.
pub data Received : Type 0 where
  received : List ℕ → Received
  too_large : Received
  failed : Received

unfoldable pub receive : ℕ → List ℕ → List (Option (List ℕ)) → Received
receive limit written [] = received written
receive limit written (none ∷ _) = failed
receive limit written (some [] ∷ _) = received written
receive limit written (some (b ∷ chunk) ∷ chunks) =
    let rest = receive limit (written ++ b ∷ chunk) chunks in
    if ltb limit (length written + length (b ∷ chunk)) then too_large else rest

abbrev pub AtMost : ℕ → Received → Type 0
AtMost limit (received content) = length content ≤ limit
AtMost limit too_large = Unit
AtMost limit failed = Unit

-- What is kept of a file is within the limit.
pub receive-AtMost :
    (limit : ℕ) (written : List ℕ) (chunks : List (Option (List ℕ)))
    → length written ≤ limit
    → AtMost limit (receive limit written chunks)
unfolding receive
receive-AtMost limit written [] h = h
receive-AtMost limit written (none ∷ _) h = tt
receive-AtMost limit written (some [] ∷ _) h = h
receive-AtMost limit written (some (b ∷ chunk) ∷ chunks) h =
    elim (Bool-cases (ltb limit (length written + length (b ∷ chunk)))) [
      | inl over ↦ rw over tt
      | inr room ↦
          rw (room, receive)
            (receive-AtMost limit (written ++ b ∷ chunk) chunks
              (ground (arith, length-append written (b ∷ chunk))))
    ]
