-- ===== src/Ingestion/Wait.antt =====
-- backend/app/services/ingestion.py, `_wait_for_operation_completion`: polling with a growing pause.
-- Times are micro-seconds, in which the pauses 2 s, 3 s, 4.5 s, … are whole. The clock's reading at
-- each round and the answers of Gemini come from outside.
use rag_foundation.Common.{
  ℕ, zero, suc, ◌+◌, ◌*◌, ◌/◌, ◌≤◌, ◌<◌, ◌≡◌, refl, Bool, Option, none, some, min, ltb,
  if◌then◌else◌, arith, Bool-cases, inl, inr, ◌⊎◌,
}
use rag_foundation.Common.Str.{Str, truthy}

-- What `rag.op_status` gives: an exception, or the error text and the flag `done` of the operation.
pub data PollAnswer : Type 0 where
  poll_raised : PollAnswer
  polled : Option Str → Bool → PollAnswer

pub data Waited : Type 0 where
  completed : Waited
  timed_out : ℕ → Waited
  failed : Option Str → Waited

-- `elapsed i` is `time.monotonic() - start` in round `i`, and `poll i` the answer of that round.
pub record Gemini : Type 0 where
  pub elapsed : ℕ → ℕ
  pub poll : ℕ → PollAnswer

abbrev pub first_wait : ℕ
first_wait = 2_000_000

-- `min(wait * 1.5, wait_max)`
unfoldable pub next_wait : ℕ → ℕ
next_wait wait = min (wait * 3 / 2) 20_000_000

-- The loop, from round `i` on; `none` means that the fuel ran out.
unfoldable pub wait_loop : ℕ → ℕ → ℕ → ℕ → Gemini → Option Waited
wait_loop zero timeout i wait g = none
wait_loop (suc fuel) timeout i wait g =
    let again = wait_loop fuel timeout (suc i) (next_wait wait) g in
    if ltb timeout (g.elapsed i) then some (timed_out (g.elapsed i)) else elim (g.poll i) [
      | poll_raised ↦ again
      | polled e finished ↦
          if truthy e then some (failed e) else if finished then some completed else again
    ]

unfoldable pub wait_for_operation_completion : ℕ → ℕ → Gemini → Option Waited
wait_for_operation_completion fuel timeout g = wait_loop fuel timeout 0 first_wait g

-- The pause before round `i + 1`.
unfoldable pub pause : ℕ → ℕ
pause zero = first_wait
pause (suc i) = next_wait (pause i)

-- `time.sleep(wait + jitter)` lasts no less than the pause.
abbrev pub Sleeps : Gemini → Type 0
Sleeps g = (i : ℕ) → g.elapsed i + pause i ≤ g.elapsed (suc i)

pause_long : (i : ℕ) → first_wait ≤ pause i
unfolding pause next_wait
pause_long zero = omega arith
pause_long (suc i) = omega (arith, pause_long i)

elapsed_long : (g : Gemini) → Sleeps g → (i : ℕ) → first_wait * i ≤ g.elapsed i
elapsed_long g h zero = omega arith
elapsed_long g h (suc i) = omega (arith, elapsed_long g h i, h i, pause_long i)

poll_cases :
    (a : PollAnswer) → (a ≡ poll_raised) ⊎ ((e : Option Str) × (d : Bool) × (a ≡ polled e d))
poll_cases poll_raised = inl refl
poll_cases (polled e d) = inr (e, d, refl)

abbrev Returns : Option Waited → Type 0
Returns r = (w : Waited) × (r ≡ some w)

-- A round returns, if the rest of the loop does.
wait_round :
    (fuel timeout i wait : ℕ) (g : Gemini)
    → Returns (wait_loop fuel timeout (suc i) (next_wait wait) g)
    → Returns (wait_loop (suc fuel) timeout i wait g)
unfolding wait_loop
wait_round fuel timeout i wait g again = elim (Bool-cases (ltb timeout (g.elapsed i))) [
  | inl late ↦ (timed_out (g.elapsed i), rw late)
  | inr early ↦ elim (poll_cases (g.poll i)) [
    | inl e ↦ rw (early, e, wait_loop) again
    | inr (err, d, e) ↦ elim (Bool-cases (truthy err)) [
      | inl bad ↦ (failed err, rw (early, e, wait_loop, bad))
      | inr fine ↦ elim (Bool-cases d) [
        | inl over ↦ (completed, rw (early, e, wait_loop, fine, over))
        | inr not_yet ↦ rw (early, e, wait_loop, fine, not_yet) again
      ]
    ]
  ]
]

last_round :
    (timeout i wait : ℕ) (g : Gemini)
    → timeout < g.elapsed i
    → Returns (wait_loop 1 timeout i wait g)
unfolding wait_loop
last_round timeout i wait g late = (timed_out (g.elapsed i), ground arith)

wait_loop_total :
    (fuel timeout i wait : ℕ) (g : Gemini)
    → Sleeps g
    → timeout < first_wait * (i + fuel)
    → Returns (wait_loop (suc fuel) timeout i wait g)
wait_loop_total zero timeout i wait g h far =
    last_round timeout i wait g (omega (arith, elapsed_long g h i))
wait_loop_total (suc fuel) timeout i wait g h far =
    wait_round (suc fuel) timeout i wait g
      (wait_loop_total fuel timeout (suc i) (next_wait wait) g h (omega arith))

-- Where the sleeps last as long as the pauses, the loop ends with a round for every two seconds of the
-- timeout and two more.
pub wait_total :
    (timeout rounds : ℕ) (g : Gemini)
    → Sleeps g
    → timeout < first_wait * rounds
    → (w : Waited) × (wait_for_operation_completion (suc rounds) timeout g ≡ some w)
unfolding wait_for_operation_completion
wait_total timeout rounds g h far = wait_loop_total rounds timeout 0 first_wait g h (omega arith)
