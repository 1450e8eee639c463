-- ===== src/Chat/Stream.antt =====
-- backend/app/routes/chat.py, the generator of `chat_stream`: the frames it sends, in order. What the pump
-- yields in each attempt, and whether the client is gone before it, comes from outside; the reserved
-- place in `_stream_semaphore` is `capacity`.
use rag_foundation.Common.{
  ℕ, zero, suc, ◌+◌, Bool, true, false, not, ◌||◌, List, [], ◌∷◌, ◌++◌, Option, none, some,
  if◌then◌else◌, map,
}
use rag_foundation.Common.Str.{Str, truthy, or_else}
use rag_foundation.Models.{Database}
use rag_foundation.Chat.Usage.{
  Response, Request, estimate_tokens_from_text, estimated_cost_exceeds, finalize_and_persist,
  log_failed_stream,
}

pub data ErrorCode : Type 0 where
  stream_capacity_exceeded stream_backpressure upstream_unavailable : ErrorCode
  unexpected_error budget_exceeded : ErrorCode

pub data Frame : Type 0 where
  start text_start text_end finished : Frame
  keepalive : Frame
  text_delta : Str → Frame
  source_document : Str → Frame
  finish : ℕ → ℕ → Frame
  error_frame : ErrorCode → Frame

pub record StreamState : Type 0 where
  pub stream_failed : Bool
  pub budget_exhausted : Bool
  pub error_sent : Bool
  pub last_error_code : Option ErrorCode
  pub completion_tokens_used : ℕ
  pub final_resp : Option Response
  pub has_emitted_delta : Bool
  pub assistant_text_parts : List Str

abbrev pub new_state : StreamState
new_state = record {
  stream_failed = false;
  budget_exhausted = false;
  error_sent = false;
  last_error_code = none;
  completion_tokens_used = 0;
  final_resp = none;
  has_emitted_delta = false;
  assistant_text_parts = [];
}

-- What the pump yields: the client is gone, a keep-alive, or a chunk with its text and, if it has
-- candidates, its response.
pub data PumpEvent : Type 0 where
  disconnect : PumpEvent
  alive : PumpEvent
  chunk : Option Str → Option Response → PumpEvent

-- How the pump ends: at the end of the stream, or by an exception of one of three kinds.
pub data PumpEnd : Type 0 where
  exhausted backpressure retryable unexpected : PumpEnd

pub record Attempt : Type 0 where
  pub is_disconnected : Bool
  pub events : List PumpEvent
  pub ended : PumpEnd

-- `if not state.error_sent: yield _mark_error(state, code, …)`
unfoldable pub mark_error : ErrorCode → StreamState → StreamState × List Frame
mark_error code s =
    if s.error_sent
    then (s, [])
    else (record s { error_sent = true; last_error_code = some code }, error_frame code ∷ [])

-- The same for a failure: `state.stream_failed = True` first.
unfoldable pub fail : ErrorCode → StreamState → StreamState × List Frame
fail code s = mark_error code (record s { stream_failed = true })

abbrev pub keep_response : Option Response → StreamState → StreamState
keep_response none s = s
keep_response (some r) s = record s { final_resp = some r }

-- A chunk's text when it is sent.
unfoldable pub emit : Str → StreamState → StreamState
emit text s = record s {
  has_emitted_delta = true;
  assistant_text_parts = s.assistant_text_parts ++ text ∷ [];
}

unfoldable pub count_tokens : Option Str → StreamState → StreamState
count_tokens text s = record s {
  completion_tokens_used = s.completion_tokens_used + estimate_tokens_from_text (or_else text []);
}

-- The budget stop in mid-stream, which leaves the loop.
unfoldable pub stop_over_budget : StreamState → StreamState × List Frame × Bool
stop_over_budget s =
    let (over, error) = mark_error budget_exceeded (record s { budget_exhausted = true }) in
    (over, error, true)

-- The loop over the pump: the state, the frames, and whether it was left by `break`.
unfoldable pub consume : Request → List PumpEvent → StreamState → StreamState × List Frame × Bool
consume r [] s = (s, [], false)
consume r (disconnect ∷ es) s = (record s { stream_failed = true }, [], true)
consume r (alive ∷ es) s =
    let (s', frames, stopped) = consume r es s in (s', keepalive ∷ frames, stopped)
consume r (chunk text resp ∷ es) s =
    let counted = count_tokens text s in
    let sent = if truthy text then emit (or_else text []) counted else s in
    let (s', frames, stopped) = consume r es (keep_response resp sent) in
    if not (truthy text)
    then (s', frames, stopped)
    else if estimated_cost_exceeds r counted.completion_tokens_used
    then stop_over_budget counted
    else (s', text_delta (or_else text []) ∷ frames, stopped)

-- What follows an attempt that was not left by `break`; `again` is the next attempt, if one is left.
unfoldable pub after_attempt :
    PumpEnd → Option (StreamState × List Frame) → StreamState → StreamState × List Frame
after_attempt exhausted again s = (s, [])
after_attempt backpressure again s = fail stream_backpressure s
after_attempt unexpected again s = fail unexpected_error s
after_attempt retryable again s =
    if s.has_emitted_delta
    then fail upstream_unavailable s
    else elim again [ none ↦ fail upstream_unavailable s | some next ↦ next ]

-- `retry_count <= max_retries` after the count went up: another attempt, if one is left.
abbrev pub if_left : {A : Type 0} → ℕ → A → Option A
if_left zero a = none
if_left (suc n) a = some a

-- The loop over the attempts: `left` is `max_retries + 1 - retry_count`, and `i` is `retry_count`.
unfoldable pub attempts : Request → (ℕ → Attempt) → ℕ → ℕ → StreamState → StreamState × List Frame
attempts r pump zero i s = (s, [])
attempts r pump (suc left) i s =
    let (s', frames, stopped) = consume r (pump i).events s in
    let next = attempts r pump left (suc i) s' in
    let (end, more) = after_attempt (pump i).ended (if_left left next) s' in
    if (pump i).is_disconnected
    then (record s { stream_failed = true }, [])
    else if stopped
    then (s', frames)
    else (end, frames ++ more)

abbrev pub citation_frames : Option Response → List Frame
citation_frames none = []
citation_frames (some r) = map source_document r.citations

-- `state.last_error_code is not None and state.last_error_code != "budget_exceeded"`
unfoldable pub is_logged_failure : Option ErrorCode → Bool
is_logged_failure none = false
is_logged_failure (some budget_exceeded) = false
is_logged_failure (some _) = true

-- What follows the loop.
unfoldable pub conclude : Request → StreamState → Database → Database × List Frame
conclude r s db =
    let result =
      finalize_and_persist r s.final_resp s.completion_tokens_used s.assistant_text_parts db in
    if s.stream_failed
    then (
      if is_logged_failure s.last_error_code
          then log_failed_stream r s.completion_tokens_used db
          else db,
      finished ∷ [],
    )
    else if result.over_budget || s.budget_exhausted
    then (result.db, (mark_error budget_exceeded s).1 ++ finished ∷ [])
    else (
      result.db,
      text_end ∷ citation_frames s.final_resp
          ++ finish result.prompt_tokens result.completion_tokens ∷ finished ∷ [],
    )

-- The generator: the database after it, and all its frames. `finished` is the frame with the text
-- DONE.
unfoldable pub generator : Request → Bool → ℕ → (ℕ → Attempt) → Database → Database × List Frame
generator r capacity max_retries pump db =
    if not capacity
    then (db, (mark_error stream_capacity_exceeded new_state).1 ++ finished ∷ [])
    else let (s, frames) = attempts r pump (suc max_retries) 0 new_state in
      let (db', last_frames) = conclude r s db in (db', start ∷ text_start ∷ frames ++ last_frames)
