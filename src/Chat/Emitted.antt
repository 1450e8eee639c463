-- ===== src/Chat/Emitted.antt =====
-- backend/app/routes/chat.py, the generator of `chat_stream`: frames of the text and at most one error.
use rag_foundation.Common.{
  ◌≡◌, refl, sym, ap, ◌∙◌, true, false, List, [], ◌∷◌, ◌++◌, Option, none, some, ◌⊎◌, inl, inr,
  if◌then◌else◌, All, All-append, append_assoc, append-nil,
}
use rag_foundation.Common.Str.{Str}
use rag_foundation.Chat.Usage.{Response}
use rag_foundation.Chat.Stream.{
  ErrorCode, budget_exceeded, Frame, start, text_start, text_end, finished, source_document, finish,
  text_delta, keepalive, error_frame, StreamState, mark_error, fail, keep_response, emit,
  count_tokens, stop_over_budget, is_logged_failure,
}

-- A frame of the text: a delta or a keep-alive.
abbrev pub IsBody : Frame → Type 0
IsBody (text_delta t) = Unit
IsBody keepalive = Unit
IsBody _ = ⊥

-- The texts of the deltas among frames.
unfoldable pub deltas : List Frame → List Str
deltas [] = []
deltas (text_delta t ∷ fs) = t ∷ deltas fs
deltas (_ ∷ fs) = deltas fs

-- No error has been sent.
pub record IsQuiet (s : StreamState) : Type 0 where
  pub unsent : s.error_sent ≡ false
  pub no_code : s.last_error_code ≡ none
  pub in_budget : s.budget_exhausted ≡ false

-- One error has been sent, and its stream has failed or is over its budget.
pub record IsStopped (s : StreamState) (code : ErrorCode) : Type 0 where
  pub sent : s.error_sent ≡ true
  pub code_of : s.last_error_code ≡ some code
  pub reason :
      ((s.stream_failed ≡ true) × (is_logged_failure (some code) ≡ true))
      ⊎ ((s.stream_failed ≡ false) × (s.budget_exhausted ≡ true))

-- Frames sent between two states: text whose deltas are added to the parts, then at most one error.
pub record Emitted (before after : StreamState) (fs : List Frame) : Type 0 where
  pub body : List Frame
  pub is_body : All IsBody body
  pub parts : after.assistant_text_parts ≡ before.assistant_text_parts ++ deltas body
  pub ending :
      ((fs ≡ body) × IsQuiet after)
      ⊎ ((code : ErrorCode) × (fs ≡ body ++ error_frame code ∷ []) × IsStopped after code)

pub Emitted-nothing : (s : StreamState) → IsQuiet s → Emitted s s []
unfolding deltas
Emitted-nothing s q = record {
  body = [];
  is_body = tt;
  parts = sym (append-nil s.assistant_text_parts);
  ending = inl (refl, q);
}

-- The client is gone: nothing is sent.
pub Emitted-disconnect :
    (s : StreamState) → IsQuiet s → Emitted s (record s { stream_failed = true }) []
unfolding deltas
Emitted-disconnect s q = record {
  body = [];
  is_body = tt;
  parts = sym (append-nil s.assistant_text_parts);
  ending = inl (refl, record { unsent = q.unsent; no_code = q.no_code; in_budget = q.in_budget });
}

-- No error has been sent and the stream goes on.
pub record IsRunning (s : StreamState) : Type 0 where
  pub quiet : IsQuiet s
  pub going : s.stream_failed ≡ false

pub deltas-append : (fs gs : List Frame) → deltas (fs ++ gs) ≡ deltas fs ++ deltas gs
unfolding deltas
deltas-append [] gs = refl
deltas-append (text_delta t ∷ fs) gs = ap (λ ds. t ∷ ds) (deltas-append fs gs)
deltas-append (keepalive ∷ fs) gs = deltas-append fs gs
deltas-append (start ∷ fs) gs = deltas-append fs gs
deltas-append (text_start ∷ fs) gs = deltas-append fs gs
deltas-append (text_end ∷ fs) gs = deltas-append fs gs
deltas-append (finished ∷ fs) gs = deltas-append fs gs
deltas-append (source_document t ∷ fs) gs = deltas-append fs gs
deltas-append (finish p c ∷ fs) gs = deltas-append fs gs
deltas-append (error_frame c ∷ fs) gs = deltas-append fs gs

pub Emitted-append :
    (before mid after : StreamState) (fs gs : List Frame)
    → Emitted before mid fs
    → IsQuiet mid
    → Emitted mid after gs
    → Emitted before after (fs ++ gs)
Emitted-append before mid after fs gs e q e' = elim e.ending [
  | inr (code, same, stopped) ↦ absurd (cc (stopped.sent, q.unsent))
  | inl (same, _) ↦ record {
    body = e.body ++ e'.body;
    is_body = All-append IsBody e.body e'.body e.is_body e'.is_body;
    parts =
        e'.parts
        ∙ ap (λ ps. ps ++ deltas e'.body) e.parts
        ∙ append_assoc before.assistant_text_parts (deltas e.body) (deltas e'.body)
        ∙ ap (λ ds. before.assistant_text_parts ++ ds) (sym (deltas-append e.body e'.body));
    ending = elim e'.ending [
      | inl (same', q') ↦ inl (ap (λ hs. hs ++ gs) same ∙ ap (λ hs. e.body ++ hs) same', q')
      | inr (code, same', q') ↦ inr (
        code,
        ap (λ hs. hs ++ gs) same
            ∙ ap (λ hs. e.body ++ hs) same'
            ∙ sym (append_assoc e.body e'.body (error_frame code ∷ [])),
        q',
      )
    ];
  }
]

-- One frame of the text.
pub Emitted-one :
    (before after : StreamState) (f : Frame)
    → IsBody f
    → after.assistant_text_parts ≡ before.assistant_text_parts ++ deltas (f ∷ [])
    → IsQuiet after
    → Emitted before after (f ∷ [])
Emitted-one before after f b p q = record {
  body = f ∷ [];
  is_body = (b, tt);
  parts = p;
  ending = inl (refl, q);
}

pub fail-Emitted :
    (code : ErrorCode) (s : StreamState)
    → is_logged_failure (some code) ≡ true
    → IsQuiet s
    → Emitted s (fail code s).0 (fail code s).1
unfolding fail mark_error deltas
fail-Emitted code s logged q =
    rw (q.unsent, if◌then◌else◌)
      (record {
        body = [];
        is_body = tt;
        parts = sym (append-nil s.assistant_text_parts);
        ending =
            inr (code, refl, record { sent = refl; code_of = refl; reason = inl (refl, logged) });
      })

pub stop_over_budget-Emitted :
    (s : StreamState) → IsRunning s → Emitted s (stop_over_budget s).0 (stop_over_budget s).1
unfolding stop_over_budget mark_error deltas
stop_over_budget-Emitted s q =
    rw (q.quiet.unsent, if◌then◌else◌)
      (record {
        body = [];
        is_body = tt;
        parts = sym (append-nil s.assistant_text_parts);
        ending = inr (
          budget_exceeded,
          refl,
          record { sent = refl; code_of = refl; reason = inr (q.going, refl) },
        );
      })

pub count_tokens-IsRunning :
    (text : Option Str) (s : StreamState) → IsRunning s → IsRunning (count_tokens text s)
unfolding count_tokens
count_tokens-IsRunning text s q = record {
  quiet = record {
    unsent = q.quiet.unsent;
    no_code = q.quiet.no_code;
    in_budget = q.quiet.in_budget;
  };
  going = q.going;
}

pub emit-IsRunning : (text : Str) (s : StreamState) → IsRunning s → IsRunning (emit text s)
unfolding emit
emit-IsRunning text s q = record {
  quiet = record {
    unsent = q.quiet.unsent;
    no_code = q.quiet.no_code;
    in_budget = q.quiet.in_budget;
  };
  going = q.going;
}

pub keep_response-IsRunning :
    (resp : Option Response) (s : StreamState) → IsRunning s → IsRunning (keep_response resp s)
keep_response-IsRunning none s q = q
keep_response-IsRunning (some r) s q = record {
  quiet = record {
    unsent = q.quiet.unsent;
    no_code = q.quiet.no_code;
    in_budget = q.quiet.in_budget;
  };
  going = q.going;
}

pub keep_response-parts :
    (resp : Option Response) (s : StreamState)
    → (keep_response resp s).assistant_text_parts ≡ s.assistant_text_parts
keep_response-parts none s = refl
keep_response-parts (some r) s = refl

-- The same frames from a state with the same parts.
pub Emitted-from :
    (a b after : StreamState) (fs : List Frame)
    → a.assistant_text_parts ≡ b.assistant_text_parts
    → Emitted a after fs
    → Emitted b after fs
Emitted-from a b after fs same e = record {
  body = e.body;
  is_body = e.is_body;
  parts = e.parts ∙ ap (λ ps. ps ++ deltas e.body) same;
  ending = e.ending;
}
