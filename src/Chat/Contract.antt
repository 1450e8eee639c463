-- ===== src/Chat/Contract.antt =====
-- backend/app/routes/chat.py, the generator of `chat_stream`: the contract of the stream, and what is
-- charged for it.
use rag_foundation.Common.{
  ℕ, suc, ◌≡◌, refl, sym, ap, ◌∙◌, subst, Bool, true, false, ◌||◌, List, [], ◌∷◌, ◌++◌, Option,
  none, some, ◌⊎◌, inl, inr, if◌then◌else◌, All, arith, Bool-cases, append_assoc, append-nil, map,
}
use rag_foundation.Common.Str.{Str}
use rag_foundation.Models.{QueryLog, Database}
use rag_foundation.Costs.Budget.{add_log}
use rag_foundation.Chat.Usage.{
  Response, Request, FinalizeResult, finalize_and_persist, log_failed_stream, log_row,
}
use rag_foundation.Chat.Stream.{
  ErrorCode, stream_capacity_exceeded, budget_exceeded, Frame, start, text_start, text_end,
  finished, source_document, finish, error_frame, StreamState, new_state, Attempt, mark_error,
  attempts, citation_frames, is_logged_failure, conclude, generator,
}
use rag_foundation.Chat.Emitted.{IsBody, IsQuiet, IsStopped, IsRunning, deltas, deltas-append}
use rag_foundation.Chat.Loop.{attempts-Emitted}

-- One row of the request's user and model is added to the query logs, if its commit succeeds.
abbrev pub IsCharged : Request → Database → Database → Type 0
IsCharged r db next =
    (row : QueryLog) × (row.user_id ≡ r.user_id)
    × (row.model ≡ some r.model)
    × (next ≡ (if r.log_commits then add_log row db else db))

-- The ends of a stream after its text: success, one error, or nothing since the client is gone.
abbrev pub IsTail : Request → Database → Database → List Frame → Type 0
IsTail r db next fs =
    ((titles : List Str) × (p c : ℕ) × (fs
        ≡ text_end ∷ map source_document titles ++ finish p c ∷ finished ∷ [])
      × IsCharged r db next)
    ⊎ ((code : ErrorCode) × (fs ≡ error_frame code ∷ finished ∷ []) × IsCharged r db next)
    ⊎ ((fs ≡ finished ∷ []) × (next ≡ db))

citation_frames-map :
    (o : Option Response) → (titles : List Str) × (citation_frames o ≡ map source_document titles)
citation_frames-map none = ([], refl)
citation_frames-map (some r) = (r.citations, refl)

module _ (r : Request) (s : StreamState) (db : Database) where
  result : FinalizeResult
  result = finalize_and_persist r s.final_resp s.completion_tokens_used s.assistant_text_parts db

  result-IsCharged : IsCharged r db result.db
  unfolding result finalize_and_persist log_row
  result-IsCharged = (_, refl, refl, refl)

  failed-IsCharged : IsCharged r db (log_failed_stream r s.completion_tokens_used db)
  unfolding log_failed_stream log_row
  failed-IsCharged = (_, refl, refl, refl)

  conclude-failed :
      s.stream_failed ≡ true
      → conclude r s db ≡ (
        if is_logged_failure s.last_error_code
            then log_failed_stream r s.completion_tokens_used db
            else db,
        finished ∷ [],
      )
  unfolding conclude
  conclude-failed e = ground arith

  conclude-over :
      s.stream_failed ≡ false
      → (result.over_budget || s.budget_exhausted) ≡ true
      → conclude r s db ≡ (result.db, (mark_error budget_exceeded s).1 ++ finished ∷ [])
  unfolding conclude result
  conclude-over e over = ground arith

  conclude-within :
      s.stream_failed ≡ false
      → (result.over_budget || s.budget_exhausted) ≡ false
      → conclude r s db ≡ (
        result.db,
        text_end ∷ citation_frames s.final_resp
            ++ finish result.prompt_tokens result.completion_tokens ∷ finished ∷ [],
      )
  unfolding conclude result
  conclude-within e within = ground arith

  mark_error-unsent :
      (code : ErrorCode) → s.error_sent ≡ false → (mark_error code s).1 ≡ error_frame code ∷ []
  unfolding mark_error
  mark_error-unsent code e = ground arith

  mark_error-sent : (code : ErrorCode) → s.error_sent ≡ true → (mark_error code s).1 ≡ []
  unfolding mark_error
  mark_error-sent code e = ground arith

  Tail : Database × List Frame → Type 0
  Tail o = IsTail r db o.0 o.1

  quiet-IsTail : IsQuiet s → Tail (conclude r s db)
  unfolding Tail is_logged_failure
  quiet-IsTail q = elim (Bool-cases s.stream_failed) [
    | inl failed ↦
        subst Tail
          (sym (
            conclude-failed failed
            ∙ ap
                (λ c. (
                  if is_logged_failure c
                      then log_failed_stream r s.completion_tokens_used db
                      else db,
                  finished ∷ [],
                ))
                q.no_code))
          (inr (inr (refl, refl)))
    | inr going ↦ elim (Bool-cases (result.over_budget || s.budget_exhausted)) [
      | inl over ↦
          subst Tail
            (sym (
              conclude-over going over
              ∙ ap (λ fs. (result.db, fs ++ finished ∷ []))
                  (mark_error-unsent budget_exceeded q.unsent)))
            (inr (inl (budget_exceeded, refl, result-IsCharged)))
      | inr within ↦
          let (titles, same) = citation_frames-map s.final_resp in
          subst Tail (sym (conclude-within going within)) (
            inl (
              titles,
              result.prompt_tokens,
              result.completion_tokens,
              ap
                  (λ fs.
                    text_end ∷ fs
                    ++ finish result.prompt_tokens result.completion_tokens ∷ finished ∷ [])
                  same,
              result-IsCharged,
            ))
    ]
  ]

  Charged : Database × List Frame → Type 0
  Charged o = IsCharged r db o.0 × (o.1 ≡ finished ∷ [])

  stopped-Charged : (code : ErrorCode) → IsStopped s code → Charged (conclude r s db)
  unfolding Charged
  stopped-Charged code stopped = elim stopped.reason [
    | inl (failed, logged) ↦
        subst Charged
          (sym (
            conclude-failed failed
            ∙ ap
                (λ b. (
                  if b then log_failed_stream r s.completion_tokens_used db else db,
                  finished ∷ [],
                ))
                (ap is_logged_failure stopped.code_of ∙ logged)))
          (failed-IsCharged, refl)
    | inr (going, over) ↦
        subst Charged
          (sym (
            conclude-over going (ground (arith, over))
            ∙ ap (λ fs. (result.db, fs ++ finished ∷ []))
                (mark_error-sent budget_exceeded stopped.sent)))
          (result-IsCharged, refl)
  ]

new_state-IsRunning : IsRunning new_state
new_state-IsRunning = record {
  quiet = record { unsent = refl; no_code = refl; in_budget = refl };
  going = refl;
}

-- A stream is either refused, with one error and the last frame and no charge, or it is start,
-- text-start and text (deltas and keep-alives), and then one of: text-end, citations, finish and the
-- last frame; one error and the last frame; or the last frame alone and no charge. The first two charge
-- the user with one row of the request's model if the commit of the row succeeds, and with nothing if
-- it fails.
pub generator-contract :
    (r : Request) (capacity : Bool) (max_retries : ℕ) (pump : ℕ → Attempt) (db : Database)
    → let o = generator r capacity max_retries pump db in
      ((o.1 ≡ error_frame stream_capacity_exceeded ∷ finished ∷ []) × (o.0 ≡ db))
      ⊎ ((body tail : List Frame) × All IsBody body
          × (o.1 ≡ start ∷ text_start ∷ body ++ tail)
          × IsTail r db o.0 tail)
unfolding generator mark_error Tail Charged
generator-contract r false max_retries pump db = inl (refl, refl)
generator-contract r true max_retries pump db =
    let o = attempts r pump (suc max_retries) 0 new_state in
    let e = attempts-Emitted r pump (suc max_retries) 0 new_state new_state-IsRunning in
    elim e.ending [
      | inl (same, q) ↦ inr (
        e.body,
        (conclude r o.0 db).1,
        e.is_body,
        ap (λ fs. start ∷ text_start ∷ fs ++ (conclude r o.0 db).1) same,
        quiet-IsTail r o.0 db q,
      )
      | inr (code, same, stopped) ↦
          let (charged, over) = stopped-Charged r o.0 db code stopped in
          inr (
            e.body,
            error_frame code ∷ finished ∷ [],
            e.is_body,
            ap (λ fs. start ∷ text_start ∷ fs ++ (conclude r o.0 db).1) same
                ∙ ap (λ fs. start ∷ text_start ∷ (e.body ++ error_frame code ∷ []) ++ fs) over
                ∙ ap (λ fs. start ∷ text_start ∷ fs)
                    (append_assoc e.body (error_frame code ∷ []) (finished ∷ [])),
            inr (inl (code, refl, charged)),
          )
    ]

-- The texts of the deltas that the attempts send are, in order, the parts of the answer that is kept.
pub attempts-deltas :
    (r : Request) (max_retries : ℕ) (pump : ℕ → Attempt)
    → let o = attempts r pump (suc max_retries) 0 new_state in deltas o.1 ≡ o.0.assistant_text_parts
unfolding deltas
attempts-deltas r max_retries pump =
    let e = attempts-Emitted r pump (suc max_retries) 0 new_state new_state-IsRunning in
    elim e.ending [
      | inl (same, q) ↦ ap deltas same ∙ sym e.parts
      | inr (code, same, stopped) ↦
          ap deltas same
          ∙ deltas-append e.body (error_frame code ∷ [])
          ∙ append-nil (deltas e.body)
          ∙ sym e.parts
    ]
