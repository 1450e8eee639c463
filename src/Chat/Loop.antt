-- ===== src/Chat/Loop.antt =====
-- backend/app/routes/chat.py, the loops of the generator: what the attempts send and remember.
use rag_foundation.Common.{
  ℕ, zero, suc, ◌≡◌, refl, sym, subst, Bool, true, false, List, [], ◌∷◌, Option, none, some, ◌⊎◌,
  inl, inr, if◌then◌else◌, Bool-cases, append-nil,
}
use rag_foundation.Common.Str.{truthy, or_else}
use rag_foundation.Chat.Usage.{Request, estimated_cost_exceeds}
use rag_foundation.Chat.Stream.{
  stream_backpressure, upstream_unavailable, unexpected_error, Frame, text_delta, keepalive,
  StreamState, PumpEvent, disconnect, alive, chunk, PumpEnd, exhausted, backpressure, retryable,
  unexpected, Attempt, fail, keep_response, emit, count_tokens, stop_over_budget, consume,
  after_attempt, attempts, is_logged_failure, if_left,
}
use rag_foundation.Chat.Emitted.{
  deltas, IsQuiet, Emitted, Emitted-nothing, Emitted-disconnect, IsRunning, Emitted-append,
  Emitted-one, fail-Emitted, stop_over_budget-Emitted, count_tokens-IsRunning, emit-IsRunning,
  keep_response-IsRunning, keep_response-parts, Emitted-from,
}

if_left-some : {A : Type 0} → (n : ℕ) (a b : A) → if_left n a ≡ some b → a ≡ b
if_left-some zero a b e = cc
if_left-some (suc n) a b e = cc

-- What `consume` gives: the frames, and a state that still runs unless the loop was left.
abbrev Consumed : StreamState → StreamState × List Frame × Bool → Type 0
Consumed s c = Emitted s c.0 c.1 × (c.2 ≡ false → IsRunning c.0)

-- A frame of the text before what the rest of the pump gives.
Consumed-cons :
    (before mid : StreamState) (f : Frame) (c : StreamState × List Frame × Bool)
    → Emitted before mid (f ∷ [])
    → IsQuiet mid
    → Consumed mid c
    → Consumed before (c.0, f ∷ c.1, c.2)
Consumed-cons before mid f c first q rest =
    (Emitted-append before mid c.0 (f ∷ []) c.1 first q rest.0, rest.1)

Consumed-from :
    (a b : StreamState) (c : StreamState × List Frame × Bool)
    → a.assistant_text_parts ≡ b.assistant_text_parts
    → Consumed a c
    → Consumed b c
Consumed-from a b c same h = (Emitted-from a b c.0 c.1 same h.0, h.1)

module _ (r : Request) where
  consume-Consumed :
      (es : List PumpEvent) (s : StreamState) → IsRunning s → Consumed s (consume r es s)
  unfolding consume emit count_tokens stop_over_budget deltas
  consume-Consumed [] s q = (Emitted-nothing s q.quiet, λ _. q)
  consume-Consumed (disconnect ∷ es) s q = (Emitted-disconnect s q.quiet, λ left. cc)
  consume-Consumed (alive ∷ es) s q =
      Consumed-cons s s keepalive (consume r es s)
        (Emitted-one s s keepalive tt (sym (append-nil s.assistant_text_parts)) q.quiet) q.quiet
        (consume-Consumed es s q)
  consume-Consumed (chunk text resp ∷ es) s q =
      let counted = count_tokens text s in
      let sent = emit (or_else text []) counted in
      let running = count_tokens-IsRunning text s q in
      let emitted = emit-IsRunning (or_else text []) counted running in
      elim (Bool-cases (truthy text)) [
        | inr silent ↦
            rw (silent, consume)
              (Consumed-from (keep_response resp s) s (consume r es (keep_response resp s))
                (keep_response-parts resp s)
                (consume-Consumed es (keep_response resp s) (keep_response-IsRunning resp s q)))
        | inl spoken ↦ elim (Bool-cases (estimated_cost_exceeds r counted.completion_tokens_used)) [
          | inl over ↦
              rw (spoken, consume, over)
                (
                  Emitted-from counted s _ _ refl (stop_over_budget-Emitted counted running),
                  λ left. cc,
                )
          | inr within ↦
              rw (spoken, consume, within)
                (Consumed-cons s sent (text_delta (or_else text []))
                  (consume r es (keep_response resp sent))
                  (Emitted-one s sent (text_delta (or_else text [])) tt refl emitted.quiet)
                  emitted.quiet
                  (Consumed-from (keep_response resp sent) sent
                    (consume r es (keep_response resp sent)) (keep_response-parts resp sent)
                    (consume-Consumed es (keep_response resp sent)
                      (keep_response-IsRunning resp sent emitted))))
        ]
      ]

  -- What follows an attempt, if the next one does as it should.
  after_attempt-Emitted :
      (e : PumpEnd) (again : Option (StreamState × List Frame)) (s : StreamState)
      → IsRunning s
      → ((next : StreamState × List Frame) → again ≡ some next → Emitted s next.0 next.1)
      → let o = after_attempt e again s in Emitted s o.0 o.1
  unfolding after_attempt is_logged_failure
  after_attempt-Emitted exhausted again s q h = Emitted-nothing s q.quiet
  after_attempt-Emitted backpressure again s q h = fail-Emitted stream_backpressure s refl q.quiet
  after_attempt-Emitted unexpected again s q h = fail-Emitted unexpected_error s refl q.quiet
  after_attempt-Emitted retryable again s q h = suppressed (Bool-cases s.has_emitted_delta) again h
    where
      Fine : StreamState × List Frame → Type 0
      Fine o = Emitted s o.0 o.1

      retried :
          (again : Option (StreamState × List Frame))
          → ((next : StreamState × List Frame) → again ≡ some next → Fine next)
          → Fine (elim again [ none ↦ fail upstream_unavailable s | some next ↦ next ])
      retried none h = fail-Emitted upstream_unavailable s refl q.quiet
      retried (some next) h = h next refl

      suppressed :
          (s.has_emitted_delta ≡ true) ⊎ (s.has_emitted_delta ≡ false)
          → (again : Option (StreamState × List Frame))
          → ((next : StreamState × List Frame) → again ≡ some next → Fine next)
          → Fine (
              if s.has_emitted_delta
              then fail upstream_unavailable s
              else elim again [ none ↦ fail upstream_unavailable s | some next ↦ next ])
      suppressed (inl e) again h =
          subst
            (λ b. Fine (
              if b
              then fail upstream_unavailable s
              else elim again [ none ↦ fail upstream_unavailable s | some next ↦ next ]))
            (sym e) (fail-Emitted upstream_unavailable s refl q.quiet)
      suppressed (inr e) again h =
          subst
            (λ b. Fine (
              if b
              then fail upstream_unavailable s
              else elim again [ none ↦ fail upstream_unavailable s | some next ↦ next ]))
            (sym e) (retried again h)

  module _ (pump : ℕ → Attempt) where
    pub attempts-Emitted :
        (left i : ℕ) (s : StreamState)
        → IsRunning s
        → let o = attempts r pump left i s in Emitted s o.0 o.1
    unfolding attempts
    attempts-Emitted zero i s q = Emitted-nothing s q.quiet
    attempts-Emitted (suc left) i s q =
        let c = consume r (pump i).events s in
        let consumed = consume-Consumed (pump i).events s q in
        elim (Bool-cases (pump i).is_disconnected) [
          | inl away ↦ rw (away, attempts) (Emitted-disconnect s q.quiet)
          | inr here ↦ elim (Bool-cases c.2) [
            | inl stopped ↦ rw (here, attempts, stopped) consumed.0
            | inr on ↦
                let running = consumed.1 on in
                rw (here, attempts, on)
                  (Emitted-append s c.0 _ c.1 _ consumed.0 running.quiet (
                    after_attempt-Emitted (pump i).ended _ c.0 running (λ next e.
                      subst (λ (o : StreamState × List Frame). Emitted c.0 o.0 o.1)
                        (if_left-some left _ next e) (attempts-Emitted left (suc i) c.0 running))))
          ]
        ]
