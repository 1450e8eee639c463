-- ===== src/RateLimit/Known.antt =====
-- backend/app/rate_limit.py, `InMemoryRateLimiter.check`: a deque against the
-- requests that were let through.
use rag_foundation.Common.{
  ℕ, ◌+◌, ◌-◌, ◌≤◌, ◌<◌, ◌≡◌, refl, sym, ap, ◌∙◌, String, List, [], ◌∷◌, ◌++◌, none, some, ltb, leb,
  length, keep, str_dec, arith, inl, inr, Bool-cases, All, All-append, All-map, length-append,
  append_assoc, append-nil,
}
use rag_foundation.Common.Dict.{lookup}
use rag_foundation.RateLimit.Memory.{InMemoryRateLimiter, expire}

-- The requests of a list that are at most a window old at time `t`.
abbrev pub live : ℕ → ℕ → List ℕ → List ℕ
live t window = keep (λ a. leb t (a + window))

live-append :
    (t window : ℕ) (xs ys : List ℕ)
    → live t window (xs ++ ys) ≡ live t window xs ++ live t window ys
live-append t window [] ys = refl
live-append t window (x ∷ xs) ys = ground (arith, live-append t window xs ys)

live-old : (t window : ℕ) (xs : List ℕ) → All (λ a. a + window < t) xs → live t window xs ≡ []
live-old t window [] h = refl
live-old t window (x ∷ xs) h = ground (arith, live-old t window xs h.1)

length-live-le : (t window : ℕ) (xs : List ℕ) → length (live t window xs) ≤ length xs
length-live-le t window [] = omega arith
length-live-le t window (x ∷ xs) = ground (arith, length-live-le t window xs)

-- `expire` cuts a prefix of requests that are older than the window.
expire-split :
    (now window : ℕ) (q : List ℕ)
    → (old : List ℕ) × (q ≡ old ++ expire now window q) × All (λ a. a + window < now) old
unfolding expire
expire-split now window [] = ([], refl, tt)
expire-split now window (t ∷ q) = elim (Bool-cases (ltb window (now - t))) [
  | inl p ↦
      let (old, e, h) = expire-split now window q in
      (t ∷ old, rw p (ap (◌∷◌ t) e), (ground arith, h))
  | inr p ↦ ([], rw p, tt)
]

expire-All {ℓ} :
    (P : ℕ → Type ℓ) (now window : ℕ) (q : List ℕ) → All P q → All P (expire now window q)
unfolding expire
expire-All P now window [] h = tt
expire-All P now window (t ∷ q) h = elim (Bool-cases (ltb window (now - t))) [
  | inl p ↦ rw p (expire-All P now window q h.1)
  | inr p ↦ rw p h
]

abbrev seen_at : String → InMemoryRateLimiter → ℕ
seen_at k s = elim (lookup str_dec k s.last_seen) [ none ↦ 0 | some t ↦ t ]

-- What the deque `q`, last written at time `at`, says at time `t` about the requests `h` that were
-- let through: it holds all but some that are older than the window.
pub record Known (limit window t : ℕ) (h q : List ℕ) (at : ℕ) : Type 0 where
  pub old : List ℕ
  pub split : h ≡ old ++ q
  pub expired : All (λ a. a + window < t) old
  pub within : length q ≤ limit
  pub seen : All (λ a. a ≤ at) q
  pub past : at ≤ t

module _ {limit window : ℕ} where
  -- Time passes: what is older than the window stays so.
  pub Known-later :
      {t now : ℕ} {h q : List ℕ} {at : ℕ}
      → t ≤ now
      → Known limit window t h q at
      → Known limit window now h q at
  Known-later {t} {now} le r = record {
    old = r.old;
    split = r.split;
    expired =
        All-map (λ a. a + window < t) (λ a. a + window < now) (λ a x. omega arith) r.old r.expired;
    within = r.within;
    seen = r.seen;
    past = omega (arith, r.past);
  }

  -- A deque that is all too old can be dropped.
  pub Known-drop :
      {t : ℕ} {h q : List ℕ} {at : ℕ}
      → at + window < t
      → Known limit window t h q at
      → Known limit window t h [] 0
  Known-drop {t} {h} {q} {at} idle r = record {
    old = h;
    split = rw append-nil;
    expired = rw r.split (
        All-append (λ a. a + window < t) r.old q r.expired
          (All-map (λ a. a ≤ at) (λ a. a + window < t) (λ a x. omega arith) q r.seen));
    within = omega arith;
    seen = tt;
    past = omega arith;
  }

  -- `expire` drops nothing that counts.
  pub Known-expire :
      {t : ℕ} {h : List ℕ} (q : List ℕ) {at : ℕ}
      → Known limit window t h q at
      → Known limit window t h (expire t window q) at
  Known-expire {t} {h} q {at} r =
      let (cut, e, too_old) = expire-split t window q in
      record {
        old = r.old ++ cut;
        split = r.split ∙ ap (◌++◌ r.old) e ∙ sym (append_assoc r.old cut (expire t window q));
        expired = All-append (λ a. a + window < t) r.old cut r.expired too_old;
        within = omega (arith, r.within, ap length e, length-append cut (expire t window q));
        seen = expire-All (λ a. a ≤ at) t window q r.seen;
        past = r.past;
      }

  -- A request let through at time `t` goes to the end of both.
  pub Known-admit :
      {t : ℕ} {h q : List ℕ} {at : ℕ}
      → length q < limit
      → Known limit window t h q at
      → Known limit window t (h ++ t ∷ []) (q ++ t ∷ []) t
  Known-admit {t} {h} {q} {at} room r = record {
    old = r.old;
    split = ap (λ x. x ++ t ∷ []) r.split ∙ append_assoc r.old q (t ∷ []);
    expired = r.expired;
    within = omega (arith, length-append q (t ∷ []));
    seen =
        All-append (λ a. a ≤ t) q (t ∷ [])
          (All-map (λ a. a ≤ at) (λ a. a ≤ t) (λ a x. omega (arith, r.past)) q r.seen)
          (omega arith, tt);
    past = omega arith;
  }

  -- So no more than `limit` of the requests are within the window.
  pub Known-live :
      {t : ℕ} {h q : List ℕ} {at : ℕ}
      → Known limit window t h q at
      → length (live t window h) ≤ limit
  Known-live {t} {h} {q} r =
      rw (r.split, live-append t window r.old q, live-old t window r.old r.expired)
        (omega (arith, length-live-le t window q, r.within))
