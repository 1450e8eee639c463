-- ===== src/Chat/Sessions.antt =====
-- backend/app/routes/chat.py: chat sessions, their owners and titles. Ids that are drawn at random are
-- arguments.
use rag_foundation.Common.{
  ℕ, ◌≡◌, refl, sym, ap, ◌∙◌, true, false, not, List, [], ◌∷◌, ◌++◌, Option, none, some, ◌==◌, leb,
  if◌then◌else◌, length, take, arith, inl, inr, Bool-cases, Option-cases, subst,
}
use rag_foundation.Common.Str.{Str, eq_str, eq_str→eq, strip, truthy, or_else, is_empty}
use rag_foundation.Common.Http.{Outcome, raised, answered, http, Outcome-cases}

pub record ChatSession : Type 0 where
  pub id : Str
  pub user_id : ℕ
  pub store_id : Option ℕ
  pub title : Option Str
  pub updated_at : ℕ

-- `_sanitize_session_id` of a text or nothing; `fresh` is the id drawn where there is none.
unfoldable pub sanitize_session_id : Str → Option Str → Str
sanitize_session_id fresh raw =
    if not (truthy raw)
    then fresh
    else let clean = strip (or_else raw []) in take 64 (if is_empty clean then fresh else clean)

-- 8230 is the ellipsis.
unfoldable pub trim_title : Option Str → Option Str
trim_title title =
    if not (truthy title)
    then none
    else let clean = strip (or_else title []) in
      if leb (length clean) 50 then some clean else some (take 50 clean ++ 8230 ∷ [])

-- `db.get(ChatSession, session_id)`
unfoldable pub get_session : Str → List ChatSession → Option ChatSession
get_session i [] = none
get_session i (s ∷ ss) = if eq_str s.id i then some s else get_session i ss

-- The changed row of a session written back.
unfoldable pub put_session : ChatSession → List ChatSession → List ChatSession
put_session s [] = []
put_session s (t ∷ ss) = if eq_str t.id s.id then s ∷ ss else t ∷ put_session s ss

-- `existing.title is None and title`
unfoldable pub first_title : Option Str → Option Str → Option Str
first_title (some old) title = some old
first_title none title = if truthy title then trim_title title else none

abbrev pub first_store : Option ℕ → Option ℕ → Option ℕ
first_store (some old) store = some old
first_store none store = store

pub record SessionRequest : Type 0 where
  pub now : ℕ
  pub user_id : ℕ
  pub store_id : Option ℕ
  pub session_id : Str
  pub title : Option Str

-- The row of a session that the request's user owns already.
unfoldable pub touched : SessionRequest → ChatSession → ChatSession
touched r s = record s {
  updated_at = r.now;
  title = first_title s.title r.title;
  store_id = first_store s.store_id r.store_id;
}

abbrev pub new_session : SessionRequest → ChatSession
new_session r = record {
  id = r.session_id;
  user_id = r.user_id;
  store_id = r.store_id;
  title = trim_title r.title;
  updated_at = r.now;
}

unfoldable pub ensure_chat_session : SessionRequest → List ChatSession → Outcome (List ChatSession)
ensure_chat_session r sessions = elim (get_session r.session_id sessions) [
  | some s ↦
      if not (s.user_id == r.user_id)
      then raised (http 404 "Session not found")
      else answered (put_session (touched r s) sessions)
  | none ↦ answered (sessions ++ new_session r ∷ [])
]

-- A history of requests; one that is refused changes nothing.
unfoldable pub ensure_all : List SessionRequest → List ChatSession → List ChatSession
ensure_all [] sessions = sessions
ensure_all (r ∷ rs) sessions = elim (ensure_chat_session r sessions) [
  | raised e ↦ ensure_all rs sessions
  | answered next ↦ ensure_all rs next
]

-- The row of the id is there, and of the user.
abbrev pub OwnedBy : Str → ℕ → List ChatSession → Type 0
OwnedBy i user ss = (s : ChatSession) × (get_session i ss ≡ some s) × (s.user_id ≡ user)

append-OwnedBy :
    (i : Str) (user : ℕ) (ss : List ChatSession) (t : ChatSession)
    → OwnedBy i user ss
    → OwnedBy i user (ss ++ t ∷ [])
unfolding get_session
append-OwnedBy i user [] t (s, e, o) = absurd (ground arith)
append-OwnedBy i user (x ∷ ss) t (s, e, o) = elim (Bool-cases (eq_str x.id i)) [
  | inl hit ↦ (s, ground arith, o)
  | inr miss ↦
      let (s', e', o') = append-OwnedBy i user ss t (s, ground arith, o) in (s', ground arith, o')
]

put_session-OwnedBy :
    (i : Str) (user : ℕ) (ss : List ChatSession) (old new : ChatSession)
    → get_session new.id ss ≡ some old
    → new.user_id ≡ old.user_id
    → OwnedBy i user ss
    → OwnedBy i user (put_session new ss)
unfolding get_session put_session
put_session-OwnedBy i user [] old new row same (s, e, o) = absurd (ground arith)
put_session-OwnedBy i user (x ∷ ss) old new row same (s, e, o) =
    elim (Bool-cases (eq_str x.id new.id)) [
      | inl here ↦ elim (Bool-cases (eq_str x.id i)) [
        | inl hit ↦
            let same_id = eq_str→eq x.id new.id here in
            let was : x ≡ s = ground arith in
            let and_is : x ≡ old = ground arith in
            let named : eq_str new.id i ≡ true = ap (λ n. eq_str n i) (sym same_id) ∙ hit in
            (new, ground arith, same ∙ ap (λ (y : ChatSession). y.user_id) (sym and_is ∙ was) ∙ o)
        | inr miss ↦
            let same_id = eq_str→eq x.id new.id here in
            let other : eq_str new.id i ≡ false = ap (λ n. eq_str n i) (sym same_id) ∙ miss in
            (s, ground arith, o)
      ]
      | inr later ↦ elim (Bool-cases (eq_str x.id i)) [
        | inl hit ↦ (s, ground arith, o)
        | inr miss ↦
            let (s', e', o') =
              put_session-OwnedBy i user ss old new (ground arith) same (s, ground arith, o) in
            (s', ground arith, o')
      ]
    ]

touched-id : (r : SessionRequest) (s : ChatSession) → (touched r s).id ≡ s.id
unfolding touched
touched-id r s = refl

touched-user_id : (r : SessionRequest) (s : ChatSession) → (touched r s).user_id ≡ s.user_id
unfolding touched
touched-user_id r s = refl

get_session-id :
    (i : Str) (ss : List ChatSession) (s : ChatSession) → get_session i ss ≡ some s → s.id ≡ i
unfolding get_session
get_session-id i [] s h = cc
get_session-id i (x ∷ ss) s h = elim (Bool-cases (eq_str x.id i)) [
  | inl hit ↦
      let was : x ≡ s = ground arith in
      ap (λ (y : ChatSession). y.id) (sym was) ∙ eq_str→eq x.id i hit
  | inr miss ↦ get_session-id i ss s (ground arith)
]

ensure-OwnedBy :
    (r : SessionRequest) (i : Str) (user : ℕ) (ss next : List ChatSession)
    → OwnedBy i user ss
    → ensure_chat_session r ss ≡ answered next
    → OwnedBy i user next
unfolding ensure_chat_session
ensure-OwnedBy r i user ss next owned h = elim (Option-cases (get_session r.session_id ss)) [
  | inl e ↦
      let same : ss ++ new_session r ∷ [] ≡ next = ground (arith, e) in
      subst (OwnedBy i user) same (append-OwnedBy i user ss (new_session r) owned)
  | inr (s, e) ↦ elim (Bool-cases (s.user_id == r.user_id)) [
    | inl mine ↦
        let row : get_session (touched r s).id ss ≡ some s =
          ap (λ n. get_session n ss) (touched-id r s ∙ get_session-id r.session_id ss s e) ∙ e in
        let same : put_session (touched r s) ss ≡ next = ground (arith, e) in
        subst (OwnedBy i user) same
          (put_session-OwnedBy i user ss s (touched r s) row (touched-user_id r s) owned)
    | inr other ↦ absurd (ground (arith, e))
  ]
]

-- A session that a user owns stays that user's in every history of requests, whoever makes them.
pub ensure_all-OwnedBy :
    (rs : List SessionRequest) (i : Str) (user : ℕ) (ss : List ChatSession)
    → OwnedBy i user ss
    → OwnedBy i user (ensure_all rs ss)
unfolding ensure_all
ensure_all-OwnedBy [] i user ss owned = owned
ensure_all-OwnedBy (r ∷ rs) i user ss owned = elim (Outcome-cases (ensure_chat_session r ss)) [
  | inl (e, bad) ↦ rw (bad, ensure_all) (ensure_all-OwnedBy rs i user ss owned)
  | inr (next, good) ↦
      rw (good, ensure_all)
        (ensure_all-OwnedBy rs i user next (ensure-OwnedBy r i user ss next owned good))
]
