-- ===== src/Chat/Trials.antt =====
-- The budget check, the history and the sessions of chat requests at concrete inputs.
use rag_foundation.Common.{All, true, ℕ, ◌+◌, ◌≤◌, ◌<◌, ◌≡◌, refl, List, [], ◌∷◌, none, some}
use rag_foundation.Common.Str.{Str, codes, eq_str, is_space, lstrip, strip, lower, to_lower}
use rag_foundation.Common.Http.{raised, answered}
use rag_foundation.Models.{Database}
use rag_foundation.Costs.Budget.{spend_since, mtd_spend, find_budget, user_budget}
use rag_foundation.Chat.Requests.{budget_exhausted, check_prompt, check_budget, check_budget-room}
use rag_foundation.Chat.History.{
  Message, normalize_gemini_role, fit, trim_gemini_contents, chars, trim_gemini_contents-fits,
}
use rag_foundation.Chat.Sessions.{
  ChatSession, sanitize_session_id, trim_title, get_session, put_session, first_title,
  SessionRequest, touched, ensure_chat_session, ensure_all, OwnedBy, ensure_all-OwnedBy,
}
use rag_foundation.Chat.Filters.{
  Json, scalar, text, put_key, coerce_metadata_value, is_allowed_key, clean_filter,
  clean_filter-All,
}

program : Unit {0}
unfolding eq_str is_space lstrip strip lower to_lower spend_since mtd_spend find_budget user_budget
    check_prompt check_budget normalize_gemini_role fit trim_gemini_contents sanitize_session_id
    trim_title get_session put_session first_title touched ensure_chat_session ensure_all
program = tt

-- User 1 has spent 10 of 40 this month.
abbrev db : Database
db = record {
  users = [];
  stores = [];
  documents = [];
  query_logs =
      record {
        user_id = 1;
        store_id = none;
        prompt_tokens = none;
        completion_tokens = none;
        cost_usd = 10;
        model = some [];
        created_at = 150;
      }
      ∷ [];
  budgets = record { user_id = 1; monthly_limit_usd = 40 } ∷ [];
}

admitted : check_budget 100 5 25 1 db ≡ answered (some 25)
unfolding program
admitted = refl

refused :
    (check_budget 100 5 26 1 db ≡ raised budget_exhausted)
    × (check_budget 100 30 0 1 db ≡ raised budget_exhausted)
unfolding program
refused = (refl, refl)

limit_of : user_budget db 1 ≡ some 40
unfolding program
limit_of = refl

check_budget-room_example : (0 < 25) × (25 ≤ 25) × (25 + 5 + mtd_spend 100 db 1 ≡ 40)
check_budget-room_example = check_budget-room 100 5 25 1 40 25 db limit_of admitted

abbrev history : List Message
history =
    record { role = codes "user"; text = codes "Hello there" }
    ∷ record { role = codes "assistant"; text = codes "Hi" }
    ∷ []

-- The oldest message that is sent is cut to its end.
cut :
    trim_gemini_contents history 7
    ≡ record { role = codes "user"; text = codes "there" }
      ∷ record { role = codes "assistant"; text = codes "Hi" }
      ∷ []
unfolding program
cut = refl

trim_gemini_contents-fits_example :
    (chars (trim_gemini_contents history 7) ≤ 7)
    × (chars history ≤ 7 → 0 < 7 → trim_gemini_contents history 7 ≡ history)
trim_gemini_contents-fits_example = trim_gemini_contents-fits history 7

abbrev session : ChatSession
session = record { id = codes "s1"; user_id = 1; store_id = none; title = none; updated_at = 10 }

abbrev asks : ℕ → SessionRequest
asks user = record {
  now = 20;
  user_id = user;
  store_id = some 3;
  session_id = codes "s1";
  title = some (codes " Trip ");
}

-- Another user is refused; the owner's request sets the title and the store.
asked :
    ensure_all (asks 2 ∷ asks 1 ∷ []) (session ∷ [])
    ≡ record session { store_id = some 3; title = some (codes "Trip"); updated_at = 20 } ∷ []
unfolding program
asked = refl

owned : OwnedBy (codes "s1") 1 (session ∷ [])
unfolding program
owned = (session, refl, refl)

ensure_all-OwnedBy_example :
    OwnedBy (codes "s1") 1 (ensure_all (asks 2 ∷ asks 1 ∷ []) (session ∷ []))
ensure_all-OwnedBy_example =
    ensure_all-OwnedBy (asks 2 ∷ asks 1 ∷ []) (codes "s1") 1 (session ∷ []) owned

abbrev filter : List (Str × Json)
filter = (codes " lang ", scalar (text (codes "en"))) ∷ []

abbrev kept : List (Str × Json)
kept = (codes "lang", scalar (text (codes "en"))) ∷ []

filtered : clean_filter (codes "lang" ∷ []) filter [] ≡ answered kept
unfolding clean_filter coerce_metadata_value put_key eq_str is_space lstrip strip
filtered = refl

clean_filter-All_example : All (λ e. is_allowed_key (codes "lang" ∷ []) e.0 ≡ true) kept
clean_filter-All_example = clean_filter-All (codes "lang" ∷ []) filter [] kept tt filtered
