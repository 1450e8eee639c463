-- ===== src/Admin/Tests.antt =====
-- Administration at concrete inputs: two administrators and a user.
use rag_foundation.Common.{
  ℕ, ◌+◌, ◌/◌, ◌*◌, ◌≡◌, ◌≢◌, refl, Bool, true, false, List, [], ◌∷◌, none, some, ltb, map,
}
use rag_foundation.Common.Decimal.{digits_before, show}
use rag_foundation.Common.Http.{answered}
use rag_foundation.Common.Str.{codes}
use rag_foundation.Costs.Budget.{
  spend_since, mtd_spend, find_budget, user_budget, would_exceed_budget,
}
use rag_foundation.Models.{User, get_user}
use rag_foundation.Auth.Guards.{active_user, load_user, require_admin}
use rag_foundation.Admin.{
  Site, RoleRequest, record_admin_action, put_user, with_role, change_role, set_user_role,
  need_admin, admin_user, serve_role, role_request, role_requests, put_budget, upsert_budget,
}
use rag_foundation.Admin.Budgets.{upsert_budget-check}
use rag_foundation.Admin.Roles.{HasAdmin, role_requests-HasAdmin}

program : Unit {0}
unfolding digits_before show spend_since mtd_spend find_budget user_budget would_exceed_budget
    get_user active_user load_user require_admin record_admin_action put_user with_role change_role
    set_user_role need_admin admin_user serve_role role_request role_requests put_budget
    upsert_budget
program = tt

abbrev person : ℕ → Bool → User
person i is_admin = record {
  id = i;
  email = codes "p@x.org";
  hashed_password = codes "h";
  is_active = true;
  email_verified = false;
  is_admin = is_admin;
  admin_notes = none;
}

abbrev site : Site
site = record {
  db = record {
    users = person 1 true ∷ person 2 true ∷ person 3 false ∷ [];
    stores = [];
    documents = [];
    query_logs = [];
    budgets = [];
  };
  audit = [];
}

abbrev demote : ℕ → ℕ → RoleRequest
demote who whom = record {
  signed_in = who;
  now = 5;
  within_rate = true;
  user_id = whom;
  is_admin = false;
  admin_notes = none;
}

abbrev admins : Site → List Bool
admins s = map (λ (u : User). u.is_admin) s.db.users

-- The first takes the role from the second, who can no longer take it from the first; nor can the first
-- from themselves, nor the third from anyone.
demotions :
    admins (role_requests (demote 1 2 ∷ demote 2 1 ∷ demote 1 1 ∷ demote 3 1 ∷ []) site)
    ≡ true ∷ false ∷ false ∷ []
unfolding program
demotions = refl

site_admin : HasAdmin site.db
unfolding program
site_admin = (person 1 true, record { row = refl; active = refl; admin = refl })

role_requests-HasAdmin_example : HasAdmin (role_requests (demote 1 2 ∷ demote 2 1 ∷ []) site).db
role_requests-HasAdmin_example =
    role_requests-HasAdmin (demote 1 2 ∷ demote 2 1 ∷ []) site site_admin

abbrev budgeted : Site
budgeted = record {
  db = record site.db { budgets = record { user_id = 3; monthly_limit_usd = 20_000 } ∷ [] };
  audit =
      record {
        admin_user_id = some 1;
        action = "set_budget";
        target_type = some "user";
        target_id = some (codes "3");
        created_at = 5;
      }
      ∷ [];
}

-- Half a cent more is rounded up to a cent.
abbrev to_cents : ℕ → ℕ
to_cents n = (n + 5_000) / 10_000 * 10_000

sets_budget :
    upsert_budget to_cents 5 true (person 1 true) 3 15_000 site ≡ (budgeted, answered 15_000)
unfolding program
sets_budget = refl

upsert_budget-check_example :
    ((cost : ℕ)
      → would_exceed_budget 0 budgeted.db 3 cost ≡ ltb 20_000 (mtd_spend 0 site.db 3 + cost))
    × ((j cost : ℕ)
        → j ≢ 3
        → would_exceed_budget 0 budgeted.db j cost ≡ would_exceed_budget 0 site.db j cost)
    × ((j : ℕ) → mtd_spend 0 budgeted.db j ≡ mtd_spend 0 site.db j)
upsert_budget-check_example =
    upsert_budget-check to_cents 5 true (person 1 true) 3 15_000 15_000 0 site budgeted sets_budget
