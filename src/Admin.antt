-- ===== src/Admin.antt =====
-- backend/app/routes/admin.py: the routes of administrators for users, budgets, the audit log and the
-- counts; backend/app/services/audit.py. The metadata of an audit entry and the other log entries are
-- left out. Each route names the action that its rate limit counts; the limiter's verdict comes from
-- outside.
pub mod Roles
pub mod Budgets
mod Tests
use rag_foundation.Common.{
  ℕ, Bool, true, false, not, ◌&&◌, List, [], ◌∷◌, Option, none, some, String, ◌==◌, leb,
  if◌then◌else◌, map, take, keep, find, length,
}
use rag_foundation.Common.Decimal.{show, plus}
use rag_foundation.Common.Http.{HttpError, Outcome, raised, answered, http}
use rag_foundation.Common.Sort.{order_by}
use rag_foundation.Common.Str.{Str}
use rag_foundation.Costs.Budget.{user_budget}
use rag_foundation.Models.{User, Store, Budget, Database, get_user, is_none}
use rag_foundation.Auth.Guards.{load_user, require_admin}

pub record AuditEntry : Type 0 where
  pub admin_user_id : Option ℕ
  pub action : String
  pub target_type : Option String
  pub target_id : Option Str
  pub created_at : ℕ

-- The database, and the table of the audit log, whose newest row stands first.
pub record Site : Type 0 where
  pub db : Database
  pub audit : List AuditEntry

unfoldable pub record_admin_action :
    ℕ → Option ℕ → String → Option String → Option Str → Site → Site
record_admin_action now admin_user_id action target_type target_id s = record s {
  audit =
      record {
        admin_user_id = admin_user_id;
        action = action;
        target_type = target_type;
        target_id = target_id;
        created_at = now;
      }
      ∷ s.audit;
}

abbrev pub too_many : HttpError
too_many = http 429 "Rate limit exceeded"

-- The changed row of a user written back.
unfoldable pub put_user : User → List User → List User
put_user u [] = []
put_user u (v ∷ us) = if v.id == u.id then u ∷ us else v ∷ put_user u us

unfoldable pub with_role : Bool → Option Str → User → User
with_role is_admin notes u = record u { is_admin = is_admin; admin_notes = notes }

unfoldable pub change_role :
    ℕ → User → ℕ → Bool → Option Str → Site → Option User → Site × Outcome User
change_role now admin user_id is_admin notes s none = (s, raised (http 404 "User not found"))
change_role now admin user_id is_admin notes s (some target) =
    if admin.id == user_id && admin.is_admin && not is_admin
    then (s, raised (http 400 "Admins cannot remove their own admin access"))
    else let next = with_role is_admin notes target in
      (
        record_admin_action now (some admin.id) "set_user_role" (some "user") (some (show user_id))
            (record s { db = record s.db { users = put_user next s.db.users } }),
        answered next,
      )

unfoldable pub set_user_role : ℕ → Bool → User → ℕ → Bool → Option Str → Site → Site × Outcome User
set_user_role now within_rate admin user_id is_admin notes s =
    if within_rate
    then change_role now admin user_id is_admin notes s (get_user user_id s.db.users)
    else (s, raised too_many)

-- The dependencies: the row of the signed-in user, who must be active and an administrator.
unfoldable pub need_admin : Outcome User → Outcome User
need_admin (raised e) = raised e
need_admin (answered user) = require_admin user

unfoldable pub admin_user : Database → ℕ → Outcome User
admin_user db user_id = need_admin (load_user db (plus user_id))

-- The whole request of a signed-in user.
pub record RoleRequest : Type 0 where
  pub signed_in : ℕ
  pub now : ℕ
  pub within_rate : Bool
  pub user_id : ℕ
  pub is_admin : Bool
  pub admin_notes : Option Str

unfoldable pub serve_role : RoleRequest → Site → Outcome User → Site × Outcome User
serve_role r s (raised e) = (s, raised e)
serve_role r s (answered admin) =
    set_user_role r.now r.within_rate admin r.user_id r.is_admin r.admin_notes s

unfoldable pub role_request : RoleRequest → Site → Site × Outcome User
role_request r s = serve_role r s (admin_user s.db r.signed_in)

-- Any number of requests, one after another.
unfoldable pub role_requests : List RoleRequest → Site → Site
role_requests [] s = s
role_requests (r ∷ rs) s = role_requests rs (role_request r s).0

-- The row of the budget, changed or new.
unfoldable pub put_budget : ℕ → ℕ → List Budget → List Budget
put_budget user_id limit [] = record { user_id = user_id; monthly_limit_usd = limit } ∷ []
put_budget user_id limit (b ∷ bs) =
    if b.user_id == user_id
    then record b { monthly_limit_usd = limit } ∷ bs
    else b ∷ put_budget user_id limit bs

-- `stored` is the rounding of the column, Numeric(10, 2), which the database does; the answer is the limit
-- as it was sent.
unfoldable pub upsert_budget : (ℕ → ℕ) → ℕ → Bool → User → ℕ → ℕ → Site → Site × Outcome ℕ
upsert_budget stored now within_rate admin user_id limit s =
    if within_rate
    then (
      record_admin_action now (some admin.id) "set_budget" (some "user") (some (show user_id))
          (record s {
            db = record s.db { budgets = put_budget user_id (stored limit) s.db.budgets };
          }),
      answered limit,
    )
    else (s, raised too_many)

-- A row with its budget, for the list of users.
pub record AdminUserOut : Type 0 where
  pub user : User
  pub monthly_limit_usd : Option ℕ

unfoldable pub list_users : Bool → ℕ → Database → Outcome (List AdminUserOut)
list_users within_rate limit db =
    if within_rate
    then answered (
        map (λ u. record { user = u; monthly_limit_usd = user_budget db u.id })
          (take limit (order_by (λ (u : User) (v : User). leb v.id u.id) db.users)))
    else raised too_many

unfoldable pub list_audit_logs : Bool → ℕ → Site → Outcome (List AuditEntry)
list_audit_logs within_rate limit s =
    if within_rate
    then answered (
        take limit
          (order_by (λ (a : AuditEntry) (b : AuditEntry). leb b.created_at a.created_at) s.audit))
    else raised too_many

pub record AdminSystemSummary : Type 0 where
  pub users : ℕ
  pub stores : ℕ
  pub documents : ℕ

unfoldable pub system_summary : Bool → Database → Outcome AdminSystemSummary
system_summary within_rate db =
    if within_rate
    then answered (record {
      users = length db.users;
      stores = length db.stores;
      documents = length db.documents;
    })
    else raised too_many

pub record DeletionAuditEntry : Type 0 where
  pub store_id : ℕ
  pub deleted_at : Option ℕ
  pub deleted_by : Option Str

-- The mail address of the user who deleted the store, if the row of the user is there.
unfoldable pub deleter : Database → Option ℕ → Option Str
deleter db none = none
deleter db (some i) = elim (get_user i db.users) [ none ↦ none | some u ↦ some u.email ]

unfoldable pub get_deletion_audit : Bool → Database → Outcome (List DeletionAuditEntry)
get_deletion_audit within_rate db =
    if within_rate
    then answered (
        map
          (λ (s : Store). record {
            store_id = s.id;
            deleted_at = s.deleted_at;
            deleted_by = deleter db s.deleted_by;
          })
          (keep (λ (s : Store). not (is_none s.deleted_at)) db.stores))
    else raised too_many
