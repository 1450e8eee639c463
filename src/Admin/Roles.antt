-- ===== src/Admin/Roles.antt =====
-- backend/app/routes/admin.py, `set_user_role`: administrators cannot be lost.
use rag_foundation.Common.{
  ℕ, ◌≡◌, ◌≢◌, refl, sym, ap, ◌∙◌, Bool, true, false, not, ◌&&◌, List, [], ◌∷◌, Option, none, some,
  ◌==◌, arith, subst, if-both, ℕ_discrete,
}
use rag_foundation.Common.Decimal.{plus}
use rag_foundation.Common.Http.{Outcome, raised, answered, http, if-answered}
use rag_foundation.Common.Str.{Str}
use rag_foundation.Models.{User, Database, get_user}
use rag_foundation.Models.Rows.{get_user-id}
use rag_foundation.Auth.Guards.{load_user, require_admin}
use rag_foundation.Auth.Valid.{load_user-row}
use rag_foundation.Admin.{
  Site, RoleRequest, put_user, with_role, change_role, set_user_role, record_admin_action,
  need_admin, admin_user, serve_role, role_request, role_requests,
}

-- An active administrator.
pub record IsAdmin (db : Database) (u : User) : Type 0 where
  pub row : get_user u.id db.users ≡ some u
  pub active : u.is_active ≡ true
  pub admin : u.is_admin ≡ true

abbrev pub HasAdmin : Database → Type 0
HasAdmin db = (u : User) × IsAdmin db u

get_user-put :
    (i : ℕ) (u v : User) (us : List User)
    → get_user i us ≡ some v
    → u.id ≡ i
    → get_user i (put_user u us) ≡ some u
unfolding get_user put_user
get_user-put i u v [] h e = cc
get_user-put i u v (x ∷ us) h e = ground (arith, get_user-put i u v us)

get_user-put_ne :
    (i : ℕ) (u : User) (us : List User) → i ≢ u.id → get_user i (put_user u us) ≡ get_user i us
unfolding get_user put_user
get_user-put_ne i u [] ne = refl
get_user-put_ne i u (x ∷ us) ne = ground (arith, get_user-put_ne i u us)

need_admin-admin :
    (o : Outcome User) (u : User)
    → need_admin o ≡ answered u
    → (o ≡ answered u) × (u.is_admin ≡ true)
unfolding need_admin require_admin
need_admin-admin (raised e) u h = absurd cc
need_admin-admin (answered v) u h =
    let (same, admin) = if-answered v.is_admin v u (http 403 "Admin access required") h in
    (ap answered same, subst (λ (x : User). x.is_admin ≡ true) same admin)

-- Who passes the dependencies is an active administrator, with that id.
admin_user-IsAdmin :
    (db : Database) (i : ℕ) (u : User) → admin_user db i ≡ answered u → IsAdmin db u
unfolding admin_user
admin_user-IsAdmin db i u h =
    let (loaded, admin) = need_admin-admin (load_user db (plus i)) u h in
    let (same, row, active) = load_user-row db (plus i) u loaded in
    record { row = row; active = active; admin = admin }

-- The change keeps the administrator who makes it.
change_role-HasAdmin :
    (now : ℕ) (admin : User) (user_id : ℕ) (is_admin : Bool) (notes : Option Str) (s : Site)
    → IsAdmin s.db admin
    → (o : Option User) → get_user user_id s.db.users ≡ o
    → HasAdmin (change_role now admin user_id is_admin notes s o).0.db
unfolding change_role record_admin_action with_role
change_role-HasAdmin now admin user_id is_admin notes s a none h = (admin, a)
change_role-HasAdmin now admin user_id is_admin notes s a (some target) h =
    if-both (λ (x : Site × Outcome User). HasAdmin x.0.db)
      (admin.id == user_id && admin.is_admin && not is_admin) _ _ (λ _. (admin, a))
      (λ fine. kept (ℕ_discrete admin.id user_id) fine)
  where
    next : User
    next = with_role is_admin notes target

    id : target.id ≡ user_id
    id = get_user-id user_id s.db.users target h

    kept :
        Dec (admin.id ≡ user_id)
        → (admin.id == user_id && admin.is_admin && not is_admin) ≡ false
        → HasAdmin (record s.db { users = put_user next s.db.users })
    kept (yes same) fine =
        let self : target ≡ admin =
          cc (sym h ∙ ap (λ j. get_user j s.db.users) (sym same) ∙ a.row) in
        (
          next,
          record {
            row =
                ap (λ j. get_user j (put_user next s.db.users)) id
                ∙ get_user-put user_id next target s.db.users h id;
            active = subst (λ (x : User). x.is_active ≡ true) (sym self) a.active;
            admin = ground (arith, a.admin);
          },
        )
    kept (no other) fine = (
      admin,
      record {
        row = get_user-put_ne admin.id next s.db.users (λ e. other (e ∙ id)) ∙ a.row;
        active = a.active;
        admin = a.admin;
      },
    )

role_request-HasAdmin :
    (r : RoleRequest) (s : Site) → HasAdmin s.db → HasAdmin (role_request r s).0.db
unfolding role_request serve_role set_user_role
role_request-HasAdmin r s h = served (admin_user s.db r.signed_in) refl
  where
    served : (o : Outcome User) → admin_user s.db r.signed_in ≡ o → HasAdmin (serve_role r s o).0.db
    served (raised e) f = h
    served (answered admin) f =
        let a = admin_user-IsAdmin s.db r.signed_in admin f in
        if-both (λ (x : Site × Outcome User). HasAdmin x.0.db) r.within_rate _ _
          (λ _.
            change_role-HasAdmin r.now admin r.user_id r.is_admin r.admin_notes s a
              (get_user r.user_id s.db.users) refl)
          (λ _. h)

-- Whoever asks for whatever changes of roles, in any number and order: where there is an active
-- administrator before, there is one after.
pub role_requests-HasAdmin :
    (rs : List RoleRequest) (s : Site) → HasAdmin s.db → HasAdmin (role_requests rs s).db
unfolding role_requests
role_requests-HasAdmin [] s h = h
role_requests-HasAdmin (r ∷ rs) s h =
    role_requests-HasAdmin rs (role_request r s).0 (role_request-HasAdmin r s h)
