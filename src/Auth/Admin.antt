-- ===== src/Auth/Admin.antt =====
-- core/src/api/routes/users.py: the admin gate and the role assignment. What runs inside a
-- `transaction()` is a `Result`: an error carries no state, since the transaction is rolled back.
pub mod Counting
pub mod Survival
pub mod Trail
use recruiter_pilot.Auth.Audit.{record_audit}
use recruiter_pilot.Auth.Gates.{actor_fields_from_user}
use recruiter_pilot.Auth.Model.{
  AuditRow, Db, Result, Role, User, conflict, err, forbidden, not_found, ok, role_change, role_eq,
  role_value, ◌>>=◌, ◌>>◌,
}
use recruiter_pilot.Auth.Users.{count_active_admins, get_by_id, set_role}
use recruiter_pilot.Base.{
  Bool, Option, String, if◌then◌else◌, list_eq, nat_eq, none, not, option_eq, some, string_eq, ℕ,
  ◌&&◌, ◌==◌, ◌||◌,
}

unfoldable pub require_admin_session : Option User → Result User
require_admin_session none = err forbidden
require_admin_session (some user) =
    if not (user.role == some "admin") || not user.active then err forbidden else ok user

-- the target is the current `admin`, the new role is another, and one active admin is left
unfoldable pub locks_out : Db → User → Role → Bool
locks_out db target new_role =
    target.role == some "admin"
    && not (role_value new_role == "admin")
    && count_active_admins db == 1

unfoldable pub role_changed : User → ℕ → Option String → String → AuditRow
role_changed acting_admin user_id old_role new_role = record {
  actor = actor_fields_from_user (some acting_admin);
  action = "role_changed";
  subject_type = "user";
  subject_id = user_id;
  job_id = none;
  details = role_change old_role new_role;
}

unfoldable pub set_user_role : Db → User → ℕ → Role → Result (User × Db)
set_user_role db acting_admin user_id new_role = elim (get_by_id db user_id) [
  | none ↦ err not_found
  | some target ↦ if locks_out db target new_role then err conflict else do
    db' ←
        record_audit (set_role db user_id (role_value new_role))
          (role_changed acting_admin user_id target.role (role_value new_role))
    ok (record target { role = some (role_value new_role) }, db')
]

-- the route, its dependency included
unfoldable pub patch_user_role : Db → Option User → ℕ → Role → Result (User × Db)
patch_user_role db user user_id new_role = do
  acting_admin ← require_admin_session user
  set_user_role db acting_admin user_id new_role
