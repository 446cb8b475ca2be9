-- ===== src/Auth/Gates.antt =====
-- The gates of core/src/api/deps.py that judge the CAS session: who the caller is, which routes a
-- session opens, and which rows it sees.
pub mod Scope
use recruiter_pilot.Auth.Audit.{record_audit}
use recruiter_pilot.Auth.Keys.{truthy}
use recruiter_pilot.Auth.Model.{
  Actor, Db, Result, Role, Session, Settings, User, err, forbidden, hiring_manager, ok, role_eq,
  role_value, unspecified,
}
use recruiter_pilot.Auth.Sessions.{get_active_session, refresh_if_needed}
use recruiter_pilot.Auth.Users.{get_by_id}
use recruiter_pilot.Base.{
  Bool, List, Option, String, any, false, if◌then◌else◌, is_some, list_eq, nat_eq, none, not,
  option_eq, some, string_eq, true, ℕ, ◌*◌, ◌==◌, ◌||◌,
}

-- `_DEV_ADMIN_SENTINEL_ID`, the all-zero UUID
abbrev pub dev_admin_sentinel_id : ℕ
dev_admin_sentinel_id = 0

unfoldable pub dev_admin : ℕ → User
dev_admin now = record {
  id = dev_admin_sentinel_id;
  cas_username = "dev-anonymous";
  display_name = some "Dev Anonymous (auth disabled)";
  email = none;
  role = some "admin";
  active = true;
  created_at = now;
  last_seen_at = now;
}

-- what follows once the cookie's session is known: the refresh may write
abbrev pub session_user : Settings → Db → Option Session → Option User × Db
session_user s db none = (none, db)
session_user s db (some session) =
    let (refreshed, db') =
      refresh_if_needed db session (s.session_ttl_hours * 3600)
        (s.session_idle_refresh_hours * 3600) in
    (get_by_id db' refreshed.user_id, db')

unfoldable pub resolve_user : Settings → Db → Option String → Option User × Db
resolve_user s db ra_session =
    if not s.cas_enabled then (some (dev_admin db.now), db) else elim ra_session [
      | none ↦ (none, db)
      | some cookie ↦
          if truthy cookie then session_user s db (get_active_session db cookie) else (none, db)
    ]

-- `user.role in allowed_roles`, a text among members of the `StrEnum`
unfoldable pub role_in : Option String → List Role → Bool
role_in none allowed = false
role_in (some role) allowed = any (λ r. role == role_value r) allowed

-- the `_check` of `require_session_role(*allowed)`
unfoldable pub require_session_role : List Role → Option User → Result (Unit {0})
require_session_role allowed none = err forbidden
require_session_role allowed (some user) =
    if not user.active
    then err forbidden
    else if not (role_in user.role allowed)
    then err forbidden
    else ok tt

unfoldable pub require_role_assigned : Option User → Result (Unit {0})
require_role_assigned none = err forbidden
require_role_assigned (some user) =
    if not (is_some user.role)
    then err forbidden
    else if not user.active
    then err forbidden
    else ok tt

abbrev pub unscoped_or_403 : Role → Result (Option ℕ)
unscoped_or_403 key_role = if key_role == hiring_manager then err forbidden else ok none

-- `ok none` is the unscoped caller, who sees every row
unfoldable pub scoped_user_id_or_403 : Option User → Role → Result (Option ℕ)
scoped_user_id_or_403 none key_role = unscoped_or_403 key_role
scoped_user_id_or_403 (some user) key_role =
    if user.role == some "hiring_manager"
    then (if not user.active then err forbidden else ok (some user.id))
    else unscoped_or_403 key_role

abbrev pub service_actor : String → Actor
service_actor name = record {
  actor_kind = "service";
  actor_user_id = none;
  actor_service = some name;
}

abbrev pub user_actor : ℕ → Actor
user_actor i = record { actor_kind = "user"; actor_user_id = some i; actor_service = none }

unfoldable pub actor_fields_from_user : Option User → Actor
actor_fields_from_user none = service_actor "api"
actor_fields_from_user (some user) =
    if user.id == dev_admin_sentinel_id then service_actor user.cas_username else user_actor user.id

unfoldable pub log_auditor_read : Db → Option User → String → String → ℕ → Option ℕ → Result Db
log_auditor_read db none action subject_type subject_id job_id = ok db
log_auditor_read db (some user) action subject_type subject_id job_id =
    if not (user.role == some "auditor") || user.id == dev_admin_sentinel_id
    then ok db
    else record_audit db (record {
      actor = user_actor user.id;
      action = action;
      subject_type = subject_type;
      subject_id = subject_id;
      job_id = job_id;
      details = unspecified;
    })
