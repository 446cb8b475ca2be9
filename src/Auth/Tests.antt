-- ===== src/Auth/Tests.antt =====
-- Runs of the auth code on a small table: an administrator, a recruiter and a hiring manager, one
-- live session each for the first two.
use recruiter_pilot.Auth.Admin.{
  locks_out, patch_user_role, require_admin_session, role_changed, set_user_role,
}
use recruiter_pilot.Auth.Admin.Survival.{IsGoverned, Reach-IsGoverned, Step, here, next}
use recruiter_pilot.Auth.Admin.Trail.{Patched, patch_user_role-Patched}
use recruiter_pilot.Auth.Assignees.{
  assign, assigner, assignment_row, create_assignee, delete_assignee, require_real_assigner,
  unassign, upsert,
}
use recruiter_pilot.Auth.Assignees.Trail.{Recorded, create_assignee-Recorded}
use recruiter_pilot.Auth.Audit.{actor_exists, actor_identity, record_audit}
use recruiter_pilot.Auth.Closed.{require_session_role_exact, revoke_session-closes}
use recruiter_pilot.Auth.Gates.{
  actor_fields_from_user, require_role_assigned, require_session_role, resolve_user, role_in,
  scoped_user_id_or_403, user_actor,
}
use recruiter_pilot.Auth.Keys.{
  auth_enabled, check_collisions, configured_role_keys, match_keys, require_role, resolve_role,
  validate_startup_auth_config,
}
use recruiter_pilot.Auth.Keys.Exact.{key_of, resolve_role_exact}
use recruiter_pilot.Auth.Model.{
  AuditRow, Db, Role, Session, Settings, User, admin, assignee, err, forbidden, hiring_manager, ok,
  recruiter, role_eq, role_value, unauthorized, unspecified,
}
use recruiter_pilot.Auth.Sessions.{
  create_session, get_active_session, has_user, is_live, refresh_if_needed, revoke_session,
}
use recruiter_pilot.Auth.Users.{count_active_admins, get_by_id, provision_or_get, set_role}
use recruiter_pilot.Auth.Users.Login.{first_login-closed}
use recruiter_pilot.Base.{
  Bool, Option, String, [], arith, contains, false, list_eq, nat_eq, none, option_eq, refl, some,
  string_eq, true, ℕ, ◌++◌, ◌↔◌, ◌∷◌, ◌≡◌, ◌≢◌, ◌⊎◌,
}
use recruiter_pilot.Base.Dict.{insert, lookup}

abbrev settings : Settings
settings = record {
  api_key = "";
  api_key_admin = "k-admin";
  api_key_recruiter = "k-recruiter";
  api_key_hiring_manager = "";
  api_key_auditor = "k-auditor";
  cas_enabled = true;
  session_ttl_hours = 8;
  session_idle_refresh_hours = 1;
  default_admin_cas_username = "root";
}

abbrev account : ℕ → String → Option String → Bool → User
account id name role active = record {
  id = id;
  cas_username = name;
  display_name = none;
  email = none;
  role = role;
  active = active;
  created_at = 0;
  last_seen_at = 0;
}

abbrev root : User
root = account 1 "root" (some "admin") true

abbrev rita : User
rita = account 2 "rita" (some "recruiter") true

abbrev henry : User
henry = account 3 "henry" (some "hiring_manager") false

abbrev cookie : String → ℕ → Session
cookie id user_id = record {
  id = id;
  user_id = user_id;
  expires_at = 9000;
  revoked_at = none;
  user_agent = none;
  ip_addr = none;
  created_at = 0;
}

abbrev db : Db
db = record {
  users = root ∷ rita ∷ henry ∷ [];
  sessions = cookie "c1" 1 ∷ cookie "c2" 2 ∷ [];
  job_assignees = record { job_id = 7; user_id = 3; assigned_by = 1; assigned_at = 5 } ∷ [];
  audit_log = [];
  now = 100;
}

settings_valid : validate_startup_auth_config settings ≡ ok tt
unfolding validate_startup_auth_config auth_enabled check_collisions lookup insert
settings_valid = refl

settings_on : auth_enabled settings ≡ true
unfolding auth_enabled
settings_on = refl

resolve_role_exact_example :
    ((r : Role)
      → (resolve_role settings (some "k-recruiter") ≡ ok r)
        ↔ ((key_of settings r ≢ "") × (some "k-recruiter" ≡ some (key_of settings r))))
    × ((resolve_role settings (some "k-recruiter") ≡ err unauthorized)
        ⊎ ((r : Role) × (resolve_role settings (some "k-recruiter") ≡ ok r)))
resolve_role_exact_example =
    resolve_role_exact settings (some "k-recruiter") settings_valid settings_on

abbrev opened : Session
opened = record (cookie "c3" 2) { expires_at = 400; created_at = 100 }

created :
    create_session db "c3" 2 300 none none
    ≡ ok (opened, record db { sessions = db.sessions ++ opened ∷ [] })
unfolding create_session has_user
created = refl

live : get_active_session db "c1" ≡ some (cookie "c1" 1)
unfolding get_active_session is_live
live = refl

abbrev nina : User
nina = record (account 9 "nina" none true) { created_at = 100; last_seen_at = 100 }

first_login :
    provision_or_get db 9 "nina" none none "root"
    ≡ ok (nina, record db { users = db.users ++ nina ∷ [] })
unfolding provision_or_get
first_login = refl

first_login-closed_example :
    (require_role_assigned (some nina) ≡ err forbidden)
    × (require_session_role (recruiter ∷ []) (some nina) ≡ err forbidden)
    × (require_admin_session (some nina) ≡ err forbidden)
first_login-closed_example =
    first_login-closed db (record db { users = db.users ++ nina ∷ [] }) 9 "nina" none none "root"
      nina (recruiter ∷ []) refl refl first_login

found_henry : get_by_id db 3 ≡ some henry
unfolding get_by_id
found_henry = refl

found_rita : get_by_id db 2 ≡ some rita
unfolding get_by_id
found_rita = refl

resolved : (resolve_user settings db (some "c1")).0 ≡ some root
unfolding resolve_user get_active_session is_live refresh_if_needed get_by_id
resolved = refl

revoke_session-closes_example :
    let after = revoke_session db "c1" in
    let user = (resolve_user settings after (some "c1")).0 in
    (require_session_role (admin ∷ []) user ≡ err forbidden)
    × (require_role_assigned user ≡ err forbidden)
    × (require_admin_session user ≡ err forbidden)
    × (scoped_user_id_or_403 user hiring_manager ≡ err forbidden)
revoke_session-closes_example = revoke_session-closes settings db "c1" (admin ∷ []) refl

require_session_role_exact_example : (require_session_role (recruiter ∷ []) (some rita) ≡ ok tt) ↔ (
    (u : User) × (some rita ≡ some u)
    × (u.active ≡ true)
    × ((r : Role) × (u.role ≡ some (role_value r)) × (contains (recruiter ∷ []) r ≡ true)))
require_session_role_exact_example = require_session_role_exact (recruiter ∷ []) (some rita)

abbrev page_read : AuditRow
page_read = record {
  actor = user_actor 1;
  action = "page_read";
  subject_type = "job";
  subject_id = 7;
  job_id = some 7;
  details = unspecified;
}

page_read_actor : page_read.actor ≡ actor_fields_from_user (resolve_user settings db (some "c1")).0
unfolding actor_fields_from_user resolve_user get_active_session is_live refresh_if_needed get_by_id
page_read_actor = refl

abbrev promoted : Db
promoted = record db {
  users = root ∷ record rita { role = some "admin" } ∷ henry ∷ [];
  audit_log = role_changed root 2 (some "recruiter") "admin" ∷ [];
}

patched :
    patch_user_role db (some root) 2 admin ≡ ok (record rita { role = some "admin" }, promoted)
unfolding patch_user_role set_user_role require_admin_session get_by_id locks_out record_audit
    set_role actor_exists actor_identity role_changed actor_fields_from_user count_active_admins
    has_user
patched = refl

patch_user_role-Patched_example :
    Patched db promoted (some root) 2 admin (record rita { role = some "admin" })
patch_user_role-Patched_example =
    patch_user_role-Patched db promoted (some root) 2 admin (record rita { role = some "admin" })
      patched

Reach-IsGoverned_example : IsGoverned promoted
Reach-IsGoverned_example =
    Reach-IsGoverned (next here (Step.patched (some root) 2 admin _ patched))
      (record { unique = (refl, (refl, (refl, tt))); governed = omega arith })

abbrev assigned_db : Db
assigned_db = record db {
  job_assignees =
      record { job_id = 7; user_id = 3; assigned_by = 1; assigned_at = 5 }
      ∷ record { job_id = 8; user_id = 3; assigned_by = 2; assigned_at = 100 }
      ∷ [];
}

was_assigned : assign (λ j. true) db 8 3 2 ≡ ok assigned_db
unfolding assign upsert has_user
was_assigned = refl

abbrev job : ℕ
job = 7

abbrev created_db : Db
created_db = record assigned_db {
  audit_log = assignment_row rita "assign_job" 8 (assignee 3 (some "lead")) ∷ [];
}

was_created :
    create_assignee (λ j. true) settings (some "k-recruiter") (some rita) db 8 3 (some "lead")
    ≡ ok created_db
unfolding create_assignee assigner resolve_role match_keys configured_role_keys auth_enabled
    require_role require_session_role role_in require_real_assigner assign upsert has_user
    record_audit actor_exists actor_identity assignment_row
was_created = refl

create_assignee-Recorded_example :
    Recorded (some rita) db created_db "assign_job" 8 (assignee 3 (some "lead"))
create_assignee-Recorded_example =
    create_assignee-Recorded (λ j. true) settings (some "k-recruiter") (some rita) db created_db 8 3
      (some "lead") was_created

abbrev removed_db : Db
removed_db = record db {
  job_assignees = [];
  audit_log = assignment_row rita "unassign_job" 7 (assignee 3 none) ∷ [];
}

was_removed : delete_assignee settings (some "k-recruiter") (some rita) db 7 3 ≡ ok removed_db
unfolding delete_assignee assigner resolve_role match_keys configured_role_keys auth_enabled
    require_role require_session_role role_in require_real_assigner unassign has_user record_audit
    actor_exists actor_identity assignment_row
was_removed = refl
