-- ===== src/Auth/Assignees.antt =====
-- core/src/services/job_assignee_service.py and core/src/api/routes/job_assignees.py. Which jobs
-- exist (`jobs.id`, the target of a foreign key) is an argument.
pub mod Pairs
pub mod Trail
use recruiter_pilot.Auth.Audit.{record_audit}
use recruiter_pilot.Auth.Gates.{dev_admin_sentinel_id, require_session_role, user_actor}
use recruiter_pilot.Auth.Keys.{require_role, resolve_role}
use recruiter_pilot.Auth.Model.{
  Assignment, AuditRow, Db, Details, Result, Role, Settings, User, admin, assignee, err, forbidden,
  integrity, not_found, ok, recruiter, role_eq, ◌>>=◌, ◌>>◌,
}
use recruiter_pilot.Auth.Sessions.{has_user}
use recruiter_pilot.Base.{
  Bool, List, Option, String, [], any, filter, if◌then◌else◌, leb, list_eq, map, nat_eq, none, not,
  option_eq, some, string_eq, ℕ, ◌&&◌, ◌==◌, ◌∷◌,
}

abbrev pub is_pair : ℕ → ℕ → Assignment → Bool
is_pair job_id user_id a = a.job_id == job_id && a.user_id == user_id

-- `ON CONFLICT (job_id, user_id) DO UPDATE`, else the new row
unfoldable pub upsert : Assignment → List Assignment → List Assignment
upsert row [] = row ∷ []
upsert row (a ∷ rest) =
    if is_pair row.job_id row.user_id a
    then record a { assigned_at = row.assigned_at; assigned_by = row.assigned_by } ∷ rest
    else a ∷ upsert row rest

unfoldable pub assign : (ℕ → Bool) → Db → ℕ → ℕ → ℕ → Result Db
assign job_exists db job_id user_id assigned_by =
    let row : Assignment = record {
      job_id = job_id;
      user_id = user_id;
      assigned_by = assigned_by;
      assigned_at = db.now;
    } in
    if job_exists job_id && has_user db user_id && has_user db assigned_by
    then ok (record db { job_assignees = upsert row db.job_assignees })
    else err integrity

-- the flag is the parsed `"DELETE <n>"`, n > 0
unfoldable pub unassign : Db → ℕ → ℕ → Db × Bool
unassign db job_id user_id = (
  record db { job_assignees = filter (λ a. not (is_pair job_id user_id a)) db.job_assignees },
  any (is_pair job_id user_id) db.job_assignees,
)

-- `ORDER BY assigned_at DESC`; rows of one instant keep the table's order
unfoldable pub insert_newest : Assignment → List Assignment → List Assignment
insert_newest a [] = a ∷ []
insert_newest a (b ∷ rest) =
    if leb b.assigned_at a.assigned_at then a ∷ b ∷ rest else b ∷ insert_newest a rest

unfoldable pub newest_first : List Assignment → List Assignment
newest_first [] = []
newest_first (a ∷ rest) = insert_newest a (newest_first rest)

unfoldable pub list_assigned_job_ids : Db → ℕ → List ℕ
list_assigned_job_ids db user_id =
    map (λ a. a.job_id) (newest_first (filter (λ a. a.user_id == user_id) db.job_assignees))

abbrev pub assigners : List Role
assigners = admin ∷ recruiter ∷ []

unfoldable pub require_real_assigner : Option User → Result User
require_real_assigner none = err forbidden
require_real_assigner (some user) =
    if user.id == dev_admin_sentinel_id then err forbidden else ok user

unfoldable pub assignment_row : User → String → ℕ → Details → AuditRow
assignment_row actor action job_id details = record {
  actor = user_actor actor.id;
  action = action;
  subject_type = "job";
  subject_id = job_id;
  job_id = some job_id;
  details = details;
}

-- the dependencies that both routes declare, in their order, and the gate in their bodies
unfoldable pub assigner : Settings → Option String → Option User → Result User
assigner s x_api_key user = do
  role ← resolve_role s x_api_key
  require_role assigners role
  require_session_role assigners user
  require_real_assigner user

-- the bodies are one transaction each
unfoldable pub create_assignee :
    (ℕ → Bool) → Settings → Option String → Option User → Db → ℕ → ℕ → Option String → Result Db
create_assignee job_exists s x_api_key user db job_id user_id remark = do
  actor ← assigner s x_api_key user
  db' ← assign job_exists db job_id user_id actor.id
  record_audit db' (assignment_row actor "assign_job" job_id (assignee user_id remark))

abbrev pub removed_or_404 : Db × Bool → Result Db
removed_or_404 (db, removed) = if removed then ok db else err not_found

unfoldable pub delete_assignee : Settings → Option String → Option User → Db → ℕ → ℕ → Result Db
delete_assignee s x_api_key user db job_id user_id = do
  actor ← assigner s x_api_key user
  db' ← removed_or_404 (unassign db job_id user_id)
  record_audit db' (assignment_row actor "unassign_job" job_id (assignee user_id none))
