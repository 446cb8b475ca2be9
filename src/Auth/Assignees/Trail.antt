-- ===== src/Auth/Assignees/Trail.antt =====
-- Who may assign, and the audit row of each accepted request.
use recruiter_pilot.Auth.Assignees.{
  assign, assigner, assigners, assignment_row, create_assignee, delete_assignee,
  require_real_assigner, unassign,
}
use recruiter_pilot.Auth.Assignees.Pairs.{assigned}
use recruiter_pilot.Auth.Audit.{record_audit}
use recruiter_pilot.Auth.Gates.{require_session_role, role_in}
use recruiter_pilot.Auth.Model.{
  Db, Details, Error, Result-cases, Settings, User, assignee, err, not_found, ok, role_eq,
}
use recruiter_pilot.Base.{
  Bool, Bool-cases, Option, String, [], ap, arith, false, inl, inr, list_eq, nat_eq, none,
  option_eq, refl, some, string_eq, true, ℕ, ◌++◌, ◌==◌, ◌∷◌, ◌≡◌, ◌≢◌, ◌⊎◌,
}

assigners_only :
    (role : Option String)
    → role_in role assigners ≡ true
    → (role ≡ some "admin") ⊎ (role ≡ some "recruiter")
unfolding role_in
assigners_only none h = absurd (ground arith)
assigners_only (some s) h = elim (Bool-cases (s == "admin")) [
  | inl e ↦ inl (ap some ((string_eq.equals_iff s "admin").0 e))
  | inr e ↦ inr (ap some ((string_eq.equals_iff s "recruiter").0 (ground (arith, h))))
]

-- an accepted request: the session behind it, and the one audit row
pub record Recorded (user : Option User) (db db' : Db) (action : String) (job_id : ℕ)
    (details : Details) : Type 0 where
  pub actor : User
  pub session : user ≡ some actor
  pub real : actor.id ≢ 0
  pub active : actor.active ≡ true
  pub permitted : (actor.role ≡ some "admin") ⊎ (actor.role ≡ some "recruiter")
  pub audited :
      db'.audit_log
      ≡ db.audit_log
        ++ record {
          actor = record {
            actor_kind = "user";
            actor_user_id = some actor.id;
            actor_service = none;
          };
          action = action;
          subject_type = "job";
          subject_id = job_id;
          job_id = some job_id;
          details = details;
        }
          ∷ []

assigner-real :
    (s : Settings) (x_api_key : Option String) (user : Option User) (actor : User)
    → assigner s x_api_key user ≡ ok actor
    → (user ≡ some actor)
      × (actor.id ≢ 0)
      × (actor.active ≡ true)
      × (role_in actor.role assigners ≡ true)
unfolding assigner require_session_role require_real_assigner
assigner-real s x_api_key none actor h = absurd (ground arith)
assigner-real s x_api_key (some u) actor h = ground arith

audited-Recorded :
    (s : Settings) (x_api_key : Option String) (user : Option User) (db mid db' : Db)
    (action : String) (job_id : ℕ) (details : Details) (actor : User)
    → assigner s x_api_key user ≡ ok actor
    → mid.audit_log ≡ db.audit_log
    → record_audit mid (assignment_row actor action job_id details) ≡ ok db'
    → Recorded user db db' action job_id details
unfolding record_audit assignment_row
audited-Recorded s x_api_key user db mid db' action job_id details actor g same h =
    let (session, real, active, permitted) = assigner-real s x_api_key user actor g in
    record {
      actor = actor;
      session = session;
      real = real;
      active = active;
      permitted = assigners_only actor.role permitted;
      audited = ground arith;
    }

audit_log-assign :
    (job_exists : ℕ → Bool) (db db' : Db) (j u by : ℕ)
    → assign job_exists db j u by ≡ ok db'
    → db'.audit_log ≡ db.audit_log
unfolding assign
audit_log-assign job_exists db db' j u by h = ground arith

-- An accepted assignment has an active admin's or recruiter's real session behind it, whatever key
-- came with the request, and exactly one audit row, which names that session's user as the actor, the
-- job as the subject, and the assigned user and the remark.
pub create_assignee-Recorded :
    (job_exists : ℕ → Bool) (s : Settings) (x_api_key : Option String) (user : Option User)
    (db db' : Db) (job_id user_id : ℕ) (remark : Option String)
    → create_assignee job_exists s x_api_key user db job_id user_id remark ≡ ok db'
    → Recorded user db db' "assign_job" job_id (assignee user_id remark)
unfolding create_assignee
create_assignee-Recorded job_exists s x_api_key user db db' job_id user_id remark h =
    elim (Result-cases (assigner s x_api_key user)) [
      | inr (e, p) ↦ absurd (ground arith)
      | inl (actor, p) ↦ elim (Result-cases (assign job_exists db job_id user_id actor.id)) [
        | inr (e, q) ↦ absurd (ground arith)
        | inl (mid, q) ↦
            audited-Recorded s x_api_key user db mid db' "assign_job" job_id
              (assignee user_id remark) actor p
              (audit_log-assign job_exists db mid job_id user_id actor.id q) (ground arith)
      ]
    ]

-- An accepted removal has such a session and such a row too, and the pair was assigned.
pub delete_assignee-Recorded :
    (s : Settings) (x_api_key : Option String) (user : Option User) (db db' : Db)
    (job_id user_id : ℕ)
    → delete_assignee s x_api_key user db job_id user_id ≡ ok db'
    → Recorded user db db' "unassign_job" job_id (assignee user_id none)
      × (assigned db.job_assignees job_id user_id ≡ true)
unfolding delete_assignee unassign
delete_assignee-Recorded s x_api_key user db db' job_id user_id h =
    elim (Result-cases (assigner s x_api_key user)) [
      | inr (e, p) ↦ absurd (ground arith)
      | inl (actor, p) ↦ elim (Bool-cases (assigned db.job_assignees job_id user_id)) [
        | inr q ↦ absurd (ground arith)
        | inl q ↦ (
          audited-Recorded s x_api_key user db (unassign db job_id user_id).0 db' "unassign_job"
              job_id (assignee user_id none) actor p refl (ground arith),
          q,
        )
      ]
    ]

-- The removal of a pair that is not assigned is answered 404 once the gates have let the caller pass,
-- and 401 or 403, with the answer of the gates, where they have not.
pub delete_assignee-missing :
    (s : Settings) (x_api_key : Option String) (user : Option User) (db : Db) (job_id user_id : ℕ)
    → assigned db.job_assignees job_id user_id ≡ false
    → (((actor : User) × (assigner s x_api_key user ≡ ok actor))
        × (delete_assignee s x_api_key user db job_id user_id ≡ err not_found))
      ⊎ ((e : Error) × (assigner s x_api_key user ≡ err e)
          × (delete_assignee s x_api_key user db job_id user_id ≡ err e))
unfolding delete_assignee unassign
delete_assignee-missing s x_api_key user db job_id user_id h =
    elim (Result-cases (assigner s x_api_key user)) [
      | inr (e, p) ↦ inr (e, p, ground arith)
      | inl (actor, p) ↦ inl ((actor, p), ground arith)
    ]
