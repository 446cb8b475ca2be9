-- ===== src/Auth/Admin/Trail.antt =====
-- What a successful role change has done, and that none fails on the audit table's constraints.
use recruiter_pilot.Auth.Admin.{
  locks_out, patch_user_role, require_admin_session, role_changed, set_user_role,
}
use recruiter_pilot.Auth.Audit.{record_audit}
use recruiter_pilot.Auth.Gates.{actor_fields_from_user}
use recruiter_pilot.Auth.Model.{
  Actor, Db, Result-cases, Role, User, admin, ok, role_change, role_eq, role_value,
}
use recruiter_pilot.Auth.Users.{count_active_admins, get_by_id, set_role}
use recruiter_pilot.Base.{
  Bool-cases, Option, Option-cases, [], arith, eqb, false, if◌then◌else◌, inl, inr, list_eq, map,
  nat_eq, none, option_beq_iff, option_eq, refl, some, string_eq, true, ℕ, ◌++◌, ◌==◌, ◌∷◌, ◌≡◌,
  ◌≢◌, ◌⊎◌,
}

-- the columns that identify a user: the id, or for the account without a row the name as a service
abbrev pub IsActorOf : User → Actor → Type 0
IsActorOf u a =
    ((u.id ≢ 0)
      × (a ≡ record { actor_kind = "user"; actor_user_id = some u.id; actor_service = none }))
    ⊎ ((u.id ≡ 0)
        × (a ≡ record {
          actor_kind = "service";
          actor_user_id = none;
          actor_service = some u.cas_username;
        }))

actor_fields_from_user-IsActorOf : (u : User) → IsActorOf u (actor_fields_from_user (some u))
unfolding actor_fields_from_user
actor_fields_from_user-IsActorOf u = elim (Bool-cases (eqb u.id 0)) [
  | inl e ↦ inr (ground (arith, e), rw e refl)
  | inr e ↦ inl (ground (arith, e), rw e refl)
]

locks_out-kept :
    (db : Db) (target : User) (role : Role)
    → locks_out db target role ≡ false
    → (target.role ≢ some "admin") ⊎ (role ≡ admin) ⊎ (count_active_admins db ≢ 1)
unfolding locks_out
locks_out-kept db target admin h = inr (inl refl)
locks_out-kept db target role h = elim (Bool-cases (target.role == some "admin")) [
  | inr e ↦ inl (ground (arith, option_beq_iff target.role (some "admin")))
  | inl e ↦ inr (inr (ground (arith, h)))
]

-- an accepted request: who acted on whom, and the tables after it
pub record Patched (db db' : Db) (user : Option User) (user_id : ℕ) (role : Role) (u : User)
    : Type 0 where
  pub acting : User
  pub target : User
  pub permitted : (user ≡ some acting) × (acting.role ≡ some "admin") × (acting.active ≡ true)
  pub found : get_by_id db user_id ≡ some target
  pub kept : (target.role ≢ some "admin") ⊎ (role ≡ admin) ⊎ (count_active_admins db ≢ 1)
  pub returned : u ≡ record target { role = some (role_value role) }
  pub who : Actor
  pub identified : IsActorOf acting who
  pub written : db' ≡ record db {
    users =
        map
          (λ v. if v.id == user_id then record v { role = some (role_value role) } else v)
          db.users;
    audit_log =
        db.audit_log
        ++ record {
          actor = who;
          action = "role_changed";
          subject_type = "user";
          subject_id = user_id;
          job_id = none;
          details = role_change target.role (role_value role);
        }
          ∷ [];
  }

permitted_only :
    (user : Option User) (acting : User)
    → require_admin_session user ≡ ok acting
    → (user ≡ some acting) × (acting.role ≡ some "admin") × (acting.active ≡ true)
unfolding require_admin_session
permitted_only none acting h = cc
permitted_only (some u) acting h = ground (arith, option_beq_iff u.role (some "admin"))

-- A role change succeeds only for an active admin session, on a user that exists and that is not
-- the last active admin being demoted; it writes the role of that user and exactly one audit row,
-- which names the session's user (by the id, or the account without a row by its name), the old role
-- and the new one, and changes no other table.
pub patch_user_role-Patched :
    (db db' : Db) (user : Option User) (user_id : ℕ) (role : Role) (u : User)
    → patch_user_role db user user_id role ≡ ok (u, db')
    → Patched db db' user user_id role u
unfolding patch_user_role set_user_role record_audit set_role role_changed
patch_user_role-Patched db db' user user_id role u h =
    elim (Result-cases (require_admin_session user)) [
      | inr (e, p) ↦ absurd (ground arith)
      | inl (acting, p) ↦ elim (Option-cases (get_by_id db user_id)) [
        | inl q ↦ absurd (ground arith)
        | inr (target, q) ↦ elim (Bool-cases (locks_out db target role)) [
          | inl k ↦ absurd (ground arith)
          | inr k ↦ record {
            acting = acting;
            target = target;
            permitted = permitted_only user acting p;
            found = q;
            kept = locks_out-kept db target role k;
            who = actor_fields_from_user (some acting);
            identified = actor_fields_from_user-IsActorOf acting;
            returned = ground arith;
            written = ground arith;
          }
        ]
      ]
    ]
