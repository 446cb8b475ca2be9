-- ===== src/Auth/Audit.antt =====
-- `record_audit` of core/src/services/audit_service.py, with the constraints that the `audit_log`
-- table of core/src/models/ddl.py puts on each row. `occurred_at` and `context` are not modelled.
use recruiter_pilot.Auth.Model.{Actor, AuditRow, Db, Result, err, integrity, ok, role_eq}
use recruiter_pilot.Auth.Sessions.{has_user}
use recruiter_pilot.Base.{
  Bool, Option, [], false, if◌then◌else◌, is_some, list_eq, nat_eq, none, option_eq, some,
  string_eq, true, ◌&&◌, ◌++◌, ◌==◌, ◌||◌, ◌∷◌,
}

abbrev pub is_none {ℓ} : {A : Type ℓ} → Option A → Bool
is_none none = true
is_none (some a) = false

-- CONSTRAINT audit_log_actor_identity
unfoldable pub actor_identity : Actor → Bool
actor_identity a =
    a.actor_kind == "user" && is_some a.actor_user_id && is_none a.actor_service
    || a.actor_kind == "service" && is_none a.actor_user_id && is_some a.actor_service

-- `actor_user_id UUID REFERENCES users (id)`
unfoldable pub actor_exists : Db → Actor → Bool
actor_exists db a = elim a.actor_user_id [ none ↦ true | some i ↦ has_user db i ]

unfoldable pub record_audit : Db → AuditRow → Result Db
record_audit db row =
    if actor_identity row.actor && actor_exists db row.actor
    then ok (record db { audit_log = db.audit_log ++ row ∷ [] })
    else err integrity
