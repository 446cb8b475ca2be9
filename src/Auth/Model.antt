-- ===== src/Auth/Model.antt =====
-- core/src/schemas/auth.py, the tables of core/src/models/ddl.py that the auth code reads and
-- writes, and the errors that it raises. A UUID is a number, a time is a number of seconds.
use recruiter_pilot.Base.{
  Bool, Eq, List, Option, String, arith, false, inl, inr, list_eq, nat_eq, option_eq, refl,
  string_eq, true, ℕ, ◌↔◌, ◌≡◌, ◌⊎◌,
}

pub data Role : Type 0 where
  admin recruiter hiring_manager auditor : Role

-- the wire string of each member of the `StrEnum`
abbrev pub role_value : Role → String
role_value admin = "admin"
role_value recruiter = "recruiter"
role_value hiring_manager = "hiring_manager"
role_value auditor = "auditor"

abbrev pub role_beq : Role → Role → Bool
role_beq admin admin = true
role_beq recruiter recruiter = true
role_beq hiring_manager hiring_manager = true
role_beq auditor auditor = true
role_beq _ _ = false

pub role_beq_iff : (a b : Role) → (role_beq a b ≡ true) ↔ (a ≡ b)
role_beq_iff a b = ground arith

instance abbrev pub role_eq : Eq Role
role_eq = record { equals = role_beq; equals_iff = role_beq_iff }

-- a row of `users`; `role` is a nullable text column
pub record User : Type 0 where
  pub id : ℕ
  pub cas_username : String
  pub display_name : Option String
  pub email : Option String
  pub role : Option String
  pub active : Bool
  pub created_at : ℕ
  pub last_seen_at : ℕ

-- a row of `sessions`
pub record Session : Type 0 where
  pub id : String
  pub user_id : ℕ
  pub expires_at : ℕ
  pub revoked_at : Option ℕ
  pub user_agent : Option String
  pub ip_addr : Option String
  pub created_at : ℕ

-- a row of `job_assignees`
pub record Assignment : Type 0 where
  pub job_id : ℕ
  pub user_id : ℕ
  pub assigned_by : ℕ
  pub assigned_at : ℕ

-- what the auth code puts into the `details` column
pub data Details : Type 0 where
  unspecified : Details
  role_change : Option String → String → Details
  assignee : ℕ → Option String → Details
  reason_given : String → Details
  blind_review_change : Bool → Bool → Details

-- the three columns that name the actor of an audit row
pub record Actor : Type 0 where
  pub actor_kind : String
  pub actor_user_id : Option ℕ
  pub actor_service : Option String

-- a row of `audit_log`
pub record AuditRow : Type 0 where
  pub actor : Actor
  pub action : String
  pub subject_type : String
  pub subject_id : ℕ
  pub job_id : Option ℕ
  pub details : Details

-- the tables, and the clock that `now()` reads
pub record Db : Type 0 where
  pub users : List User
  pub sessions : List Session
  pub job_assignees : List Assignment
  pub audit_log : List AuditRow
  pub now : ℕ

-- the fields of `Settings` that the auth code reads
pub record Settings : Type 0 where
  pub api_key : String
  pub api_key_admin : String
  pub api_key_recruiter : String
  pub api_key_hiring_manager : String
  pub api_key_auditor : String
  pub cas_enabled : Bool
  pub session_ttl_hours : ℕ
  pub session_idle_refresh_hours : ℕ
  pub default_admin_cas_username : String

-- 401, 403, 404, 409, a violated table constraint, and the `RuntimeError` of a refused start
pub data Error : Type 0 where
  unauthorized forbidden not_found conflict integrity refused_start : Error

pub data Result {ℓ} (A : Type ℓ) : Type ℓ where
  ok : A → Result A
  err : Error → Result A

infixl 5 ◌>>=◌ ◌>>◌
abbrev pub ◌>>=◌ {ℓ κ} : {A : Type ℓ} {B : Type κ} → Result A → (A → Result B) → Result B
ok a >>= f = f a
err e >>= f = err e

abbrev pub ◌>>◌ {ℓ κ} : {A : Type ℓ} {B : Type κ} → Result A → Result B → Result B
m >> k = m >>= λ _. k

pub Result-cases {ℓ} :
    {A : Type ℓ} (r : Result A) → ((a : A) × (r ≡ ok a)) ⊎ ((e : Error) × (r ≡ err e))
Result-cases (ok a) = inl (a, refl)
Result-cases (err e) = inr (e, refl)
