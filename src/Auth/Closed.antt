-- ===== src/Auth/Closed.antt =====
-- Who is behind a request, and callers to whom every gate is shut.
use recruiter_pilot.Auth.Admin.{require_admin_session}
use recruiter_pilot.Auth.Audit.{actor_exists, actor_identity, record_audit}
use recruiter_pilot.Auth.Gates.{
  actor_fields_from_user, dev_admin, require_role_assigned, require_session_role, resolve_user,
  role_in, scoped_user_id_or_403, session_user,
}
use recruiter_pilot.Auth.Model.{
  AuditRow, Db, Role, Session, Settings, User, err, forbidden, hiring_manager, ok, role_beq,
  role_beq_iff, role_eq, role_value,
}
use recruiter_pilot.Auth.Sessions.{get_active_session, has_user, refresh_if_needed, revoke_session}
use recruiter_pilot.Auth.Sessions.Lifecycle.{get_active_session-revoke_session}
use recruiter_pilot.Auth.Users.{get_by_id}
use recruiter_pilot.Base.{
  ==_refl, Bool-cases, List, Option, Option-cases, String, [], any, ap, arith, contains, eqb, false,
  find, inl, inr, list_eq, nat_eq, none, option_beq_iff, option_eq, refl, some, string_eq, true, ℕ,
  ◌*◌, ◌++◌, ◌==◌, ◌↔◌, ◌∷◌, ◌≡◌, ◌≢◌, ◌⊎◌,
}

-- the refresh leaves the users alone
resolved_row :
    (s : Settings) (db : Db) (t : Session) (u : User)
    → (session_user s db (some t)).0 ≡ some u
    → get_by_id db t.user_id ≡ some u
unfolding refresh_if_needed get_by_id
resolved_row s db t u h = ground arith

-- With CAS on, a cookie resolves to a user only through a session row that is unrevoked and
-- unexpired now and belongs to that user, whose row exists.
resolve_user_sound :
    (s : Settings) (db : Db) (cookie : Option String) (u : User)
    → s.cas_enabled ≡ true
    → (resolve_user s db cookie).0 ≡ some u
    → (c : String) × (t : Session) × (cookie ≡ some c)
      × (get_active_session db c ≡ some t)
      × (get_by_id db t.user_id ≡ some u)
unfolding resolve_user
resolve_user_sound s db none u on h = absurd (ground arith)
resolve_user_sound s db (some c) u on h = elim (Option-cases (get_active_session db c)) [
  | inl e ↦ absurd (ground arith)
  | inr (t, e) ↦ (c, t, refl, e, resolved_row s db t u (ground arith))
]

-- CAS on, and after a logout: the cookie opens no gate, whatever else the tables hold.
pub revoke_session-closes :
    (s : Settings) (db : Db) (cookie : String) (allowed : List Role)
    → s.cas_enabled ≡ true
    → let after = revoke_session db cookie in
      let user = (resolve_user s after (some cookie)).0 in
      (require_session_role allowed user ≡ err forbidden)
      × (require_role_assigned user ≡ err forbidden)
      × (require_admin_session user ≡ err forbidden)
      × (scoped_user_id_or_403 user hiring_manager ≡ err forbidden)
unfolding resolve_user require_session_role require_role_assigned require_admin_session
    scoped_user_id_or_403
revoke_session-closes s db cookie allowed on =
    ground (arith, get_active_session-revoke_session db cookie)

-- A deactivated account passes no gate of the session; a hiring manager's account gets no scope of
-- rows either.
pub inactive-closed :
    (u : User) (allowed : List Role) (key_role : Role)
    → u.active ≡ false
    → (require_session_role allowed (some u) ≡ err forbidden)
      × (require_role_assigned (some u) ≡ err forbidden)
      × (require_admin_session (some u) ≡ err forbidden)
      × ((u.role ≢ some "hiring_manager")
          ⊎ (scoped_user_id_or_403 (some u) key_role ≡ err forbidden))
unfolding require_session_role require_role_assigned require_admin_session scoped_user_id_or_403
inactive-closed u allowed key_role off = elim (Bool-cases (u.role == some "hiring_manager")) [
  | inl e ↦ ground arith
  | inr e ↦ ground (arith, option_beq_iff u.role (some "hiring_manager"))
]

role_in-allowed :
    (role : Option String) (allowed : List Role)
    → role_in role allowed ≡ true
    → (r : Role) × (role ≡ some (role_value r)) × (contains allowed r ≡ true)
unfolding role_in
role_in-allowed none allowed h = absurd (ground arith)
role_in-allowed (some s) [] h = absurd (ground arith)
role_in-allowed (some s) (a ∷ rest) h = elim (Bool-cases (s == role_value a)) [
  | inl e ↦
      (a, ap some ((string_eq.equals_iff s (role_value a)).0 e), ground (arith, role_beq_iff a a))
  | inr e ↦
      let (r, named, among) = role_in-allowed (some s) rest (ground (arith, h)) in
      (r, named, ground (arith, among))
]

allowed-role_in :
    (r : Role) (allowed : List Role)
    → contains allowed r ≡ true
    → role_in (some (role_value r)) allowed ≡ true
unfolding role_in
allowed-role_in r [] h = ground (arith, h)
allowed-role_in r (a ∷ rest) h = elim (Bool-cases (role_beq r a)) [
  | inl e ↦ rw ((role_beq_iff r a).0 e) (rw (==_refl (role_value a)) refl)
  | inr e ↦ ground (arith, h, allowed-role_in r rest)
]

-- The session gate of a route passes exactly a session's user that is active and whose role is there and
-- is the name of one of the allowed roles. The API key has its own gate.
pub require_session_role_exact :
    (allowed : List Role) (user : Option User)
    → (require_session_role allowed user ≡ ok tt) ↔ (
        (u : User) × (user ≡ some u)
        × (u.active ≡ true)
        × ((r : Role) × (u.role ≡ some (role_value r)) × (contains allowed r ≡ true)))
unfolding require_session_role
require_session_role_exact allowed none = (λ h. absurd (ground arith), λ (u, e, _, _). cc)
require_session_role_exact allowed (some u) = (
  λ h. (u, refl, ground arith, role_in-allowed u.role allowed (ground arith)),
  λ (v, e, a, (r, named, among)).
      let named' : u.role ≡ some (role_value r) = cc in
      let opens : role_in u.role allowed ≡ true = rw named' (allowed-role_in r allowed among) in
      ground (arith, opens),
)

actor_identity-resolved : (user : Option User) → actor_identity (actor_fields_from_user user) ≡ true
unfolding actor_identity actor_fields_from_user
actor_identity-resolved none = refl
actor_identity-resolved (some u) = elim (Bool-cases (u.id == 0)) [
  | inl e ↦ rw e refl
  | inr e ↦ rw e refl
]

has_user_found :
    (i : ℕ) (us : List User) (u : User)
    → find (λ v. v.id == i) us ≡ some u
    → any (λ v. v.id == u.id) us ≡ true
has_user_found i [] u h = cc
has_user_found i (v ∷ us) u h = elim (Bool-cases (eqb v.id i)) [
  | inl e ↦ ground arith
  | inr e ↦ ground (arith, has_user_found i us u)
]

session_user_known :
    (s : Settings) (db : Db) (o : Option Session) (u : User)
    → (session_user s db o).0 ≡ some u
    → has_user (session_user s db o).1 u.id ≡ true
unfolding get_by_id has_user
session_user_known s db none u h = cc
session_user_known s db (some t) u h =
    let (refreshed, db') =
      refresh_if_needed db t (s.session_ttl_hours * 3600) (s.session_idle_refresh_hours * 3600) in
    has_user_found refreshed.user_id db'.users u h

resolved_known :
    (s : Settings) (db : Db) (cookie : Option String) (u : User)
    → (resolve_user s db cookie).0 ≡ some u
    → (u.id ≡ 0) ⊎ (has_user (resolve_user s db cookie).1 u.id ≡ true)
unfolding resolve_user dev_admin
resolved_known s db none u h = ground arith
resolved_known s db (some c) u h =
    ground (arith, session_user_known s db (get_active_session db c) u)

actor_exists-known :
    (db : Db) (user : Option User)
    → ((u : User) → user ≡ some u → (u.id ≡ 0) ⊎ (has_user db u.id ≡ true))
    → actor_exists db (actor_fields_from_user user) ≡ true
unfolding actor_exists actor_fields_from_user
actor_exists-known db none known = refl
actor_exists-known db (some u) known = elim (Bool-cases (u.id == 0)) [
  | inl e ↦ rw e refl
  | inr e ↦ rw e (ground (arith, known u refl))
]

-- The audit row of whoever `resolve_user` names is never refused by the table's constraints: an
-- insert with the derived actor appends the row and changes nothing else.
pub record_audit-resolved :
    (s : Settings) (db : Db) (cookie : Option String) (row : AuditRow)
    → row.actor ≡ actor_fields_from_user (resolve_user s db cookie).0
    → let db' = (resolve_user s db cookie).1 in
      record_audit db' row ≡ ok (record db' { audit_log = db'.audit_log ++ row ∷ [] })
unfolding record_audit
record_audit-resolved s db cookie row e = ground (
  arith,
  actor_identity-resolved (resolve_user s db cookie).0,
  actor_exists-known (resolve_user s db cookie).1 (resolve_user s db cookie).0
      (resolved_known s db cookie),
)
