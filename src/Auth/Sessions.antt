-- ===== src/Auth/Sessions.antt =====
-- core/src/services/session_service.py: the SQL statements as functions on the table.
-- `secrets.token_urlsafe` is outside the repository: the drawn id is an argument.
pub mod Lifecycle
use recruiter_pilot.Auth.Model.{Db, Result, Session, err, integrity, ok, role_eq}
use recruiter_pilot.Base.{
  Bool, Option, String, [], any, find, if◌then◌else◌, is_some, list_eq, ltb, map, nat_eq, none, not,
  option_eq, some, string_eq, ℕ, ◌&&◌, ◌++◌, ◌+◌, ◌==◌, ◌||◌, ◌∷◌,
}

unfoldable pub has_user : Db → ℕ → Bool
has_user db user_id = any (λ u. u.id == user_id) db.users

-- `ttl_seconds` is the settings' number of hours in seconds; the primary key and the foreign key
-- of the table refuse a repeated id and an unknown user
unfoldable pub create_session :
    Db → String → ℕ → ℕ → Option String → Option String → Result (Session × Db)
unfolding has_user
create_session db session_id user_id ttl_seconds user_agent ip =
    let row : Session = record {
      id = session_id;
      user_id = user_id;
      expires_at = db.now + ttl_seconds;
      revoked_at = none;
      user_agent = user_agent;
      ip_addr = ip;
      created_at = db.now;
    } in
    if any (λ t. t.id == session_id) db.sessions || not (has_user db user_id)
    then err integrity
    else ok (row, record db { sessions = db.sessions ++ row ∷ [] })

-- `revoked_at IS NULL AND expires_at > now()`
unfoldable pub is_live : ℕ → Session → Bool
is_live now t = not (is_some t.revoked_at) && ltb now t.expires_at

unfoldable pub get_active_session : Db → String → Option Session
get_active_session db session_id = find (λ t. t.id == session_id && is_live db.now t) db.sessions

abbrev pub set_expiry : String → ℕ → Session → Session
set_expiry session_id expiry t = if t.id == session_id then record t { expires_at = expiry } else t

-- `(expires_at - now) > idle` is written without the subtraction
unfoldable pub refresh_if_needed : Db → Session → ℕ → ℕ → Session × Db
refresh_if_needed db session ttl_seconds idle_refresh_seconds =
    let new_expiry = db.now + ttl_seconds in
    if ltb (db.now + idle_refresh_seconds) session.expires_at then (session, db) else (
      record session { expires_at = new_expiry },
      record db { sessions = map (set_expiry session.id new_expiry) db.sessions },
    )

abbrev pub revoke_row : String → ℕ → Session → Session
revoke_row session_id now t =
    if t.id == session_id && not (is_some t.revoked_at)
    then record t { revoked_at = some now }
    else t

unfoldable pub revoke_session : Db → String → Db
revoke_session db session_id = record db {
  sessions = map (revoke_row session_id db.now) db.sessions;
}
