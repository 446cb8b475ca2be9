-- ===== src/Auth/Sessions/Lifecycle.antt =====
-- What a session id resolves to, before and after the statements that write the table.
use text.Mathlib.TextEquality.{eq_iff}
use text.Mathlib.TextPositions.{eq_refl}
use recruiter_pilot.Auth.Model.{Db, Session, ok, role_eq}
use recruiter_pilot.Auth.Sessions.{
  create_session, get_active_session, is_live, refresh_if_needed, revoke_row, revoke_session,
  set_expiry,
}
use recruiter_pilot.Base.{
  Bool, Bool-cases, List, Option, String, [], any, arith, false, find, inl, inr, list_eq, map,
  nat_eq, none, option_eq, refl, some, string_eq, true, ℕ, ◌&&◌, ◌++◌, ◌+◌, ◌<◌, ◌==◌, ◌∷◌, ◌≡◌,
}

abbrev pub has_session : String → List Session → Bool
has_session session_id ts = any (λ t. t.id == session_id) ts

-- the primary key of `sessions`
abbrev pub UniqueSessions : List Session → Type 0
UniqueSessions [] = Unit
UniqueSessions (t ∷ ts) = (has_session t.id ts ≡ false) × UniqueSessions ts

abbrev active_in : ℕ → String → List Session → Option Session
active_in now session_id ts = find (λ t. t.id == session_id && is_live now t) ts

module _ (now : ℕ) (session_id : String) where
  active_in_absent :
      (ts : List Session) → has_session session_id ts ≡ false → active_in now session_id ts ≡ none
  active_in_absent [] h = refl
  active_in_absent (t ∷ ts) h = ground (arith, active_in_absent ts)

  active_in-append :
      (ts : List Session) (t : Session)
      → has_session session_id ts ≡ false
      → t.id ≡ session_id
      → is_live now t ≡ true
      → active_in now session_id (ts ++ t ∷ []) ≡ some t
  active_in-append [] t h named live = ground (arith, eq_iff t.id session_id)
  active_in-append (u ∷ ts) t h named live = ground (arith, active_in-append ts t)

  active_in-revoke :
      (ts : List Session) → active_in now session_id (map (revoke_row session_id now) ts) ≡ none
  unfolding is_live
  active_in-revoke [] = refl
  active_in-revoke (t ∷ ts) = ground (arith, active_in-revoke ts)

  active_in-refresh :
      (ts : List Session) (t : Session) (expiry : ℕ)
      → UniqueSessions ts
      → active_in now session_id ts ≡ some t
      → now < expiry
      → active_in now session_id (map (set_expiry session_id expiry) ts)
        ≡ some (record t { expires_at = expiry })
  unfolding is_live
  active_in-refresh [] t expiry unique found later = cc
  active_in-refresh (u ∷ ts) t expiry unique found later = elim (Bool-cases (u.id == session_id)) [
    | inl e ↦ ground (arith, active_in_absent ts, eq_iff u.id session_id, unique.0)
    | inr e ↦ ground (arith, active_in-refresh ts t expiry unique.1)
  ]

  active_in_named :
      (ts : List Session) (t : Session) → active_in now session_id ts ≡ some t → t.id ≡ session_id
  active_in_named [] t h = cc
  active_in_named (u ∷ ts) t h = ground (arith, active_in_named ts t, eq_iff u.id session_id)

-- A revoked session id resolves to no session, whatever the table holds.
pub get_active_session-revoke_session :
    (db : Db) (session_id : String)
    → get_active_session (revoke_session db session_id) session_id ≡ none
unfolding get_active_session revoke_session
get_active_session-revoke_session db session_id = active_in-revoke db.now session_id db.sessions

-- A session that was created with a positive lifetime resolves to the returned row.
pub get_active_session-create_session :
    (db db' : Db) (session_id : String) (user_id ttl : ℕ) (user_agent ip : Option String)
    (t : Session)
    → 0 < ttl
    → create_session db session_id user_id ttl user_agent ip ≡ ok (t, db')
    → get_active_session db' session_id ≡ some t
unfolding get_active_session create_session is_live
get_active_session-create_session db db' session_id user_id ttl user_agent ip t positive h =
    ground (arith, active_in-append db'.now session_id db.sessions t, eq_refl session_id)

-- In a table with unique ids, the row that a resolve returned and then refreshed is the row that
-- the next resolve finds: the returned object and the table do not drift apart.
pub get_active_session-refresh_if_needed :
    (db : Db) (session_id : String) (t : Session) (ttl idle : ℕ)
    → UniqueSessions db.sessions
    → get_active_session db session_id ≡ some t
    → 0 < ttl
    → get_active_session (refresh_if_needed db t ttl idle).1 session_id
      ≡ some (refresh_if_needed db t ttl idle).0
unfolding get_active_session refresh_if_needed
get_active_session-refresh_if_needed db session_id t ttl idle unique found positive = ground (
  arith,
  active_in-refresh db.now session_id db.sessions t (db.now + ttl) unique found,
  active_in_named db.now session_id db.sessions t found,
)
