-- ===== src/Auth/Admin/Survival.antt =====
-- The system never loses its last active admin.
use native.Mathlib.Nat.{le_trans}
use recruiter_pilot.Auth.Admin.{locks_out, patch_user_role}
use recruiter_pilot.Auth.Admin.Counting.{
  UniqueIds, UniqueIds-assign, active_admins-assign, active_admins-other, active_admins-promote,
  has_id,
}
use recruiter_pilot.Auth.Admin.Trail.{Patched, patch_user_role-Patched}
use recruiter_pilot.Auth.Gates.{resolve_user}
use recruiter_pilot.Auth.Model.{Db, Role, Session, Settings, User, admin, ok, role_eq, role_value}
use recruiter_pilot.Auth.Sessions.{create_session, refresh_if_needed, revoke_session}
use recruiter_pilot.Auth.Users.{
  active_admins, assign_role, count_active_admins, get_by_id, provision_or_get, seen_again,
}
use recruiter_pilot.Base.{
  Bool-cases, List, Option, Option-cases, String, [], ap, arith, false, find, if◌then◌else◌, inl,
  inr, list_eq, map, nat_eq, not, option_beq_iff, option_eq, refl, some, string_eq, ℕ, ◌&&◌, ◌++◌,
  ◌+◌, ◌==◌, ◌∷◌, ◌≡◌, ◌≢◌, ◌≤◌, ◌⊎◌,
}

-- one request or job that writes the tables of the auth code, or the passing of time
pub data Step (db : Db) : Db → Type 0 where
  patched :
      {db' : Db} (user : Option User) (user_id : ℕ) (role : Role) (u : User)
      → patch_user_role db user user_id role ≡ ok (u, db')
      → Step db db'
  logged_in :
      {db' : Db} (fresh_id : ℕ) (cas_username : String) (display_name email : Option String)
      (default_admin : String) (u : User)
      → provision_or_get db fresh_id cas_username display_name email default_admin ≡ ok (u, db')
      → Step db db'
  opened :
      {db' : Db} (session_id : String) (user_id ttl : ℕ) (user_agent ip : Option String)
      (t : Session)
      → create_session db session_id user_id ttl user_agent ip ≡ ok (t, db')
      → Step db db'
  resolved : (s : Settings) (cookie : Option String) → Step db (resolve_user s db cookie).1
  revoked : (session_id : String) → Step db (revoke_session db session_id)
  ticked : (n : ℕ) → Step db (record db { now = db.now + n })

pub data Reach (db : Db) : Db → Type 0 where
  here : Reach db db
  next : {mid db' : Db} → Reach db mid → Step mid db' → Reach db db'

pub record IsGoverned (db : Db) : Type 0 where
  pub unique : UniqueIds db.users
  pub governed : 1 ≤ active_admins db.users

module _ (db : Db) (display_name email : Option String) (cas_username : String) where
  abbrev touched : List User → List User
  touched us =
      map (λ v. if v.cas_username == cas_username then seen_again db display_name email v else v) us

  has_id-touched : (i : ℕ) (us : List User) → has_id i (touched us) ≡ has_id i us
  has_id-touched i [] = refl
  has_id-touched i (u ∷ us) = ground (arith, has_id-touched i us)

  UniqueIds-touched : (us : List User) → UniqueIds us → UniqueIds (touched us)
  UniqueIds-touched [] h = tt
  UniqueIds-touched (u ∷ us) h = (ground (arith, has_id-touched u.id us), UniqueIds-touched us h.1)

  active_admins-touched : (us : List User) → active_admins (touched us) ≡ active_admins us
  active_admins-touched [] = refl
  active_admins-touched (u ∷ us) = ground (arith, active_admins-touched us)

has_id-append :
    (i : ℕ) (us : List User) (u : User)
    → has_id i us ≡ false
    → (u.id == i) ≡ false
    → has_id i (us ++ u ∷ []) ≡ false
has_id-append i [] u h e = ground arith
has_id-append i (v ∷ us) u h e = ground (arith, has_id-append i us u)

UniqueIds-append :
    (us : List User) (u : User) → UniqueIds us → has_id u.id us ≡ false → UniqueIds (us ++ u ∷ [])
UniqueIds-append [] u h e = (refl, tt)
UniqueIds-append (v ∷ us) u h e =
    (has_id-append v.id us u h.0 (ground arith), UniqueIds-append us u h.1 (ground arith))

active_admins-append : (us : List User) (u : User) → active_admins us ≤ active_admins (us ++ u ∷ [])
active_admins-append [] u = omega arith
active_admins-append (v ∷ us) u = ground (arith, active_admins-append us u)

IsGoverned-same : {db db' : Db} → db'.users ≡ db.users → IsGoverned db → IsGoverned db'
IsGoverned-same e inv = record { unique = rw e inv.unique; governed = rw e inv.governed }

provision-IsGoverned :
    (db : Db) {db' : Db} (fresh_id : ℕ) (cas_username : String) (display_name email : Option String)
    (default_admin : String) (u : User)
    → provision_or_get db fresh_id cas_username display_name email default_admin ≡ ok (u, db')
    → IsGoverned db
    → IsGoverned db'
unfolding provision_or_get
provision-IsGoverned db {db'} fresh_id cas_username display_name email default_admin u h inv =
    elim (Option-cases (find (λ u. u.cas_username == cas_username) db.users)) [
      | inr (v, e) ↦
          let e' : db'.users ≡ touched db display_name email cas_username db.users = ground arith in
          record {
            unique =
                rw e' (UniqueIds-touched db display_name email cas_username db.users inv.unique);
            governed = rw e' (rw active_admins-touched inv.governed);
          }
      | inl e ↦ elim (Bool-cases (has_id fresh_id db.users)) [
        | inl taken ↦ absurd (ground arith)
        | inr free ↦
            let e' : db'.users ≡ db.users ++ u ∷ [] = ground arith in
            let named : u.id ≡ fresh_id = ground arith in
            record {
              unique = rw e' (UniqueIds-append db.users u inv.unique (rw named free));
              governed = rw e' (le_trans inv.governed (active_admins-append db.users u));
            }
      ]
    ]

governed_after :
    (i : ℕ) (role : Role) (us : List User) (target : User)
    → UniqueIds us
    → find (λ u. u.id == i) us ≡ some target
    → (target.role == some "admin" && not (role_value role == "admin") && active_admins us == 1)
      ≡ false
    → 1 ≤ active_admins us
    → 1 ≤ active_admins (map (assign_role i (role_value role)) us)
governed_after i role us target unique found kept governed = ground (
  arith,
  active_admins-promote i (role_value role) us,
  active_admins-assign i (role_value role) us unique,
  active_admins-other i (role_value role) us target unique found,
)

kept-locks_out :
    (db : Db) (target : User) (role : Role)
    → (target.role ≢ some "admin") ⊎ (role ≡ admin) ⊎ (count_active_admins db ≢ 1)
    → locks_out db target role ≡ false
unfolding locks_out
kept-locks_out db target admin h = ground arith
kept-locks_out db target role h = ground (arith, h, option_beq_iff target.role (some "admin"))

patch-IsGoverned :
    (db : Db) {db' : Db} (user : Option User) (user_id : ℕ) (role : Role) (u : User)
    → Patched db db' user user_id role u
    → IsGoverned db
    → IsGoverned db'
unfolding locks_out get_by_id count_active_admins
patch-IsGoverned db {db'} user user_id role u p inv =
    let e : db'.users ≡ map (assign_role user_id (role_value role)) db.users =
      ap (λ (d : Db). d.users) p.written in
    record {
      unique = rw e (UniqueIds-assign user_id (role_value role) db.users inv.unique);
      governed = rw e (
          governed_after user_id role db.users p.target inv.unique p.found
            (kept-locks_out db p.target role p.kept) inv.governed);
    }

users-resolve_user :
    (s : Settings) (db : Db) (cookie : Option String)
    → (resolve_user s db cookie).1.users ≡ db.users
unfolding resolve_user refresh_if_needed
users-resolve_user s db cookie = ground arith

Step-IsGoverned : {db db' : Db} → Step db db' → IsGoverned db → IsGoverned db'
unfolding create_session revoke_session
Step-IsGoverned {db} (patched user user_id role u h) inv =
    patch-IsGoverned db user user_id role u (patch_user_role-Patched db _ user user_id role u h) inv
Step-IsGoverned {db} (logged_in fresh_id name display_name email default_admin u h) inv =
    provision-IsGoverned db fresh_id name display_name email default_admin u h inv
Step-IsGoverned (opened session_id user_id ttl user_agent ip t h) inv =
    ground (arith, inv.unique, inv.governed)
Step-IsGoverned {db} (resolved s cookie) inv = IsGoverned-same (users-resolve_user s db cookie) inv
Step-IsGoverned (revoked session_id) inv = record { unique = inv.unique; governed = inv.governed }
Step-IsGoverned (ticked n) inv = record { unique = inv.unique; governed = inv.governed }

-- From tables with unique user ids and an active admin, no sequence of logins, logouts, session
-- refreshes and role changes, whoever asks for them, leaves the system with no active admin.
pub Reach-IsGoverned : {db db' : Db} → Reach db db' → IsGoverned db → IsGoverned db'
Reach-IsGoverned here inv = inv
Reach-IsGoverned (next r st) inv = Step-IsGoverned st (Reach-IsGoverned r inv)
