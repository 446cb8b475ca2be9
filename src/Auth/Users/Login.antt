-- ===== src/Auth/Users/Login.antt =====
-- Which role a login leaves a user with.
use recruiter_pilot.Auth.Admin.{require_admin_session}
use recruiter_pilot.Auth.Gates.{require_role_assigned, require_session_role, role_in}
use recruiter_pilot.Auth.Model.{Db, Role, User, err, forbidden, ok, role_eq}
use recruiter_pilot.Auth.Users.{get_by_id, provision_or_get, seen_again}
use recruiter_pilot.Base.{
  Bool-cases, List, Option, Option-cases, String, [], any, arith, false, find, if◌then◌else◌, inl,
  inr, list_eq, map, nat_eq, none, option_eq, refl, some, string_eq, true, ℕ, ◌++◌, ◌==◌, ◌∷◌, ◌≡◌,
}

provision_new :
    (db db' : Db) (fresh_id : ℕ) (name : String) (display_name email : Option String)
    (default_admin : String) (u : User)
    → find (λ v. v.cas_username == name) db.users ≡ none
    → provision_or_get db fresh_id name display_name email default_admin ≡ ok (u, db')
    → (u.role ≡ (if name == default_admin then some "admin" else none))
      × (u.active ≡ true)
      × (db'.users ≡ db.users ++ u ∷ [])
unfolding provision_or_get
provision_new db db' fresh_id name display_name email default_admin u absent h =
    elim (Bool-cases (any (λ v. v.id == fresh_id) db.users)) [
      | inl taken ↦ absurd (ground arith)
      | inr free ↦ (ground arith, ground arith, ground arith)
    ]

-- The first login of anybody but the configured default admin yields an account that no gate lets
-- pass, on a read or on a write route.
pub first_login-closed :
    (db db' : Db) (fresh_id : ℕ) (name : String) (display_name email : Option String)
    (default_admin : String) (u : User) (allowed : List Role)
    → find (λ v. v.cas_username == name) db.users ≡ none
    → (name == default_admin) ≡ false
    → provision_or_get db fresh_id name display_name email default_admin ≡ ok (u, db')
    → (require_role_assigned (some u) ≡ err forbidden)
      × (require_session_role allowed (some u) ≡ err forbidden)
      × (require_admin_session (some u) ≡ err forbidden)
unfolding require_role_assigned require_session_role require_admin_session role_in
first_login-closed db db' fresh_id name display_name email default_admin u allowed absent other h =
    let (role, active, _) =
      provision_new db db' fresh_id name display_name email default_admin u absent h in
    ground arith

module _ (db : Db) (name : String) (display_name email : Option String) (i : ℕ) where
  role_after_touch :
      (us : List User) (v : User)
      → find (λ u. u.id == i) us ≡ some v
      → (w : User) × (find
            (λ u. u.id == i)
            (map (λ u. if u.cas_username == name then seen_again db display_name email u else u) us)
          ≡ some w)
        × (w.role ≡ v.role)
        × (w.active ≡ v.active)
  role_after_touch [] v h = cc
  role_after_touch (u ∷ us) v h = elim (Bool-cases (u.id == i)) [
    | inl e ↦ (
      if u.cas_username == name then seen_again db display_name email u else u,
      ground arith,
      ground arith,
      ground arith,
    )
    | inr e ↦ let (w, f, r, a) = role_after_touch us v (ground arith) in (w, ground arith, r, a)
  ]

  found_after_append :
      (us : List User) (v n : User)
      → find (λ u. u.id == i) us ≡ some v
      → find (λ u. u.id == i) (us ++ n ∷ []) ≡ some v
  found_after_append [] v n h = cc
  found_after_append (u ∷ us) v n h = ground (arith, found_after_append us v n)

-- No login changes the role or the activity of an account that exists, the default admin's own
-- later logins included: a demotion stays, and a deactivation too.
pub provision_or_get-sticky :
    (db db' : Db) (fresh_id : ℕ) (name : String) (display_name email : Option String)
    (default_admin : String) (u : User) (i : ℕ) (v : User)
    → provision_or_get db fresh_id name display_name email default_admin ≡ ok (u, db')
    → get_by_id db i ≡ some v
    → (w : User) × (get_by_id db' i ≡ some w) × (w.role ≡ v.role) × (w.active ≡ v.active)
unfolding provision_or_get get_by_id
provision_or_get-sticky db db' fresh_id name display_name email default_admin u i v h found =
    elim (Option-cases (find (λ x. x.cas_username == name) db.users)) [
      | inr (x, e) ↦
          let (w, f, r, a) = role_after_touch db name display_name email i db.users v found in
          (w, ground arith, r, a)
      | inl e ↦
          let (_, _, users) =
            provision_new db db' fresh_id name display_name email default_admin u e h in
          (
            v,
            rw users (found_after_append db name display_name email i db.users v u found),
            refl,
            refl,
          )
    ]
