-- ===== src/Auth/Gates/Scope.antt =====
-- Which rows a caller sees.
use recruiter_pilot.Auth.Gates.{scoped_user_id_or_403}
use recruiter_pilot.Auth.Model.{Role, User, hiring_manager, ok, role_eq}
use recruiter_pilot.Base.{
  Option, String, arith, list_eq, nat_eq, none, option_beq_iff, option_eq, refl, some, string_eq,
  true, ℕ, ◌↔◌, ◌≡◌, ◌≢◌,
}

-- the role that the session's user has, if there is a session
abbrev pub session_role : Option User → Option String
session_role none = none
session_role (some u) = u.role

-- A caller is unscoped exactly when neither the API key nor the session is a hiring manager's, and
-- is scoped to a user id exactly when it is the id of an active hiring manager's session. So a
-- hiring-manager key without such a session, and a deactivated hiring manager, are refused.
scoped_user_id_or_403_exact :
    (user : Option User) (key_role : Role)
    → ((scoped_user_id_or_403 user key_role ≡ ok none)
        ↔ ((key_role ≢ hiring_manager) × (session_role user ≢ some "hiring_manager")))
      × ((i : ℕ)
          → (scoped_user_id_or_403 user key_role ≡ ok (some i)) ↔ (
              (u : User) × (user ≡ some u)
              × (u.id ≡ i)
              × (u.role ≡ some "hiring_manager")
              × (u.active ≡ true)))
unfolding scoped_user_id_or_403
scoped_user_id_or_403_exact none key_role =
    (ground arith, λ i. (λ h. ground arith, λ (u, e, _, _, _). cc))
scoped_user_id_or_403_exact (some u) key_role = (
  ground (arith, option_beq_iff u.role (some "hiring_manager")),
  λ i. (
    λ h. (
      u,
      refl,
      ground arith,
      ground (arith, option_beq_iff u.role (some "hiring_manager")),
      ground arith,
    ),
    λ (v, e, named, r, a). ground (arith, option_beq_iff u.role (some "hiring_manager")),
  ),
)
