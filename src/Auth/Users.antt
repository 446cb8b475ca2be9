-- ===== src/Auth/Users.antt =====
-- core/src/services/user_service.py: the SQL statements as functions on the table.
pub mod Login
use recruiter_pilot.Auth.Model.{Db, Result, User, err, integrity, ok, role_eq}
use recruiter_pilot.Base.{
  Bool, List, Option, String, [], any, filter, find, if◌then◌else◌, length, list_eq, map, nat_eq,
  none, option_eq, some, string_eq, true, ℕ, ◌&&◌, ◌++◌, ◌==◌, ◌∷◌,
}

unfoldable pub get_by_id : Db → ℕ → Option User
get_by_id db user_id = find (λ u. u.id == user_id) db.users

abbrev pub coalesce : Option String → Option String → Option String
coalesce none old = old
coalesce (some new) old = some new

-- the `DO UPDATE SET` of `_PROVISION_SQL`: the role is not among the columns
abbrev pub seen_again : Db → Option String → Option String → User → User
seen_again db display_name email u = record u {
  display_name = coalesce display_name u.display_name;
  email = coalesce email u.email;
  last_seen_at = db.now;
}

-- `fresh_id` is what `gen_random_uuid()` draws; the primary key refuses a repeated one
unfoldable pub provision_or_get :
    Db → ℕ → String → Option String → Option String → String → Result (User × Db)
provision_or_get db fresh_id cas_username display_name email default_admin =
    let created : User = record {
      id = fresh_id;
      cas_username = cas_username;
      display_name = display_name;
      email = email;
      role = if cas_username == default_admin then some "admin" else none;
      active = true;
      created_at = db.now;
      last_seen_at = db.now;
    } in
    elim (find (λ u. u.cas_username == cas_username) db.users) [
      | some u ↦ ok (
        seen_again db display_name email u,
        record db {
          users =
              map
                (λ v.
                  if v.cas_username == cas_username then seen_again db display_name email v else v)
                db.users;
        },
      )
      | none ↦
          if any (λ u. u.id == fresh_id) db.users
          then err integrity
          else ok (created, record db { users = db.users ++ created ∷ [] })
    ]

abbrev pub assign_role : ℕ → String → User → User
assign_role user_id role u = if u.id == user_id then record u { role = some role } else u

-- `UPDATE users SET role = $2 WHERE id = $1`
unfoldable pub set_role : Db → ℕ → String → Db
set_role db user_id role = record db { users = map (assign_role user_id role) db.users }

abbrev pub is_active_admin : User → Bool
is_active_admin u = u.role == some "admin" && u.active

abbrev pub active_admins : List User → ℕ
active_admins us = length (filter is_active_admin us)

unfoldable pub count_active_admins : Db → ℕ
count_active_admins db = active_admins db.users
