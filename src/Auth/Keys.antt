-- ===== src/Auth/Keys.antt =====
-- `resolve_role` and `require_role` of core/src/api/deps.py, and the startup check of the role keys
-- in core/src/settings.py. Keys are compared as whole texts: `compare_digest` on UTF-8 bytes.
pub mod Exact
use recruiter_pilot.Auth.Model.{
  Result, Role, Settings, admin, auditor, err, forbidden, hiring_manager, ok, recruiter,
  refused_start, role_eq, unauthorized,
}
use recruiter_pilot.Base.{
  Bool, List, Option, String, [], any, contains, if◌then◌else◌, list_eq, nat_eq, none, not,
  option_eq, some, string_eq, ◌&&◌, ◌==◌, ◌∷◌,
}
use recruiter_pilot.Base.Dict.{Dict, insert, lookup}

-- a Python text is true unless it is empty
abbrev pub truthy : String → Bool
truthy s = not (s == "")

abbrev pub role_keys : Settings → List String
role_keys s =
    s.api_key_admin ∷ s.api_key_recruiter ∷ s.api_key_hiring_manager ∷ s.api_key_auditor ∷ []

unfoldable pub auth_enabled : Settings → Bool
auth_enabled s = any truthy (role_keys s)

unfoldable pub configured_role_keys : Settings → List (Role × String)
configured_role_keys s =
    (admin, s.api_key_admin)
    ∷ (recruiter, s.api_key_recruiter)
    ∷ (hiring_manager, s.api_key_hiring_manager)
    ∷ (auditor, s.api_key_auditor)
    ∷ []

abbrev pub key_match : String → Option Role → Role → String → Option Role
key_match presented matched role configured =
    if truthy configured && presented == configured then some role else matched

-- the loop of `resolve_role`: every configured key is compared, and the last match stays
unfoldable pub match_keys : String → Option Role → List (Role × String) → Option Role
match_keys presented matched [] = matched
match_keys presented matched ((role, configured) ∷ rest) =
    match_keys presented (key_match presented matched role configured) rest

abbrev pub text_or_empty : Option String → String
text_or_empty none = ""
text_or_empty (some k) = k

abbrev pub or_unauthorized : Option Role → Result Role
or_unauthorized none = err unauthorized
or_unauthorized (some r) = ok r

unfoldable pub resolve_role : Settings → Option String → Result Role
resolve_role s x_api_key =
    if auth_enabled s
    then or_unauthorized (match_keys (text_or_empty x_api_key) none (configured_role_keys s))
    else ok admin

-- the `_check` of `require_role(*allowed)`
unfoldable pub require_role : List Role → Role → Result Role
require_role allowed role = if contains allowed role then ok role else err forbidden

-- the loop over the configured keys: `configured` maps a key's value to its variable
unfoldable pub check_collisions : Dict String String → List (String × String) → Result (Unit {0})
check_collisions configured [] = ok tt
check_collisions configured ((env_var, value) ∷ rest) =
    let later = check_collisions (insert value env_var configured) rest in
    let skipped = check_collisions configured rest in
    if truthy value
    then (elim (lookup value configured) [ none ↦ later | some previous ↦ err refused_start ])
    else skipped

-- `zip(_ROLE_KEY_ENV_VARS, …)`
abbrev pub named_role_keys : Settings → List (String × String)
named_role_keys s =
    ("API_KEY_ADMIN", s.api_key_admin)
    ∷ ("API_KEY_RECRUITER", s.api_key_recruiter)
    ∷ ("API_KEY_HIRING_MANAGER", s.api_key_hiring_manager)
    ∷ ("API_KEY_AUDITOR", s.api_key_auditor)
    ∷ []

unfoldable pub validate_startup_auth_config : Settings → Result (Unit {0})
validate_startup_auth_config s =
    if s.cas_enabled && not (auth_enabled s)
    then err refused_start
    else if truthy s.api_key
    then err refused_start
    else check_collisions [] (
        ("API_KEY_ADMIN", s.api_key_admin)
        ∷ ("API_KEY_RECRUITER", s.api_key_recruiter)
        ∷ ("API_KEY_HIRING_MANAGER", s.api_key_hiring_manager)
        ∷ ("API_KEY_AUDITOR", s.api_key_auditor)
        ∷ [])
