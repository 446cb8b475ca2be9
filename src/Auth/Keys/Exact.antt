-- ===== src/Auth/Keys/Exact.antt =====
-- Which header value opens which role.
use text.Mathlib.TextEquality.{eq_iff}
use recruiter_pilot.Auth.Keys.{
  auth_enabled, check_collisions, configured_role_keys, key_match, match_keys, named_role_keys,
  resolve_role, text_or_empty, truthy, validate_startup_auth_config,
}
use recruiter_pilot.Auth.Model.{
  Role, Settings, admin, auditor, err, hiring_manager, ok, recruiter, role_eq, unauthorized,
}
use recruiter_pilot.Base.{
  All, Bool-cases, List, Option, Option-cases, String, [], arith, inl, inr, list_eq, nat_eq, none,
  option_eq, refl, some, string_eq, sym, true, ◌↔◌, ◌∙◌, ◌∷◌, ◌≡◌, ◌≢◌, ◌⊎◌,
}
use recruiter_pilot.Base.Dict.{Dict, insert, lookup, lookup-insert}

-- the key that the settings give a role
abbrev pub key_of : Settings → Role → String
key_of s admin = s.api_key_admin
key_of s recruiter = s.api_key_recruiter
key_of s hiring_manager = s.api_key_hiring_manager
key_of s auditor = s.api_key_auditor

truthy_iff : (k : String) → (truthy k ≡ true) ↔ (k ≢ "")
truthy_iff k = ground (arith, eq_iff k "")

-- no later value repeats a configured one
abbrev IsDistinct : List (String × String) → Type 0
IsDistinct [] = Unit
IsDistinct ((_, v) ∷ rest) = (truthy v ≡ true → All (λ p. p.1 ≢ v) rest) × IsDistinct rest

check_collisions-fresh :
    (v previous : String) (configured : Dict String String) (pairs : List (String × String))
    → truthy v ≡ true
    → lookup v configured ≡ some previous
    → check_collisions configured pairs ≡ ok tt
    → All (λ p. p.1 ≢ v) pairs
unfolding check_collisions
check_collisions-fresh v previous configured [] t known h = tt
check_collisions-fresh v previous configured ((env_var, w) ∷ rest) t known h = (
  λ same. ground arith,
  elim (Bool-cases (truthy w)) [
    | inl e ↦
        check_collisions-fresh v previous (insert w env_var configured) rest t
          (ground (arith, lookup-insert v w env_var configured, eq_iff v w)) (ground arith)
    | inr e ↦ check_collisions-fresh v previous configured rest t known (ground arith)
  ],
)

check_collisions-IsDistinct :
    (configured : Dict String String) (pairs : List (String × String))
    → check_collisions configured pairs ≡ ok tt
    → IsDistinct pairs
unfolding check_collisions
check_collisions-IsDistinct configured [] h = tt
check_collisions-IsDistinct configured ((env_var, w) ∷ rest) h = (
  λ t.
      check_collisions-fresh w env_var (insert w env_var configured) rest t
        (ground (arith, lookup-insert w w env_var configured, eq_iff w w)) (ground arith),
  elim (Bool-cases (truthy w)) [
    | inl e ↦ check_collisions-IsDistinct (insert w env_var configured) rest (ground arith)
    | inr e ↦ check_collisions-IsDistinct configured rest (ground arith)
  ],
)

keys-IsDistinct :
    (s : Settings) → validate_startup_auth_config s ≡ ok tt → IsDistinct (named_role_keys s)
unfolding validate_startup_auth_config
keys-IsDistinct s valid = check_collisions-IsDistinct [] (named_role_keys s) (ground arith)

-- a configuration that passed the start-up check gives no two roles one key
validated_distinct :
    (s : Settings) (a b : Role)
    → IsDistinct (named_role_keys s)
    → truthy (key_of s a) ≡ true
    → key_of s a ≡ key_of s b
    → a ≡ b
validated_distinct s a b valid full same = ground arith

match_keys_sound :
    (P : Role → Type 0) (presented : String) (matched : Option Role) (pairs : List (Role × String))
    (r : Role)
    → ((q : Role) → matched ≡ some q → P q)
    → All (λ p. truthy p.1 ≡ true → presented ≡ p.1 → P p.0) pairs
    → match_keys presented matched pairs ≡ some r
    → P r
unfolding match_keys
match_keys_sound P presented matched [] r start each h = start r h
match_keys_sound P presented matched ((q, k) ∷ pairs) r start each h =
    match_keys_sound P presented (key_match presented matched q k) pairs r
      (λ q' e. ground (arith, each.0, start q', eq_iff presented k)) each.1 h

abbrev Opens : String → Role → List (Role × String) → Type 0
Opens presented r [] = ⊥
Opens presented r ((q, k) ∷ pairs) =
    ((q ≡ r) × (truthy k ≡ true) × (presented ≡ k)) ⊎ Opens presented r pairs

match_keys_complete :
    (presented : String) (matched : Option Role) (pairs : List (Role × String)) (r : Role)
    → All (λ p. truthy p.1 ≡ true → presented ≡ p.1 → p.0 ≡ r) pairs
    → (matched ≡ some r) ⊎ Opens presented r pairs
    → match_keys presented matched pairs ≡ some r
unfolding match_keys
match_keys_complete presented matched [] r each (inl e) = e
match_keys_complete presented matched [] r each (inr e) = absurd e
match_keys_complete presented matched ((q, k) ∷ pairs) r each start =
    match_keys_complete presented (key_match presented matched q k) pairs r each.1
      (ground (arith, each.0, eq_iff presented k))

module _ (s : Settings) (valid : validate_startup_auth_config s ≡ ok tt) where
  opens : (r : Role) → truthy (key_of s r) ≡ true → Opens (key_of s r) r (configured_role_keys s)
  unfolding configured_role_keys
  opens r full = ground arith

  own_key_alone :
      (r q : Role) (k : String)
      → k ≡ key_of s q
      → truthy (key_of s r) ≡ true
      → truthy k ≡ true
      → key_of s r ≡ k
      → q ≡ r
  own_key_alone r q k named full _ same =
      sym (validated_distinct s r q (keys-IsDistinct s valid) full (same ∙ named))

  resolve_configured :
      (r : Role)
      → truthy (key_of s r) ≡ true
      → match_keys (key_of s r) none (configured_role_keys s) ≡ some r
  unfolding configured_role_keys
  resolve_configured r full =
      match_keys_complete (key_of s r) none (configured_role_keys s) r
        (
          own_key_alone r admin s.api_key_admin refl full,
          (
            own_key_alone r recruiter s.api_key_recruiter refl full,
            (
              own_key_alone r hiring_manager s.api_key_hiring_manager refl full,
              (own_key_alone r auditor s.api_key_auditor refl full, tt),
            ),
          ),
        )
        (inr (opens r full))

opened_by_key :
    (s : Settings) (presented : String) (r : Role)
    → match_keys presented none (configured_role_keys s) ≡ some r
    → (truthy (key_of s r) ≡ true) × (presented ≡ key_of s r)
unfolding configured_role_keys
opened_by_key s presented r h =
    match_keys_sound (λ q. (truthy (key_of s q) ≡ true) × (presented ≡ key_of s q)) presented none
      (configured_role_keys s) r (λ q e. cc)
      (λ t e. (t, e), (λ t e. (t, e), (λ t e. (t, e), (λ t e. (t, e), tt)))) h

resolved_key :
    (s : Settings) (x : Option String) (r : Role)
    → auth_enabled s ≡ true
    → resolve_role s x ≡ ok r
    → (key_of s r ≢ "") × (x ≡ some (key_of s r))
unfolding resolve_role
resolved_key s none r on h = ground (arith, opened_by_key s "" r, truthy_iff (key_of s r))
resolved_key s (some k) r on h = ground (arith, opened_by_key s k r, truthy_iff (key_of s r))

-- With authentication on and the configuration accepted at start-up, a header resolves to a role
-- exactly when the role has a key and the header is that key; every other request, one without the
-- header included, is answered 401.
pub resolve_role_exact :
    (s : Settings) (x_api_key : Option String)
    → validate_startup_auth_config s ≡ ok tt
    → auth_enabled s ≡ true
    → ((r : Role)
        → (resolve_role s x_api_key ≡ ok r) ↔ ((key_of s r ≢ "") × (x_api_key ≡ some (key_of s r))))
      × ((resolve_role s x_api_key ≡ err unauthorized)
          ⊎ ((r : Role) × (resolve_role s x_api_key ≡ ok r)))
unfolding resolve_role
resolve_role_exact s x valid on = (
  λ r. (
    resolved_key s x r on,
    λ (full, e). rw e (ground (arith, truthy_iff (key_of s r), resolve_configured s valid r)),
  ),
  ground (arith, Option-cases (match_keys (text_or_empty x) none (configured_role_keys s))),
)
