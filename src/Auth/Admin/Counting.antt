-- ===== src/Auth/Admin/Counting.antt =====
-- How one role assignment changes the number of active admins.
use recruiter_pilot.Auth.Model.{User, role_eq}
use recruiter_pilot.Auth.Users.{active_admins, assign_role}
use recruiter_pilot.Base.{
  Bool, Bool-cases, List, String, [], any, arith, eqb, eqb_iff, false, find, inl, inr, list_eq, map,
  nat_eq, option_eq, refl, some, string_eq, true, ℕ, ◌+◌, ◌==◌, ◌∷◌, ◌≡◌, ◌≤◌,
}

abbrev pub has_id : ℕ → List User → Bool
has_id i us = any (λ u. u.id == i) us

-- the primary key of `users`
abbrev pub UniqueIds : List User → Type 0
UniqueIds [] = Unit
UniqueIds (u ∷ us) = (has_id u.id us ≡ false) × UniqueIds us

module _ (i : ℕ) (role : String) where
  assign_absent : (us : List User) → has_id i us ≡ false → map (assign_role i role) us ≡ us
  assign_absent [] h = refl
  assign_absent (u ∷ us) h = ground (arith, assign_absent us)

  has_id-assign : (j : ℕ) (us : List User) → has_id j (map (assign_role i role) us) ≡ has_id j us
  has_id-assign j [] = refl
  has_id-assign j (u ∷ us) = ground (arith, has_id-assign j us)

  pub UniqueIds-assign : (us : List User) → UniqueIds us → UniqueIds (map (assign_role i role) us)
  UniqueIds-assign [] h = tt
  UniqueIds-assign (u ∷ us) h = (ground (arith, has_id-assign u.id us), UniqueIds-assign us h.1)

  -- promoting loses no admin
  pub active_admins-promote :
      (us : List User)
      → (role == "admin") ≡ true
      → active_admins us ≤ active_admins (map (assign_role i role) us)
  active_admins-promote [] h = omega arith
  active_admins-promote (u ∷ us) h = ground (arith, active_admins-promote us h)

  -- an assignment to one id loses at most one admin
  pub active_admins-assign :
      (us : List User)
      → UniqueIds us
      → active_admins us ≤ active_admins (map (assign_role i role) us) + 1
  active_admins-assign [] h = omega arith
  active_admins-assign (u ∷ us) h = elim (Bool-cases (eqb u.id i)) [
    | inl e ↦ ground (arith, assign_absent us (rw (← (eqb_iff u.id i).0 e) h.0))
    | inr e ↦ ground (arith, active_admins-assign us h.1)
  ]

  -- and none where the user is no admin
  pub active_admins-other :
      (us : List User) (target : User)
      → UniqueIds us
      → find (λ u. u.id == i) us ≡ some target
      → (target.role == some "admin") ≡ false
      → active_admins us ≤ active_admins (map (assign_role i role) us)
  active_admins-other [] target h found other = omega arith
  active_admins-other (u ∷ us) target h found other = elim (Bool-cases (eqb u.id i)) [
    | inl e ↦ ground (arith, assign_absent us (rw (← (eqb_iff u.id i).0 e) h.0))
    | inr e ↦ ground (arith, active_admins-other us target h.1)
  ]
