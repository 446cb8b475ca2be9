-- ===== src/Base/Equality.antt =====
-- Python's `==` and `in`, for the types whose values the program compares.
use text.Mathlib.Text.{◌==◌ as str_eq}
use text.Mathlib.TextEquality.{eq_iff}
use recruiter_pilot.Base.Library.{
  Bool, List, Option, String, [], arith, false, inl, inr, none, refl, some, true, ℕ, ◌&&◌, ◌++◌,
  ◌||◌, ◌↔◌, ◌∷◌, ◌≡◌,
}
use recruiter_pilot.Base.Lists.{any}
use recruiter_pilot.Base.Tests.{Bool-cases, eqb, eqb_iff}

pub record Eq {ℓ} (A : Type ℓ) : Type ℓ where
  pub equals : A → A → Bool
  pub equals_iff : (a b : A) → (equals a b ≡ true) ↔ (a ≡ b)

infix 50 ◌==◌
abbrev pub ◌==◌ {ℓ} : {A : Type ℓ} ⦃e : Eq A⦄ → A → A → Bool
◌==◌ ⦃e⦄ = e.equals

instance abbrev pub nat_eq : Eq ℕ
nat_eq = record { equals = eqb; equals_iff = eqb_iff }

instance abbrev pub string_eq : Eq String
string_eq = record { equals = str_eq; equals_iff = eq_iff }

module _ {ℓ} {A : Type ℓ} ⦃e : Eq A⦄ where
  abbrev pub option_beq : Option A → Option A → Bool
  option_beq none none = true
  option_beq none (some b) = false
  option_beq (some a) none = false
  option_beq (some a) (some b) = a == b

  pub option_beq_iff : (a b : Option A) → (option_beq a b ≡ true) ↔ (a ≡ b)
  option_beq_iff none none = ground arith
  option_beq_iff none (some b) = ground arith
  option_beq_iff (some a) none = ground arith
  option_beq_iff (some a) (some b) = ground (arith, e.equals_iff a b)

  instance abbrev pub option_eq : Eq (Option A)
  option_eq = record { equals = option_beq; equals_iff = option_beq_iff }

  abbrev pub list_beq : List A → List A → Bool
  list_beq [] [] = true
  list_beq [] (y ∷ ys) = false
  list_beq (x ∷ xs) [] = false
  list_beq (x ∷ xs) (y ∷ ys) = x == y && list_beq xs ys

  pub list_beq_iff : (a b : List A) → (list_beq a b ≡ true) ↔ (a ≡ b)
  list_beq_iff [] [] = ground arith
  list_beq_iff [] (y ∷ ys) = ground arith
  list_beq_iff (x ∷ xs) [] = ground arith
  list_beq_iff (x ∷ xs) (y ∷ ys) = ground (arith, e.equals_iff x y, list_beq_iff xs ys)

  instance abbrev pub list_eq : Eq (List A)
  list_eq = record { equals = list_beq; equals_iff = list_beq_iff }

  pub ==_refl : (a : A) → (a == a) ≡ true
  ==_refl a = (e.equals_iff a a).1 refl

  -- `a in xs`
  abbrev pub contains : List A → A → Bool
  contains [] a = false
  contains (x ∷ xs) a = a == x || contains xs a

  pub contains-append :
      (xs ys : List A) (a : A) → contains (xs ++ ys) a ≡ (contains xs a || contains ys a)
  contains-append [] ys a = refl
  contains-append (x ∷ xs) ys a = ground (arith, contains-append xs ys a)

-- a member that passes a test
pub any-found {ℓ} :
    {A : Type ℓ} ⦃e : Eq A⦄ (p : A → Bool) (xs : List A)
    → any p xs ≡ true
    → (x : A) × (contains xs x ≡ true) × (p x ≡ true)
any-found p [] h = ground arith
any-found p (x ∷ xs) h = elim (Bool-cases (p x)) [
  | inl holds ↦ (x, rw (==_refl x) refl, holds)
  | inr fails ↦ let (y, among, passes) = any-found p xs (ground arith) in (y, ground arith, passes)
]
