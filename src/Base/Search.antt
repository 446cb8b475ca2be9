-- ===== src/Base/Search.antt =====
-- Searching a list whose elements were changed one by one, as an update of a table does.
use recruiter_pilot.Base.Equality.{list_eq, nat_eq, option_eq, string_eq}
use recruiter_pilot.Base.Library.{
  Bool, List, [], arith, false, inl, inr, map, refl, some, true, ◌&&◌, ◌∷◌, ◌≡◌,
}
use recruiter_pilot.Base.Lists.{any, find}
use recruiter_pilot.Base.Tests.{Bool-cases, if◌then◌else◌, is_some}

pub find-map_same {ℓ} :
    {A : Type ℓ} (p : A → Bool) (f : A → A)
    → ((x : A) → p (f x) ≡ p x)
    → (xs : List A) → is_some (find p (map f xs)) ≡ is_some (find p xs)
find-map_same p f h [] = refl
find-map_same p f h (x ∷ xs) = ground (arith, find-map_same p f h xs, h x)

pub none-left {ℓ} :
    {A : Type ℓ} (p : A → Bool) (f : A → A)
    → ((x : A) → p (f x) ≡ false)
    → (xs : List A) → any p (map (λ x. if p x then f x else x) xs) ≡ false
none-left p f h [] = refl
none-left p f h (x ∷ xs) = ground (arith, none-left p f h xs, h x)

pub any-found_where {ℓ} :
    {A : Type ℓ} (p q : A → Bool) (x : A) (xs : List A)
    → find p xs ≡ some x
    → q x ≡ true
    → any (λ y. p y && q y) xs ≡ true
any-found_where p q x [] h k = ground arith
any-found_where p q x (y ∷ ys) h k = ground (arith, any-found_where p q x ys)

pub any-marked {ℓ} :
    {A : Type ℓ} (p q : A → Bool) (f : A → A)
    → ((x : A) → p x ≡ true → q (f x) ≡ true)
    → (xs : List A) → any p xs ≡ true
    → any q (map (λ x. if p x then f x else x) xs) ≡ true
any-marked p q f h [] k = ground arith
any-marked p q f h (x ∷ xs) k = ground (arith, any-marked p q f h xs, h x)

pub find-map {ℓ} :
    {A : Type ℓ} (p : A → Bool) (f : A → A)
    → ((x : A) → p (f x) ≡ p x)
    → (xs : List A) (x : A) → find p xs ≡ some x
    → find p (map f xs) ≡ some (f x)
find-map p f h [] x k = ground arith
find-map p f h (y ∷ ys) x k = ground (arith, h y, find-map p f h ys x)

pub any-map-any {ℓ} :
    {A : Type ℓ} (p q : A → Bool) (f : A → A)
    → ((x : A) → p x ≡ true → q (f x) ≡ true)
    → (xs : List A) → any p xs ≡ true
    → any q (map f xs) ≡ true
any-map-any p q f h [] k = ground arith
any-map-any p q f h (x ∷ xs) k = ground (arith, any-map-any p q f h xs, h x)

pub find-holds {ℓ} :
    {A : Type ℓ} (p : A → Bool) (xs : List A) (x : A) → find p xs ≡ some x → p x ≡ true
find-holds p [] x k = ground arith
find-holds p (y ∷ ys) x k = elim (Bool-cases (p y)) [
  | inl e ↦ ground arith
  | inr e ↦ find-holds p ys x (ground arith)
]
