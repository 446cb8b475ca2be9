-- ===== src/Base/Lists.antt =====
-- Lists measured by native numbers, with Python's `any`, `all` and comprehension filter.
use recruiter_pilot.Base.Library.{
  Bool, List, Option, [], ap, arith, false, inl, inr, map, none, refl, some, suc, true, zero, ℕ,
  ◌&&◌, ◌++◌, ◌+◌, ◌||◌, ◌∷◌, ◌≡◌, ◌≤◌,
}
use recruiter_pilot.Base.Tests.{Bool-cases, if◌then◌else◌}

module _ {ℓ} {A : Type ℓ} where
  abbrev pub length : List A → ℕ
  length [] = 0
  length (x ∷ xs) = suc (length xs)

  abbrev pub any : (A → Bool) → List A → Bool
  any p [] = false
  any p (x ∷ xs) = p x || any p xs

  abbrev pub all : (A → Bool) → List A → Bool
  all p [] = true
  all p (x ∷ xs) = p x && all p xs

  -- `[x for x in xs if p(x)]`
  abbrev pub filter : (A → Bool) → List A → List A
  filter p [] = []
  filter p (x ∷ xs) = let rest = filter p xs in if p x then x ∷ rest else rest

  -- the first element that passes, `next((x for x in xs if p(x)), None)`
  abbrev pub find : (A → Bool) → List A → Option A
  find p [] = none
  find p (x ∷ xs) = if p x then some x else find p xs

  abbrev pub take : ℕ → List A → List A
  take zero xs = []
  take (suc n) [] = []
  take (suc n) (x ∷ xs) = x ∷ take n xs

  abbrev pub drop : ℕ → List A → List A
  drop zero xs = xs
  drop (suc n) [] = []
  drop (suc n) (x ∷ xs) = drop n xs

  -- A predicate by recursion computes to tuples, which the tactics read and build.
  abbrev pub All {κ} : (A → Type κ) → List A → Type κ
  All P [] = Unit
  All P (x ∷ xs) = P x × All P xs

module _ {ℓ} {A : Type ℓ} where
  pub length-append : (xs ys : List A) → length (xs ++ ys) ≡ length xs + length ys
  length-append [] ys = omega arith
  length-append (x ∷ xs) ys = omega (arith, length-append xs ys)

  pub All-map {κ μ} :
      (P : A → Type κ) (Q : A → Type μ)
      → ((x : A) → P x → Q x)
      → (xs : List A) → All P xs
      → All Q xs
  All-map P Q f [] h = tt
  All-map P Q f (x ∷ xs) h = (f x h.0, All-map P Q f xs h.1)

  pub All-filter_self : (p : A → Bool) (xs : List A) → All (λ x. p x ≡ true) (filter p xs)
  All-filter_self p [] = tt
  All-filter_self p (x ∷ xs) = elim (Bool-cases (p x)) [
    | inl e ↦ rw e (e, All-filter_self p xs)
    | inr e ↦ rw e (All-filter_self p xs)
  ]

  -- a property that a function gives to everything it returns
  pub All-mapped {κ μ} :
      {B : Type κ} (f : A → B) (P : B → Type μ)
      → ((x : A) → P (f x))
      → (xs : List A) → All P (map f xs)
  All-mapped f P h [] = tt
  All-mapped f P h (x ∷ xs) = (h x, All-mapped f P h xs)

  pub filter-filter : (p : A → Bool) (xs : List A) → filter p (filter p xs) ≡ filter p xs
  filter-filter p [] = refl
  filter-filter p (x ∷ xs) = elim (Bool-cases (p x)) [
    | inl e ↦ rw e (rw e (ap (◌∷◌ x) (filter-filter p xs)))
    | inr e ↦ rw e (filter-filter p xs)
  ]

  pub map-idempotent :
      (f : A → A) → ((x : A) → f (f x) ≡ f x) → (xs : List A) → map f (map f xs) ≡ map f xs
  map-idempotent f h [] = refl
  map-idempotent f h (x ∷ xs) = rw (h x) (rw (map-idempotent f h xs) refl)

  pub filter-All : (p : A → Bool) (xs : List A) → All (λ x. p x ≡ true) xs → filter p xs ≡ xs
  filter-All p [] h = refl
  filter-All p (x ∷ xs) h = rw h.0 (rw (filter-All p xs h.1) refl)

  pub length-filter_disjoint :
      (p q : A → Bool)
      → ((x : A) → p x ≡ true → q x ≡ false)
      → (xs : List A) → length (filter p xs) + length (filter q xs) ≤ length xs
  length-filter_disjoint p q h [] = omega arith
  length-filter_disjoint p q h (x ∷ xs) = ground (arith, length-filter_disjoint p q h xs, h x)

  pub length-map-filter {κ} :
      {B : Type κ} (p : A → Bool) (f : A → B) (xs : List A)
      → length (map f (filter p xs)) ≤ length xs
  length-map-filter p f [] = omega arith
  length-map-filter p f (x ∷ xs) = elim (Bool-cases (p x)) [
    | inl e ↦ rw e (omega (arith, length-map-filter p f xs))
    | inr e ↦ rw e (omega (arith, length-map-filter p f xs))
  ]

  -- through a function
  pub All-image {κ μ} :
      {B : Type κ} (f : A → B) (P : B → Type μ) (xs : List A)
      → All (λ x. P (f x)) xs
      → All P (map f xs)
  All-image f P [] h = tt
  All-image f P (x ∷ xs) h = (h.0, All-image f P xs h.1)

  pub All-map₂ {κ μ ν} :
      (P : A → Type κ) (Q : A → Type μ) (R : A → Type ν)
      → ((x : A) → P x → Q x → R x)
      → (xs : List A) → All P xs
      → All Q xs
      → All R xs
  All-map₂ P Q R f [] h k = tt
  All-map₂ P Q R f (x ∷ xs) h k = (f x h.0 k.0, All-map₂ P Q R f xs h.1 k.1)

  pub map-append {κ} :
      {B : Type κ} (f : A → B) (xs ys : List A) → map f (xs ++ ys) ≡ map f xs ++ map f ys
  map-append f [] ys = refl
  map-append f (x ∷ xs) ys = ap (◌∷◌ (f x)) (map-append f xs ys)

  pub map-map {κ μ} :
      {B : Type κ} {C : Type μ} (f : A → B) (g : B → C) (xs : List A)
      → map g (map f xs) ≡ map (λ x. g (f x)) xs
  map-map f g [] = refl
  map-map f g (x ∷ xs) = ap (◌∷◌ (g (f x))) (map-map f g xs)

  pub length-map {κ} : {B : Type κ} (f : A → B) (xs : List A) → length (map f xs) ≡ length xs
  length-map f [] = refl
  length-map f (x ∷ xs) = ap suc (length-map f xs)

  pub length-filter-map_same :
      (p : A → Bool) (f : A → A)
      → ((x : A) → p (f x) ≡ p x)
      → (xs : List A) → length (filter p (map f xs)) ≡ length (filter p xs)
  length-filter-map_same p f h [] = refl
  length-filter-map_same p f h (x ∷ xs) = ground (arith, length-filter-map_same p f h xs, h x)

  pub length-filter-map-le :
      (p : A → Bool) (f : A → A)
      → ((x : A) → p (f x) ≡ true → p x ≡ true)
      → (xs : List A) → length (filter p (map f xs)) ≤ length (filter p xs)
  length-filter-map-le p f h [] = omega arith
  length-filter-map-le p f h (x ∷ xs) = ground (arith, length-filter-map-le p f h xs, h x)

  pub take-drop : (n : ℕ) (xs : List A) → take n xs ++ drop n xs ≡ xs
  take-drop zero [] = refl
  take-drop (suc n) [] = refl
  take-drop zero (x ∷ xs) = refl
  take-drop (suc n) (x ∷ xs) = ap (◌∷◌ x) (take-drop n xs)

  pub length-take : (n : ℕ) (xs : List A) → n ≤ length xs → length (take n xs) ≡ n
  length-take zero xs h = ground arith
  length-take (suc n) [] h = ground arith
  length-take (suc n) (x ∷ xs) h = ground (arith, length-take n xs)

  All-drop {κ} : (P : A → Type κ) (n : ℕ) (xs : List A) → All P xs → All P (drop n xs)
  All-drop P zero xs h = h
  All-drop P (suc n) [] h = tt
  All-drop P (suc n) (x ∷ xs) h = All-drop P n xs h.1

  abbrev pub Pairwise {κ} : (A → A → Type κ) → List A → Type κ
  Pairwise R [] = Unit
  Pairwise R (x ∷ xs) = All (R x) xs × Pairwise R xs

  pub Pairwise-split {κ} :
      (R : A → A → Type κ) (n : ℕ) (xs : List A)
      → Pairwise R xs
      → All (λ x. All (R x) (drop n xs)) (take n xs) × Pairwise R (drop n xs)
  Pairwise-split R zero xs h = (tt, h)
  Pairwise-split R (suc n) [] h = (tt, tt)
  Pairwise-split R (suc n) (x ∷ xs) h =
      let (across, behind) = Pairwise-split R n xs h.1 in
      ((All-drop (R x) n xs h.0, across), behind)

  pub All-swap {κ μ} :
      {B : Type κ} (R : A → B → Type μ) (xs : List A) (ys : List B)
      → All (λ x. All (R x) ys) xs
      → All (λ y. All (λ x. R x y) xs) ys
  All-swap R xs [] h = tt
  All-swap R xs (y ∷ ys) h =
      (All-map _ _ (λ x k. k.0) xs h, All-swap R xs ys (All-map _ _ (λ x k. k.1) xs h))

  pub All-append {κ} : (P : A → Type κ) (xs ys : List A) → All P xs → All P ys → All P (xs ++ ys)
  All-append P [] ys h k = k
  All-append P (x ∷ xs) ys h k = (h.0, All-append P xs ys h.1 k)

  pub length-take-le : (n : ℕ) (xs : List A) → length (take n xs) ≤ n
  length-take-le zero xs = omega arith
  length-take-le (suc n) [] = omega arith
  length-take-le (suc n) (x ∷ xs) = omega (arith, length-take-le n xs)

  pub Pairwise-append {κ} :
      (R : A → A → Type κ) (xs : List A) (y : A)
      → Pairwise R xs
      → All (λ x. R x y) xs
      → Pairwise R (xs ++ y ∷ [])
  Pairwise-append R [] y h k = (tt, tt)
  Pairwise-append R (x ∷ xs) y h k =
      (All-append (R x) xs (y ∷ []) h.0 (k.0, tt), Pairwise-append R xs y h.1 k.1)

  pub find-none : (p : A → Bool) (xs : List A) → find p xs ≡ none → All (λ x. p x ≡ false) xs
  find-none p [] h = tt
  find-none p (x ∷ xs) h = elim (Bool-cases (p x)) [
    | inl e ↦ ground arith
    | inr e ↦ (e, find-none p xs (ground arith))
  ]
