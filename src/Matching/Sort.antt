-- ===== src/Matching/Sort.antt =====
-- Python's `list.sort(key=…, reverse=True)`: descending, and stable.
use mathlib.Core.List.Perm
use mathlib.Core.List.{Perm}
use recruiter_pilot.Base.{
  All, All-map, Bool-cases, List, Pairwise, [], ap, arith, false, if◌then◌else◌, inl, inr, length,
  map, refl, true, ◌++◌, ◌+◌, ◌∷◌, ◌≡◌,
}
use recruiter_pilot.Matching.Float.{Float, IsOrdered, ◌≼◌}

module _ {ℓ} {A : Type ℓ} {F : Type 0} ⦃fl : Float F⦄ (key : A → F) where
  -- before the first element that is smaller
  unfoldable pub insert_descending : A → List A → List A
  insert_descending x [] = x ∷ []
  insert_descending x (y ∷ ys) =
      let rest = insert_descending x ys in if fl.lt (key x) (key y) then y ∷ rest else x ∷ y ∷ ys

  unfoldable pub sort_descending : List A → List A
  unfolding insert_descending
  sort_descending [] = []
  sort_descending (x ∷ xs) = insert_descending x (sort_descending xs)

  unfoldable pub IsDescending : List A → Type 0
  IsDescending [] = Unit
  IsDescending (x ∷ xs) = All (λ y. key y ≼ key x) xs × IsDescending xs

  pub All-insert_descending {κ} :
      (P : A → Type κ) (x : A) (xs : List A) → P x → All P xs → All P (insert_descending x xs)
  unfolding insert_descending
  All-insert_descending P x [] h k = (h, tt)
  All-insert_descending P x (y ∷ ys) h k = elim (Bool-cases (fl.lt (key x) (key y))) [
    | inl e ↦ rw e (k.0, All-insert_descending P x ys h k.1)
    | inr e ↦ rw e (h, k)
  ]

  pub All-sort_descending {κ} :
      (P : A → Type κ) (xs : List A) → All P xs → All P (sort_descending xs)
  unfolding sort_descending
  All-sort_descending P [] h = tt
  All-sort_descending P (x ∷ xs) h =
      All-insert_descending P x (sort_descending xs) h.0 (All-sort_descending P xs h.1)

  below-All :
      (ord : IsOrdered fl) (x y : A) (ys : List A)
      → key y ≼ key x
      → All (λ z. key z ≼ key y) ys
      → All (λ z. key z ≼ key x) ys
  below-All ord x y ys h k =
      All-map (λ z. key z ≼ key y) (λ z. key z ≼ key x)
        (λ z e. ord.trans_le (key z) (key y) (key x) e h) ys k

  pub not_lt-le : (ord : IsOrdered fl) (x y : A) → fl.lt (key x) (key y) ≡ false → key y ≼ key x
  not_lt-le ord x y h = ground (arith, ord.lt-eq-not-le (key x) (key y))

  pub lt-le : (ord : IsOrdered fl) (x y : A) → fl.lt (key x) (key y) ≡ true → key x ≼ key y
  lt-le ord x y h = ground (arith, ord.lt-eq-not-le (key x) (key y), ord.total_le (key y) (key x))

  pub le-not_lt : (ord : IsOrdered fl) (x y : A) → key y ≼ key x → fl.lt (key x) (key y) ≡ false
  le-not_lt ord x y h = ground (arith, ord.lt-eq-not-le (key x) (key y))

  insert_descending-IsDescending :
      (ord : IsOrdered fl) (x : A) (xs : List A)
      → IsDescending xs
      → IsDescending (insert_descending x xs)
  unfolding insert_descending IsDescending
  insert_descending-IsDescending ord x [] h = (tt, tt)
  insert_descending-IsDescending ord x (y ∷ ys) h = elim (Bool-cases (fl.lt (key x) (key y))) [
    | inl e ↦ rw e (
      All-insert_descending (λ z. key z ≼ key y) x ys (lt-le ord x y e) h.0,
      insert_descending-IsDescending ord x ys h.1,
    )
    | inr e ↦ rw e ((not_lt-le ord x y e, below-All ord x y ys (not_lt-le ord x y e) h.0), h)
  ]

  pub sort_descending-IsDescending :
      (ord : IsOrdered fl) (xs : List A) → IsDescending (sort_descending xs)
  unfolding sort_descending IsDescending
  sort_descending-IsDescending ord [] = tt
  sort_descending-IsDescending ord (x ∷ xs) =
      insert_descending-IsDescending ord x (sort_descending xs)
        (sort_descending-IsDescending ord xs)

  insert_descending_front :
      (ord : IsOrdered fl) (x : A) (xs : List A)
      → All (λ y. key y ≼ key x) xs
      → insert_descending x xs ≡ x ∷ xs
  unfolding insert_descending
  insert_descending_front ord x [] h = refl
  insert_descending_front ord x (y ∷ ys) h = rw (le-not_lt ord x y h.0) refl

  insert_descending-append :
      (ord : IsOrdered fl) (x : A) (xs ys : List A)
      → All (λ y. key y ≼ key x) ys
      → insert_descending x (xs ++ ys) ≡ insert_descending x xs ++ ys
  unfolding insert_descending
  insert_descending-append ord x [] ys h = insert_descending_front ord x ys h
  insert_descending-append ord x (z ∷ zs) ys h = elim (Bool-cases (fl.lt (key x) (key z))) [
    | inl e ↦ rw e (ap (◌∷◌ z) (insert_descending-append ord x zs ys h))
    | inr e ↦ rw e refl
  ]

  -- what is below everything before it stays behind it
  pub sort_descending-append :
      (ord : IsOrdered fl) (xs ys : List A)
      → All (λ x. All (λ y. key y ≼ key x) ys) xs
      → sort_descending (xs ++ ys) ≡ sort_descending xs ++ sort_descending ys
  unfolding sort_descending
  sort_descending-append ord [] ys h = refl
  sort_descending-append ord (x ∷ xs) ys h = rw (sort_descending-append ord xs ys h.1) (
      insert_descending-append ord x (sort_descending xs) (sort_descending ys)
        (All-sort_descending (λ y. key y ≼ key x) ys h.0))

  pub sort_descending_sorted :
      (ord : IsOrdered fl) (xs : List A) → IsDescending xs → sort_descending xs ≡ xs
  unfolding sort_descending IsDescending
  sort_descending_sorted ord [] h = refl
  sort_descending_sorted ord (x ∷ xs) h =
      rw (sort_descending_sorted ord xs h.1) (insert_descending_front ord x xs h.0)

  length-insert_descending : (x : A) (xs : List A) → length (insert_descending x xs) ≡ length xs + 1
  unfolding insert_descending
  length-insert_descending x [] = refl
  length-insert_descending x (y ∷ ys) = ground (arith, length-insert_descending x ys)

  pub length-sort_descending : (xs : List A) → length (sort_descending xs) ≡ length xs
  unfolding sort_descending
  length-sort_descending [] = refl
  length-sort_descending (x ∷ xs) =
      ground (arith, length-insert_descending x (sort_descending xs), length-sort_descending xs)

  insert_descending-Perm : (x : A) (xs : List A) → Perm (insert_descending x xs) (x ∷ xs)
  unfolding insert_descending
  insert_descending-Perm x [] = Perm.rfl
  insert_descending-Perm x (y ∷ ys) = elim (Bool-cases (fl.lt (key x) (key y))) [
    | inl e ↦ rw e (Perm.trans (Perm.cons y (insert_descending-Perm x ys)) (Perm.swap x y ys))
    | inr e ↦ rw e Perm.rfl
  ]

  pub sort_descending-Perm : (xs : List A) → Perm (sort_descending xs) xs
  unfolding sort_descending
  sort_descending-Perm [] = Perm.rfl
  sort_descending-Perm (x ∷ xs) =
      Perm.trans (insert_descending-Perm x (sort_descending xs))
        (Perm.cons x (sort_descending-Perm xs))

  pub IsDescending-Pairwise : (xs : List A) → IsDescending xs → Pairwise (λ x y. key y ≼ key x) xs
  unfolding IsDescending
  IsDescending-Pairwise [] h = tt
  IsDescending-Pairwise (x ∷ xs) h = (h.0, IsDescending-Pairwise xs h.1)

  pub Pairwise-IsDescending : (xs : List A) → Pairwise (λ x y. key y ≼ key x) xs → IsDescending xs
  unfolding IsDescending
  Pairwise-IsDescending [] h = tt
  Pairwise-IsDescending (x ∷ xs) h = (h.0, Pairwise-IsDescending xs h.1)

  insert_descending-Pairwise {κ} :
      (R : A → A → Type κ)
      → ((x y : A) → R x y → R y x)
      → (x : A) (xs : List A) → All (R x) xs
      → Pairwise R xs
      → Pairwise R (insert_descending x xs)
  unfolding insert_descending
  insert_descending-Pairwise R turn x [] h k = (tt, tt)
  insert_descending-Pairwise R turn x (y ∷ ys) h k = elim (Bool-cases (fl.lt (key x) (key y))) [
    | inl e ↦ rw e (
      All-insert_descending (R y) x ys (turn x y h.0) k.0,
      insert_descending-Pairwise R turn x ys h.1 k.1,
    )
    | inr e ↦ rw e (h, k)
  ]

  -- what holds of every two elements, in either order, holds of the sorted list too
  pub sort_descending-Pairwise {κ} :
      (R : A → A → Type κ)
      → ((x y : A) → R x y → R y x)
      → (xs : List A) → Pairwise R xs
      → Pairwise R (sort_descending xs)
  unfolding sort_descending
  sort_descending-Pairwise R turn [] h = tt
  sort_descending-Pairwise R turn (x ∷ xs) h =
      insert_descending-Pairwise R turn x (sort_descending xs) (All-sort_descending (R x) xs h.0)
        (sort_descending-Pairwise R turn xs h.1)

module _ {ℓ κ} {A : Type ℓ} {B : Type κ} {F : Type 0} ⦃fl : Float F⦄ (k : A → F) (key : B → F)
    (f : A → B) (same : (a : A) → key (f a) ≡ k a) where
  insert_descending-map :
      (x : A) (xs : List A)
      → insert_descending key (f x) (map f xs) ≡ map f (insert_descending k x xs)
  unfolding insert_descending
  insert_descending-map x [] = refl
  insert_descending-map x (y ∷ ys) =
      rw (same x, same y)
        (elim (Bool-cases (fl.lt (k x) (k y))) [
          | inl e ↦ rw e (ap (◌∷◌ (f y)) (insert_descending-map x ys))
          | inr e ↦ rw e refl
        ])

  -- sorting what a function gives, when the keys are the same
  pub sort_descending-map :
      (xs : List A) → sort_descending key (map f xs) ≡ map f (sort_descending k xs)
  unfolding sort_descending
  sort_descending-map [] = refl
  sort_descending-map (x ∷ xs) =
      rw (sort_descending-map xs) (insert_descending-map x (sort_descending k xs))
