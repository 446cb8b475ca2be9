-- ===== src/Matching/Float.antt =====
-- What the scoring code does with Python's `float`. The type and its operations are an instance
-- argument; the laws that a theorem uses are a record of their own. They hold of the finite binary64
-- values, whose operations round to nearest: rounding keeps the order and keeps small integers.
use native.Mathlib.Nat.{div-mul-le_self, le-div_iff_mul-le, mul_comm}
use recruiter_pilot.Base.{
  Bool, List, [], ap, arith, false, if◌then◌else◌, leb, ltb, not, refl, suc, true, ℕ, ◌*◌, ◌+◌, ◌-◌,
  ◌/◌, ◌<◌, ◌^◌, ◌∷◌, ◌≡◌, ◌≤◌,
}

pub record Float (F : Type 0) : Type 0 where
  -- the float that an int converts to
  pub of_ℕ : ℕ → F
  -- the literal n / d
  pub decimal : ℕ → ℕ → F
  pub add : F → F → F
  pub sub : F → F → F
  pub mul : F → F → F
  pub div : F → F → F
  pub le : F → F → Bool
  pub lt : F → F → Bool

module _ {F : Type 0} ⦃fl : Float F⦄ where
  infix 4 ◌≼◌
  abbrev pub ◌≼◌ : F → F → Type 0
  x ≼ y = fl.le x y ≡ true

  -- `sum(xs)` starts from the int 0
  unfoldable pub sum_from : F → List F → F
  sum_from acc [] = acc
  sum_from acc (x ∷ xs) = sum_from (fl.add acc x) xs

  unfoldable pub sum : List F → F
  unfolding sum_from
  sum xs = sum_from (fl.of_ℕ 0) xs

  -- Python's `min(a, b)` and `max(a, b)` keep the first of two that compare equal
  unfoldable pub min_f : F → F → F
  min_f a b = if fl.lt b a then b else a

  unfoldable pub max_f : F → F → F
  max_f a b = if fl.lt a b then b else a

pub record IsOrdered {F : Type 0} (fl : Float F) : Type 0 where
  pub refl_le : (x : F) → fl.le x x ≡ true
  pub trans_le : (x y z : F) → fl.le x y ≡ true → fl.le y z ≡ true → fl.le x z ≡ true
  pub total_le : (x y : F) → fl.le x y ≡ false → fl.le y x ≡ true
  pub lt-eq-not-le : (x y : F) → fl.lt x y ≡ not (fl.le y x)

pub record IsMonotone {F : Type 0} (fl : Float F) : Type 0 where
  pub ordered : IsOrdered fl
  pub of_ℕ-mono : (m n : ℕ) → m ≤ n → fl.le (fl.of_ℕ m) (fl.of_ℕ n) ≡ true
  pub of_ℕ-pos : (n : ℕ) → fl.lt (fl.of_ℕ 0) (fl.of_ℕ (suc n)) ≡ true
  -- up to `exact` (2 ^ 53 for binary64) an int converts without rounding
  pub exact : ℕ
  pub of_ℕ-add : (m n : ℕ) → m + n ≤ exact → fl.add (fl.of_ℕ m) (fl.of_ℕ n) ≡ fl.of_ℕ (m + n)
  pub add-mono :
      (a b c d : F) → fl.le a b ≡ true → fl.le c d ≡ true → fl.le (fl.add a c) (fl.add b d) ≡ true
  pub le-add : (a b : F) → fl.le (fl.of_ℕ 0) b ≡ true → fl.le a (fl.add a b) ≡ true
  pub sub-le : (a b : F) → fl.le (fl.of_ℕ 0) b ≡ true → fl.le (fl.sub a b) a ≡ true
  pub sub-mono : (a b c : F) → fl.le a b ≡ true → fl.le (fl.sub a c) (fl.sub b c) ≡ true
  pub sub-nonneg : (a b : F) → fl.le b a ≡ true → fl.le (fl.of_ℕ 0) (fl.sub a b) ≡ true
  pub mul-comm : (a b : F) → fl.mul a b ≡ fl.mul b a
  pub mul-nonneg :
      (a b : F)
      → fl.le (fl.of_ℕ 0) a ≡ true
      → fl.le (fl.of_ℕ 0) b ≡ true
      → fl.le (fl.of_ℕ 0) (fl.mul a b) ≡ true
  pub mul-le :
      (a b : F)
      → fl.le (fl.of_ℕ 0) a ≡ true
      → fl.le b (fl.of_ℕ 1) ≡ true
      → fl.le (fl.mul a b) a ≡ true
  pub mul-mono :
      (a b c : F)
      → fl.le (fl.of_ℕ 0) a ≡ true
      → fl.le b c ≡ true
      → fl.le (fl.mul a b) (fl.mul a c) ≡ true
  pub div-mono :
      (a b c : F)
      → fl.le a b ≡ true
      → fl.lt (fl.of_ℕ 0) c ≡ true
      → fl.le (fl.div a c) (fl.div b c) ≡ true
  pub div-nonneg :
      (a b : F)
      → fl.le (fl.of_ℕ 0) a ≡ true
      → fl.lt (fl.of_ℕ 0) b ≡ true
      → fl.le (fl.of_ℕ 0) (fl.div a b) ≡ true
  pub div-le-one :
      (a b : F)
      → fl.le a b ≡ true
      → fl.lt (fl.of_ℕ 0) b ≡ true
      → fl.le (fl.div a b) (fl.of_ℕ 1) ≡ true

-- The laws can be met: billionths, rounded down.
instance abbrev pub nano_float : Float ℕ
nano_float = record {
  of_ℕ = λ n. n * 1000000000;
  decimal = λ n d. n * 1000000000 / d;
  add = λ a b. a + b;
  sub = λ a b. a - b;
  mul = λ a b. a * b / 1000000000;
  div = λ a b. a * 1000000000 / b;
  le = leb;
  lt = ltb;
}

pub nano-IsOrdered : IsOrdered nano_float
nano-IsOrdered = ground arith

div_le : (a b n : ℕ) → a ≤ b * n → 0 < b → a / b ≤ n
div_le a b n h pos = grind arith

scaled_le : (a b : ℕ) → b ≤ 1000000000 → a * b ≤ 1000000000 * a
scaled_le a b h = grind arith

product_mono : (a b c : ℕ) → b ≤ c → a * b ≤ a * c
product_mono a b c h = grind arith

quotient_mono : (a b c : ℕ) → a ≤ b → 0 < c → a / c ≤ b / c
quotient_mono a b c h pos = (le-div_iff_mul-le pos).1 (omega (arith, div-mul-le_self a c, h))

pub nano-IsMonotone : IsMonotone nano_float
nano-IsMonotone = record {
  ordered = nano-IsOrdered;
  of_ℕ-mono = λ m n h. ground arith;
  of_ℕ-pos = λ n. ground arith;
  exact = 2 ^ 53;
  of_ℕ-add = λ m n h. ground arith;
  add-mono = λ a b c d h k. ground arith;
  le-add = λ a b h. ground arith;
  sub-le = λ a b h. ground arith;
  sub-mono = λ a b c h. ground arith;
  sub-nonneg = λ a b h. ground arith;
  mul-comm = λ a b. ap (λ n. n / 1000000000) (mul_comm a b);
  mul-nonneg = λ a b h k. ground arith;
  mul-le = λ a b h k. ground (arith, scaled_le a b);
  mul-mono = λ a b c h k. ground (arith, product_mono a b c);
  div-mono = λ a b c h k. ground (arith, quotient_mono (a * 1000000000) (b * 1000000000) c);
  div-nonneg = λ a b h k. ground arith;
  div-le-one = λ a b h k. ground (arith, div_le (a * 1000000000) b 1000000000);
}

pub nano-exact : nano-IsMonotone.exact ≡ 2 ^ 53
unfolding nano-IsMonotone
nano-exact = refl
