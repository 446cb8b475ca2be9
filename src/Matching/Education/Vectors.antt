-- ===== src/Matching/Education/Vectors.antt =====
-- The scaled vector scores.
use recruiter_pilot.Base.{
  All, All-image, All-mapped, All-map₂, Bool-cases, List, [], arith, false, inl, inr, length,
  length-map, refl, true, ◌∷◌, ◌≡◌,
}
use recruiter_pilot.Matching.Education.{
  degenerate_pool_eps, greatest, least, normalise_vector_scores, vector_pool_is_degenerate,
}
use recruiter_pilot.Matching.Float.{Float, IsMonotone, max_f, min_f, ◌≼◌}

module _ {F : Type 0} ⦃fl : Float F⦄ (mono : IsMonotone fl) where
  min_f-left : (a b : F) → min_f a b ≼ a
  unfolding min_f
  min_f-left a b =
      ground
        (arith, mono.ordered.lt-eq-not-le b a, mono.ordered.total_le a b, mono.ordered.refl_le a)

  min_f-right : (a b : F) → min_f a b ≼ b
  unfolding min_f
  min_f-right a b = ground (arith, mono.ordered.lt-eq-not-le b a, mono.ordered.refl_le b)

  max_f-left : (a b : F) → a ≼ max_f a b
  unfolding max_f
  max_f-left a b =
      ground
        (arith, mono.ordered.lt-eq-not-le a b, mono.ordered.total_le b a, mono.ordered.refl_le a)

  max_f-right : (a b : F) → b ≼ max_f a b
  unfolding max_f
  max_f-right a b = ground (arith, mono.ordered.lt-eq-not-le a b, mono.ordered.refl_le b)

  least-first : (x : F) (xs : List F) → least x xs ≼ x
  unfolding least
  least-first x [] = mono.ordered.refl_le x
  least-first x (y ∷ ys) = mono.ordered.trans_le _ _ _ (least-first (min_f x y) ys) (min_f-left x y)

  least-rest : (x : F) (xs : List F) → All (λ s. least x xs ≼ s) xs
  unfolding least
  least-rest x [] = tt
  least-rest x (y ∷ ys) = (
    mono.ordered.trans_le _ _ _ (least-first (min_f x y) ys) (min_f-right x y),
    least-rest (min_f x y) ys,
  )

  greatest-first : (x : F) (xs : List F) → x ≼ greatest x xs
  unfolding greatest
  greatest-first x [] = mono.ordered.refl_le x
  greatest-first x (y ∷ ys) =
      mono.ordered.trans_le _ _ _ (max_f-left x y) (greatest-first (max_f x y) ys)

  greatest-rest : (x : F) (xs : List F) → All (λ s. s ≼ greatest x xs) xs
  unfolding greatest
  greatest-rest x [] = tt
  greatest-rest x (y ∷ ys) = (
    mono.ordered.trans_le _ _ _ (max_f-right x y) (greatest-first (max_f x y) ys),
    greatest-rest (max_f x y) ys,
  )

  abbrev pub InUnit : F → Type 0
  InUnit s = (fl.of_ℕ 0 ≼ s) × (s ≼ fl.of_ℕ 1)

  scaled-InUnit :
      (lo hi s : F)
      → fl.lt (fl.of_ℕ 0) (fl.sub hi lo) ≡ true
      → lo ≼ s
      → s ≼ hi
      → InUnit (fl.div (fl.sub s lo) (fl.sub hi lo))
  scaled-InUnit lo hi s pos low high = (
    mono.div-nonneg _ _ (mono.sub-nonneg s lo low) pos,
    mono.div-le-one _ _ (mono.sub-mono s hi lo high) pos,
  )

  spread_pos :
      (d : F)
      → fl.lt (fl.of_ℕ 0) degenerate_pool_eps ≡ true
      → fl.lt d degenerate_pool_eps ≡ false
      → fl.lt (fl.of_ℕ 0) d ≡ true
  spread_pos d pos h = ground (
    arith,
    mono.ordered.lt-eq-not-le (fl.of_ℕ 0) degenerate_pool_eps,
    mono.ordered.lt-eq-not-le d degenerate_pool_eps,
    mono.ordered.lt-eq-not-le (fl.of_ℕ 0) d,
    mono.ordered.trans_le degenerate_pool_eps d (fl.of_ℕ 0),
  )

  -- Every scaled score lies between 0 and 1, and there are as many as there were scores; the divisor
  -- is never zero, since a pool without spread is not divided at all. (The threshold of the spread is
  -- positive.)
  pub normalise_vector_scores-InUnit :
      (scores : List F)
      → fl.lt (fl.of_ℕ 0) degenerate_pool_eps ≡ true
      → All InUnit (normalise_vector_scores scores)
        × (length (normalise_vector_scores scores) ≡ length scores)
  unfolding normalise_vector_scores vector_pool_is_degenerate
  normalise_vector_scores-InUnit [] pos = (tt, refl)
  normalise_vector_scores-InUnit (x ∷ xs) pos =
      let lo = least x xs in
      let hi = greatest x xs in
      elim (Bool-cases (fl.lt (fl.sub hi lo) degenerate_pool_eps)) [
        | inl e ↦ rw e (
          All-mapped (λ s. fl.of_ℕ 1) InUnit
              (λ s. (mono.of_ℕ-mono 0 1 (omega arith), mono.of_ℕ-mono 1 1 (omega arith))) (x ∷ xs),
          length-map (λ s. fl.of_ℕ 1) (x ∷ xs),
        )
        | inr e ↦ rw e (
          All-image _ InUnit (x ∷ xs) (
              All-map₂ (λ s. lo ≼ s) (λ s. s ≼ hi) _
                (λ s. scaled-InUnit lo hi s (spread_pos _ pos e)) (x ∷ xs)
                (least-first x xs, least-rest x xs) (greatest-first x xs, greatest-rest x xs)),
          length-map _ (x ∷ xs),
        )
      ]
