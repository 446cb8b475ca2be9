-- ===== src/Matching/Scoring/Bounded.antt =====
-- The skill and experience sub-scores stay between 0 and 1, as the columns that store them demand.
use mathlib.Core.Path.{subst}
use recruiter_pilot.Base.{
  All, All-image, All-map, All-mapped, Bool, Bool-cases, List, Option, [], arith, eqb, false,
  filter, inl, inr, length, length-map, map, none, refl, some, suc, true, zero, ℕ, ◌&&◌, ◌∷◌, ◌≡◌,
  ◌≤◌,
}
use recruiter_pilot.Matching.Combine.Bounds.{of_ℕ-nonneg, sum_from-le, sum_from-nonneg, zero_le}
use recruiter_pilot.Matching.Education.Vectors.{InUnit}
use recruiter_pilot.Matching.Float.{Float, IsMonotone, max_f, min_f, sum, sum_from, ◌≼◌}
use recruiter_pilot.Matching.Model.{MatchWeights, SkillContribution}
use recruiter_pilot.Matching.Scoring.{
  SkillRow, contribution, is_missing_must, matched_coverage, mean_score, past_bar, penalised,
  score_experience, score_skill_breakdown, weighs,
}
use recruiter_pilot.Matching.Verify.{is_empty}

module _ {F : Type 0} ⦃fl : Float F⦄ (w : MatchWeights F) (mono : IsMonotone fl) where
  zero_one : InUnit mono (fl.of_ℕ 0)
  zero_one = (mono.of_ℕ-mono 0 0 (omega arith), mono.of_ℕ-mono 0 1 (omega arith))

  one_one : InUnit mono (fl.of_ℕ 1)
  one_one = (mono.of_ℕ-mono 0 1 (omega arith), mono.of_ℕ-mono 1 1 (omega arith))

  clamped-InUnit : (x : F) → InUnit mono (max_f (fl.of_ℕ 0) (min_f (fl.of_ℕ 1) x))
  unfolding max_f min_f
  clamped-InUnit x = ground (
    arith,
    zero_one,
    one_one,
    mono.ordered.lt-eq-not-le x (fl.of_ℕ 1),
    mono.ordered.total_le (fl.of_ℕ 1) x,
    mono.ordered.lt-eq-not-le (fl.of_ℕ 0) x,
    mono.ordered.lt-eq-not-le (fl.of_ℕ 0) (fl.of_ℕ 1),
    mono.ordered.total_le x (fl.of_ℕ 0),
  )

  contribution-InUnit : (year : ℕ) (row : SkillRow F) → InUnit mono (contribution w year row).score
  unfolding contribution
  contribution-InUnit year row = elim (Bool-cases (weighs w (fl.of_ℕ 0) row)) [
    | inl e ↦ rw e zero_one
    | inr e ↦ rw e (clamped-InUnit _)
  ]

  mean_score-InUnit :
      (cs : List (SkillContribution F))
      → All (λ c. InUnit mono c.score) cs
      → is_empty cs ≡ false
      → length cs ≤ mono.exact
      → InUnit mono (mean_score w cs)
  unfolding sum
  mean_score-InUnit [] h k small = ground arith
  mean_score-InUnit (c ∷ cs) h k small =
      let scores = map (λ c. c.score) (c ∷ cs) in
      (
        mono.div-nonneg _ _
            (sum_from-nonneg w mono (fl.of_ℕ 0) scores (zero_le w mono)
              (All-image (λ c. c.score) _ (c ∷ cs) (All-map _ _ (λ d e. e.0) (c ∷ cs) h)))
            (mono.of_ℕ-pos (length cs)),
        mono.div-le-one _ (fl.of_ℕ (length (c ∷ cs)))
            (subst (λ n. sum_from (fl.of_ℕ 0) scores ≼ fl.of_ℕ n)
              (omega (arith, length-map (λ d. d.score) (c ∷ cs)))
              (sum_from-le w mono 0 (fl.of_ℕ 0) scores (zero_le w mono)
                (All-image (λ c. c.score) _ (c ∷ cs) (All-map _ _ (λ d e. e.1) (c ∷ cs) h))
                (omega (arith, small, length-map (λ d. d.score) (c ∷ cs)))))
            (mono.of_ℕ-pos (length cs)),
      )

  product-InUnit : (a b : F) → InUnit mono a → InUnit mono b → InUnit mono (fl.mul a b)
  product-InUnit a b h k =
      (mono.mul-nonneg a b h.0 k.0, mono.ordered.trans_le _ _ _ (mono.mul-le a b h.0 k.1) h.1)

  penalised-InUnit :
      (senior : Bool) (cs : List (SkillContribution F))
      → InUnit mono (mean_score w cs)
      → InUnit mono w.implied_experience_relief
      → InUnit mono w.must_have_miss_penalty
      → InUnit mono (penalised w senior cs).0
  unfolding penalised
  penalised-InUnit senior cs h relief penalty =
      elim (Bool-cases (is_empty (filter (is_missing_must w) cs))) [
        | inl e ↦ rw e h
        | inr e ↦
            elim (Bool-cases (senior && fl.le w.implied_min_coverage (matched_coverage w cs))) [
              | inl f ↦ rw e (rw f (product-InUnit _ _ h relief))
              | inr f ↦ rw e (rw f (product-InUnit _ _ h penalty))
            ]
      ]

  -- The skill sub-score lies between 0 and 1 whatever the rows hold, with both must-have factors
  -- between 0 and 1 and no more rows than the floats count exactly; so does the score of every
  -- contribution before the penalty.
  pub score_skill_breakdown-InUnit :
      (senior : Bool) (year : ℕ) (rows : List (SkillRow F))
      → InUnit mono w.implied_experience_relief
      → InUnit mono w.must_have_miss_penalty
      → length rows ≤ mono.exact
      → InUnit mono (score_skill_breakdown w senior year rows).0
        × All (λ c. InUnit mono c.score) (map (contribution w year) rows)
  unfolding score_skill_breakdown
  score_skill_breakdown-InUnit senior year [] relief penalty small = (zero_one, tt)
  score_skill_breakdown-InUnit senior year (r ∷ rs) relief penalty small =
      let each =
        All-mapped (contribution w year) (λ c. InUnit mono c.score)
          (λ r. contribution-InUnit year r) (r ∷ rs) in
      (
        penalised-InUnit senior (map (contribution w year) (r ∷ rs))
            (mean_score-InUnit (map (contribution w year) (r ∷ rs)) each refl
              (omega (arith, small, length-map (contribution w year) (r ∷ rs))))
            relief penalty,
        each,
      )

  over_le :
      (raw : F)
      → fl.of_ℕ 0 ≼ w.overqual_slope
      → w.overqual_ratio ≼ raw
      → fl.sub (fl.of_ℕ 1) (fl.mul (fl.sub raw w.overqual_ratio) w.overqual_slope) ≼ fl.of_ℕ 1
  over_le raw slope over =
      mono.sub-le _ _ (mono.mul-nonneg _ _ (mono.sub-nonneg raw w.overqual_ratio over) slope)

  past_bar-InUnit :
      (raw : F)
      → fl.of_ℕ 0 ≼ raw
      → InUnit mono w.overqual_floor
      → fl.of_ℕ 0 ≼ w.overqual_slope
      → InUnit mono (past_bar w raw)
  unfolding max_f
  past_bar-InUnit raw pos floor slope = ground (
    arith,
    one_one,
    over_le raw slope,
    mono.ordered.total_le w.overqual_ratio raw,
    mono.ordered.lt-eq-not-le w.overqual_floor
        (fl.sub (fl.of_ℕ 1) (fl.mul (fl.sub raw w.overqual_ratio) w.overqual_slope)),
    mono.ordered.total_le w.overqual_floor
        (fl.sub (fl.of_ℕ 1) (fl.mul (fl.sub raw w.overqual_ratio) w.overqual_slope)),
    mono.ordered.total_le
        (fl.sub (fl.of_ℕ 1) (fl.mul (fl.sub raw w.overqual_ratio) w.overqual_slope))
        w.overqual_floor,
    mono.ordered.trans_le (fl.of_ℕ 0) w.overqual_floor
        (fl.sub (fl.of_ℕ 1) (fl.mul (fl.sub raw w.overqual_ratio) w.overqual_slope)),
  )

  nonzero_pos : (n : ℕ) → eqb n 0 ≡ false → fl.lt (fl.of_ℕ 0) (fl.of_ℕ n) ≡ true
  nonzero_pos zero h = ground arith
  nonzero_pos (suc n) h = mono.of_ℕ-pos n

  -- The experience sub-score lies between 0 and 1 for every number of years and every bar, none or a
  -- bar of 0 years included, with a floor between 0 and 1 and a slope that is not negative.
  pub score_experience-InUnit :
      (total_years jd_min_years : Option ℕ)
      → InUnit mono w.overqual_floor
      → fl.of_ℕ 0 ≼ w.overqual_slope
      → InUnit mono (score_experience w total_years jd_min_years)
  unfolding score_experience
  score_experience-InUnit total none floor slope = one_one
  score_experience-InUnit total (some n) floor slope = elim (Bool-cases (eqb n 0)) [
    | inl e ↦ rw e one_one
    | inr e ↦ rw e (
        past_bar-InUnit _ (mono.div-nonneg _ _ (of_ℕ-nonneg w mono _) (nonzero_pos n e)) floor
          slope)
  ]
