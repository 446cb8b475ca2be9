-- ===== src/Matching/Education/Levels.antt =====
-- The bounds of the education sub-score.
use recruiter_pilot.Base.{
  List, Option, String, arith, ltb, none, some, suc, true, zero, ℕ, ◌<◌, ◌≡◌, ◌≤◌,
}
use recruiter_pilot.Base.Text.{Text}
use recruiter_pilot.Matching.Education.{
  allowed_fields, degree_score, qualified_score, score_education,
}
use recruiter_pilot.Matching.Education.Vectors.{InUnit}
use recruiter_pilot.Matching.Float.{Float, IsMonotone, ◌≼◌}
use recruiter_pilot.Matching.Model.{MatchWeights}
use recruiter_pilot.Matching.Scoring.{best_rank, level_order, ranked, zip_longest}

module _ {F : Type 0} ⦃fl : Float F⦄ (lower : Text → Text) (token_set_ratio : Text → Text → F)
    (w : MatchWeights F) (mono : IsMonotone fl) where
  unit_one : InUnit mono (fl.of_ℕ 1)
  unit_one = (mono.of_ℕ-mono 0 1 (omega arith), mono.of_ℕ-mono 1 1 (omega arith))

  unit_zero : InUnit mono (fl.of_ℕ 0)
  unit_zero = (mono.of_ℕ-mono 0 0 (omega arith), mono.of_ℕ-mono 0 1 (omega arith))

  share-InUnit : (m n : ℕ) → m ≤ n → 0 < n → InUnit mono (fl.div (fl.of_ℕ m) (fl.of_ℕ n))
  share-InUnit m zero h k = ground arith
  share-InUnit m (suc n) h k = (
    mono.div-nonneg _ _ (mono.of_ℕ-mono 0 m (omega arith)) (mono.of_ℕ-pos n),
    mono.div-le-one _ _ (mono.of_ℕ-mono m (suc n) h) (mono.of_ℕ-pos n),
  )

  below_bar :
      (best req : ℕ)
      → ltb best req ≡ true
      → InUnit mono w.education_partial
      → InUnit mono (fl.mul w.education_partial (fl.div (fl.of_ℕ best) (fl.of_ℕ req)))
        × (fl.mul w.education_partial (fl.div (fl.of_ℕ best) (fl.of_ℕ req)) ≼ w.education_partial)
  below_bar best req h share_weight =
      let share = share-InUnit best req (ground arith) (ground arith) in
      let capped = mono.mul-le w.education_partial _ share_weight.0 share.1 in
      (
        (
          mono.mul-nonneg _ _ share_weight.0 share.0,
          mono.ordered.trans_le _ _ _ capped share_weight.1,
        ),
        capped,
      )

  degree_score-InUnit :
      (req : ℕ) (degrees : List (ℕ × Option Text)) (allowed : List Text)
      → InUnit mono w.education_partial
      → InUnit mono (degree_score lower token_set_ratio w req degrees allowed)
  unfolding degree_score qualified_score
  degree_score-InUnit req degrees allowed share_weight =
      ground (arith, unit_one, unit_zero, below_bar (best_rank degrees) req)

  -- The education sub-score lies between 0 and 1 for every list of degrees and every bar, with a share
  -- for partial education between 0 and 1.
  pub score_education-InUnit :
      (levels : List (Option String)) (jd_min_level : Option String) (fields : List (Option Text))
      (jd_fields : List Text)
      → InUnit mono w.education_partial
      → InUnit mono (score_education lower token_set_ratio w levels jd_min_level fields jd_fields)
  unfolding score_education
  score_education-InUnit levels none fields jd_fields share_weight = unit_one
  score_education-InUnit levels (some level) fields jd_fields share_weight = ground (
    arith,
    unit_one,
    unit_zero,
    degree_score-InUnit (level_order level) (ranked (zip_longest levels fields))
        (allowed_fields lower jd_fields),
  )
