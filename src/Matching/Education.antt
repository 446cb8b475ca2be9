-- ===== src/Matching/Education.antt =====
-- The education sub-score and the scaling of the vector scores, both of
-- core/src/pipeline/matching/stages.py.
pub mod Vectors
pub mod Levels
use recruiter_pilot.Base.{
  Bool, List, Option, String, [], any, eqb, false, filter, if◌then◌else◌, leb, ltb, map, none, not,
  some, true, ℕ, ◌&&◌, ◌^◌, ◌∷◌,
}
use recruiter_pilot.Base.Text.{Text, strip}
use recruiter_pilot.Matching.Float.{Float, max_f, min_f}
use recruiter_pilot.Matching.Model.{MatchWeights}
use recruiter_pilot.Matching.Scoring.{
  best_rank, education_levels_readable, jd_states_education_bar, level_order, ranked, zip_longest,
}
use recruiter_pilot.Matching.Verify.{is_empty, normalised}

-- `_normalise_field`
unfoldable pub normalise_field : (Text → Text) → Text → Text
normalise_field lower value = lower (normalised value)

-- the allowed fields that are not blank
unfoldable pub allowed_fields : (Text → Text) → List Text → List Text
unfolding normalise_field
allowed_fields lower jd_fields =
    map (normalise_field lower)
      (filter (λ f. not (is_empty f) && not (is_empty (strip f))) jd_fields)

module _ {F : Type 0} ⦃fl : Float F⦄ (lower : Text → Text) (token_set_ratio : Text → Text → F)
    (weights : MatchWeights F) where
  unfoldable pub field_matches : List Text → Option Text → Bool
  unfolding normalise_field
  field_matches allowed none = false
  field_matches allowed (some field) =
      not (is_empty field)
      && not (is_empty (strip field))
      && any
          (λ a.
            fl.le weights.education_field_fuzz
              (fl.div (token_set_ratio (normalise_field lower field) a) (fl.of_ℕ 100)))
          allowed

  -- the readable degrees at or above the bar are judged by their field
  unfoldable pub qualified_score : ℕ → List (ℕ × Option Text) → List Text → F
  unfolding field_matches
  qualified_score req degrees allowed =
      if is_empty allowed
      then fl.of_ℕ 1
      else if any (λ d. field_matches allowed d.1) (filter (λ d. leb req d.0) degrees)
      then fl.of_ℕ 1
      else weights.education_partial

  unfoldable pub degree_score : ℕ → List (ℕ × Option Text) → List Text → F
  unfolding best_rank qualified_score
  degree_score req degrees allowed =
      if ltb (best_rank degrees) req
      then (if eqb req 0
          then fl.of_ℕ 0
          else fl.mul weights.education_partial
              (fl.div (fl.of_ℕ (best_rank degrees)) (fl.of_ℕ req)))
      else qualified_score req degrees allowed

  unfoldable pub score_education :
      List (Option String) → Option String → List (Option Text) → List Text → F
  unfolding jd_states_education_bar education_levels_readable ranked degree_score allowed_fields
  score_education candidate_levels none candidate_fields jd_fields = fl.of_ℕ 1
  score_education candidate_levels (some jd_min_level) candidate_fields jd_fields =
      if not (jd_states_education_bar (some jd_min_level))
      then fl.of_ℕ 1
      else if not (education_levels_readable candidate_levels)
      then fl.of_ℕ 0
      else degree_score (level_order jd_min_level)
          (ranked (zip_longest candidate_levels candidate_fields)) (allowed_fields lower jd_fields)

module _ {F : Type 0} ⦃fl : Float F⦄ where
  -- `min(scores)` and `max(scores)` of a list that starts with `x`
  unfoldable pub least : F → List F → F
  least x [] = x
  least x (y ∷ ys) = least (min_f x y) ys

  unfoldable pub greatest : F → List F → F
  greatest x [] = x
  greatest x (y ∷ ys) = greatest (max_f x y) ys

  -- `_DEGENERATE_POOL_EPS`
  abbrev pub degenerate_pool_eps : F
  degenerate_pool_eps = fl.decimal 1 (10 ^ 9)

  unfoldable pub vector_pool_is_degenerate : List F → Bool
  unfolding least greatest
  vector_pool_is_degenerate [] = true
  vector_pool_is_degenerate (x ∷ xs) =
      fl.lt (fl.sub (greatest x xs) (least x xs)) degenerate_pool_eps

  unfoldable pub normalise_vector_scores : List F → List F
  unfolding vector_pool_is_degenerate
  normalise_vector_scores [] = []
  normalise_vector_scores (x ∷ xs) =
      if vector_pool_is_degenerate (x ∷ xs)
      then map (λ s. fl.of_ℕ 1) (x ∷ xs)
      else map (λ s. fl.div (fl.sub s (least x xs)) (fl.sub (greatest x xs) (least x xs))) (x ∷ xs)
