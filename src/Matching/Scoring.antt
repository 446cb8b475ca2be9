-- ===== src/Matching/Scoring.antt =====
-- The structured sub-scores of core/src/pipeline/matching/stages.py: skills, experience, education
-- and the pool of vector scores. The years are those of the schemas, which admit no negative number
-- for a job's bar; the years of a skill, its requirement and its last year of use are integers of Python
-- that may be missing and may be negative. rapidfuzz's `token_set_ratio` and `str.lower` are parameters.
pub mod Bounded
use recruiter_pilot.Auth.Keys.{truthy}
use recruiter_pilot.Base.{
  Bool, List, Option, String, [], any, eqb, false, filter, if◌then◌else◌, leb, length, list_eq, map,
  max, nat_eq, none, not, option_eq, some, string_eq, ℕ, ◌&&◌, ◌==◌, ◌∷◌,
}
use recruiter_pilot.Base.Int.{ℤ, at_least, minus_int, or_int, pos}
use recruiter_pilot.Base.Text.{Text}
use recruiter_pilot.Jobs.Forward.{rank}
use recruiter_pilot.Matching.Float.{Float, max_f, min_f, sum}
use recruiter_pilot.Matching.Model.{MatchWeights, SkillContribution}
use recruiter_pilot.Matching.Verify.{is_empty}

pub record SkillRow (F : Type 0) : Type 0 where
  pub skill : String
  pub req_years : Option ℤ
  pub is_must_have : Bool
  pub years : Option ℤ
  pub last_used_year : Option ℤ
  pub ontology_weight : F

-- `x or n`
abbrev pub or_else : Option ℕ → ℕ → ℕ
or_else none n = n
or_else (some x) n = if eqb x 0 then n else x

-- the rank of a level in `_LEVEL_ORDER`, 0 for any other text
unfoldable pub level_order : String → ℕ
level_order level =
    if level == "high_school"
    then 1
    else if level == "associate"
    then 2
    else if level == "bachelors"
    then 3
    else if level == "masters"
    then 4
    else if level == "phd"
    then 5
    else 0

-- is the optional text there and not empty
abbrev pub has_level : Option String → Bool
has_level none = false
has_level (some s) = truthy s

unfoldable pub jd_states_experience_bar : Option ℕ → Bool
jd_states_experience_bar none = false
jd_states_experience_bar (some n) = not (eqb n 0)

unfoldable pub jd_states_education_bar : Option String → Bool
jd_states_education_bar level = has_level level

unfoldable pub education_levels_readable : List (Option String) → Bool
education_levels_readable levels = any has_level levels

-- `reason == "missing"`
abbrev pub is_missing : Option String → Bool
is_missing none = false
is_missing (some reason) = reason == "missing"

-- `zip_longest(levels, candidate_fields, fillvalue=None)`
abbrev pub zip_longest :
    List (Option String) → List (Option Text) → List (Option String × Option Text)
zip_longest [] [] = []
zip_longest [] (f ∷ fs) = (none, f) ∷ zip_longest [] fs
zip_longest (l ∷ ls) [] = (l, none) ∷ zip_longest ls []
zip_longest (l ∷ ls) (f ∷ fs) = (l, f) ∷ zip_longest ls fs

-- `[(_LEVEL_ORDER.get(lvl, 0), fld) for lvl, fld in pairs if lvl]`
unfoldable pub ranked : List (Option String × Option Text) → List (ℕ × Option Text)
unfolding level_order
ranked [] = []
ranked ((none, f) ∷ pairs) = ranked pairs
ranked ((some l, f) ∷ pairs) =
    let rest = ranked pairs in if truthy l then (level_order l, f) ∷ rest else rest

-- `max(rank for rank, _ in ranked)`
unfoldable pub best_rank : List (ℕ × Option Text) → ℕ
best_rank [] = 0
best_rank ((rank, f) ∷ rs) = max rank (best_rank rs)

module _ {F : Type 0} ⦃fl : Float F⦄ (weights : MatchWeights F) where
  -- `total_years >= jd_min_years * weights.implied_seniority_factor`
  unfoldable pub is_senior_candidate : Option ℕ → Option ℕ → Bool
  is_senior_candidate total_years jd_min_years =
      not (eqb (or_else jd_min_years 0) 0)
      && not (eqb (or_else total_years 0) 0)
      && fl.le (fl.mul (fl.of_ℕ (or_else jd_min_years 0)) weights.implied_seniority_factor)
          (fl.of_ℕ (or_else total_years 0))

  -- `max(0, row.years)`
  abbrev pub clamped_years : Option ℤ → Option ℕ
  clamped_years none = none
  clamped_years (some n) = some (at_least 0 n)

  -- `years / req_y`, cut at 1, and full credit where the years are unknown
  unfoldable pub years_score : SkillRow F → F
  years_score row = elim row.years [
    | none ↦ fl.of_ℕ 1
    | some n ↦
        min_f (fl.of_ℕ 1)
          (fl.div (fl.of_ℕ (at_least 0 n)) (fl.of_ℕ (at_least 1 (or_int row.req_years (pos 1)))))
  ]

  -- the weight of the year of the last use; a year to come is recent, as the limits are not negative
  unfoldable pub recency_of : ℕ → SkillRow F → F
  recency_of year row =
      let delta = minus_int year (or_int row.last_used_year (pos year)) in
      if leb delta weights.recency_recent_years
      then weights.recency_recent
      else if leb delta weights.recency_mid_years
      then weights.recency_mid
      else weights.recency_old

  -- `row.ontology_weight == x`
  abbrev pub weighs : F → SkillRow F → Bool
  weighs x row = fl.le row.ontology_weight x && fl.le x row.ontology_weight

  unfoldable pub contribution : ℕ → SkillRow F → SkillContribution F
  unfolding years_score recency_of
  contribution year row =
      if weighs (fl.of_ℕ 0) row
      then record {
        skill = row.skill;
        score = fl.of_ℕ 0;
        years = none;
        recency = none;
        ontology_weight = none;
        is_must_have = row.is_must_have;
        reason = some "missing";
      }
      else record {
        skill = row.skill;
        score = max_f (fl.of_ℕ 0) (
            min_f (fl.of_ℕ 1)
              (fl.mul (fl.mul (years_score row) (recency_of year row)) row.ontology_weight));
        years = clamped_years row.years;
        recency = some (recency_of year row);
        ontology_weight = some row.ontology_weight;
        is_must_have = row.is_must_have;
        reason = if weighs (fl.of_ℕ 1) row then none else some "ontology-fallback";
      }

  abbrev pub is_missing_must : SkillContribution F → Bool
  is_missing_must c = c.is_must_have && is_missing c.reason

  abbrev pub relieved : SkillContribution F → SkillContribution F
  relieved c = if is_missing_must c then record c { reason = some "implied-experience" } else c

  -- the share of the must-haves that are there
  abbrev pub matched_coverage : List (SkillContribution F) → F
  matched_coverage cs = fl.sub (fl.of_ℕ 1) (
      fl.div (fl.of_ℕ (length (filter is_missing_must cs)))
        (fl.of_ℕ (length (filter (λ c. c.is_must_have) cs))))

  abbrev pub mean_score : List (SkillContribution F) → F
  mean_score cs = fl.div (sum (map (λ c. c.score) cs)) (fl.of_ℕ (length cs))

  -- the penalty for a missing must-have, or its relief
  unfoldable pub penalised : Bool → List (SkillContribution F) → F × List (SkillContribution F)
  penalised senior cs =
      if is_empty (filter is_missing_must cs)
      then (mean_score cs, cs)
      else if senior && fl.le weights.implied_min_coverage (matched_coverage cs)
      then (fl.mul (mean_score cs) weights.implied_experience_relief, map relieved cs)
      else (fl.mul (mean_score cs) weights.must_have_miss_penalty, cs)

  -- `year` is `today_year or dt.datetime.now(dt.UTC).year`
  unfoldable pub score_skill_breakdown :
      Bool → ℕ → List (SkillRow F) → F × List (SkillContribution F)
  unfolding contribution penalised
  score_skill_breakdown senior year rows =
      let contributions = map (contribution year) rows in
      if is_empty contributions then (fl.of_ℕ 0, contributions) else penalised senior contributions

  -- past the bar: full credit up to the over-qualification, then a slope down to the floor
  abbrev pub past_bar : F → F
  past_bar raw =
      if fl.le raw (fl.of_ℕ 1)
      then raw
      else if fl.le raw weights.overqual_ratio
      then fl.of_ℕ 1
      else max_f weights.overqual_floor
          (fl.sub (fl.of_ℕ 1) (fl.mul (fl.sub raw weights.overqual_ratio) weights.overqual_slope))

  unfoldable pub score_experience : Option ℕ → Option ℕ → F
  unfolding jd_states_experience_bar
  score_experience total_years jd_min_years =
      if not (jd_states_experience_bar jd_min_years)
      then fl.of_ℕ 1
      else past_bar (fl.div (fl.of_ℕ (or_else total_years 0)) (fl.of_ℕ (or_else jd_min_years 0)))
