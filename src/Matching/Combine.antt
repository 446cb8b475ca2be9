-- ===== src/Matching/Combine.antt =====
-- Stage 4 of the matching pipeline, core/src/pipeline/matching/stages.py: the score of the verified
-- evidence, the score of the cover letter, and the ranking; with `_apply_top_percent_cap` of
-- core/src/pipeline/matching/orchestrator.py.
pub mod Bounds
pub mod Cliff
pub mod Ranking
pub mod Scrub
use recruiter_pilot.Base.{
  Bool, List, Option, [], filter, if◌then◌else◌, length, map, max, none, not, some, take, ℕ, ◌&&◌,
  ◌*◌, ◌+◌, ◌/◌, ◌∷◌,
}
use recruiter_pilot.Matching.Float.{Float, sum}
use recruiter_pilot.Matching.Model.{
  CoverLetterEvidence, EvidenceObject, MatchWeights, RequirementEvidence, ScoreBreakdown, is_met,
  is_partial, motivation,
}
use recruiter_pilot.Matching.Sort.{sort_descending}
use recruiter_pilot.Matching.Verify.{is_empty}

pub record CombineInput {ℓ} (Key : Type ℓ) (F : Type 0) : Type ℓ where
  pub resume_id : Key
  pub structured : F
  pub breakdown : ScoreBreakdown F
  pub evidence : Option (EvidenceObject F)

pub record CombineEntry {ℓ} (Key : Type ℓ) (F : Type 0) : Type ℓ where
  pub resume_id : Key
  pub rank : ℕ
  pub score_final : F
  pub score_structured : F
  pub score_evidence : F
  pub breakdown : ScoreBreakdown F
  pub evidence : Option (EvidenceObject F)

-- `rank=i + 1` for the entries from index `i` on
unfoldable pub number {ℓ} :
    {Key : Type ℓ} {F : Type 0} → ℕ → List (CombineEntry Key F) → List (CombineEntry Key F)
number i [] = []
number i (e ∷ es) = record e { rank = i + 1 } ∷ number (i + 1) es

-- `_apply_top_percent_cap`; the quotient is rounded up
unfoldable pub apply_top_percent_cap {ℓ} : {A : Type ℓ} → List A → ℕ → List A
apply_top_percent_cap [] top_percent = []
apply_top_percent_cap (x ∷ xs) top_percent =
    take (max 1 ((length (x ∷ xs) * top_percent + 99) / 100)) (x ∷ xs)

module _ {F : Type 0} ⦃fl : Float F⦄ (weights : MatchWeights F) where
  -- the requirements that count as met
  abbrev pub counts_as_met : RequirementEvidence F → Bool
  counts_as_met r = is_met r.status && fl.le weights.evidence_met_confidence r.confidence

  unfoldable pub completeness_of : List (RequirementEvidence F) → F
  completeness_of rs =
      fl.div
        (fl.add (fl.of_ℕ (length (filter counts_as_met rs))) (
          fl.mul weights.evidence_partial_weight
            (fl.of_ℕ (length (filter (λ r. is_partial r.status) rs)))))
        (fl.of_ℕ (length rs))

  unfoldable pub evidence_completeness : Option (EvidenceObject F) → F
  unfolding completeness_of
  evidence_completeness none = fl.of_ℕ 0
  evidence_completeness (some e) =
      if is_empty e.requirements then fl.of_ℕ 0 else completeness_of e.requirements

  -- the themes that count
  abbrev pub is_verified : CoverLetterEvidence F → Bool
  is_verified e =
      fl.le weights.motivation_min_confidence e.confidence && not (is_empty e.evidence_chunk_ids)

  unfoldable pub motivation_of : List (CoverLetterEvidence F) → F
  unfolding sum
  motivation_of themes =
      if is_empty (filter is_verified themes)
      then fl.of_ℕ 0
      else fl.div (sum (map (λ e. e.confidence) (filter is_verified themes)))
          (fl.of_ℕ (length themes))

  unfoldable pub motivation_score : Option (EvidenceObject F) → F
  unfolding motivation_of
  motivation_score none = fl.of_ℕ 0
  motivation_score (some e) =
      if is_empty e.cover_letter_evidence then fl.of_ℕ 0 else motivation_of e.cover_letter_evidence

  unfoldable pub final_score : F → Option (EvidenceObject F) → F
  unfolding evidence_completeness motivation_score
  final_score structured evidence =
      fl.add
        (fl.add (fl.mul weights.structured structured)
          (fl.mul weights.evidence (evidence_completeness evidence)))
        (fl.mul weights.motivation (motivation_score evidence))

  module _ {ℓ} {Key : Type ℓ} where
    -- the loop's entry, its rank filled below
    unfoldable pub combine_entry : CombineInput Key F → CombineEntry Key F
    unfolding final_score
    combine_entry c = record {
      resume_id = c.resume_id;
      rank = 0;
      score_final = final_score c.structured c.evidence;
      score_structured = c.structured;
      score_evidence = evidence_completeness c.evidence;
      breakdown = record c.breakdown { motivation = motivation_score c.evidence };
      evidence = c.evidence;
    }

    unfoldable pub stage4_combine : List (CombineInput Key F) → List (CombineEntry Key F)
    unfolding combine_entry sort_descending number
    stage4_combine candidates =
        number 0 (sort_descending (λ e. e.score_final) (map combine_entry candidates))
