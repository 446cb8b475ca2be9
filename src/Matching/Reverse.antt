-- ===== src/Matching/Reverse.antt =====
-- `rank_job_matches` of core/src/pipeline/matching/orchestrator.py: the jobs for one résumé.
pub mod Agreement
use recruiter_pilot.Base.{List, Option, [], length, ℕ, ◌+◌, ◌∷◌}
use recruiter_pilot.Base.Text.{Text}
use recruiter_pilot.Matching.Combine.{evidence_completeness}
use recruiter_pilot.Matching.Float.{Float}
use recruiter_pilot.Matching.Model.{EvidenceObject, MatchWeights, ScoreBreakdown}
use recruiter_pilot.Matching.Sort.{sort_descending}

-- what the ranking reads of a job
pub record JobView : Type 0 where
  pub view_id : ℕ
  pub view_title : Text
  pub view_required : List Text
  pub view_nice_to_have : List Text

pub record JobScore (F : Type 0) : Type 0 where
  pub scored_job : JobView
  pub job_structured : F
  pub job_breakdown : ScoreBreakdown F
  pub job_evidence : Option (EvidenceObject F)

pub record JobMatchResultEntry (F : Type 0) : Type 0 where
  pub match_job : ℕ
  pub match_title : Text
  pub match_rank : ℕ
  pub match_final : F
  pub match_structured : F
  pub match_evidence_score : F
  pub match_breakdown : ScoreBreakdown F
  pub match_evidence : Option (EvidenceObject F)
  pub requirement_count : ℕ
  pub must_have_count : ℕ

module _ {F : Type 0} ⦃fl : Float F⦄ (weights : MatchWeights F) where
  unfoldable pub job_final : JobScore F → F
  unfolding evidence_completeness
  job_final s =
      fl.add (fl.mul weights.structured s.job_structured)
        (fl.mul weights.evidence (evidence_completeness weights s.job_evidence))

  unfoldable pub job_entry : ℕ → JobScore F → JobMatchResultEntry F
  unfolding job_final
  job_entry i s = record {
    match_job = s.scored_job.view_id;
    match_title = s.scored_job.view_title;
    match_rank = i + 1;
    match_final = job_final s;
    match_structured = s.job_structured;
    match_evidence_score = evidence_completeness weights s.job_evidence;
    match_breakdown = s.job_breakdown;
    match_evidence = s.job_evidence;
    requirement_count = length s.scored_job.view_required + length s.scored_job.view_nice_to_have;
    must_have_count = length s.scored_job.view_required;
  }

  -- the comprehension over `enumerate`, from index `i` on
  unfoldable pub job_entries : ℕ → List (JobScore F) → List (JobMatchResultEntry F)
  unfolding job_entry
  job_entries i [] = []
  job_entries i (s ∷ ss) = job_entry i s ∷ job_entries (i + 1) ss

  unfoldable pub rank_job_matches : List (JobScore F) → List (JobMatchResultEntry F)
  unfolding job_entries sort_descending job_final
  rank_job_matches scores = job_entries 0 (sort_descending job_final scores)
