-- ===== src/Matching/Reverse/Agreement.antt =====
-- The ranking of jobs for a résumé against the ranking of résumés for a job.
use mathlib.Core.Path.{ap₂}
use recruiter_pilot.Base.{List, Option, [], ap, map, map-map, refl, sym, ℕ, ◌+◌, ◌∙◌, ◌∷◌, ◌≡◌}
use recruiter_pilot.Matching.Combine.{
  CombineEntry, CombineInput, combine_entry, evidence_completeness, final_score, motivation_score,
  number, stage4_combine,
}
use recruiter_pilot.Matching.Float.{Float}
use recruiter_pilot.Matching.Model.{EvidenceObject, MatchWeights}
use recruiter_pilot.Matching.Reverse.{
  JobMatchResultEntry, JobScore, job_entries, job_entry, job_final, rank_job_matches,
}
use recruiter_pilot.Matching.Sort.{sort_descending, sort_descending-map}

module _ {F : Type 0} ⦃fl : Float F⦄ (w : MatchWeights F) where
  -- a scored job as a candidate of stage 4
  abbrev pub as_candidate : JobScore F → CombineInput ℕ F
  as_candidate s = record {
    resume_id = s.scored_job.view_id;
    structured = s.job_structured;
    breakdown = s.job_breakdown;
    evidence = s.job_evidence;
  }

  -- what both rankings say of an entry: whose it is, its rank, the three scores, and the evidence
  abbrev pub Summary : Type 0
  Summary = ℕ × ℕ × F × F × F × Option (EvidenceObject F)

  abbrev pub job_summary : JobMatchResultEntry F → Summary
  job_summary e = (
    e.match_job, e.match_rank, e.match_final, e.match_structured, e.match_evidence_score,
    e.match_evidence,
  )

  abbrev pub entry_summary : CombineEntry ℕ F → Summary
  entry_summary e =
      (e.resume_id, e.rank, e.score_final, e.score_structured, e.score_evidence, e.evidence)

  -- the motivation term adds nothing
  abbrev pub IsUnmotivated : Type 0
  IsUnmotivated = (x y : F) → fl.add x (fl.mul w.motivation y) ≡ x

  final-as_candidate :
      IsUnmotivated
      → (s : JobScore F) → (combine_entry w (as_candidate s)).score_final ≡ job_final w s
  unfolding combine_entry final_score job_final
  final-as_candidate idle s = idle _ (motivation_score w s.job_evidence)

  summaries-number :
      IsUnmotivated
      → (i : ℕ) (ss : List (JobScore F))
      → map job_summary (job_entries w i ss)
        ≡ map entry_summary (number i (map (λ s. combine_entry w (as_candidate s)) ss))
  unfolding job_entries job_entry number combine_entry
  summaries-number idle i [] = refl
  summaries-number idle i (s ∷ ss) =
      ap₂ ◌∷◌
        (ap
          (λ x. (
            s.scored_job.view_id,
            i + 1,
            x,
            s.job_structured,
            evidence_completeness w s.job_evidence,
            s.job_evidence,
          ))
          (sym (final-as_candidate idle s)))
        (summaries-number idle (i + 1) ss)

  -- With a weight of the motivation that adds nothing to a score, the jobs of a résumé are ranked as stage 4 would
  -- rank them as candidates: the same order, ranks, scores and evidence.
  pub rank_job_matches-stage4_combine :
      IsUnmotivated
      → (scores : List (JobScore F))
      → map job_summary (rank_job_matches w scores)
        ≡ map entry_summary (stage4_combine w (map as_candidate scores))
  unfolding rank_job_matches stage4_combine
  rank_job_matches-stage4_combine idle scores =
      summaries-number idle 0 (sort_descending (job_final w) scores)
      ∙ ap (λ es. map entry_summary (number 0 es))
          (sym (
              sort_descending-map (job_final w) (λ e. e.score_final)
                (λ s. combine_entry w (as_candidate s)) (final-as_candidate idle) scores)
            ∙ ap (sort_descending (λ e. e.score_final))
                (sym (map-map as_candidate (combine_entry w) scores)))
