-- ===== src/Matching/Tests.antt =====
-- Runs of the matching code. A float is a number of billionths, the texts are short, and a quote
-- counts as found in every chunk that is long enough.
use mathlib.Core.List.{Perm}
use recruiter_pilot.Base.{
  All, List, Option, String, [], arith, drop, false, list_eq, map, nat_eq, none, option_eq, refl,
  some, string_eq, take, true, ℕ, ◌++◌, ◌∷◌, ◌≡◌,
}
use recruiter_pilot.Base.Int.{negsuc, pos}
use recruiter_pilot.Base.Dict.{Dict, insert, lookup}
use recruiter_pilot.Base.Text.{Text}
use recruiter_pilot.Matching.Combine.{
  CombineInput, apply_top_percent_cap, combine_entry, evidence_completeness, motivation_score,
  stage4_combine,
}
use recruiter_pilot.Matching.Combine.Bounds.{IsNonneg, scores-bounded}
use recruiter_pilot.Matching.Combine.Cliff.{HasWeights, IsAbove}
use recruiter_pilot.Matching.Combine.Ranking.{IsNumbered, stage4_combine-IsRanking, unranked}
use recruiter_pilot.Matching.Education.{score_education}
use recruiter_pilot.Matching.Education.Levels.{score_education-InUnit}
use recruiter_pilot.Matching.Education.Vectors.{InUnit}
use recruiter_pilot.Matching.Float.{nano-IsMonotone, nano-IsOrdered, nano-exact, nano_float, ◌≼◌}
use recruiter_pilot.Matching.Model.{
  CoverLetterEvidence, EvidenceObject, MatchWeights, RequirementEvidence, ScoreBreakdown,
  default_weights, growth, met, partial,
}
use recruiter_pilot.Matching.Reverse.{JobScore, rank_job_matches}
use recruiter_pilot.Matching.Reverse.Agreement.{
  as_candidate, entry_summary, job_summary, rank_job_matches-stage4_combine,
}
use recruiter_pilot.Matching.Scoring.{SkillRow, contribution, score_skill_breakdown}
use recruiter_pilot.Matching.Scoring.Bounded.{score_skill_breakdown-InUnit}
use recruiter_pilot.Matching.Shortlist.{
  Parsed, ShortlistResultEntry, Stage2Candidate, by_structured, chunks_by_id, combine_input,
  found_evidence, generate_shortlist, stage3_evidence, stage3_per_candidate,
}
use recruiter_pilot.Matching.Shortlist.Cliff.{generate_shortlist-cliff}
use recruiter_pilot.Matching.Sort.{IsDescending, insert_descending, sort_descending}
use recruiter_pilot.Matching.Verify.{verify_evidence}
use recruiter_pilot.Matching.Verify.Quotes.{IsSound, verify_evidence-IsSound}

abbrev lower : Text → Text
lower s = s

abbrev full_ratio : Text → Text → ℕ
full_ratio quote chunk = nano_float.of_ℕ 100

abbrev weights : MatchWeights ℕ
weights = record default_weights { evidence_min_quote_chars = 2 }

abbrev chunks : Dict String Text
chunks = ("c1", 80 ∷ 121 ∷ 116 ∷ 104 ∷ 111 ∷ 110 ∷ []) ∷ []

abbrev python_met : RequirementEvidence ℕ
python_met = record {
  requirement = 80 ∷ [];
  status = met;
  evidence = 121 ∷ 116 ∷ 104 ∷ [];
  evidence_chunk_ids = "c1" ∷ "c9" ∷ [];
  confidence = nano_float.decimal 9 10;
  source_context = none;
}

abbrev uncited : RequirementEvidence ℕ
uncited = record python_met { evidence_chunk_ids = "c9" ∷ []; status = partial }

abbrev eager : CoverLetterEvidence ℕ
eager = record {
  theme = growth;
  evidence = 121 ∷ 116 ∷ [];
  evidence_chunk_ids = "c1" ∷ [];
  confidence = nano_float.decimal 8 10;
}

abbrev evidence : EvidenceObject ℕ
evidence = record {
  requirements = python_met ∷ uncited ∷ [];
  overall_summary = [];
  cover_letter_presence = true;
  cover_letter_evidence = eager ∷ [];
  overall_motivation = [];
}

verify_evidence-IsSound_example :
    All
      (λ r. IsSound lower full_ratio weights chunks r.evidence r.evidence_chunk_ids)
      (verify_evidence lower full_ratio weights chunks evidence).requirements
    × All
        (λ e. IsSound lower full_ratio weights chunks e.evidence e.evidence_chunk_ids)
        (verify_evidence lower full_ratio weights chunks evidence).cover_letter_evidence
verify_evidence-IsSound_example =
    verify_evidence-IsSound lower full_ratio weights chunks evidence refl nano-IsOrdered

scores-bounded_example :
    (nano_float.of_ℕ 0 ≼ evidence_completeness weights (some evidence))
    × (evidence_completeness weights (some evidence) ≼ nano_float.of_ℕ 1)
    × (nano_float.of_ℕ 0 ≼ motivation_score weights (some evidence))
    × (motivation_score weights (some evidence) ≼ nano_float.of_ℕ 1)
scores-bounded_example =
    scores-bounded weights nano-IsMonotone evidence (refl, refl) (refl, tt) (refl, tt)
      (omega (arith, nano-exact)) (omega (arith, nano-exact))

abbrev no_scores : ScoreBreakdown ℕ
no_scores = record {
  skill = 0;
  experience = 0;
  education = 0;
  seniority = 0;
  vector = 0;
  structured = 0;
  motivation = 0;
  implied_experience = false;
  skill_contributions = [];
  seniority_measured = none;
  vector_discriminating = none;
  experience_bar_stated = none;
  education_bar_stated = none;
  education_readable = none;
}

abbrev candidate : ℕ → ℕ → Option (EvidenceObject ℕ) → CombineInput ℕ ℕ
candidate id tenths found = record {
  resume_id = id;
  structured = nano_float.decimal tenths 10;
  breakdown = no_scores;
  evidence = found;
}

abbrev top : List (CombineInput ℕ ℕ)
top = candidate 1 9 none ∷ candidate 2 8 (some evidence) ∷ []

abbrev rest : List (CombineInput ℕ ℕ)
rest = candidate 3 8 none ∷ candidate 4 5 none ∷ []

stage4_combine-IsRanking_example :
    IsDescending (λ e. e.score_final) (stage4_combine weights top)
    × IsNumbered 0 (stage4_combine weights top)
    × Perm (map unranked (stage4_combine weights top)) (map (combine_entry weights) top)
stage4_combine-IsRanking_example = stage4_combine-IsRanking weights top nano-IsOrdered

has_weights : HasWeights weights
unfolding HasWeights
has_weights = (refl, refl, refl, refl)

top-IsAbove : All (IsAbove weights rest) top
unfolding IsAbove IsNonneg
top-IsAbove = (
  (tt, ((refl, refl), ((refl, refl), tt))),
  (((refl, tt), ((refl, refl), ((refl, refl), tt))), tt),
)

rest_falls : IsDescending (λ c. c.structured) rest
unfolding IsDescending
rest_falls = ((refl, tt), (tt, tt))

-- the second of the first two overtakes by its evidence, and the rest stays behind
cliff_run : map (λ e. e.resume_id) (stage4_combine weights (top ++ rest)) ≡ 2 ∷ 1 ∷ 3 ∷ 4 ∷ []
unfolding stage4_combine
cliff_run = refl

abbrev vectors : List ℕ
vectors = nano_float.decimal 3 10 ∷ nano_float.decimal 9 10 ∷ nano_float.decimal 5 10 ∷ []

abbrev skill_rows : List (SkillRow ℕ)
skill_rows =
    record {
      skill = "python";
      req_years = some (pos 4);
      is_must_have = true;
      years = some (pos 3);
      last_used_year = some (pos 2024);
      ontology_weight = nano_float.of_ℕ 1;
    }
    ∷ record {
      skill = "c";
      req_years = some (negsuc 0);
      is_must_have = false;
      years = some (negsuc 2);
      last_used_year = some (pos 2030);
      ontology_weight = nano_float.of_ℕ 1;
    }
    ∷ record {
      skill = "sql";
      req_years = none;
      is_must_have = true;
      years = none;
      last_used_year = none;
      ontology_weight = nano_float.of_ℕ 0;
    }
    ∷ []

score_skill_breakdown-InUnit_example :
    InUnit nano-IsMonotone (score_skill_breakdown weights true 2026 skill_rows).0
    × All (λ c. InUnit nano-IsMonotone c.score) (map (contribution weights 2026) skill_rows)
score_skill_breakdown-InUnit_example =
    score_skill_breakdown-InUnit weights nano-IsMonotone true 2026 skill_rows (refl, refl)
      (refl, refl) (omega (arith, nano-exact))

score_education-InUnit_example :
    InUnit nano-IsMonotone
      (score_education lower full_ratio weights (some "associate" ∷ []) (some "bachelors") [] [])
score_education-InUnit_example =
    score_education-InUnit lower full_ratio weights nano-IsMonotone (some "associate" ∷ [])
      (some "bachelors") [] [] (refl, refl)

abbrev scored : ℕ → ℕ → Stage2Candidate ℕ ℕ
scored id tenths = record {
  resume_id = id;
  vec_score = nano_float.of_ℕ 0;
  structured = nano_float.decimal tenths 10;
  breakdown = no_scores;
}

abbrev pool : List (Stage2Candidate ℕ ℕ)
pool = scored 1 5 ∷ scored 2 9 ∷ scored 3 7 ∷ []

abbrev letterless : EvidenceObject ℕ
letterless = record evidence { cover_letter_evidence = [] }

abbrev parsed : Parsed
parsed = record {
  chunks = record { chunk_id = some "c1"; chunk_text = 80 ∷ 121 ∷ 116 ∷ 104 ∷ 111 ∷ 110 ∷ [] } ∷ [];
  cover_letter_chunks = [];
}

abbrev answers : Dict ℕ (Option (EvidenceObject ℕ))
answers =
    (2, some (verify_evidence lower full_ratio weights (chunks_by_id parsed) letterless))
    ∷ (3, some (verify_evidence lower full_ratio weights (chunks_by_id parsed) letterless))
    ∷ []

answered :
    stage3_evidence lower full_ratio weights
      (λ p. some letterless)
      ("python" ∷ [])
      (λ i. parsed)
      []
      (take 2 (by_structured weights pool))
    ≡ some answers
unfolding stage3_evidence stage3_per_candidate sort_descending insert_descending insert
answered = refl

answers-IsNonneg :
    All
      (λ c. IsNonneg weights (found_evidence weights c.resume_id answers))
      (take 2 (by_structured weights pool))
unfolding IsNonneg sort_descending insert_descending verify_evidence lookup
answers-IsNonneg = (tt, (tt, tt))

generate_shortlist-cliff_example :
    (ranking : List (ShortlistResultEntry ℕ ℕ)) × (generate_shortlist lower full_ratio weights
        (λ p. some letterless)
        ("python" ∷ [])
        (λ i. parsed)
        2
        50
        pool
      ≡ some (apply_top_percent_cap ranking 50))
    × (map (λ e. e.resume_id) ranking
        ≡ map
            (λ e. e.resume_id)
            (stage4_combine weights
              (map (combine_input weights answers) (take 2 (by_structured weights pool))))
          ++ map (λ c. c.resume_id) (drop 2 (by_structured weights pool)))
generate_shortlist-cliff_example =
    generate_shortlist-cliff lower full_ratio weights (λ p. some letterless) ("python" ∷ [])
      (λ i. parsed) 2 50 pool answers nano-IsMonotone has_weights
      ((refl, (refl, tt)), ((refl, tt), (tt, tt))) answered answers-IsNonneg

abbrev unmotivated : MatchWeights ℕ
unmotivated = record weights { structured = 700000000; motivation = 0 }

abbrev scored_jobs : List (JobScore ℕ)
scored_jobs =
    record {
      scored_job = record {
        view_id = 1;
        view_title = [];
        view_required = [];
        view_nice_to_have = [];
      };
      job_structured = 200000000;
      job_breakdown = no_scores;
      job_evidence = some evidence;
    }
    ∷ record {
      scored_job = record {
        view_id = 2;
        view_title = [];
        view_required = [] ∷ [];
        view_nice_to_have = [];
      };
      job_structured = 900000000;
      job_breakdown = no_scores;
      job_evidence = none;
    }
    ∷ []

-- the second job comes first
best_job : map (λ e. e.match_job) (rank_job_matches unmotivated scored_jobs) ≡ 2 ∷ 1 ∷ []
unfolding rank_job_matches
best_job = refl

rank_job_matches-stage4_combine_example :
    map (job_summary unmotivated) (rank_job_matches unmotivated scored_jobs)
    ≡ map
        (entry_summary unmotivated)
        (stage4_combine unmotivated (map (as_candidate unmotivated) scored_jobs))
rank_job_matches-stage4_combine_example =
    rank_job_matches-stage4_combine unmotivated (λ x y. omega arith) scored_jobs
