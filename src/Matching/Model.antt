-- ===== src/Matching/Model.antt =====
-- The data of the matching pipeline (core/src/schemas/matching.py,
-- core/src/pipeline/matching/stages.py and core/src/pipeline/matching/orchestrator.py). `F` is the
-- type of Python's `float`, and a character of a text is its code point.
use recruiter_pilot.Base.{Bool, List, Option, String, false, true, ℕ}
use recruiter_pilot.Base.Text.{Text}
use recruiter_pilot.Matching.Float.{Float}

pub data EvidenceStatus : Type 0 where
  met : EvidenceStatus
  partial : EvidenceStatus
  missing : EvidenceStatus

abbrev pub is_met : EvidenceStatus → Bool
is_met met = true
is_met partial = false
is_met missing = false

abbrev pub is_partial : EvidenceStatus → Bool
is_partial met = false
is_partial partial = true
is_partial missing = false

pub data CoverLetterTheme : Type 0 where
  motivation : CoverLetterTheme
  role_alignment : CoverLetterTheme
  cultural_fit : CoverLetterTheme
  growth : CoverLetterTheme

pub record RequirementEvidence (F : Type 0) : Type 0 where
  pub requirement : Text
  pub status : EvidenceStatus
  pub evidence : Text
  pub evidence_chunk_ids : List String
  pub confidence : F
  pub source_context : Option Text

pub record CoverLetterEvidence (F : Type 0) : Type 0 where
  pub theme : CoverLetterTheme
  pub evidence : Text
  pub evidence_chunk_ids : List String
  pub confidence : F

pub record EvidenceObject (F : Type 0) : Type 0 where
  pub requirements : List (RequirementEvidence F)
  pub overall_summary : Text
  pub cover_letter_presence : Bool
  pub cover_letter_evidence : List (CoverLetterEvidence F)
  pub overall_motivation : Text

pub record MatchWeights (F : Type 0) : Type 0 where
  pub structured : F
  pub evidence : F
  pub motivation : F
  pub skill : F
  pub experience : F
  pub education : F
  pub seniority : F
  pub vector : F
  pub must_have_miss_penalty : F
  pub implied_experience_relief : F
  pub recency_recent_years : ℕ
  pub recency_mid_years : ℕ
  pub recency_recent : F
  pub recency_mid : F
  pub recency_old : F
  pub overqual_ratio : F
  pub overqual_slope : F
  pub overqual_floor : F
  pub education_partial : F
  pub education_field_fuzz : F
  pub seniority_floor : F
  pub implied_seniority_factor : F
  pub implied_min_coverage : F
  pub evidence_met_confidence : F
  pub evidence_partial_weight : F
  pub evidence_verify_fuzz : F
  pub evidence_min_quote_chars : ℕ
  pub motivation_min_confidence : F

pub record SkillContribution (F : Type 0) : Type 0 where
  pub skill : String
  pub score : F
  pub years : Option ℕ
  pub recency : Option F
  pub ontology_weight : Option F
  pub is_must_have : Bool
  pub reason : Option String

pub record ScoreBreakdown (F : Type 0) : Type 0 where
  pub skill : F
  pub experience : F
  pub education : F
  pub seniority : F
  pub vector : F
  pub structured : F
  pub motivation : F
  pub implied_experience : Bool
  pub skill_contributions : List (SkillContribution F)
  pub seniority_measured : Option Bool
  pub vector_discriminating : Option Bool
  pub experience_bar_stated : Option Bool
  pub education_bar_stated : Option Bool
  pub education_readable : Option Bool

module _ {F : Type 0} ⦃fl : Float F⦄ where
  -- `DEFAULT_WEIGHTS`
  abbrev pub default_weights : MatchWeights F
  default_weights = record {
    structured = fl.decimal 6 10;
    evidence = fl.decimal 3 10;
    motivation = fl.decimal 1 10;
    skill = fl.decimal 40 100;
    experience = fl.decimal 25 100;
    education = fl.decimal 10 100;
    seniority = fl.decimal 15 100;
    vector = fl.decimal 10 100;
    must_have_miss_penalty = fl.decimal 5 10;
    implied_experience_relief = fl.decimal 75 100;
    recency_recent_years = 2;
    recency_mid_years = 5;
    recency_recent = fl.decimal 10 10;
    recency_mid = fl.decimal 7 10;
    recency_old = fl.decimal 4 10;
    overqual_ratio = fl.decimal 20 10;
    overqual_slope = fl.decimal 1 10;
    overqual_floor = fl.decimal 8 10;
    education_partial = fl.decimal 5 10;
    education_field_fuzz = fl.decimal 85 100;
    seniority_floor = fl.decimal 5 10;
    implied_seniority_factor = fl.decimal 15 10;
    implied_min_coverage = fl.decimal 5 10;
    evidence_met_confidence = fl.decimal 7 10;
    evidence_partial_weight = fl.decimal 5 10;
    evidence_verify_fuzz = fl.decimal 85 100;
    evidence_min_quote_chars = 16;
    motivation_min_confidence = fl.decimal 7 10;
  }
