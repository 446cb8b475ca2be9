-- ===== src/Matching/Shortlist.antt =====
-- Stages 3 and 4 of core/src/pipeline/matching/orchestrator.py: the evidence of the first
-- `evidence_k` candidates, and `generate_shortlist` from the scored candidates of stage 2 on. The
-- language model, `str.lower` and `partial_ratio` are parameters; `none` is the
-- `RankingUnavailableError` that withholds the shortlist.
pub mod Cliff
use recruiter_pilot.Auth.Keys.{truthy}
use recruiter_pilot.Base.{
  Bool, Eq, List, Option, String, [], any, if◌then◌else◌, list_eq, map, nat_eq, none, option_eq,
  some, string_eq, take, ℕ, ◌==◌, ◌||◌, ◌∷◌,
}
use recruiter_pilot.Base.Dict.{Dict, insert, lookup}
use recruiter_pilot.Base.Text.{Text}
use recruiter_pilot.Matching.Combine.{
  CombineEntry, CombineInput, apply_top_percent_cap, stage4_combine,
}
use recruiter_pilot.Matching.Float.{Float}
use recruiter_pilot.Matching.Model.{EvidenceObject, MatchWeights, ScoreBreakdown}
use recruiter_pilot.Matching.Sort.{sort_descending}
use recruiter_pilot.Matching.Verify.{is_empty, verify_evidence}

pub record Stage2Candidate {ℓ} (Key : Type ℓ) (F : Type 0) : Type ℓ where
  pub resume_id : Key
  pub vec_score : F
  pub structured : F
  pub breakdown : ScoreBreakdown F

pub record ShortlistResultEntry {ℓ} (Key : Type ℓ) (F : Type 0) : Type ℓ where
  pub resume_id : Key
  pub rank : ℕ
  pub score_final : F
  pub score_structured : F
  pub score_evidence : F
  pub breakdown : ScoreBreakdown F
  pub evidence : Option (EvidenceObject F)
  pub evidence_evaluated : Bool

-- a chunk of a parsed résumé; one without an id is not cited
pub record Chunk : Type 0 where
  pub chunk_id : Option String
  pub chunk_text : Text

pub record Parsed : Type 0 where
  pub chunks : List Chunk
  pub cover_letter_chunks : List Chunk

-- `{c["id"]: c["text"] for c in chunks if c.get("id")}`, put into a dictionary
unfoldable pub index_chunks : Dict String Text → List Chunk → Dict String Text
index_chunks d [] = d
index_chunks d (c ∷ cs) = elim c.chunk_id [
  | none ↦ index_chunks d cs
  | some i ↦
      let without = index_chunks d cs in
      let with_it = index_chunks (insert i c.chunk_text d) cs in
      if truthy i then with_it else without
]

-- a missing key and a stored `None` read the same
abbrev pub flat {ℓ} : {A : Type ℓ} → Option (Option A) → Option A
flat none = none
flat (some e) = e

unfoldable pub chunks_by_id : Parsed → Dict String Text
unfolding index_chunks
chunks_by_id parsed = index_chunks (index_chunks [] parsed.chunks) parsed.cover_letter_chunks

module _ {F : Type 0} ⦃fl : Float F⦄ (lower : Text → Text) (partial_ratio : Text → Text → F)
    (weights : MatchWeights F) where
  -- `chat_json` answers from the prompt, which shows the job and the chunks
  unfoldable pub stage3_per_candidate :
      (Parsed → Option (EvidenceObject F))
      → List String
      → Parsed
      → Option (Option (EvidenceObject F))
  unfolding chunks_by_id
  stage3_per_candidate chat_json required_skills parsed =
      if is_empty parsed.chunks || is_empty required_skills
      then some none
      else elim (chat_json parsed) [
        | none ↦ none
        | some evidence ↦
            some (some (verify_evidence lower partial_ratio weights (chunks_by_id parsed) evidence))
      ]

module _ {F : Type 0} ⦃fl : Float F⦄ (lower : Text → Text) (partial_ratio : Text → Text → F)
    (weights : MatchWeights F) {Key : Type 0} ⦃eq : Eq Key⦄ where
  -- one failure withholds everything
  unfoldable pub stage3_evidence :
      (Parsed → Option (EvidenceObject F))
      → List String
      → (Key → Parsed)
      → Dict Key (Option (EvidenceObject F))
      → List (Stage2Candidate Key F)
      → Option (Dict Key (Option (EvidenceObject F)))
  unfolding stage3_per_candidate
  stage3_evidence chat_json required_skills fetch_parsed results [] = some results
  stage3_evidence chat_json required_skills fetch_parsed results (c ∷ cs) =
      elim (stage3_per_candidate lower partial_ratio weights chat_json required_skills
        (fetch_parsed c.resume_id)) [
          | none ↦ none
          | some found ↦
              stage3_evidence chat_json required_skills fetch_parsed
                (insert c.resume_id found results) cs
        ]

module _ {F : Type 0} ⦃fl : Float F⦄ (weights : MatchWeights F) {Key : Type 0} ⦃eq : Eq Key⦄ where
  -- `evidence_by_id.get(c.resume_id)`
  abbrev pub found_evidence : Key → Dict Key (Option (EvidenceObject F)) → Option (EvidenceObject F)
  found_evidence i evidence_by_id = flat (lookup i evidence_by_id)

  abbrev pub combine_input :
      Dict Key (Option (EvidenceObject F)) → Stage2Candidate Key F → CombineInput Key F
  combine_input evidence_by_id c = record {
    resume_id = c.resume_id;
    structured = c.structured;
    breakdown = c.breakdown;
    evidence = found_evidence c.resume_id evidence_by_id;
  }

  -- `e.resume_id in evaluated_ids`
  abbrev pub is_evaluated : List (Stage2Candidate Key F) → Key → Bool
  is_evaluated top_k i = any (λ c. i == c.resume_id) top_k

  abbrev pub result_entry :
      List (Stage2Candidate Key F) → CombineEntry Key F → ShortlistResultEntry Key F
  result_entry top_k e = record {
    resume_id = e.resume_id;
    rank = e.rank;
    score_final = e.score_final;
    score_structured = e.score_structured;
    score_evidence = e.score_evidence;
    breakdown = e.breakdown;
    evidence = e.evidence;
    evidence_evaluated = is_evaluated top_k e.resume_id;
  }

  -- the candidates of stage 2 in the order that stage 3 cuts
  abbrev pub by_structured : List (Stage2Candidate Key F) → List (Stage2Candidate Key F)
  by_structured candidates_s2 = sort_descending (λ c. c.structured) candidates_s2

  abbrev pub combined_entries :
      ℕ
      → ℕ
      → List (Stage2Candidate Key F)
      → Dict Key (Option (EvidenceObject F))
      → List (ShortlistResultEntry Key F)
  combined_entries evidence_k top_percent sorted evidence_by_id =
      apply_top_percent_cap
        (map (result_entry (take evidence_k sorted))
          (stage4_combine weights (map (combine_input evidence_by_id) sorted)))
        top_percent

  -- what follows stage 3, which may have withheld the shortlist
  abbrev pub after_stage3 :
      ℕ
      → ℕ
      → List (Stage2Candidate Key F)
      → Option (Dict Key (Option (EvidenceObject F)))
      → Option (List (ShortlistResultEntry Key F))
  after_stage3 evidence_k top_percent sorted none = none
  after_stage3 evidence_k top_percent sorted (some evidence_by_id) =
      some (combined_entries evidence_k top_percent sorted evidence_by_id)

module _ {F : Type 0} ⦃fl : Float F⦄ (lower : Text → Text) (partial_ratio : Text → Text → F)
    (weights : MatchWeights F) {Key : Type 0} ⦃eq : Eq Key⦄ where
  -- from the end of the stage 2 loop on
  unfoldable pub generate_shortlist :
      (Parsed → Option (EvidenceObject F))
      → List String
      → (Key → Parsed)
      → ℕ
      → ℕ
      → List (Stage2Candidate Key F)
      → Option (List (ShortlistResultEntry Key F))
  unfolding stage3_evidence
  generate_shortlist chat_json required_skills fetch_parsed evidence_k top_percent candidates_s2 =
      let sorted = by_structured weights candidates_s2 in
      after_stage3 weights evidence_k top_percent sorted (
        stage3_evidence lower partial_ratio weights chat_json required_skills fetch_parsed []
          (take evidence_k sorted))
