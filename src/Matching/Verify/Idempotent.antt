-- ===== src/Matching/Verify/Idempotent.antt =====
-- A second run of `verify_evidence` against the same chunks.
use recruiter_pilot.Base.{
  Bool-cases, String, filter-filter, inl, inr, list_eq, map-idempotent, nat_eq, option_eq, refl,
  string_eq, ◌≡◌,
}
use recruiter_pilot.Base.Dict.{Dict}
use recruiter_pilot.Base.Text.{Text}
use recruiter_pilot.Matching.Float.{Float}
use recruiter_pilot.Matching.Model.{
  CoverLetterEvidence, EvidenceObject, MatchWeights, RequirementEvidence,
}
use recruiter_pilot.Matching.Verify.{
  exists_chunk, fabricated, good_ids, scrubbed, theme_scrubbed, verify_evidence, verify_requirement,
  verify_theme,
}

module _ {F : Type 0} ⦃fl : Float F⦄ (lower : Text → Text) (partial_ratio : Text → Text → F)
    (w : MatchWeights F) (chunks : Dict String Text) where
  verify_requirement-verify_requirement :
      (r : RequirementEvidence F)
      → verify_requirement lower partial_ratio w chunks
          (verify_requirement lower partial_ratio w chunks r)
        ≡ verify_requirement lower partial_ratio w chunks r
  unfolding verify_requirement scrubbed
  verify_requirement-verify_requirement r =
      let same = filter-filter (exists_chunk lower partial_ratio w chunks) r.evidence_chunk_ids in
      elim (Bool-cases (
        fabricated lower partial_ratio w chunks r.evidence
          (good_ids lower partial_ratio w chunks r.evidence_chunk_ids))) [
            | inl e ↦ rw e (rw same refl)
            | inr e ↦ rw e (rw same (rw e refl))
          ]

  verify_theme-verify_theme :
      (r : CoverLetterEvidence F)
      → verify_theme lower partial_ratio w chunks (verify_theme lower partial_ratio w chunks r)
        ≡ verify_theme lower partial_ratio w chunks r
  unfolding verify_theme theme_scrubbed
  verify_theme-verify_theme r =
      let same = filter-filter (exists_chunk lower partial_ratio w chunks) r.evidence_chunk_ids in
      elim (Bool-cases (
        fabricated lower partial_ratio w chunks r.evidence
          (good_ids lower partial_ratio w chunks r.evidence_chunk_ids))) [
            | inl e ↦ rw e (rw same refl)
            | inr e ↦ rw e (rw same (rw e refl))
          ]

  -- Verifying evidence a second time against the same chunks changes nothing.
  pub verify_evidence-idempotent :
      (evidence : EvidenceObject F)
      → verify_evidence lower partial_ratio w chunks
          (verify_evidence lower partial_ratio w chunks evidence)
        ≡ verify_evidence lower partial_ratio w chunks evidence
  unfolding verify_evidence
  verify_evidence-idempotent evidence =
      rw
        (map-idempotent (verify_requirement lower partial_ratio w chunks)
          verify_requirement-verify_requirement evidence.requirements)
        (rw
          (map-idempotent (verify_theme lower partial_ratio w chunks) verify_theme-verify_theme
            evidence.cover_letter_evidence)
          refl)
