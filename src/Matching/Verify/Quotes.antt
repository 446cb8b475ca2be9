-- ===== src/Matching/Verify/Quotes.antt =====
-- What `verify_evidence` leaves standing: existing citations, and quotes that a cited chunk contains.
use recruiter_pilot.Base.{
  All, All-filter_self, All-mapped, Bool-cases, List, Option-cases, String, [], any-found, ap,
  arith, contains, false, inl, inr, length, list_eq, nat_eq, option_eq, refl, some, string_eq, sym,
  true, ◌∙◌, ◌∷◌, ◌≡◌, ◌≤◌, ◌⊎◌,
}
use recruiter_pilot.Base.Dict.{Dict, lookup}
use recruiter_pilot.Base.Text.{Text, strip}
use recruiter_pilot.Matching.Float.{Float, IsOrdered, ◌≼◌}
use recruiter_pilot.Matching.Model.{
  CoverLetterEvidence, EvidenceObject, MatchWeights, RequirementEvidence,
}
use recruiter_pilot.Matching.Verify.{
  exists_chunk, fabricated, fuzz_ratio, good_ids, is_found, matches, normalised, scrubbed,
  theme_scrubbed, verify_evidence, verify_requirement, verify_theme,
}

module _ {F : Type 0} ⦃fl : Float F⦄ (lower : Text → Text) (partial_ratio : Text → Text → F)
    (w : MatchWeights F) (chunks : Dict String Text) where
  -- the quote of the texts is a span of one of the cited chunks: no shorter than the floor, no longer
  -- than the chunk, and as similar to a window of it as the threshold asks
  unfoldable pub IsSpan : Text → List String → Type 0
  IsSpan quote ids =
      (cid : String) × (chunk : Text) × (contains ids cid ≡ true)
      × (lookup cid chunks ≡ some chunk)
      × (w.evidence_min_quote_chars ≤ length (normalised (strip (lower quote))))
      × (length (normalised (strip (lower quote))) ≤ length (normalised (lower chunk)))
      × (w.evidence_verify_fuzz
          ≼ fl.div (partial_ratio (normalised (strip (lower quote))) (normalised (lower chunk)))
              (fl.of_ℕ 100))

  unfoldable pub IsSound : Text → List String → Type 0
  IsSound quote ids =
      All (λ cid. exists_chunk lower partial_ratio w chunks cid ≡ true) ids
      × ((quote ≡ []) ⊎ IsSpan quote ids)

  guarded_ratio :
      (quote chunk : Text)
      → fl.lt (fl.of_ℕ 0) w.evidence_verify_fuzz ≡ true
      → IsOrdered fl
      → matches lower partial_ratio w chunks quote (some chunk) ≡ true
      → (w.evidence_min_quote_chars ≤ length (normalised quote))
        × (length (normalised quote) ≤ length (normalised (lower chunk)))
        × (w.evidence_verify_fuzz
            ≼ fl.div (partial_ratio (normalised quote) (normalised (lower chunk))) (fl.of_ℕ 100))
  unfolding fuzz_ratio
  guarded_ratio quote chunk pos ord h =
      ground (arith, ord.lt-eq-not-le (fl.of_ℕ 0) w.evidence_verify_fuzz)

  found-IsSpan :
      (quote : Text) (ids : List String)
      → fl.lt (fl.of_ℕ 0) w.evidence_verify_fuzz ≡ true
      → IsOrdered fl
      → is_found lower partial_ratio w chunks quote ids ≡ true
      → IsSpan quote ids
  unfolding is_found IsSpan
  found-IsSpan quote ids pos ord h =
      let quoted = strip (lower quote) in
      let (cid, among, passes) =
        any-found (λ cid. matches lower partial_ratio w chunks quoted (lookup cid chunks)) ids h in
      elim (Option-cases (lookup cid chunks)) [
        | inl e ↦ ground arith
        | inr (chunk, e) ↦
            let (long, short, alike) =
              guarded_ratio quoted chunk pos ord
                (sym (ap (matches lower partial_ratio w chunks quoted) e) ∙ passes) in
            (cid, chunk, among, e, long, short, alike)
      ]

  not_fabricated :
      (quote : Text) (ids : List String)
      → fabricated lower partial_ratio w chunks quote ids ≡ false
      → (quote ≡ []) ⊎ (is_found lower partial_ratio w chunks quote ids ≡ true)
  not_fabricated [] ids h = inl refl
  not_fabricated (c ∷ s) [] h = ground arith
  not_fabricated (c ∷ s) (i ∷ ids) h = ground arith

  kept-IsSound :
      (quote : Text) (ids : List String)
      → fl.lt (fl.of_ℕ 0) w.evidence_verify_fuzz ≡ true
      → IsOrdered fl
      → fabricated lower partial_ratio w chunks quote (good_ids lower partial_ratio w chunks ids)
        ≡ false
      → IsSound quote (good_ids lower partial_ratio w chunks ids)
  unfolding IsSound
  kept-IsSound quote ids pos ord h = (
    All-filter_self (exists_chunk lower partial_ratio w chunks) ids,
    elim (not_fabricated quote (good_ids lower partial_ratio w chunks ids) h) [
      | inl e ↦ inl e
      | inr e ↦ inr (found-IsSpan quote (good_ids lower partial_ratio w chunks ids) pos ord e)
    ],
  )

  blank-IsSound : (ids : List String) → IsSound [] (good_ids lower partial_ratio w chunks ids)
  unfolding IsSound
  blank-IsSound ids = (All-filter_self (exists_chunk lower partial_ratio w chunks) ids, inl refl)

  requirement-IsSound :
      (r : RequirementEvidence F)
      → fl.lt (fl.of_ℕ 0) w.evidence_verify_fuzz ≡ true
      → IsOrdered fl
      → IsSound
          (verify_requirement lower partial_ratio w chunks r).evidence
          (verify_requirement lower partial_ratio w chunks r).evidence_chunk_ids
  unfolding verify_requirement scrubbed
  requirement-IsSound r pos ord =
      elim (Bool-cases (
        fabricated lower partial_ratio w chunks r.evidence
          (good_ids lower partial_ratio w chunks r.evidence_chunk_ids))) [
            | inl e ↦ rw e (blank-IsSound r.evidence_chunk_ids)
            | inr e ↦ rw e (kept-IsSound r.evidence r.evidence_chunk_ids pos ord e)
          ]

  theme-IsSound :
      (r : CoverLetterEvidence F)
      → fl.lt (fl.of_ℕ 0) w.evidence_verify_fuzz ≡ true
      → IsOrdered fl
      → IsSound
          (verify_theme lower partial_ratio w chunks r).evidence
          (verify_theme lower partial_ratio w chunks r).evidence_chunk_ids
  unfolding verify_theme theme_scrubbed
  theme-IsSound r pos ord =
      elim (Bool-cases (
        fabricated lower partial_ratio w chunks r.evidence
          (good_ids lower partial_ratio w chunks r.evidence_chunk_ids))) [
            | inl e ↦ rw e (blank-IsSound r.evidence_chunk_ids)
            | inr e ↦ rw e (kept-IsSound r.evidence r.evidence_chunk_ids pos ord e)
          ]

  -- With a positive threshold, every citation that `verify_evidence` leaves on a requirement or on a
  -- theme of the cover letter is the id of a chunk of the candidate, and every quote it leaves is
  -- either empty or, lower-cased and normalised, at least `evidence_min_quote_chars` long, no longer
  -- than a cited chunk and as similar to a part of that chunk as the threshold asks.
  pub verify_evidence-IsSound :
      (evidence : EvidenceObject F)
      → fl.lt (fl.of_ℕ 0) w.evidence_verify_fuzz ≡ true
      → IsOrdered fl
      → All
          (λ r. IsSound r.evidence r.evidence_chunk_ids)
          (verify_evidence lower partial_ratio w chunks evidence).requirements
        × All
            (λ e. IsSound e.evidence e.evidence_chunk_ids)
            (verify_evidence lower partial_ratio w chunks evidence).cover_letter_evidence
  unfolding verify_evidence
  verify_evidence-IsSound evidence pos ord = (
    All-mapped (verify_requirement lower partial_ratio w chunks)
        (λ r. IsSound r.evidence r.evidence_chunk_ids) (λ r. requirement-IsSound r pos ord)
        evidence.requirements,
    All-mapped (verify_theme lower partial_ratio w chunks)
        (λ r. IsSound r.evidence r.evidence_chunk_ids) (λ r. theme-IsSound r pos ord)
        evidence.cover_letter_evidence,
  )
