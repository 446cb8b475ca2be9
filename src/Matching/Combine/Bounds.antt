-- ===== src/Matching/Combine/Bounds.antt =====
-- The scores of the evidence and of the cover letter lie between 0 and 1.
use mathlib.Core.Path.{subst}
use recruiter_pilot.Base.{
  All, Bool, Bool-cases, List, Option, [], arith, false, filter, inl, inr, length,
  length-filter_disjoint, length-map-filter, map, none, refl, some, true, ℕ, ◌&&◌, ◌+◌, ◌∷◌, ◌≡◌,
  ◌≤◌,
}
use recruiter_pilot.Matching.Combine.{
  completeness_of, counts_as_met, evidence_completeness, is_verified, motivation_of,
  motivation_score,
}
use recruiter_pilot.Matching.Float.{Float, IsMonotone, sum, sum_from, ◌≼◌}
use recruiter_pilot.Matching.Model.{
  CoverLetterEvidence, EvidenceObject, EvidenceStatus, MatchWeights, RequirementEvidence, is_met,
  is_partial, met, missing, partial,
}
use recruiter_pilot.Matching.Verify.{is_empty}

module _ {F : Type 0} ⦃fl : Float F⦄ (w : MatchWeights F) where
  pub zero_le : IsMonotone fl → fl.of_ℕ 0 ≼ fl.of_ℕ 0
  zero_le mono = mono.ordered.refl_le (fl.of_ℕ 0)

  pub sum_from-nonneg :
      (mono : IsMonotone fl) (acc : F) (xs : List F)
      → fl.of_ℕ 0 ≼ acc
      → All (λ x. fl.of_ℕ 0 ≼ x) xs
      → fl.of_ℕ 0 ≼ sum_from acc xs
  unfolding sum_from
  sum_from-nonneg mono acc [] h k = h
  sum_from-nonneg mono acc (x ∷ xs) h k =
      sum_from-nonneg mono (fl.add acc x) xs
        (mono.ordered.trans_le (fl.of_ℕ 0) acc (fl.add acc x) h (mono.le-add acc x k.0)) k.1

  -- the fields that pydantic keeps at zero or above
  unfoldable pub IsNonneg : Option (EvidenceObject F) → Type 0
  IsNonneg none = Unit
  IsNonneg (some e) = All (λ c. fl.of_ℕ 0 ≼ c.confidence) e.cover_letter_evidence

  add-nonneg :
      (mono : IsMonotone fl) (a b : F) → fl.of_ℕ 0 ≼ a → fl.of_ℕ 0 ≼ b → fl.of_ℕ 0 ≼ fl.add a b
  add-nonneg mono a b h k = mono.ordered.trans_le (fl.of_ℕ 0) a (fl.add a b) h (mono.le-add a b k)

  met-not-partial : (s : EvidenceStatus) (b : Bool) → is_met s && b ≡ true → is_partial s ≡ false
  met-not-partial met b h = refl
  met-not-partial partial b h = ground arith
  met-not-partial missing b h = refl

  count_disjoint :
      (rs : List (RequirementEvidence F))
      → length (filter (counts_as_met w) rs) + length (filter (λ r. is_partial r.status) rs)
        ≤ length rs
  count_disjoint rs =
      length-filter_disjoint (counts_as_met w) (λ r. is_partial r.status)
        (λ r. met-not-partial r.status (fl.le w.evidence_met_confidence r.confidence)) rs

  pub of_ℕ-nonneg : (mono : IsMonotone fl) (n : ℕ) → fl.of_ℕ 0 ≼ fl.of_ℕ n
  of_ℕ-nonneg mono n = mono.of_ℕ-mono 0 n (omega arith)

  completeness_of-nonneg :
      (mono : IsMonotone fl) (rs : List (RequirementEvidence F))
      → fl.of_ℕ 0 ≼ w.evidence_partial_weight
      → is_empty rs ≡ false
      → fl.of_ℕ 0 ≼ completeness_of w rs
  unfolding completeness_of
  completeness_of-nonneg mono [] h k = ground arith
  completeness_of-nonneg mono (r ∷ rs) h k =
      mono.div-nonneg _ (fl.of_ℕ (length (r ∷ rs)))
        (add-nonneg mono _ _ (of_ℕ-nonneg mono _) (mono.mul-nonneg _ _ h (of_ℕ-nonneg mono _)))
        (mono.of_ℕ-pos (length rs))

  completeness_of-le :
      (mono : IsMonotone fl) (rs : List (RequirementEvidence F))
      → w.evidence_partial_weight ≼ fl.of_ℕ 1
      → is_empty rs ≡ false
      → length rs ≤ mono.exact
      → completeness_of w rs ≼ fl.of_ℕ 1
  unfolding completeness_of
  completeness_of-le mono [] h k small = ground arith
  completeness_of-le mono (r ∷ rs) h k small =
      let met = length (filter (counts_as_met w) (r ∷ rs)) in
      let partial = length (filter (λ r. is_partial r.status) (r ∷ rs)) in
      mono.div-le-one _ (fl.of_ℕ (length (r ∷ rs)))
        (mono.ordered.trans_le _ _ _
          (mono.add-mono (fl.of_ℕ met) (fl.of_ℕ met) _ (fl.of_ℕ partial)
            (mono.ordered.refl_le (fl.of_ℕ met))
            (rw (mono.mul-comm w.evidence_partial_weight (fl.of_ℕ partial)) (
              mono.mul-le (fl.of_ℕ partial) w.evidence_partial_weight (of_ℕ-nonneg mono partial)
                h)))
          (rw (mono.of_ℕ-add met partial (omega (arith, count_disjoint (r ∷ rs))))
            (mono.of_ℕ-mono (met + partial) (length (r ∷ rs)) (count_disjoint (r ∷ rs)))))
        (mono.of_ℕ-pos (length rs))

  pub evidence_completeness-nonneg :
      (mono : IsMonotone fl) (e : Option (EvidenceObject F))
      → fl.of_ℕ 0 ≼ w.evidence_partial_weight
      → fl.of_ℕ 0 ≼ evidence_completeness w e
  unfolding evidence_completeness
  evidence_completeness-nonneg mono none h = zero_le mono
  evidence_completeness-nonneg mono (some e) h = elim (Bool-cases (is_empty e.requirements)) [
    | inl k ↦ rw k (zero_le mono)
    | inr k ↦ rw k (completeness_of-nonneg mono e.requirements h k)
  ]

  evidence_completeness-le :
      (mono : IsMonotone fl) (e : EvidenceObject F)
      → w.evidence_partial_weight ≼ fl.of_ℕ 1
      → length e.requirements ≤ mono.exact
      → evidence_completeness w (some e) ≼ fl.of_ℕ 1
  unfolding evidence_completeness
  evidence_completeness-le mono e h small = elim (Bool-cases (is_empty e.requirements)) [
    | inl k ↦ rw k (mono.of_ℕ-mono 0 1 (omega arith))
    | inr k ↦ rw k (completeness_of-le mono e.requirements h k small)
  ]

  pub sum_from-le :
      (mono : IsMonotone fl) (m : ℕ) (acc : F) (xs : List F)
      → acc ≼ fl.of_ℕ m
      → All (λ x. x ≼ fl.of_ℕ 1) xs
      → m + length xs ≤ mono.exact
      → sum_from acc xs ≼ fl.of_ℕ (m + length xs)
  unfolding sum_from
  sum_from-le mono m acc [] h k small = subst (λ n. acc ≼ fl.of_ℕ n) (omega arith) h
  sum_from-le mono m acc (x ∷ xs) h k small =
      subst (λ n. sum_from (fl.add acc x) xs ≼ fl.of_ℕ n) (omega arith)
        (sum_from-le mono (m + 1) (fl.add acc x) xs
          (subst (λ t. fl.add acc x ≼ t) (mono.of_ℕ-add m 1 (omega (arith, small)))
            (mono.add-mono acc (fl.of_ℕ m) x (fl.of_ℕ 1) h k.0))
          k.1 (omega (arith, small)))

  verified-nonneg :
      (themes : List (CoverLetterEvidence F))
      → All (λ c. fl.of_ℕ 0 ≼ c.confidence) themes
      → All (λ x. fl.of_ℕ 0 ≼ x) (map (λ e. e.confidence) (filter (is_verified w) themes))
  verified-nonneg [] h = tt
  verified-nonneg (c ∷ cs) h = elim (Bool-cases (is_verified w c)) [
    | inl e ↦ rw e (h.0, verified-nonneg cs h.1)
    | inr e ↦ rw e (verified-nonneg cs h.1)
  ]

  motivation_of-nonneg :
      (mono : IsMonotone fl) (themes : List (CoverLetterEvidence F))
      → All (λ c. fl.of_ℕ 0 ≼ c.confidence) themes
      → is_empty themes ≡ false
      → fl.of_ℕ 0 ≼ motivation_of w themes
  unfolding motivation_of sum
  motivation_of-nonneg mono [] h k = ground arith
  motivation_of-nonneg mono (c ∷ cs) h k =
      elim (Bool-cases (is_empty (filter (is_verified w) (c ∷ cs)))) [
        | inl e ↦ rw e (zero_le mono)
        | inr e ↦ rw e (
            mono.div-nonneg _ _
              (sum_from-nonneg mono (fl.of_ℕ 0) _ (zero_le mono) (verified-nonneg (c ∷ cs) h))
              (mono.of_ℕ-pos (length cs)))
      ]

  pub motivation_score-nonneg :
      (mono : IsMonotone fl) (e : Option (EvidenceObject F))
      → IsNonneg e
      → fl.of_ℕ 0 ≼ motivation_score w e
  unfolding motivation_score IsNonneg
  motivation_score-nonneg mono none h = zero_le mono
  motivation_score-nonneg mono (some e) h = elim (Bool-cases (is_empty e.cover_letter_evidence)) [
    | inl k ↦ rw k (zero_le mono)
    | inr k ↦ rw k (motivation_of-nonneg mono e.cover_letter_evidence h k)
  ]

  verified-le :
      (themes : List (CoverLetterEvidence F))
      → All (λ c. c.confidence ≼ fl.of_ℕ 1) themes
      → All (λ x. x ≼ fl.of_ℕ 1) (map (λ e. e.confidence) (filter (is_verified w) themes))
  verified-le [] h = tt
  verified-le (c ∷ cs) h = elim (Bool-cases (is_verified w c)) [
    | inl e ↦ rw e (h.0, verified-le cs h.1)
    | inr e ↦ rw e (verified-le cs h.1)
  ]

  motivation_of-le :
      (mono : IsMonotone fl) (themes : List (CoverLetterEvidence F))
      → All (λ c. c.confidence ≼ fl.of_ℕ 1) themes
      → is_empty themes ≡ false
      → length themes ≤ mono.exact
      → motivation_of w themes ≼ fl.of_ℕ 1
  unfolding motivation_of sum
  motivation_of-le mono [] h k small = ground arith
  motivation_of-le mono (c ∷ cs) h k small =
      let xs = map (λ e. e.confidence) (filter (is_verified w) (c ∷ cs)) in
      let short = length-map-filter (is_verified w) (λ e. e.confidence) (c ∷ cs) in
      elim (Bool-cases (is_empty (filter (is_verified w) (c ∷ cs)))) [
        | inl e ↦ rw e (mono.of_ℕ-mono 0 1 (omega arith))
        | inr e ↦ rw e (
            mono.div-le-one _ (fl.of_ℕ (length (c ∷ cs)))
              (mono.ordered.trans_le _ _ _
                (sum_from-le mono 0 (fl.of_ℕ 0) xs (zero_le mono) (verified-le (c ∷ cs) h)
                  (omega (arith, short, small)))
                (mono.of_ℕ-mono (0 + length xs) (length (c ∷ cs)) (omega (arith, short))))
              (mono.of_ℕ-pos (length cs)))
      ]

  motivation_score-le :
      (mono : IsMonotone fl) (e : EvidenceObject F)
      → All (λ c. c.confidence ≼ fl.of_ℕ 1) e.cover_letter_evidence
      → length e.cover_letter_evidence ≤ mono.exact
      → motivation_score w (some e) ≼ fl.of_ℕ 1
  unfolding motivation_score
  motivation_score-le mono e h small = elim (Bool-cases (is_empty e.cover_letter_evidence)) [
    | inl k ↦ rw k (mono.of_ℕ-mono 0 1 (omega arith))
    | inr k ↦ rw k (motivation_of-le mono e.cover_letter_evidence h k small)
  ]

  -- For fewer requirements and themes than the floats count exactly, and for confidences and a weight
  -- of partial evidence between 0 and 1, both scores of an evidence object lie between 0 and 1.
  pub scores-bounded :
      (mono : IsMonotone fl) (e : EvidenceObject F)
      → (fl.of_ℕ 0 ≼ w.evidence_partial_weight) × (w.evidence_partial_weight ≼ fl.of_ℕ 1)
      → All (λ c. fl.of_ℕ 0 ≼ c.confidence) e.cover_letter_evidence
      → All (λ c. c.confidence ≼ fl.of_ℕ 1) e.cover_letter_evidence
      → length e.requirements ≤ mono.exact
      → length e.cover_letter_evidence ≤ mono.exact
      → (fl.of_ℕ 0 ≼ evidence_completeness w (some e))
        × (evidence_completeness w (some e) ≼ fl.of_ℕ 1)
        × (fl.of_ℕ 0 ≼ motivation_score w (some e))
        × (motivation_score w (some e) ≼ fl.of_ℕ 1)
  unfolding IsNonneg
  scores-bounded mono e weight low high few_requirements few_themes = (
    evidence_completeness-nonneg mono (some e) weight.0,
    evidence_completeness-le mono e weight.1 few_requirements,
    motivation_score-nonneg mono (some e) low,
    motivation_score-le mono e high few_themes,
  )
