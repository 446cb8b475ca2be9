-- ===== src/Matching/Combine/Cliff.antt =====
-- Candidates past the evidence cliff: stage 3 saw only the first of the list that is sorted by the
-- structured score, so the rest enter stage 4 without evidence.
use mathlib.Core.Path.{ap₂}
use recruiter_pilot.Base.{
  All, All-image, All-map, All-map₂, List, Option, [], ap, map, map-append, map-map, none, refl,
  sym, ◌++◌, ◌∙◌, ◌∷◌, ◌≡◌,
}
use recruiter_pilot.Matching.Combine.{
  CombineEntry, CombineInput, combine_entry, evidence_completeness, final_score, motivation_score,
  stage4_combine,
}
use recruiter_pilot.Matching.Combine.Bounds.{
  IsNonneg, evidence_completeness-nonneg, motivation_score-nonneg,
}
use recruiter_pilot.Matching.Combine.Ranking.{map-number}
use recruiter_pilot.Matching.Float.{Float, IsMonotone, ◌≼◌}
use recruiter_pilot.Matching.Model.{EvidenceObject, MatchWeights}
use recruiter_pilot.Matching.Sort.{
  IsDescending, sort_descending, sort_descending-append, sort_descending_sorted,
}

module _ {F : Type 0} ⦃fl : Float F⦄ (w : MatchWeights F) where
  -- the weights that multiply a score, which pydantic keeps at zero or above
  unfoldable pub HasWeights : Type 0
  HasWeights =
      (fl.of_ℕ 0 ≼ w.structured)
      × (fl.of_ℕ 0 ≼ w.evidence)
      × (fl.of_ℕ 0 ≼ w.motivation)
      × (fl.of_ℕ 0 ≼ w.evidence_partial_weight)

  unassessed_below :
      (mono : IsMonotone fl) (s t : F) (e : Option (EvidenceObject F))
      → HasWeights
      → IsNonneg w e
      → t ≼ s
      → final_score w t none ≼ final_score w s e
  unfolding final_score HasWeights evidence_completeness motivation_score
  unassessed_below mono s t e (structured_pos, evidence_pos, motivation_pos, partial_pos) k below =
      mono.add-mono _ _ _ _
        (mono.add-mono _ _ _ _ (mono.mul-mono w.structured t s structured_pos below) (
          mono.mul-mono w.evidence _ _ evidence_pos
            (evidence_completeness-nonneg w mono e partial_pos)))
        (mono.mul-mono w.motivation _ _ motivation_pos (motivation_score-nonneg w mono e k))

  module _ {ℓ} {Key : Type ℓ} where
    abbrev final_key : CombineEntry Key F → F
    final_key e = e.score_final

    abbrev pub IsUnassessed : CombineInput Key F → Type 0
    IsUnassessed c = c.evidence ≡ none

    -- all of them below a candidate that was assessed
    unfoldable pub IsAbove : List (CombineInput Key F) → CombineInput Key F → Type 0
    IsAbove rest c =
        IsNonneg w c.evidence × All (λ d. (IsUnassessed d) × (d.structured ≼ c.structured)) rest

    below_entry :
        (mono : IsMonotone fl) (c d : CombineInput Key F)
        → HasWeights
        → IsNonneg w c.evidence
        → IsUnassessed d
        → d.structured ≼ c.structured
        → final_key (combine_entry w d) ≼ final_key (combine_entry w c)
    unfolding combine_entry
    below_entry mono c d h k e below =
        rw e (unassessed_below mono c.structured d.structured c.evidence h k below)

    entries_below :
        (mono : IsMonotone fl) (top rest : List (CombineInput Key F))
        → HasWeights
        → All (IsAbove rest) top
        → All
            (λ x. All (λ y. final_key y ≼ final_key x) (map (combine_entry w) rest))
            (map (combine_entry w) top)
    unfolding IsAbove
    entries_below mono top rest h above = All-image (combine_entry w) _ _ (
        All-map (IsAbove rest) _
          (λ c k.
            All-image (combine_entry w) _ _
              (All-map _ _ (λ d j. below_entry mono c d h k.0 j.0 j.1) rest k.1))
          top above)

    none-IsNonneg : (c : CombineInput Key F) → IsUnassessed c → IsNonneg w c.evidence
    unfolding IsNonneg
    none-IsNonneg c h = rw h tt

    rest-IsDescending :
        (mono : IsMonotone fl) (rest : List (CombineInput Key F))
        → HasWeights
        → All IsUnassessed rest
        → IsDescending (λ c. c.structured) rest
        → IsDescending final_key (map (combine_entry w) rest)
    unfolding IsDescending
    rest-IsDescending mono [] h k j = tt
    rest-IsDescending mono (c ∷ cs) h k j = (
      All-image (combine_entry w) _ _ (
          All-map₂ _ _ _ (λ d e below. below_entry mono c d h (none-IsNonneg c k.0) e below) cs k.1
            j.0),
      rest-IsDescending mono cs h k.1 j.1,
    )

    resume_id-combine_entry :
        (cs : List (CombineInput Key F))
        → map (λ e. e.resume_id) (map (combine_entry w) cs) ≡ map (λ c. c.resume_id) cs
    unfolding combine_entry
    resume_id-combine_entry cs = map-map (combine_entry w) (λ e. e.resume_id) cs

    ids-stage4_combine :
        (cs : List (CombineInput Key F))
        → map (λ e. e.resume_id) (stage4_combine w cs)
          ≡ map (λ e. e.resume_id) (sort_descending final_key (map (combine_entry w) cs))
    unfolding stage4_combine
    ids-stage4_combine cs = map-number (λ e. e.resume_id) (λ e n. refl) 0 _

    -- Candidates without evidence, in the order of their structured scores and none of them above a
    -- candidate before them, are ranked behind all of those and in the order they came in: what the
    -- cliff cut off changes no rank. (For the weights and confidences that the schema admits.)
    pub stage4_combine-cliff :
        (top rest : List (CombineInput Key F))
        → IsMonotone fl
        → HasWeights
        → All (IsAbove rest) top
        → All IsUnassessed rest
        → IsDescending (λ c. c.structured) rest
        → map (λ e. e.resume_id) (stage4_combine w (top ++ rest))
          ≡ map (λ e. e.resume_id) (stage4_combine w top) ++ map (λ c. c.resume_id) rest
    stage4_combine-cliff top rest mono h above unassessed descending =
        let tops = map (combine_entry w) top in
        let rests = map (combine_entry w) rest in
        ids-stage4_combine (top ++ rest)
        ∙ ap (λ es. map (λ e. e.resume_id) (sort_descending final_key es))
            (map-append (combine_entry w) top rest)
        ∙ ap (map (λ e. e.resume_id)) (
            sort_descending-append final_key mono.ordered tops rests
              (entries_below mono top rest h above))
        ∙ map-append (λ e. e.resume_id) (sort_descending final_key tops) _
        ∙ ap₂ ◌++◌ (sym (ids-stage4_combine top)) (
            ap (map (λ e. e.resume_id)) (
              sort_descending_sorted final_key mono.ordered rests
                (rest-IsDescending mono rest h unassessed descending))
            ∙ resume_id-combine_entry rest)
