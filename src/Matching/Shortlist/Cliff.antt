-- ===== src/Matching/Shortlist/Cliff.antt =====
-- The evidence cliff through stages 3 and 4: the candidates that stage 3 never saw.
use recruiter_pilot.Base.{
  All, All-image, All-map, All-map₂, All-swap, Eq, List, Option, Option-cases, Pairwise,
  Pairwise-split, String, [], ap, arith, drop, false, inl, inr, list_eq, map, map-append, map-map,
  nat_eq, none, option_eq, refl, some, string_eq, sym, take, take-drop, ℕ, ◌++◌, ◌==◌, ◌∙◌, ◌∷◌,
  ◌≡◌,
}
use recruiter_pilot.Base.Dict.{Dict, insert, lookup, lookup-insert}
use recruiter_pilot.Base.Text.{Text}
use recruiter_pilot.Matching.Combine.{CombineInput, apply_top_percent_cap, stage4_combine}
use recruiter_pilot.Matching.Combine.Bounds.{IsNonneg}
use recruiter_pilot.Matching.Combine.Cliff.{HasWeights, IsAbove, IsUnassessed, stage4_combine-cliff}
use recruiter_pilot.Matching.Float.{Float, IsMonotone, ◌≼◌}
use recruiter_pilot.Matching.Model.{EvidenceObject, MatchWeights}
use recruiter_pilot.Matching.Shortlist.{
  Parsed, ShortlistResultEntry, Stage2Candidate, after_stage3, by_structured, combine_input, flat,
  found_evidence, generate_shortlist, result_entry, stage3_evidence, stage3_per_candidate,
}
use recruiter_pilot.Matching.Sort.{
  IsDescending, IsDescending-Pairwise, Pairwise-IsDescending, sort_descending-IsDescending,
  sort_descending-Pairwise,
}

module _ {F : Type 0} ⦃fl : Float F⦄ (lower : Text → Text) (partial_ratio : Text → Text → F)
    (w : MatchWeights F) {Key : Type 0} ⦃eq : Eq Key⦄
    (chat_json : Parsed → Option (EvidenceObject F)) (required_skills : List String)
    (fetch_parsed : Key → Parsed) where
  -- two candidates with different ids
  abbrev pub IsOther : Stage2Candidate Key F → Stage2Candidate Key F → Type 0
  IsOther c d = (c.resume_id == d.resume_id) ≡ false

  IsOther-sym : (c d : Stage2Candidate Key F) → IsOther c d → IsOther d c
  IsOther-sym c d h =
      ground (arith, eq.equals_iff c.resume_id d.resume_id, eq.equals_iff d.resume_id c.resume_id)

  unseen :
      (d : Stage2Candidate Key F) (cs : List (Stage2Candidate Key F))
      (results found : Dict Key (Option (EvidenceObject F)))
      → All (λ c. IsOther c d) cs
      → lookup d.resume_id results ≡ none
      → stage3_evidence lower partial_ratio w chat_json required_skills fetch_parsed results cs
        ≡ some found
      → lookup d.resume_id found ≡ none
  unfolding stage3_evidence
  unseen d [] results found other absent h = ground arith
  unseen d (c ∷ cs) results found other absent h =
      elim (Option-cases (
        stage3_per_candidate lower partial_ratio w chat_json required_skills
          (fetch_parsed c.resume_id))) [
            | inl e ↦ ground arith
            | inr (ev, e) ↦
                unseen d cs (insert c.resume_id ev results) found other.1
                  (rw (lookup-insert d.resume_id c.resume_id ev results)
                    (rw (IsOther-sym c d other.0) absent))
                  (ground arith)
          ]

  module _ (found : Dict Key (Option (EvidenceObject F))) where
    abbrev input : Stage2Candidate Key F → CombineInput Key F
    input = combine_input w found

    absent-IsUnassessed :
        (d : Stage2Candidate Key F) → lookup d.resume_id found ≡ none → IsUnassessed w (input d)
    absent-IsUnassessed d h = ap flat h

    inputs-IsDescending :
        (cs : List (Stage2Candidate Key F))
        → IsDescending (λ c. c.structured) cs
        → IsDescending (λ c. c.structured) (map input cs)
    unfolding IsDescending
    inputs-IsDescending [] h = tt
    inputs-IsDescending (c ∷ cs) h = (All-image input _ cs h.0, inputs-IsDescending cs h.1)

    inputs-IsAbove :
        (top rest : List (Stage2Candidate Key F))
        → All (λ c. IsNonneg w (found_evidence w c.resume_id found)) top
        → All (λ c. All (λ d. d.structured ≼ c.structured) rest) top
        → All (λ d. IsUnassessed w (input d)) rest
        → All (IsAbove w (map input rest)) (map input top)
    unfolding IsAbove
    inputs-IsAbove top rest nonneg below unassessed = All-image input _ top (
        All-map₂ _ _ _
          (λ c n b.
            (n, All-image input _ rest (All-map₂ _ _ _ (λ d u k. (u, k)) rest unassessed b)))
          top nonneg below)

    ranked-cliff :
        (k : ℕ) (sorted : List (Stage2Candidate Key F))
        → IsMonotone fl
        → HasWeights w
        → IsDescending (λ c. c.structured) sorted
        → All (λ c. IsNonneg w (found_evidence w c.resume_id found)) (take k sorted)
        → All (λ d. IsUnassessed w (input d)) (drop k sorted)
        → map (λ e. e.resume_id) (stage4_combine w (map input sorted))
          ≡ map (λ e. e.resume_id) (stage4_combine w (map input (take k sorted)))
            ++ map (λ c. c.resume_id) (drop k sorted)
    ranked-cliff k sorted mono weights falls nonneg unassessed =
        let (below, behind) =
          Pairwise-split (λ x y. y.structured ≼ x.structured) k sorted
            (IsDescending-Pairwise (λ c. c.structured) sorted falls) in
        ap (λ cs. map (λ e. e.resume_id) (stage4_combine w (map input cs)))
          (sym (take-drop k sorted))
        ∙ ap (λ cs. map (λ e. e.resume_id) (stage4_combine w cs))
            (map-append input (take k sorted) (drop k sorted))
        ∙ stage4_combine-cliff w (map input (take k sorted)) (map input (drop k sorted)) mono
            weights (inputs-IsAbove (take k sorted) (drop k sorted) nonneg below unassessed)
            (All-image input _ (drop k sorted) unassessed)
            (inputs-IsDescending (drop k sorted)
              (Pairwise-IsDescending (λ c. c.structured) (drop k sorted) behind))
        ∙ ap (λ ids. map (λ e. e.resume_id) (stage4_combine w (map input (take k sorted))) ++ ids)
            (map-map input (λ c. c.resume_id) (drop k sorted))

  nothing_found :
      (d : Stage2Candidate Key F) → lookup {V = Option (EvidenceObject F)} d.resume_id [] ≡ none
  unfolding lookup
  nothing_found d = refl

  -- Where stage 3 answers for all of the first `evidence_k` candidates, the shortlist is the capped
  -- ranking, and in the ranking the candidates that stage 3 never saw stand behind all those it saw,
  -- in the order of their structured scores. (For distinct ids and the weights and confidences that
  -- the schema admits.)
  pub generate_shortlist-cliff :
      (evidence_k top_percent : ℕ) (candidates : List (Stage2Candidate Key F))
      (found : Dict Key (Option (EvidenceObject F)))
      → IsMonotone fl
      → HasWeights w
      → Pairwise IsOther candidates
      → stage3_evidence lower partial_ratio w chat_json required_skills fetch_parsed []
          (take evidence_k (by_structured w candidates))
        ≡ some found
      → All
          (λ c. IsNonneg w (found_evidence w c.resume_id found))
          (take evidence_k (by_structured w candidates))
      → (ranking : List (ShortlistResultEntry Key F)) × (generate_shortlist lower partial_ratio w
            chat_json required_skills fetch_parsed evidence_k top_percent candidates
          ≡ some (apply_top_percent_cap ranking top_percent))
        × (map (λ e. e.resume_id) ranking
            ≡ map
                (λ e. e.resume_id)
                (stage4_combine w
                  (map (combine_input w found) (take evidence_k (by_structured w candidates))))
              ++ map (λ c. c.resume_id) (drop evidence_k (by_structured w candidates)))
  unfolding generate_shortlist
  generate_shortlist-cliff k top_percent candidates found mono weights distinct answered nonneg =
      let sorted = by_structured w candidates in
      let (others, _) =
        Pairwise-split IsOther k sorted
          (sort_descending-Pairwise (λ c. c.structured) IsOther IsOther-sym candidates distinct) in
      let unassessed =
        All-map _ (λ d. IsUnassessed w (input found d))
          (λ d h.
            absent-IsUnassessed found d
              (unseen d (take k sorted) [] found h (nothing_found d) answered))
          (drop k sorted) (All-swap IsOther (take k sorted) (drop k sorted) others) in
      (
        map (result_entry w (take k sorted))
            (stage4_combine w (map (combine_input w found) sorted)),
        ap (after_stage3 w k top_percent sorted) answered,
        map-map (result_entry w (take k sorted)) (λ e. e.resume_id) _
            ∙ ranked-cliff found k sorted mono weights
                (sort_descending-IsDescending (λ c. c.structured) mono.ordered candidates) nonneg
                unassessed,
      )
