-- ===== src/Matching/Combine/Ranking.antt =====
-- The order and the numbering that stage 4 returns.
use mathlib.Core.List.Perm
use mathlib.Core.List.{Perm}
use mathlib.Core.Path.{subst}
use recruiter_pilot.Base.{All, List, [], ap, map, refl, sym, ℕ, ◌+◌, ◌∷◌, ◌≡◌}
use recruiter_pilot.Matching.Combine.{
  CombineEntry, CombineInput, combine_entry, number, stage4_combine,
}
use recruiter_pilot.Matching.Float.{Float, IsOrdered, ◌≼◌}
use recruiter_pilot.Matching.Model.{MatchWeights}
use recruiter_pilot.Matching.Sort.{
  IsDescending, sort_descending, sort_descending-IsDescending, sort_descending-Perm,
}

module _ {ℓ} {Key : Type ℓ} {F : Type 0} ⦃fl : Float F⦄ where
  -- the ranks from `i + 1` on, one by one
  unfoldable pub IsNumbered : ℕ → List (CombineEntry Key F) → Type 0
  IsNumbered i [] = Unit
  IsNumbered i (e ∷ es) = (e.rank ≡ i + 1) × IsNumbered (i + 1) es

  number-IsNumbered : (i : ℕ) (es : List (CombineEntry Key F)) → IsNumbered i (number i es)
  unfolding IsNumbered number
  number-IsNumbered i [] = tt
  number-IsNumbered i (e ∷ es) = (refl, number-IsNumbered (i + 1) es)

  abbrev pub unranked : CombineEntry Key F → CombineEntry Key F
  unranked e = record e { rank = 0 }

  All-number {κ} :
      (P : CombineEntry Key F → Type κ)
      → ((e : CombineEntry Key F) (n : ℕ) → P e → P (record e { rank = n }))
      → (i : ℕ) (es : List (CombineEntry Key F)) → All P es
      → All P (number i es)
  unfolding number
  All-number P h i [] k = tt
  All-number P h i (e ∷ es) k = (h e (i + 1) k.0, All-number P h (i + 1) es k.1)

  number-IsDescending :
      (i : ℕ) (es : List (CombineEntry Key F))
      → IsDescending (λ e. e.score_final) es
      → IsDescending (λ e. e.score_final) (number i es)
  unfolding number IsDescending
  number-IsDescending i [] h = tt
  number-IsDescending i (e ∷ es) h = (
    All-number (λ d. d.score_final ≼ e.score_final) (λ d n k. k) (i + 1) es h.0,
    number-IsDescending (i + 1) es h.1,
  )

  pub map-number {κ} :
      {B : Type κ} (f : CombineEntry Key F → B)
      → ((e : CombineEntry Key F) (n : ℕ) → f (record e { rank = n }) ≡ f e)
      → (i : ℕ) (es : List (CombineEntry Key F)) → map f (number i es) ≡ map f es
  unfolding number
  map-number f h i [] = refl
  map-number f h i (e ∷ es) = rw (h e (i + 1)) (rw (map-number f h (i + 1) es) refl)

  unranked-combine_entry :
      (w : MatchWeights F) (candidates : List (CombineInput Key F))
      → map unranked (map (combine_entry w) candidates) ≡ map (combine_entry w) candidates
  unfolding combine_entry
  unranked-combine_entry w [] = refl
  unranked-combine_entry w (c ∷ cs) = ap (◌∷◌ (combine_entry w c)) (unranked-combine_entry w cs)

  -- Stage 4 ranks the candidates it is given: the scores descend, the ranks count up from 1, and the
  -- entries are a permutation of the candidates, each with its own scores and evidence.
  pub stage4_combine-IsRanking :
      (w : MatchWeights F) (candidates : List (CombineInput Key F))
      → IsOrdered fl
      → IsDescending (λ e. e.score_final) (stage4_combine w candidates)
        × IsNumbered 0 (stage4_combine w candidates)
        × Perm (map unranked (stage4_combine w candidates)) (map (combine_entry w) candidates)
  unfolding stage4_combine
  stage4_combine-IsRanking w candidates ord =
      let entries = map (combine_entry w) candidates in
      let sorted = sort_descending (λ e. e.score_final) entries in
      (
        number-IsDescending 0 sorted
            (sort_descending-IsDescending (λ e. e.score_final) ord entries),
        number-IsNumbered 0 sorted,
        subst (λ es. Perm es entries) (sym (map-number unranked (λ e n. refl) 0 sorted))
            (subst (λ es. Perm (map unranked sorted) es) (unranked-combine_entry w candidates)
              (Perm.map unranked (sort_descending-Perm (λ e. e.score_final) entries))),
      )
