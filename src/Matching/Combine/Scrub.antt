-- ===== src/Matching/Combine/Scrub.antt =====
-- What verification does to the score, and what the cap keeps of a ranking.
use recruiter_pilot.Base.{
  Bool-cases, List, String, [], arith, drop, false, if◌then◌else◌, inl, inr, length,
  length-filter-map-le, length-filter-map_same, length-map, length-take, list_eq, map, max, nat_eq,
  option_eq, refl, some, string_eq, suc, take, take-drop, true, zero, ℕ, ◌*◌, ◌++◌, ◌+◌, ◌/◌, ◌<◌,
  ◌∷◌, ◌≡◌, ◌≤◌, ◌⊎◌,
}
use recruiter_pilot.Base.Dict.{Dict}
use recruiter_pilot.Base.Text.{Text}
use recruiter_pilot.Matching.Combine.{
  apply_top_percent_cap, completeness_of, counts_as_met, evidence_completeness,
}
use recruiter_pilot.Matching.Float.{Float, IsMonotone, ◌≼◌}
use recruiter_pilot.Matching.Model.{
  EvidenceObject, EvidenceStatus, MatchWeights, RequirementEvidence, is_met, is_partial, met,
  missing, partial,
}
use recruiter_pilot.Matching.Verify.{
  demoted, fabricated, good_ids, is_empty, scrubbed, verify_evidence, verify_requirement,
}

demoted-not-met : (s : EvidenceStatus) → is_met (demoted s) ≡ false
demoted-not-met met = refl
demoted-not-met partial = refl
demoted-not-met missing = refl

demoted-partial : (s : EvidenceStatus) → is_partial (demoted s) ≡ is_partial s
demoted-partial met = refl
demoted-partial partial = refl
demoted-partial missing = refl

module _ {F : Type 0} ⦃fl : Float F⦄ (lower : Text → Text) (partial_ratio : Text → Text → F)
    (w : MatchWeights F) (chunks : Dict String Text) where
  abbrev verified : RequirementEvidence F → RequirementEvidence F
  verified = verify_requirement lower partial_ratio w chunks

  verified-partial :
      (r : RequirementEvidence F) → is_partial (verified r).status ≡ is_partial r.status
  unfolding verify_requirement scrubbed
  verified-partial r =
      elim (Bool-cases (
        fabricated lower partial_ratio w chunks r.evidence
          (good_ids lower partial_ratio w chunks r.evidence_chunk_ids))) [
            | inl e ↦ rw e (demoted-partial r.status)
            | inr e ↦ rw e refl
          ]

  verified-met :
      (r : RequirementEvidence F) → counts_as_met w (verified r) ≡ true → counts_as_met w r ≡ true
  unfolding verify_requirement scrubbed
  verified-met r =
      elim (Bool-cases (
        fabricated lower partial_ratio w chunks r.evidence
          (good_ids lower partial_ratio w chunks r.evidence_chunk_ids))) [
            | inl e ↦ rw e (rw (demoted-not-met r.status) (λ h. ground arith))
            | inr e ↦ rw e (λ h. h)
          ]

  quotient_lowered :
      (mono : IsMonotone fl) (a b p q m n : ℕ)
      → a ≤ b
      → p ≡ q
      → m ≡ n
      → fl.lt (fl.of_ℕ 0) (fl.of_ℕ n) ≡ true
      → fl.div (fl.add (fl.of_ℕ a) (fl.mul w.evidence_partial_weight (fl.of_ℕ p))) (fl.of_ℕ m)
        ≼ fl.div (fl.add (fl.of_ℕ b) (fl.mul w.evidence_partial_weight (fl.of_ℕ q))) (fl.of_ℕ n)
  quotient_lowered mono a b p q m n h same_p same_m pos = rw same_p (
      rw same_m (
        mono.div-mono _ _ _ (mono.add-mono _ _ _ _ (mono.of_ℕ-mono a b h) (mono.ordered.refl_le _))
          pos))

  completeness_lowered :
      (mono : IsMonotone fl) (rs : List (RequirementEvidence F))
      → (if is_empty (map verified rs) then fl.of_ℕ 0 else completeness_of w (map verified rs))
        ≼ (if is_empty rs then fl.of_ℕ 0 else completeness_of w rs)
  unfolding completeness_of
  completeness_lowered mono [] = mono.ordered.refl_le (fl.of_ℕ 0)
  completeness_lowered mono (r ∷ rs) =
      quotient_lowered mono _ _ _ _ _ _
        (length-filter-map-le (counts_as_met w) verified verified-met (r ∷ rs))
        (length-filter-map_same (λ q. is_partial q.status) verified verified-partial (r ∷ rs))
        (length-map verified (r ∷ rs)) (mono.of_ℕ-pos (length rs))

  -- Verification never raises the completeness of the evidence: what it finds unsupported can only
  -- cost credit.
  pub verify_evidence-completeness :
      (evidence : EvidenceObject F)
      → IsMonotone fl
      → evidence_completeness w (some (verify_evidence lower partial_ratio w chunks evidence))
        ≼ evidence_completeness w (some evidence)
  unfolding evidence_completeness completeness_of verify_evidence
  verify_evidence-completeness evidence mono = completeness_lowered mono evidence.requirements

product_le : (m p : ℕ) → p ≤ 100 → m * p ≤ m * 100
product_le m p h = grind arith

share_bounds :
    (m p : ℕ)
    → 1 ≤ m
    → p ≤ 100
    → (max 1 ((m * p + 99) / 100) ≤ m)
      × (1 ≤ max 1 ((m * p + 99) / 100))
      × (m * p ≤ max 1 ((m * p + 99) / 100) * 100)
      × ((max 1 ((m * p + 99) / 100) * 100 < m * p + 100) ⊎ (max 1 ((m * p + 99) / 100) ≡ 1))
share_bounds m p h k = ground (arith, product_le m p)

is_empty-take {ℓ} :
    {A : Type ℓ} (n : ℕ) (x : A) (xs : List A) → 1 ≤ n → is_empty (take n (x ∷ xs)) ≡ false
is_empty-take zero x xs h = ground arith
is_empty-take (suc n) x xs h = refl

-- The cap keeps a first part of the ranking, keeps something of every ranking that is not empty, and
-- for a share of up to 100 percent keeps at least that share and less than one entry more, or else a
-- single entry.
apply_top_percent_cap-share {ℓ} :
    {A : Type ℓ} (entries : List A) (top_percent : ℕ)
    → top_percent ≤ 100
    → let kept = apply_top_percent_cap entries top_percent in
      (kept ++ drop (length kept) entries ≡ entries)
      × (is_empty kept ≡ is_empty entries)
      × (length entries * top_percent ≤ length kept * 100)
      × ((length kept * 100 < length entries * top_percent + 100) ⊎ (length kept ≡ 1))
unfolding apply_top_percent_cap
apply_top_percent_cap-share [] p h = ground arith
apply_top_percent_cap-share (x ∷ xs) p h =
    let (short, some_kept, enough, close) = share_bounds (length (x ∷ xs)) p (omega arith) h in
    rw (length-take (max 1 ((length (x ∷ xs) * p + 99) / 100)) (x ∷ xs) short) (
      take-drop (max 1 ((length (x ∷ xs) * p + 99) / 100)) (x ∷ xs),
      is_empty-take _ x xs some_kept,
      enough,
      close,
    )
