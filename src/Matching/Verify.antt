-- ===== src/Matching/Verify.antt =====
-- The check of the model's evidence against the résumé: `_strip_control_chars` of
-- core/src/schemas/matching.py, `_collapse_whitespace`, `_fuzz_ratio` and `verify_evidence` of
-- core/src/pipeline/matching/stages.py. `str.lower` and rapidfuzz's `partial_ratio` are parameters.
pub mod Quotes
pub mod Idempotent
use recruiter_pilot.Base.{
  Bool, List, Option, String, [], any, contains, false, filter, if◌then◌else◌, is_some, leb, length,
  list_eq, ltb, map, nat_eq, none, not, option_eq, some, string_eq, true, ℕ, ◌&&◌, ◌||◌, ◌∷◌,
}
use recruiter_pilot.Base.Dict.{Dict, lookup}
use recruiter_pilot.Base.Text.{Text, is_space, starts_with_char, strip}
use recruiter_pilot.Matching.Float.{Float, min_f}
use recruiter_pilot.Matching.Model.{
  CoverLetterEvidence, EvidenceObject, EvidenceStatus, MatchWeights, RequirementEvidence, met,
  missing, partial,
}

abbrev pub in_range : ℕ → ℕ → ℕ → Bool
in_range lo hi c = leb lo c && leb c hi

-- the class `_INVISIBLE_CONTROLS`
unfoldable pub is_invisible : ℕ → Bool
is_invisible c =
    in_range 0 8 c
    || contains (0x0b ∷ 0x0c ∷ 0x7f ∷ 0xad ∷ 0x180e ∷ 0x200b ∷ 0x2060 ∷ 0xfeff ∷ []) c
    || in_range 0x0e 0x1f c
    || in_range 0x200e 0x200f c
    || in_range 0x202a 0x202e c
    || in_range 0x2066 0x2069 c

unfoldable pub strip_control_chars : Text → Text
strip_control_chars value = filter (λ c. not (is_invisible c)) value

-- `re.sub(r"\s+", " ", text)`
unfoldable pub single_spaces : Text → Text
single_spaces [] = []
single_spaces (c ∷ s) =
    let rest = single_spaces s in
    if is_space c then (if starts_with_char 32 rest then rest else 32 ∷ rest) else c ∷ rest

unfoldable pub collapse_whitespace : Text → Text
collapse_whitespace text = strip (single_spaces text)

-- what `_fuzz_ratio` makes of both of its texts
unfoldable pub normalised : Text → Text
normalised text = collapse_whitespace (strip_control_chars text)

abbrev pub is_empty {ℓ} : {A : Type ℓ} → List A → Bool
is_empty [] = true
is_empty (x ∷ xs) = false

-- `"missing" if status == "met" else status`
abbrev pub demoted : EvidenceStatus → EvidenceStatus
demoted met = missing
demoted partial = partial
demoted missing = missing

-- `model_copy(update={"evidence_chunk_ids": good_ids})`
abbrev pub citing : {F : Type 0} → List String → RequirementEvidence F → RequirementEvidence F
citing ids r = record r { evidence_chunk_ids = ids }

abbrev pub theme_citing : {F : Type 0} → List String → CoverLetterEvidence F → CoverLetterEvidence F
theme_citing ids e = record e { evidence_chunk_ids = ids }

module _ {F : Type 0} ⦃fl : Float F⦄ where
  -- `SCRUBBED_CONFIDENCE_CAP`
  abbrev pub scrubbed_confidence_cap : F
  scrubbed_confidence_cap = fl.decimal 3 10

  unfoldable pub scrubbed : RequirementEvidence F → RequirementEvidence F
  scrubbed r = record r {
    evidence = [];
    status = demoted r.status;
    confidence = min_f r.confidence scrubbed_confidence_cap;
  }

  unfoldable pub theme_scrubbed : CoverLetterEvidence F → CoverLetterEvidence F
  theme_scrubbed e = record e {
    evidence = [];
    confidence = min_f e.confidence scrubbed_confidence_cap;
  }

module _ {F : Type 0} ⦃fl : Float F⦄ (lower : Text → Text) (partial_ratio : Text → Text → F) where
  unfoldable pub fuzz_ratio : Text → Text → ℕ → F
  fuzz_ratio needle haystack min_chars =
      let n = normalised needle in
      let h = normalised haystack in
      if is_empty n
      then fl.of_ℕ 0
      else if ltb (length n) min_chars
      then fl.of_ℕ 0
      else if ltb (length h) (length n)
      then fl.of_ℕ 0
      else fl.div (partial_ratio n h) (fl.of_ℕ 100)

  module _ (weights : MatchWeights F) (chunks_by_id : Dict String Text) where
    -- `cid in chunks_by_id`
    abbrev pub exists_chunk : String → Bool
    exists_chunk cid = is_some (lookup cid chunks_by_id)

    abbrev pub good_ids : List String → List String
    good_ids ids = filter exists_chunk ids

    -- does the quote pass against the chunk
    abbrev pub matches : Text → Option Text → Bool
    matches quoted none = false
    matches quoted (some chunk) =
        fl.le weights.evidence_verify_fuzz
          (fuzz_ratio quoted (lower chunk) weights.evidence_min_quote_chars)

    -- is the quote found in one of the cited chunks
    unfoldable pub is_found : Text → List String → Bool
    is_found quote ids =
        let quoted = strip (lower quote) in
        any (λ cid. matches quoted (lookup cid chunks_by_id)) ids

    -- both branches that scrub: a quote that is in no cited chunk, or that cites none
    abbrev pub fabricated : Text → List String → Bool
    fabricated quote ids =
        if not (is_empty quote) && not (is_empty ids)
        then not (is_found quote ids)
        else not (is_empty quote) && is_empty ids

    unfoldable pub verify_requirement : RequirementEvidence F → RequirementEvidence F
    verify_requirement req =
        let new_req = citing (good_ids req.evidence_chunk_ids) req in
        if fabricated new_req.evidence new_req.evidence_chunk_ids then scrubbed new_req else new_req

    unfoldable pub verify_theme : CoverLetterEvidence F → CoverLetterEvidence F
    verify_theme cle =
        let new_cle = theme_citing (good_ids cle.evidence_chunk_ids) cle in
        if fabricated new_cle.evidence new_cle.evidence_chunk_ids
        then theme_scrubbed new_cle
        else new_cle

    unfoldable pub verify_evidence : EvidenceObject F → EvidenceObject F
    verify_evidence evidence = record evidence {
      requirements = map verify_requirement evidence.requirements;
      cover_letter_evidence = map verify_theme evidence.cover_letter_evidence;
    }
