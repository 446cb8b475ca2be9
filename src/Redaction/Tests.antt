-- ===== src/Redaction/Tests.antt =====
-- The letters at the ends of the alphabet, and two labels.
use recruiter_pilot.Base.{[], refl, ℕ, ◌∷◌, ◌≡◌}
use recruiter_pilot.Redaction.{letter, pseudonym}
use recruiter_pilot.Redaction.Letters.{pseudonym-letter, read_letters}

after_z : pseudonym 27 ≡ (67 ∷ 97 ∷ 110 ∷ 100 ∷ 105 ∷ 100 ∷ 97 ∷ 116 ∷ 101 ∷ 32 ∷ 65 ∷ 65 ∷ [])
unfolding pseudonym
after_z = refl

pseudonym-letter_example : (◌≡◌ {A = ℕ} 26 26) × (read_letters 0 (letter 27) ≡ 27)
pseudonym-letter_example = pseudonym-letter 26 26 refl
