-- ===== src/Redaction/Letters.antt =====
-- core/src/services/redaction.py: the letters of a rank.
use recruiter_pilot.Base.{
  [], ap, arith, drop, refl, suc, sym, zero, ℕ, ◌%◌, ◌*◌, ◌+◌, ◌-◌, ◌/◌, ◌∙◌, ◌∷◌, ◌≡◌, ◌≤◌,
}
use recruiter_pilot.Base.Text.{Text}
use recruiter_pilot.Redaction.{letter, letter_loop, pseudonym}

-- the number that letters stand for, after `n` letters were read
unfoldable pub read_letters : ℕ → Text → ℕ
read_letters n [] = n
read_letters n (c ∷ s) = read_letters (26 * n + (c - 64)) s

read-loop :
    (fuel n : ℕ) (letters : Text)
    → n ≤ fuel
    → read_letters 0 (letter_loop fuel n letters) ≡ read_letters n letters
unfolding letter_loop read_letters
read-loop zero n letters h = ap (λ k. read_letters k letters) (omega arith)
read-loop (suc fuel) zero letters h = refl
read-loop (suc fuel) (suc m) letters h =
    read-loop fuel (m / 26) ((65 + m % 26) ∷ letters) (omega arith)
    ∙ ap (λ k. read_letters k letters) (omega arith)

-- Two candidates with the same pseudonym, and ranks from 1 on, have the same rank: the letters of a rank
-- (1 is A, 26 is Z, 27 is AA, and so on without end) are read back as that rank.
pub pseudonym-letter :
    (m n : ℕ)
    → pseudonym (suc m) ≡ pseudonym (suc n)
    → (m ≡ n) × (read_letters 0 (letter (suc m)) ≡ suc n)
unfolding letter pseudonym read_letters
pseudonym-letter m n same =
    let back = read-loop (suc m) (suc m) [] (omega arith) in
    let letters = ap (drop 10) same in
    let equal : suc m ≡ suc n =
      sym back ∙ ap (read_letters 0) letters ∙ read-loop (suc n) (suc n) [] (omega arith) in
    (omega (arith, equal), back ∙ equal)
