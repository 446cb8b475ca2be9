-- ===== src/Redaction.antt =====
-- core/src/services/redaction.py: the labels that stand for names under blind review. `str.casefold`,
-- `str.lower` and `os.path.splitext` are arguments.
pub mod Letters
pub mod Tests
use recruiter_pilot.Base.{
  List, Option, [], if◌then◌else◌, length, list_eq, nat_eq, none, not, option_eq, some, string_eq,
  suc, zero, ℕ, ◌%◌, ◌++◌, ◌+◌, ◌/◌, ◌∷◌,
}
use recruiter_pilot.Base.Dict.{Dict, insert, lookup}
use recruiter_pilot.Base.Text.{Text, strip}
use recruiter_pilot.Parsing.Split.{is_nonempty}

-- `while n > 0: n, rem = divmod(n - 1, 26)`, on fuel
unfoldable pub letter_loop : ℕ → ℕ → Text → Text
letter_loop zero n letters = letters
letter_loop (suc fuel) zero letters = letters
letter_loop (suc fuel) (suc m) letters = letter_loop fuel (m / 26) ((65 + m % 26) ∷ letters)

unfoldable pub letter : ℕ → Text
unfolding letter_loop
letter n = letter_loop n n []

unfoldable pub pseudonym : ℕ → Text
unfolding letter
pseudonym zero = (67 ∷ 97 ∷ 110 ∷ 100 ∷ 105 ∷ 100 ∷ 97 ∷ 116 ∷ 101 ∷ 32 ∷ 63 ∷ [])
pseudonym (suc n) = (67 ∷ 97 ∷ 110 ∷ 100 ∷ 105 ∷ 100 ∷ 97 ∷ 116 ∷ 101 ∷ 32 ∷ []) ++ letter (suc n)

-- the label map so far, and the label of each casefolded name
pub record Labels : Type 0 where
  pub label_map : Dict Text Text
  pub seen_names : Dict Text Text

unfoldable pub label_name : (Text → Text) → Text → Labels → Text → Labels
unfolding letter lookup insert strip
label_name casefold noun t raw =
    let key = strip raw in
    let fold = casefold key in
    let fresh_label = noun ++ 32 ∷ letter (length t.seen_names + 1) in
    if not (is_nonempty key) then t else elim (lookup fold t.seen_names) [
      | some label ↦ record t { label_map = insert key label t.label_map }
      | none ↦ record {
        label_map = insert key fresh_label t.label_map;
        seen_names = insert fold fresh_label t.seen_names;
      }
    ]

unfoldable pub label_names : (Text → Text) → Text → Labels → List Text → Labels
unfolding label_name
label_names casefold noun t [] = t
label_names casefold noun t (n ∷ ns) = label_names casefold noun (label_name casefold noun t n) ns

-- `{**a, **b}`
unfoldable pub merge_dicts : Dict Text Text → Dict Text Text → Dict Text Text
unfolding insert
merge_dicts a [] = a
merge_dicts a ((k, v) ∷ b) = merge_dicts (insert k v a) b

unfoldable pub blind_label_map : (Text → Text) → List Text → List Text → Dict Text Text
unfolding label_names merge_dicts
blind_label_map casefold employers institutions =
    let start : Labels = record { label_map = []; seen_names = [] } in
    merge_dicts
      (label_names casefold (69 ∷ 109 ∷ 112 ∷ 108 ∷ 111 ∷ 121 ∷ 101 ∷ 114 ∷ []) start
        employers).label_map
      (label_names casefold (73 ∷ 110 ∷ 115 ∷ 116 ∷ 105 ∷ 116 ∷ 117 ∷ 116 ∷ 105 ∷ 111 ∷ 110 ∷ [])
        start institutions).label_map

unfoldable pub redacted_filename : (Text → Text) → (Text → Text) → Option Text → Text
unfolding strip
redacted_filename lower splitext none = (114 ∷ 101 ∷ 115 ∷ 117 ∷ 109 ∷ 101 ∷ [])
redacted_filename lower splitext (some original) =
    let ext = splitext (strip original) in
    if not (is_nonempty (strip original))
    then (114 ∷ 101 ∷ 115 ∷ 117 ∷ 109 ∷ 101 ∷ [])
    else if is_nonempty ext
    then (114 ∷ 101 ∷ 115 ∷ 117 ∷ 109 ∷ 101 ∷ []) ++ lower ext
    else (114 ∷ 101 ∷ 115 ∷ 117 ∷ 109 ∷ 101 ∷ [])
