-- ===== src/Llm/Extract.antt =====
-- core/src/pipeline/llm/client.py: `_extract_json`. The search for a fenced block,
-- `_FENCE_RE.search`, is an argument, which gives the block's text.
use recruiter_pilot.Base.{
  Option, [], drop, if◌then◌else◌, leb, list_eq, max, min, nat_eq, none, option_eq, some, string_eq,
  suc, take, ℕ, ◌==◌, ◌∷◌,
}
use recruiter_pilot.Base.Text.{Text, strip}

-- `s.find(c)`
unfoldable pub find_char : ℕ → Text → Option ℕ
find_char c [] = none
find_char c (d ∷ s) =
    let rest = find_char c s in
    if d == c then some 0 else elim rest [ none ↦ none | some n ↦ some (suc n) ]

-- `s.rfind(c)`
unfoldable pub rfind_char : ℕ → Text → Option ℕ
rfind_char c [] = none
rfind_char c (d ∷ s) = elim (rfind_char c s) [
  | some n ↦ some (suc n)
  | none ↦ if d == c then some 0 else none
]

-- the smaller and the larger of two positions, of which `none` is the -1 of `find`
unfoldable pub earlier : Option ℕ → Option ℕ → Option ℕ
earlier none b = b
earlier (some a) none = some a
earlier (some a) (some b) = some (min a b)

unfoldable pub later : Option ℕ → Option ℕ → Option ℕ
later none b = b
later (some a) none = some a
later (some a) (some b) = some (max a b)

unfoldable pub extract_json : (Text → Option Text) → Text → Text
unfolding strip find_char rfind_char earlier later
extract_json fence raw =
    let s = strip raw in
    elim (fence s) [
      | some block ↦ strip block
      | none ↦ elim (earlier (find_char 123 s) (find_char 91 s)) [
        | none ↦ s
        | some start ↦ elim (later (rfind_char 125 s) (rfind_char 93 s)) [
          | none ↦ s
          | some last ↦ if leb last start then s else drop start (take (suc last) s)
        ]
      ]
    ]
