-- ===== src/Parsing/Split.antt =====
-- core/src/pipeline/parsing/chunk.py: `_split_paragraphs` and `_hard_split`. The two uses of `re.split`
-- are arguments: the paragraphs of a text, and its sentences. The generators are the lists of what
-- they yield.
pub mod Bounded
use recruiter_pilot.Base.{
  Bool, List, [], drop, false, filter, if◌then◌else◌, length, ltb, map, suc, take, true, zero, ℕ,
  ◌&&◌, ◌++◌, ◌+◌, ◌∷◌,
}
use recruiter_pilot.Base.Text.{Text, strip}

abbrev pub max_chars_per_chunk : ℕ
max_chars_per_chunk = 1200

unfoldable pub join_lines : Text → List Text → Text
join_lines sep [] = []
join_lines sep (s ∷ []) = s
join_lines sep (s ∷ t ∷ ss) = s ++ sep ++ join_lines sep (t ∷ ss)

-- `for start in range(0, len(s), max_chars): yield s[start : start + max_chars]`, on fuel
unfoldable pub slices : ℕ → ℕ → Text → List Text
slices zero max_chars s = []
slices (suc fuel) max_chars [] = []
slices (suc fuel) max_chars (c ∷ s) =
    take max_chars (c ∷ s) ∷ slices fuel max_chars (drop max_chars (c ∷ s))

-- what a loop has yielded and has in its buffer
pub record Buffer : Type 0 where
  pub yielded : List Text
  pub buf : List Text
  pub buf_len : ℕ

unfoldable pub empty_buffer : Buffer
empty_buffer = record { yielded = []; buf = []; buf_len = 0 }

abbrev pub is_nonempty {ℓ} : {A : Type ℓ} → List A → Bool
is_nonempty [] = false
is_nonempty (x ∷ xs) = true

-- `if buf: yield sep.join(buf)`
unfoldable pub flush : Text → Buffer → List Text
unfolding join_lines
flush sep b = if is_nonempty b.buf then b.yielded ++ join_lines sep b.buf ∷ [] else b.yielded

abbrev pub space : Text
space = (32 ∷ [])

-- `if buf_len + len(sentence) + 1 > max_chars and buf`
unfoldable pub make_room : ℕ → Buffer → Text → Buffer
unfolding join_lines
make_room max_chars b sentence =
    if ltb max_chars (b.buf_len + length sentence + 1) && is_nonempty b.buf
    then record { yielded = b.yielded ++ join_lines space b.buf ∷ []; buf = []; buf_len = 0 }
    else b

unfoldable pub add_sentence : ℕ → Buffer → Text → Buffer
unfolding make_room slices
add_sentence max_chars b [] = b
add_sentence max_chars b (c ∷ s) =
    let room = make_room max_chars b (c ∷ s) in
    if ltb max_chars (length (c ∷ s))
    then record room { yielded = room.yielded ++ slices (length (c ∷ s)) max_chars (c ∷ s) }
    else record room { buf = room.buf ++ (c ∷ s) ∷ []; buf_len = room.buf_len + length (c ∷ s) + 1 }

unfoldable pub add_sentences : ℕ → Buffer → List Text → Buffer
unfolding add_sentence
add_sentences max_chars b [] = b
add_sentences max_chars b (s ∷ ss) = add_sentences max_chars (add_sentence max_chars b s) ss

unfoldable pub hard_split : (Text → List Text) → Text → ℕ → List Text
unfolding add_sentences flush empty_buffer
hard_split sentences source max_chars =
    flush space (add_sentences max_chars empty_buffer (sentences source))

abbrev pub blank_line : Text
blank_line = 10 ∷ 10 ∷ []

-- one sentence chunk of a paragraph that is too long
unfoldable pub add_piece : Buffer → Text → Buffer
unfolding join_lines
add_piece b piece =
    if is_nonempty b.buf
    then record {
      yielded = b.yielded ++ join_lines blank_line b.buf ∷ piece ∷ [];
      buf = [];
      buf_len = 0;
    }
    else record b { yielded = b.yielded ++ piece ∷ [] }

unfoldable pub add_pieces : Buffer → List Text → Buffer
unfolding add_piece
add_pieces b [] = b
add_pieces b (p ∷ ps) = add_pieces (add_piece b p) ps

-- one turn of the loop; a paragraph that does not fit any more is preceded by what the buffer holds,
-- also where it holds nothing
unfoldable pub add_paragraph : (Text → List Text) → ℕ → Buffer → Text → Buffer
unfolding hard_split add_pieces join_lines
add_paragraph sentences max_chars b para =
    if ltb max_chars (length para)
    then add_pieces b (hard_split sentences para max_chars)
    else if ltb max_chars (b.buf_len + length para + 2)
    then record {
      yielded = b.yielded ++ join_lines blank_line b.buf ∷ [];
      buf = para ∷ [];
      buf_len = length para;
    }
    else record b { buf = b.buf ++ para ∷ []; buf_len = b.buf_len + length para + 2 }

unfoldable pub add_paragraphs : (Text → List Text) → ℕ → Buffer → List Text → Buffer
unfolding add_paragraph
add_paragraphs sentences max_chars b [] = b
add_paragraphs sentences max_chars b (p ∷ ps) =
    add_paragraphs sentences max_chars (add_paragraph sentences max_chars b p) ps

-- `[p.strip() for p in re.split(...) if p.strip()]` over the parts that `re.split` gives
unfoldable pub stripped_paragraphs : List Text → List Text
unfolding strip
stripped_paragraphs parts = filter is_nonempty (map strip parts)

unfoldable pub split_paragraphs : (Text → List Text) → (Text → List Text) → Text → ℕ → List Text
unfolding add_paragraphs flush empty_buffer stripped_paragraphs
split_paragraphs parts sentences source max_chars =
    flush blank_line
      (add_paragraphs sentences max_chars empty_buffer (stripped_paragraphs (parts source)))
