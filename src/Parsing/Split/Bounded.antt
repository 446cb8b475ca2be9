-- ===== src/Parsing/Split/Bounded.antt =====
-- core/src/pipeline/parsing/chunk.py: the length of what `_split_paragraphs` yields.
use recruiter_pilot.Base.{
  All, All-append, Bool-cases, List, [], arith, drop, false, inl, inr, length, length-append,
  length-take-le, ltb, refl, suc, zero, ℕ, ◌&&◌, ◌++◌, ◌+◌, ◌∷◌, ◌≡◌, ◌≤◌,
}
use recruiter_pilot.Base.Text.{Text}
use recruiter_pilot.Parsing.Split.{
  Buffer, add_paragraph, add_paragraphs, add_piece, add_pieces, add_sentence, add_sentences,
  blank_line, empty_buffer, flush, hard_split, is_nonempty, join_lines, make_room, slices, space,
  split_paragraphs, stripped_paragraphs,
}

abbrev pub Fits : ℕ → Text → Type 0
Fits n s = length s ≤ n

-- what the separator adds to the lengths of the pieces
abbrev joined_length : ℕ → List Text → ℕ
joined_length gap [] = 0
joined_length gap (s ∷ ss) = length s + gap + joined_length gap ss

length-join_lines :
    (sep s : Text) (ss : List Text)
    → length (join_lines sep (s ∷ ss)) + length sep ≡ joined_length (length sep) (s ∷ ss)
unfolding join_lines
length-join_lines sep s [] = omega arith
length-join_lines sep s (t ∷ ss) = omega (
  arith,
  length-append (s ++ sep) (join_lines sep (t ∷ ss)),
  length-append s sep,
  length-join_lines sep t ss,
)

joined_length-append :
    (gap : ℕ) (ss ts : List Text)
    → joined_length gap (ss ++ ts) ≡ joined_length gap ss + joined_length gap ts
joined_length-append gap [] ts = omega arith
joined_length-append gap (s ∷ ss) ts = omega (arith, joined_length-append gap ss ts)

slices-Fits : (fuel n : ℕ) (s : Text) → All (Fits n) (slices fuel n s)
unfolding slices
slices-Fits zero n s = tt
slices-Fits (suc fuel) n [] = tt
slices-Fits (suc fuel) n (c ∷ s) = (length-take-le n (c ∷ s), slices-Fits fuel n (drop n (c ∷ s)))

module _ (sep : Text) (n : ℕ) where
  -- what was yielded fits, and so does what the buffer would give
  abbrev Held : Buffer → Type 0
  Held b =
      All (Fits n) b.yielded
      × (joined_length (length sep) b.buf ≤ n + length sep)
      × (joined_length (length sep) b.buf ≤ b.buf_len + length sep)

  join_lines-Fits :
      (ss : List Text) → joined_length (length sep) ss ≤ n + length sep → Fits n (join_lines sep ss)
  unfolding join_lines
  join_lines-Fits [] h = omega arith
  join_lines-Fits (s ∷ ss) h = omega (arith, length-join_lines sep s ss)

  flush-Fits : (b : Buffer) → Held b → All (Fits n) (flush sep b)
  unfolding flush
  flush-Fits b h = elim (Bool-cases (is_nonempty b.buf)) [
    | inl e ↦ rw e (All-append (Fits n) b.yielded _ h.0 (join_lines-Fits b.buf h.1, tt))
    | inr e ↦ rw e h.0
  ]

empty-joined : (gap : ℕ) (ss : List Text) → is_nonempty ss ≡ false → joined_length gap ss ≡ 0
empty-joined gap [] h = refl
empty-joined gap (s ∷ ss) h = ground arith

-- there is room for the sentence, or the buffer is empty
abbrev HasRoom : ℕ → Buffer → Text → Type 0
HasRoom n b s = Held space n b × (joined_length 1 b.buf + length s + 1 ≤ n + 1)

keep_sentence :
    (n : ℕ) (b : Buffer) (s : Text)
    → HasRoom n b s
    → Held space n (record b { buf = b.buf ++ s ∷ []; buf_len = b.buf_len + length s + 1 })
keep_sentence n b s h = (
  h.0.0,
  omega (arith, joined_length-append 1 b.buf (s ∷ []), h.0.1, h.1),
  omega (arith, joined_length-append 1 b.buf (s ∷ []), h.0.2),
)

module _ (n : ℕ) (b : Buffer) where
  make_room-HasRoom : (s : Text) → Fits n s → Held space n b → HasRoom n (make_room n b s) s
  unfolding make_room
  make_room-HasRoom s fits h =
      elim (Bool-cases (ltb n (b.buf_len + length s + 1) && is_nonempty b.buf)) [
        | inl e ↦ rw e (
          (
            All-append (Fits n) b.yielded _ h.0 (join_lines-Fits space n b.buf h.1, tt),
            omega arith,
            omega arith,
          ),
          omega arith,
        )
        | inr e ↦ rw e (h, ground (arith, empty-joined 1 b.buf))
      ]

  make_room-Held : (s : Text) → Held space n b → Held space n (make_room n b s)
  unfolding make_room
  make_room-Held s h = elim (Bool-cases (ltb n (b.buf_len + length s + 1) && is_nonempty b.buf)) [
    | inl e ↦ rw e (
      All-append (Fits n) b.yielded _ h.0 (join_lines-Fits space n b.buf h.1, tt),
      omega arith,
      omega arith,
    )
    | inr e ↦ rw e h
  ]

  add_sentence-Held : (s : Text) → Held space n b → Held space n (add_sentence n b s)
  unfolding add_sentence
  add_sentence-Held [] h = h
  add_sentence-Held (c ∷ s) h = elim (Bool-cases (ltb n (suc (length s)))) [
    | inl e ↦ rw e (
        let room = make_room-Held (c ∷ s) h in
        (All-append (Fits n) _ _ room.0 (slices-Fits (suc (length s)) n (c ∷ s)), room.1, room.2))
    | inr e ↦ rw e (
        keep_sentence n (make_room n b (c ∷ s)) (c ∷ s)
          (make_room-HasRoom (c ∷ s) (ground arith) h))
  ]

add_sentences-Held :
    (n : ℕ) (ss : List Text) (b : Buffer) → Held space n b → Held space n (add_sentences n b ss)
unfolding add_sentences
add_sentences-Held n [] b h = h
add_sentences-Held n (s ∷ ss) b h = add_sentences-Held n ss _ (add_sentence-Held n b s h)

hard_split-Fits :
    (sentences : Text → List Text) (source : Text) (n : ℕ)
    → All (Fits n) (hard_split sentences source n)
unfolding hard_split empty_buffer
hard_split-Fits sentences source n =
    flush-Fits space n _
      (add_sentences-Held n (sentences source) empty_buffer (tt, omega arith, omega arith))

module _ (n : ℕ) where
  add_piece-Held :
      (b : Buffer) (piece : Text)
      → Fits n piece
      → Held blank_line n b
      → Held blank_line n (add_piece b piece)
  unfolding add_piece
  add_piece-Held b piece fits h = elim (Bool-cases (is_nonempty b.buf)) [
    | inl e ↦ rw e (
      All-append (Fits n) b.yielded _ h.0 (join_lines-Fits blank_line n b.buf h.1, (fits, tt)),
      omega arith,
      omega arith,
    )
    | inr e ↦ rw e (All-append (Fits n) b.yielded _ h.0 (fits, tt), h.1, h.2)
  ]

  add_pieces-Held :
      (ps : List Text) (b : Buffer)
      → All (Fits n) ps
      → Held blank_line n b
      → Held blank_line n (add_pieces b ps)
  unfolding add_pieces
  add_pieces-Held [] b fits h = h
  add_pieces-Held (p ∷ ps) b fits h = add_pieces-Held ps _ fits.1 (add_piece-Held b p fits.0 h)

  module _ (sentences : Text → List Text) where
    add_paragraph-Held :
        (b : Buffer) (para : Text)
        → Held blank_line n b
        → Held blank_line n (add_paragraph sentences n b para)
    unfolding add_paragraph
    add_paragraph-Held b para h = elim (Bool-cases (ltb n (length para))) [
      | inl e ↦ rw e (add_pieces-Held _ b (hard_split-Fits sentences para n) h)
      | inr e ↦ rw e (elim (Bool-cases (ltb n (b.buf_len + length para + 2))) [
        | inl full ↦ rw full (
          All-append (Fits n) b.yielded _ h.0 (join_lines-Fits blank_line n b.buf h.1, tt),
          ground arith,
          omega arith,
        )
        | inr fits ↦ rw fits (
          h.0,
          ground (arith, joined_length-append 2 b.buf (para ∷ []), h.2),
          omega (arith, joined_length-append 2 b.buf (para ∷ []), h.2),
        )
      ])
    ]

    add_paragraphs-Held :
        (ps : List Text) (b : Buffer)
        → Held blank_line n b
        → Held blank_line n (add_paragraphs sentences n b ps)
    unfolding add_paragraphs
    add_paragraphs-Held [] b h = h
    add_paragraphs-Held (p ∷ ps) b h = add_paragraphs-Held ps _ (add_paragraph-Held b p h)

    -- Everything that `_split_paragraphs` yields has at most the given number of characters, however
    -- the text falls into paragraphs and sentences.
    pub split_paragraphs-Fits :
        (parts : Text → List Text) (source : Text)
        → All (Fits n) (split_paragraphs parts sentences source n)
    unfolding split_paragraphs empty_buffer
    split_paragraphs-Fits parts source = flush-Fits blank_line n _ (
        add_paragraphs-Held (stripped_paragraphs (parts source)) empty_buffer
          (tt, omega arith, omega arith))
