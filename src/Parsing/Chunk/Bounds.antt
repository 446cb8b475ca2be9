-- ===== src/Parsing/Chunk/Bounds.antt =====
-- core/src/pipeline/parsing/chunk.py: the number, the sizes and the ids of the chunks.
use recruiter_pilot.Base.{
  All, All-append, Bool-cases, List, [], ap, arith, inl, inr, leb, length, length-append, ltb, map,
  map-append, refl, suc, sym, zero, ℕ, ◌++◌, ◌+◌, ◌<◌, ◌∙◌, ◌∷◌, ◌≡◌, ◌≤◌, ◌⊎◌,
}
use recruiter_pilot.Base.Text.{Text, length-strip, strip}
use recruiter_pilot.Parsing.Chunk.{
  Chunks, PageText, ResumeChunk, Section, Splitter, add_bodies, add_body, add_sections,
  chunk_document, max_chunks, min_chars_per_chunk, numbered, section_bodies, split_by_section,
}
use recruiter_pilot.Parsing.Split.{max_chars_per_chunk}
use recruiter_pilot.Parsing.Split.Bounded.{Fits, split_paragraphs-Fits}

-- the numbers from `n` on
abbrev pub count_from : ℕ → ℕ → List ℕ
count_from n zero = []
count_from n (suc m) = n ∷ count_from (suc n) m

count_from-suc : (m n : ℕ) → count_from n (suc m) ≡ count_from n m ++ (n + m) ∷ []
count_from-suc zero n = ap (λ k. k ∷ []) (omega arith)
count_from-suc (suc m) n =
    ap (◌∷◌ n) (count_from-suc m (suc n) ∙ ap (λ k. count_from (suc n) m ++ k ∷ []) (omega arith))

-- one chunk: 40 to 1,200 characters
abbrev pub IsSized : ResumeChunk → Type 0
IsSized c =
    (min_chars_per_chunk ≤ length c.chunk_source) × (length c.chunk_source ≤ max_chars_per_chunk)

-- at most the cap of the prefix, chunks of the right size, their ids numbered from 1 without a gap,
-- and none dropped before the cap is reached
abbrev pub IsChunked : Text → Chunks → Type 0
IsChunked prefix st =
    (length st.chunks ≤ max_chunks prefix)
    × All IsSized st.chunks
    × (map (λ c. c.chunk_id) st.chunks ≡ map (numbered prefix) (count_from 1 (length st.chunks)))
    × (st.counter ≡ 1 + length st.chunks)
    × (st.dropped ≡ 0 ⊎ (length st.chunks ≡ max_chunks prefix))

numbered_next :
    (prefix : Text) (xs : List ResumeChunk) (c : ResumeChunk)
    → map (λ x. x.chunk_id) xs ≡ map (numbered prefix) (count_from 1 (length xs))
    → c.chunk_id ≡ numbered prefix (1 + length xs)
    → map (λ x. x.chunk_id) (xs ++ c ∷ [])
      ≡ map (numbered prefix) (count_from 1 (length (xs ++ c ∷ [])))
numbered_next prefix xs c h e =
    let so_far = map (numbered prefix) (count_from 1 (length xs)) in
    let longer : length (xs ++ c ∷ []) ≡ suc (length xs) =
      omega (arith, length-append xs (c ∷ [])) in
    map-append (λ x. x.chunk_id) xs (c ∷ [])
    ∙ ap (λ l. l ++ c.chunk_id ∷ []) h
    ∙ ap (λ i. so_far ++ i ∷ []) e
    ∙ sym (map-append (numbered prefix) (count_from 1 (length xs)) ((1 + length xs) ∷ []))
    ∙ ap (map (numbered prefix)) (sym (count_from-suc (length xs) 1))
    ∙ ap (λ m. map (numbered prefix) (count_from 1 m)) (sym longer)

module _ (prefix : Text) (sec : Section) where
  next_chunk : Chunks → Text → Chunks
  next_chunk st stripped = record st {
    chunks =
        st.chunks
        ++ record {
          chunk_id = numbered prefix st.counter;
          section = sec.name;
          chunk_page = sec.page;
          chunk_source = stripped;
        }
          ∷ [];
    counter = suc st.counter;
  }

  next_chunk-IsChunked :
      (st : Chunks) (stripped : Text)
      → length st.chunks < max_chunks prefix
      → min_chars_per_chunk ≤ length stripped
      → length stripped ≤ max_chars_per_chunk
      → IsChunked prefix st
      → IsChunked prefix (next_chunk st stripped)
  unfolding next_chunk
  next_chunk-IsChunked st stripped few long short h =
      let added = length-append st.chunks (
        record {
          chunk_id = numbered prefix st.counter;
          section = sec.name;
          chunk_page = sec.page;
          chunk_source = stripped;
        }
        ∷ []) in
      (
        omega (arith, added),
        All-append IsSized st.chunks _ h.1 ((long, short), tt),
        numbered_next prefix st.chunks _ h.2 (ap (numbered prefix) h.3),
        omega (arith, added, h.3),
        ground (arith, h.4),
      )

  add_body-IsChunked :
      (st : Chunks) (body : Text)
      → length body ≤ max_chars_per_chunk
      → IsChunked prefix st
      → IsChunked prefix (add_body prefix sec st body)
  unfolding add_body next_chunk
  add_body-IsChunked st body short h =
      elim (Bool-cases (ltb (length (strip body)) min_chars_per_chunk)) [
        | inl e ↦ rw e h
        | inr e ↦ rw e (elim (Bool-cases (leb (max_chunks prefix) (length st.chunks))) [
          | inl full ↦ rw full (h.0, h.1, h.2, h.3, inr (ground arith))
          | inr few ↦ rw few (
              next_chunk-IsChunked st (strip body) (ground arith) (ground arith)
                (omega (arith, length-strip body)) h)
        ])
      ]

  add_bodies-IsChunked :
      (bodies : List Text) (st : Chunks)
      → All (Fits max_chars_per_chunk) bodies
      → IsChunked prefix st
      → IsChunked prefix (add_bodies prefix sec st bodies)
  unfolding add_bodies
  add_bodies-IsChunked [] st fits h = h
  add_bodies-IsChunked (b ∷ bs) st fits h =
      add_bodies-IsChunked bs _ fits.1 (add_body-IsChunked st b fits.0 h)

module _ (p : Splitter) (prefix : Text) where
  add_sections-IsChunked :
      (secs : List Section) (st : Chunks)
      → IsChunked prefix st
      → IsChunked prefix (add_sections p prefix st secs)
  unfolding add_sections section_bodies
  add_sections-IsChunked [] st h = h
  add_sections-IsChunked (s ∷ ss) st h = add_sections-IsChunked ss _ (
      add_bodies-IsChunked prefix s _ st
        (split_paragraphs-Fits max_chars_per_chunk p.sentences p.parts s.section_source) h)

  -- Whatever the pages hold, the chunks of a document are at most 200 (100 under the prefix `cl`), each
  -- has 40 to 1,200 characters, their ids are the prefix with the numbers from 1 on without a gap, and
  -- a chunk is dropped only when the cap is reached.
  pub chunk_document-IsChunked :
      (pages : List PageText) → IsChunked prefix (chunk_document p prefix pages)
  unfolding chunk_document
  chunk_document-IsChunked pages =
      add_sections-IsChunked (split_by_section p pages) _ (omega arith, tt, refl, refl, inl refl)
