-- ===== src/Parsing/Chunk.antt =====
-- core/src/pipeline/parsing/chunk.py: the sections of a document, its chunks, and the scrub of their
-- ids. `str.splitlines` and the regular expressions are arguments.
pub mod Bounds
pub mod Scrub
use recruiter_pilot.Base.{
  Bool, List, Option, String, [], contains, filter, find, if◌then◌else◌, leb, length, list_eq, ltb,
  map, nat_eq, none, not, option_eq, some, string_eq, suc, zero, ℕ, ◌%◌, ◌++◌, ◌+◌, ◌/◌, ◌==◌, ◌||◌,
  ◌∷◌,
}
use recruiter_pilot.Base.Text.{Text, keep_unless_blank, strip}
use recruiter_pilot.Parsing.Split.{is_nonempty, join_lines, max_chars_per_chunk, split_paragraphs}

abbrev pub min_chars_per_chunk : ℕ
min_chars_per_chunk = 40

-- `_MAX_CHUNKS_BY_PREFIX.get(prefix, _DEFAULT_MAX_CHUNKS)`
unfoldable pub max_chunks : Text → ℕ
max_chunks prefix =
    if prefix == (99 ∷ []) then 200 else if prefix == (99 ∷ 108 ∷ []) then 100 else 200

-- the fields of an extracted page, and of a section, that the chunker reads
pub record PageText : Type 0 where
  pub page_no : ℕ
  pub page_source : Text

pub record Section : Type 0 where
  pub name : String
  pub page : ℕ
  pub section_source : Text

pub record ResumeChunk : Type 0 where
  pub chunk_id : Text
  pub section : String
  pub chunk_page : ℕ
  pub chunk_source : Text

-- what is outside this file: the lines of a text, whether a section's pattern matches from the start
-- of a line, and the two splits of `Split`
pub record Splitter : Type 0 where
  pub splitlines : Text → List Text
  pub heading_matches : String → Text → Bool
  pub parts : Text → List Text
  pub sentences : Text → List Text

abbrev pub section_names : List String
section_names =
    "summary" ∷ "experience" ∷ "education" ∷ "skills" ∷ "projects" ∷ "certifications"
    ∷ "publications" ∷ []

unfoldable pub rstrip_colons : Text → Text
rstrip_colons [] = []
rstrip_colons (c ∷ s) = keep_unless_blank (c == 58) c (rstrip_colons s)

unfoldable pub match_section : Splitter → Text → Option String
unfolding rstrip_colons strip
match_section p line =
    let candidate = strip (rstrip_colons line) in
    if not (is_nonempty line) || ltb 40 (length line)
    then none
    else if not (is_nonempty candidate) || ltb 40 (length candidate)
    then none
    else find (λ n. p.heading_matches n candidate) section_names

-- the condition of the comprehension tests the whole list too, so no line is left out
unfoldable pub flush_section : List Section → String → ℕ → List Text → List Section
unfolding join_lines strip
flush_section out name page lines =
    let kept = filter (λ line. is_nonempty (strip line) || is_nonempty lines) lines in
    let body = strip (join_lines (10 ∷ []) kept) in
    if is_nonempty body
    then out ++ record { name = name; page = page; section_source = body } ∷ []
    else out

-- the variables of the walk
pub record Walk : Type 0 where
  pub sections : List Section
  pub current_name : String
  pub current_page : ℕ
  pub current_lines : List Text

unfoldable pub read_line : Splitter → ℕ → Walk → Text → Walk
unfolding match_section flush_section strip
read_line p page_no t raw = elim (match_section p (strip raw)) [
  | none ↦ record t { current_lines = t.current_lines ++ raw ∷ [] }
  | some heading ↦ record {
    sections = flush_section t.sections t.current_name t.current_page t.current_lines;
    current_name = heading;
    current_page = page_no;
    current_lines = [];
  }
]

unfoldable pub read_lines : Splitter → ℕ → Walk → List Text → Walk
unfolding read_line
read_lines p page_no t [] = t
read_lines p page_no t (l ∷ ls) = read_lines p page_no (read_line p page_no t l) ls

unfoldable pub read_pages : Splitter → Walk → List PageText → Walk
unfolding read_lines
read_pages p t [] = t
read_pages p t (g ∷ gs) = read_pages p (read_lines p g.page_no t (p.splitlines g.page_source)) gs

unfoldable pub split_by_section : Splitter → List PageText → List Section
unfolding read_pages flush_section
split_by_section p pages =
    let start : Walk = record {
      sections = [];
      current_name = "other";
      current_page = 0;
      current_lines = [];
    } in
    let t = read_pages p start pages in
    flush_section t.sections t.current_name t.current_page t.current_lines

-- decimal digits, on fuel; and `f"{n:03d}"`
unfoldable pub digits : ℕ → ℕ → Text
digits zero n = []
digits (suc fuel) n = if ltb n 10 then (48 + n) ∷ [] else digits fuel (n / 10) ++ (48 + n % 10) ∷ []

unfoldable pub pad_left : ℕ → Text → Text
pad_left zero s = s
pad_left (suc n) s = if ltb (length s) (suc n) then 48 ∷ pad_left n s else s

unfoldable pub numbered : Text → ℕ → Text
unfolding digits pad_left
numbered prefix n = let shown = digits (suc n) n in prefix ++ 95 ∷ pad_left 3 shown

pub record Chunks : Type 0 where
  pub chunks : List ResumeChunk
  pub counter : ℕ
  pub dropped : ℕ

unfoldable pub add_body : Text → Section → Chunks → Text → Chunks
unfolding strip numbered max_chunks
add_body prefix sec st body =
    let stripped = strip body in
    if ltb (length stripped) min_chars_per_chunk
    then st
    else if leb (max_chunks prefix) (length st.chunks)
    then record st { dropped = suc st.dropped }
    else record st {
      chunks =
          st.chunks
          ++ record {
            chunk_id = numbered prefix st.counter;
            section = sec.name;
            chunk_page = sec.page;
            chunk_source = stripped;
          }
            ∷ [];
      counter = suc st.counter;
    }

unfoldable pub add_bodies : Text → Section → Chunks → List Text → Chunks
unfolding add_body
add_bodies prefix sec st [] = st
add_bodies prefix sec st (b ∷ bs) = add_bodies prefix sec (add_body prefix sec st b) bs

unfoldable pub section_bodies : Splitter → Section → List Text
unfolding split_paragraphs
section_bodies p sec = split_paragraphs p.parts p.sentences sec.section_source max_chars_per_chunk

unfoldable pub add_sections : Splitter → Text → Chunks → List Section → Chunks
unfolding add_bodies section_bodies
add_sections p prefix st [] = st
add_sections p prefix st (s ∷ ss) =
    add_sections p prefix (add_bodies prefix s st (section_bodies p s)) ss

-- the chunks, with the number of dropped ones that is logged
unfoldable pub chunk_document : Splitter → Text → List PageText → Chunks
unfolding add_sections split_by_section
chunk_document p prefix pages =
    let start : Chunks = record { chunks = []; counter = 1; dropped = 0 } in
    add_sections p prefix start (split_by_section p pages)

unfoldable pub chunk_resume : Splitter → List PageText → Text → List ResumeChunk
unfolding chunk_document
chunk_resume p pages prefix = (chunk_document p prefix pages).chunks

-- the ids of one skill, `none` where the key is absent
unfoldable pub scrub_ids : List Text → Option (List Text) → Option (List Text)
scrub_ids valid_ids none = none
scrub_ids valid_ids (some []) = some []
scrub_ids valid_ids (some (i ∷ is)) = some (filter (contains valid_ids) (i ∷ is))

unfoldable pub scrub_invalid_chunk_refs :
    List (Option (List Text)) → List Text → List (Option (List Text))
unfolding scrub_ids
scrub_invalid_chunk_refs skills valid_ids = map (scrub_ids valid_ids) skills
