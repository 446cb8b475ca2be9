-- ===== src/Parsing/Tests.antt =====
-- The chunks of a page with a heading and one long line under it.
use recruiter_pilot.Base.{
  List, Option, [], length, list_eq, nat_eq, none, option_eq, refl, some, string_eq, ◌&&◌, ◌==◌,
  ◌∷◌, ◌≡◌,
}
use recruiter_pilot.Base.Text.{Text, is_space}
use recruiter_pilot.Parsing.Chunk.{PageText, Splitter, chunk_document, chunk_resume}
use recruiter_pilot.Parsing.Chunk.Bounds.{IsChunked, chunk_document-IsChunked}

abbrev long_line : Text
long_line =
    (97 ∷ 97 ∷ 97 ∷ 97 ∷ 97 ∷ 97 ∷ 97 ∷ 97 ∷ 97 ∷ 97 ∷ 97 ∷ 97 ∷ 97 ∷ 97 ∷ 97 ∷ 97 ∷ 97 ∷ 97 ∷ 97
      ∷ 97 ∷ 97 ∷ 97 ∷ 97 ∷ 97 ∷ 97 ∷ 97 ∷ 97 ∷ 97 ∷ 97 ∷ 97 ∷ 97 ∷ 97 ∷ 97 ∷ 97 ∷ 97 ∷ 97 ∷ 97 ∷ 97
      ∷ 97 ∷ 97 ∷ 97 ∷ 97 ∷ 97 ∷ 97 ∷ 97 ∷ 97 ∷ 97 ∷ 97 ∷ 97 ∷ 97 ∷ [])

abbrev lines_split : Splitter
lines_split = record {
  splitlines = λ s. (83 ∷ 107 ∷ 105 ∷ 108 ∷ 108 ∷ 115 ∷ 58 ∷ []) ∷ s ∷ [];
  heading_matches = λ n line. n == "skills" && length line == 6;
  parts = λ s. s ∷ [];
  sentences = λ s. s ∷ [];
}

abbrev page_one : PageText
page_one = record { page_no = 1; page_source = long_line }

one_chunk :
    chunk_resume lines_split (page_one ∷ []) (99 ∷ [])
    ≡ record {
      chunk_id = (99 ∷ 95 ∷ 48 ∷ 48 ∷ 49 ∷ []);
      section = "skills";
      chunk_page = 1;
      chunk_source = long_line;
    }
      ∷ []
unfolding chunk_resume is_space
one_chunk = refl

chunk_document-IsChunked_example :
    IsChunked (99 ∷ []) (chunk_document lines_split (99 ∷ []) (page_one ∷ []))
chunk_document-IsChunked_example = chunk_document-IsChunked lines_split (99 ∷ []) (page_one ∷ [])

abbrev cited : List (Option (List Text))
cited = some ((99 ∷ 95 ∷ 48 ∷ 48 ∷ 49 ∷ []) ∷ (99 ∷ 95 ∷ 57 ∷ 57 ∷ 57 ∷ []) ∷ []) ∷ none ∷ []
