-- ===== src/Parsing/Chunk/Scrub.antt =====
-- core/src/pipeline/parsing/chunk.py: what `scrub_invalid_chunk_refs` leaves.
use recruiter_pilot.Base.{
  All, All-filter_self, All-mapped, IfSome, List, Option, [], ap, contains, filter, filter-filter,
  list_eq, map-idempotent, nat_eq, none, option_eq, refl, some, string_eq, true, ◌∙◌, ◌∷◌, ◌≡◌,
}
use recruiter_pilot.Base.Text.{Text}
use recruiter_pilot.Parsing.Chunk.{scrub_ids, scrub_invalid_chunk_refs}

scrub_ids-filter :
    (valid_ids ids : List Text)
    → scrub_ids valid_ids (some ids) ≡ some (filter (contains valid_ids) ids)
unfolding scrub_ids
scrub_ids-filter valid_ids [] = refl
scrub_ids-filter valid_ids (i ∷ is) = refl

scrub_ids_valid :
    (valid_ids : List Text) (ids : Option (List Text))
    → IfSome (All (λ i. contains valid_ids i ≡ true)) (scrub_ids valid_ids ids)
unfolding scrub_ids
scrub_ids_valid valid_ids none = tt
scrub_ids_valid valid_ids (some ids) =
    rw (scrub_ids-filter valid_ids ids) (All-filter_self (contains valid_ids) ids)

scrub_ids_idempotent :
    (valid_ids : List Text) (ids : Option (List Text))
    → scrub_ids valid_ids (scrub_ids valid_ids ids) ≡ scrub_ids valid_ids ids
unfolding scrub_ids
scrub_ids_idempotent valid_ids none = refl
scrub_ids_idempotent valid_ids (some ids) = rw (scrub_ids-filter valid_ids ids) (
    scrub_ids-filter valid_ids (filter (contains valid_ids) ids)
    ∙ ap some (filter-filter (contains valid_ids) ids))

-- After the scrub every chunk id that a skill still names is one of the valid ids, for every skill, and
-- a second scrub changes nothing.
scrub_invalid_chunk_refs_sound :
    (skills : List (Option (List Text))) (valid_ids : List Text)
    → All
        (IfSome (All (λ i. contains valid_ids i ≡ true)))
        (scrub_invalid_chunk_refs skills valid_ids)
      × (scrub_invalid_chunk_refs (scrub_invalid_chunk_refs skills valid_ids) valid_ids
          ≡ scrub_invalid_chunk_refs skills valid_ids)
unfolding scrub_invalid_chunk_refs
scrub_invalid_chunk_refs_sound skills valid_ids = (
  All-mapped (scrub_ids valid_ids) _ (scrub_ids_valid valid_ids) skills,
  map-idempotent (scrub_ids valid_ids) (scrub_ids_idempotent valid_ids) skills,
)
