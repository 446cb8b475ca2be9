-- ===== src/Llm/Embed.antt =====
-- core/src/pipeline/llm/client.py: `embed`, on vectors of any kind of number.
pub mod Counted
use recruiter_pilot.Base.{
  List, Option, [], if◌then◌else◌, length, list_eq, nat_eq, none, option_eq, some, string_eq, suc,
  ℕ, ◌==◌, ◌∷◌,
}
use recruiter_pilot.Base.Text.{Text}
use recruiter_pilot.Llm.Chat.{data_key, embedding_key, ◌>=>◌}
use recruiter_pilot.Llm.Client.{Client, Config, Wire, embed_body, post_json}
use recruiter_pilot.Llm.Json.{
  Fields, Items, Json, json_array, json_field, json_item, json_null, json_object, json_string,
  no_fields, no_items,
}
use recruiter_pilot.Llm.Values.{
  CallOutcome, and_then, get, json_truthy, no_vector, output_invalid, raised, returned, unhandled,
  wrong_count, wrong_dimension,
}

-- `isinstance(vec, list)`, and `float(x)` of the entries, which is an argument
unfoldable pub as_vector {ℓ} : {F : Type ℓ} → (Json → CallOutcome F) → Items → CallOutcome (List F)
as_vector to_float no_items = returned []
as_vector to_float (json_item v vs) =
    and_then (to_float v) λ x. and_then (as_vector to_float vs) λ xs. returned (x ∷ xs)

unfoldable pub count_items : Items → ℕ
count_items no_items = 0
count_items (json_item v vs) = suc (count_items vs)

-- one entry of the reply's `data`
unfoldable pub read_vector {ℓ} :
    {F : Type ℓ} → (Json → CallOutcome F) → Option ℕ → Json → CallOutcome (List F)
unfolding as_vector count_items
read_vector to_float dim (json_array xs) = elim dim [
  | none ↦ as_vector to_float xs
  | some d ↦
      if count_items xs == d
      then as_vector to_float xs
      else raised (output_invalid (wrong_dimension (count_items xs) d))
]
read_vector to_float dim _ = raised (output_invalid no_vector)

unfoldable pub read_vectors {ℓ} :
    {F : Type ℓ} → (Json → CallOutcome F) → Option ℕ → Items → CallOutcome (List (List F))
unfolding read_vector get
read_vectors to_float dim no_items = returned []
read_vectors to_float dim (json_item v vs) = and_then (get embedding_key v) λ entry.
    and_then (read_vector to_float dim entry)
      λ x. and_then (read_vectors to_float dim vs) λ xs. returned (x ∷ xs)

-- what the loop meets in a string or an object: as many entries as Python's `len` counts, none of
-- which has a method `get`
unfoldable pub blanks {ℓ} : {A : Type ℓ} → List A → Items
blanks [] = no_items
blanks (x ∷ xs) = json_item json_null (blanks xs)

unfoldable pub field_names : Fields → List Text
field_names no_fields = []
field_names (json_field k v fs) = k ∷ field_names fs

-- the entries of `payload.get("data") or []`; `len` of a number or of True raises
unfoldable pub data_items : Json → CallOutcome Items
unfolding json_truthy blanks field_names
data_items (json_array xs) = returned xs
data_items (json_string s) = returned (blanks s)
data_items (json_object fs) = returned (blanks (field_names fs))
data_items v = if json_truthy v then raised unhandled else returned no_items

unfoldable pub read_embeddings {ℓ} :
    {F : Type ℓ} → (Json → CallOutcome F) → Option ℕ → ℕ → Json → CallOutcome (List (List F))
unfolding get data_items count_items read_vectors
read_embeddings to_float dim n payload = and_then (get data_key payload) λ found.
    and_then (data_items found) λ entries.
      if count_items entries == n
      then read_vectors to_float dim entries
      else raised (output_invalid (wrong_count n (count_items entries)))

unfoldable pub embed {ℓ} :
    {F : Type ℓ}
    → (Json → CallOutcome F)
    → Wire
    → Config
    → List Text
    → Client
    → Client × CallOutcome (List (List F))
unfolding post_json read_embeddings
embed to_float w c [] k = (k, returned [])
embed to_float w c (t ∷ ts) k =
    post_json w c (embed_body (t ∷ ts)) k
    >=> read_embeddings to_float c.expected_dim (length (t ∷ ts))
