-- ===== src/Llm/Values.antt =====
-- core/src/pipeline/llm/client.py: what a call of the client ends in, and Python's access to the JSON of
-- a reply.
-- the detail of an `LLMOutputInvalidError`
use recruiter_pilot.Base.{
  Bool, [], false, if◌then◌else◌, list_eq, nat_eq, option_eq, string_eq, true, ℕ, ◌==◌, ◌∷◌,
}
use recruiter_pilot.Base.Text.{Text}
use recruiter_pilot.Llm.Json.{
  Fields, Json, json_array, json_bool, json_field, json_item, json_null, json_number, json_object,
  json_string, no_fields, no_items,
}

pub data Detail : Type 0 where
  no_choices no_content no_vector : Detail
  empty_content : Bool → Detail
  wrong_count : ℕ → ℕ → Detail
  wrong_dimension : ℕ → ℕ → Detail
  invalid_json : Text → Detail

-- `LLMUnavailableError`, `LLMOutputInvalidError`, and an exception that the client does not handle
pub data Fault : Type 0 where
  unavailable : Fault
  output_invalid : Detail → Fault
  unhandled : Fault

pub data CallOutcome {ℓ} (A : Type ℓ) : Type ℓ where
  returned : A → CallOutcome A
  raised : Fault → CallOutcome A

-- `bool(v)`; `none` of a lookup is Python's None
unfoldable pub json_truthy : Json → Bool
json_truthy json_null = false
json_truthy (json_bool b) = b
json_truthy (json_number s nonzero) = nonzero
json_truthy (json_string []) = false
json_truthy (json_string (c ∷ s)) = true
json_truthy (json_array no_items) = false
json_truthy (json_array (json_item v vs)) = true
json_truthy (json_object no_fields) = false
json_truthy (json_object (json_field k v fs)) = true

unfoldable pub get_field : Text → Fields → Json
get_field k no_fields = json_null
get_field k (json_field j v fs) = let rest = get_field k fs in if j == k then v else rest

-- `v.get(k)`; a value without that method raises
unfoldable pub get : Text → Json → CallOutcome Json
unfolding get_field
get k (json_object fs) = returned (get_field k fs)
get k _ = raised unhandled

-- `v or {}`
unfoldable pub or_empty : Json → Json
unfolding json_truthy
or_empty v = if json_truthy v then v else json_object no_fields

-- `v[0]` of a value that is not empty: a list's first item; an object has no key 0, and what a
-- string gives has no method `get`
unfoldable pub first_item : Json → CallOutcome Json
first_item (json_array (json_item v vs)) = returned v
first_item _ = raised unhandled

abbrev pub and_then {ℓ κ} :
    {A : Type ℓ} {B : Type κ} → CallOutcome A → (A → CallOutcome B) → CallOutcome B
and_then (returned a) f = f a
and_then (raised e) f = raised e
