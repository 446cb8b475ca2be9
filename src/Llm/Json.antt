-- ===== src/Llm/Json.antt =====
-- core/src/pipeline/llm/client.py: the JSON values that `json.loads` returns, and `_strip_nuls`.
pub mod Clean
use recruiter_pilot.Base.{
  Bool, Option, filter, if◌then◌else◌, list_eq, ltb, nat_eq, none, not, option_eq, some, string_eq,
  suc, ℕ, ◌==◌,
}
use recruiter_pilot.Base.Text.{Text}

mutual
  -- a number is its literal and whether it differs from zero; an object keeps the order of its keys
  pub data Json : Type 0 where
    json_null : Json
    json_bool : Bool → Json
    json_number : Text → Bool → Json
    json_string : Text → Json
    json_array : Items → Json
    json_object : Fields → Json

  pub data Items : Type 0 where
    no_items : Items
    json_item : Json → Items → Items

  pub data Fields : Type 0 where
    no_fields : Fields
    json_field : Text → Json → Fields → Fields

abbrev pub max_json_depth : ℕ
max_json_depth = 200

-- `s.replace("\x00", "")`
unfoldable pub drop_nuls : Text → Text
drop_nuls s = filter (λ c. not (c == 0)) s

-- `d[k] = v`
unfoldable pub put_field : Text → Json → Fields → Fields
put_field k v no_fields = json_field k v no_fields
put_field k v (json_field j w fs) =
    let rest = put_field k v fs in if j == k then json_field j v fs else json_field j w rest

-- `none` is the `RecursionError`
abbrev pub within_depth : ℕ → Option Json → Option Json
within_depth d r = if ltb max_json_depth d then none else r

abbrev pub with_value {ℓ κ} : {A : Type ℓ} {B : Type κ} → Option A → (A → Option B) → Option B
with_value none f = none
with_value (some a) f = f a

unfoldable mutual
  unfolding drop_nuls put_field

  pub strip_nuls : ℕ → Json → Option Json
  strip_nuls d json_null = within_depth d (some json_null)
  strip_nuls d (json_bool b) = within_depth d (some (json_bool b))
  strip_nuls d (json_number s nonzero) = within_depth d (some (json_number s nonzero))
  strip_nuls d (json_string s) = within_depth d (some (json_string (drop_nuls s)))
  strip_nuls d (json_array xs) =
      within_depth d (with_value (strip_items (suc d) xs) λ ys. some (json_array ys))
  strip_nuls d (json_object fs) =
      within_depth d (with_value (strip_fields (suc d) no_fields fs) λ gs. some (json_object gs))

  pub strip_items : ℕ → Items → Option Items
  strip_items d no_items = some no_items
  strip_items d (json_item v vs) =
      with_value (strip_nuls d v) λ w. with_value (strip_items d vs) λ ws. some (json_item w ws)

  -- the new dictionary is filled from the left
  pub strip_fields : ℕ → Fields → Fields → Option Fields
  strip_fields d built no_fields = some built
  strip_fields d built (json_field k v fs) =
      with_value (strip_nuls d v) λ w. strip_fields d (put_field (drop_nuls k) w built) fs
