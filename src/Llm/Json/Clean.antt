-- ===== src/Llm/Json/Clean.antt =====
-- What `_strip_nuls` returns, and when it refuses.
use recruiter_pilot.Base.{
  All, All-filter_self, Bool, Bool-cases, IfSome, Option, arith, inl, inr, is_some, leb, list_eq,
  ltb, max, nat_eq, none, not, option_eq, refl, some, string_eq, suc, true, ℕ, ◌&&◌, ◌+◌, ◌==◌, ◌≡◌,
}
use recruiter_pilot.Base.Text.{Text}
use recruiter_pilot.Llm.Json.{
  Fields, Items, Json, drop_nuls, json_array, json_bool, json_field, json_item, json_null,
  json_number, json_object, json_string, max_json_depth, no_fields, no_items, put_field,
  strip_fields, strip_items, strip_nuls, with_value, within_depth,
}

abbrev pub NulFree : Text → Type 0
NulFree s = All (λ c. not (c == 0) ≡ true) s

mutual
  pub IsNulFree : Json → Type 0
  IsNulFree json_null = Unit
  IsNulFree (json_bool b) = Unit
  IsNulFree (json_number s nonzero) = Unit
  IsNulFree (json_string s) = NulFree s
  IsNulFree (json_array xs) = ItemsNulFree xs
  IsNulFree (json_object fs) = FieldsNulFree fs

  pub ItemsNulFree : Items → Type 0
  ItemsNulFree no_items = Unit
  ItemsNulFree (json_item v vs) = IsNulFree v × ItemsNulFree vs

  pub FieldsNulFree : Fields → Type 0
  FieldsNulFree no_fields = Unit
  FieldsNulFree (json_field k v fs) = NulFree k × IsNulFree v × FieldsNulFree fs

-- how many arrays and objects lie around the innermost value
unfoldable mutual
  pub nesting : Json → ℕ
  nesting json_null = 0
  nesting (json_bool b) = 0
  nesting (json_number s nonzero) = 0
  nesting (json_string s) = 0
  nesting (json_array xs) = items_nesting xs
  nesting (json_object fs) = fields_nesting fs

  pub items_nesting : Items → ℕ
  items_nesting no_items = 0
  items_nesting (json_item v vs) = max (suc (nesting v)) (items_nesting vs)

  pub fields_nesting : Fields → ℕ
  fields_nesting no_fields = 0
  fields_nesting (json_field k v fs) = max (suc (nesting v)) (fields_nesting fs)

put_field-FieldsNulFree :
    (k : Text) (v : Json) (fs : Fields)
    → NulFree k
    → IsNulFree v
    → FieldsNulFree fs
    → FieldsNulFree (put_field k v fs)
unfolding put_field FieldsNulFree
put_field-FieldsNulFree k v no_fields hk hv h = (hk, hv, tt)
put_field-FieldsNulFree k v (json_field j w fs) hk hv (hj, hw, h) = elim (Bool-cases (j == k)) [
  | inl e ↦ rw e (hj, hv, h)
  | inr e ↦ rw e (hj, hw, put_field-FieldsNulFree k v fs hk hv h)
]

within_depth-IfSome :
    (P : Json → Type 0) (d : ℕ) (r : Option Json) → IfSome P r → IfSome P (within_depth d r)
within_depth-IfSome P d r h = elim (Bool-cases (ltb max_json_depth d)) [
  | inl e ↦ rw e tt
  | inr e ↦ rw e h
]

with_value-IfSome {ℓ κ} :
    {A : Type ℓ} {B : Type κ} (P : A → Type 0) (Q : B → Type 0) (r : Option A) (f : A → Option B)
    → IfSome P r
    → ((a : A) → P a → IfSome Q (f a))
    → IfSome Q (with_value r f)
with_value-IfSome P Q none f h k = tt
with_value-IfSome P Q (some a) f h k = k a h

is_some-with_value {ℓ κ} :
    {A : Type ℓ} {B : Type κ} (b : Bool) (r : Option A) (f : A → Option B)
    → ((a : A) → is_some (f a) ≡ b)
    → is_some (with_value r f) ≡ (is_some r && b)
is_some-with_value b none f h = refl
is_some-with_value b (some a) f h = h a

mutual
  unfolding strip_nuls IsNulFree

  strip_clean : (d : ℕ) (v : Json) → IfSome IsNulFree (strip_nuls d v)
  strip_clean d json_null = within_depth-IfSome IsNulFree d (some json_null) tt
  strip_clean d (json_bool b) = within_depth-IfSome IsNulFree d (some (json_bool b)) tt
  strip_clean d (json_number s nonzero) =
      within_depth-IfSome IsNulFree d (some (json_number s nonzero)) tt
  strip_clean d (json_string s) =
      within_depth-IfSome IsNulFree d (some (json_string (drop_nuls s))) (All-filter_self _ s)
  strip_clean d (json_array xs) =
      let made : Items → Option Json = λ ys. some (json_array ys) in
      within_depth-IfSome IsNulFree d (with_value (strip_items (suc d) xs) made)
        (with_value-IfSome ItemsNulFree IsNulFree _ made (items_clean (suc d) xs) (λ ys h. h))
  strip_clean d (json_object fs) =
      let made : Fields → Option Json = λ gs. some (json_object gs) in
      within_depth-IfSome IsNulFree d (with_value (strip_fields (suc d) no_fields fs) made) (
        with_value-IfSome FieldsNulFree IsNulFree _ made (fields_clean (suc d) no_fields fs tt)
          (λ gs h. h))

  items_clean : (d : ℕ) (xs : Items) → IfSome ItemsNulFree (strip_items d xs)
  items_clean d no_items = tt
  items_clean d (json_item v vs) =
      with_value-IfSome IsNulFree ItemsNulFree (strip_nuls d v)
        (λ w. with_value (strip_items d vs) λ ws. some (json_item w ws)) (strip_clean d v)
        (λ w hw.
          with_value-IfSome ItemsNulFree ItemsNulFree (strip_items d vs)
            (λ ws. some (json_item w ws)) (items_clean d vs) (λ ws hws. (hw, hws)))

  fields_clean :
      (d : ℕ) (built fs : Fields)
      → FieldsNulFree built
      → IfSome FieldsNulFree (strip_fields d built fs)
  fields_clean d built no_fields hb = hb
  fields_clean d built (json_field k v fs) hb =
      with_value-IfSome IsNulFree FieldsNulFree (strip_nuls d v)
        (λ w. strip_fields d (put_field (drop_nuls k) w built) fs) (strip_clean d v)
        (λ w hw.
          fields_clean d _ fs (put_field-FieldsNulFree _ w built (All-filter_self _ k) hw hb))

mutual
  unfolding strip_nuls nesting

  depth_exact : (d : ℕ) (v : Json) → is_some (strip_nuls d v) ≡ leb (d + nesting v) max_json_depth
  depth_exact d json_null = ground arith
  depth_exact d (json_bool b) = ground arith
  depth_exact d (json_number s nonzero) = ground arith
  depth_exact d (json_string s) = ground arith
  depth_exact d (json_array xs) = ground (arith, items_exact d xs)
  depth_exact d (json_object fs) = ground (arith, fields_exact d no_fields fs)

  items_exact :
      (d : ℕ) (xs : Items)
      → leb d max_json_depth ≡ true
      → is_some (strip_items (suc d) xs) ≡ leb (d + items_nesting xs) max_json_depth
  items_exact d no_items h = ground arith
  items_exact d (json_item v vs) h = ground (arith, depth_exact (suc d) v, items_exact d vs h)

  fields_exact :
      (d : ℕ) (built fs : Fields)
      → leb d max_json_depth ≡ true
      → is_some (strip_fields (suc d) built fs) ≡ leb (d + fields_nesting fs) max_json_depth
  fields_exact d built no_fields h = ground arith
  fields_exact d built (json_field k v fs) h = ground (
    arith,
    depth_exact (suc d) v,
    is_some-with_value (leb (d + fields_nesting fs) max_json_depth) (strip_nuls (suc d) v)
        (λ w. strip_fields (suc d) (put_field (drop_nuls k) w built) fs)
        (λ w. fields_exact d (put_field (drop_nuls k) w built) fs h),
  )

-- `_strip_nuls` refuses a value exactly when more than 200 arrays and objects lie around some value in
-- it; whatever it returns has no U+0000 left, in no string and no key at any depth.
pub strip_nuls-exact :
    (v : Json)
    → (is_some (strip_nuls 0 v) ≡ leb (nesting v) max_json_depth)
      × IfSome IsNulFree (strip_nuls 0 v)
strip_nuls-exact v = (ground (arith, depth_exact 0 v), strip_clean 0 v)
