-- ===== src/Registry/Json.antt =====
-- Which values can be written out as JSON.
use taskweave.Base.{String, Bool, true, false, ◌&&◌, ◌||◌, ◌≡◌, refl, ap, ◌∙◌, arith}
use taskweave.Registry.{
  no_entry, Value, null, function, boolean, number, literal, other, member, list, dict, fields,
  Values, item, Entries, entry, is_function, keep_field, json_serialize, serialize_fields,
  serialize_items, serialize_entries,
}

abbrev mutual
  -- A value of JSON: null, a scalar, or a list or a dictionary of such values.
  pub is_json : Value → Bool
  is_json null = true
  is_json function = false
  is_json (boolean b) = true
  is_json (number n) = true
  is_json (literal s) = true
  is_json (other s) = false
  is_json (member v) = false
  is_json (list vs) = all_json vs
  is_json (dict es) = all_json_entries es
  is_json (fields fs) = false

  pub all_json : Values → Bool
  all_json Values.end = true
  all_json (item v vs) = is_json v && all_json vs

  pub all_json_entries : Entries → Bool
  all_json_entries no_entry = true
  all_json_entries (entry key v es) = is_json v && all_json_entries es

abbrev mutual
  -- Functions stand only in the fields of dataclasses, an Enum's member has a value of JSON, and there
  -- are no other objects.
  pub is_serializable : Value → Bool
  is_serializable null = true
  is_serializable function = false
  is_serializable (boolean b) = true
  is_serializable (number n) = true
  is_serializable (literal s) = true
  is_serializable (other s) = false
  is_serializable (member v) = is_json v
  is_serializable (list vs) = all_serializable vs
  is_serializable (dict es) = all_serializable_entries es
  is_serializable (fields fs) = all_serializable_fields fs

  pub all_serializable : Values → Bool
  all_serializable Values.end = true
  all_serializable (item v vs) = is_serializable v && all_serializable vs

  pub all_serializable_entries : Entries → Bool
  all_serializable_entries no_entry = true
  all_serializable_entries (entry key v es) = is_serializable v && all_serializable_entries es

  pub all_serializable_fields : Entries → Bool
  all_serializable_fields no_entry = true
  all_serializable_fields (entry name v fs) =
      (is_function v || is_serializable v) && all_serializable_fields fs

field-json :
    (name : String) (v : Value) (s : Value) (rest : Entries)
    → is_json s ≡ is_serializable v
    → all_json_entries (keep_field name v s rest)
      ≡ (is_function v || is_serializable v) && all_json_entries rest
field-json name v null rest e = ground (arith, e)
field-json name v s rest e = ground (arith, e)

mutual
  of_value : (v : Value) → is_json (json_serialize v) ≡ is_serializable v
  of_value (member v) = refl
  of_value (fields fs) = of_fields fs
  of_value (list vs) = of_items vs
  of_value (dict es) = of_entries es
  of_value null = refl
  of_value function = refl
  of_value (boolean b) = refl
  of_value (number n) = refl
  of_value (literal s) = refl
  of_value (other s) = refl

  of_fields : (fs : Entries) → all_json_entries (serialize_fields fs) ≡ all_serializable_fields fs
  of_fields no_entry = refl
  of_fields (entry name v fs) =
      field-json name v (json_serialize v) (serialize_fields fs) (of_value v)
      ∙ ap (λ b. (is_function v || is_serializable v) && b) (of_fields fs)

  of_items : (vs : Values) → all_json (serialize_items vs) ≡ all_serializable vs
  of_items Values.end = refl
  of_items (item v vs) = λ i. of_value v i && of_items vs i

  of_entries :
      (es : Entries) → all_json_entries (serialize_entries es) ≡ all_serializable_entries es
  of_entries no_entry = refl
  of_entries (entry key v es) = λ i. of_value v i && of_entries es i

pub json_serialize-is_json : (v : Value) → is_json (json_serialize v) ≡ is_serializable v
json_serialize-is_json v = of_value v
