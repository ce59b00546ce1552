-- ===== src/Registry/Written.antt =====
-- How a plan is written out again: `get_plan` and `get_json_plan` of ExecutionRegistry, and what submits
-- one, `SessionManager.from_plan` and `SessionGateway.get_plan`. `dumps` is `json.dumps`.
use text.Mathlib.Text.{◌==◌ as same_text}
use taskweave.Base.{
  ℕ, String, true, if◌then◌else◌, Option, some, List, [], ◌∷◌, Outcome, done, raised, ◌≡◌, refl,
  ◌∙◌, arith,
}
use taskweave.Exceptions.{attribute_error, type_error}
use taskweave.Orchestrator.{CancelPolicy}
use taskweave.Bus.{ObservabilityPolicy}
use taskweave.Registry.{
  no_entry, Value, number, literal, list, dict, fields, Values, item, Entries, entry, lookup,
  and_then, json_serialize, serialize_fields, parse_plan, parse_pools, create,
}
use taskweave.Registry.Json.{
  is_json, all_json, all_json_entries, all_serializable_fields, json_serialize-is_json,
}

-- `serialized[key] = value`
abbrev pub set_item : Entries → String → Value → Entries
set_item no_entry key v = entry key v no_entry
set_item (entry k u es) key v =
    let rest = set_item es key v in if same_text k key then entry k v es else entry k u rest

-- `{"name": name, "max_parallel": runner.manager.max_count}` for each pool.
abbrev pub pool_entries : List (String × ℕ) → Values
pool_entries [] = Values.end
pool_entries ((name, n) ∷ pools) =
    item (dict (entry "name" (literal name) (entry "max_parallel" (number n) no_entry)))
      (pool_entries pools)

abbrev pub with_pools : Value → List (String × ℕ) → Outcome Value
with_pools (dict es) pools = done (dict (set_item es "pools" (list (pool_entries pools))))
with_pools _ pools = raised type_error

unfoldable pub get_plan : Value → List (String × ℕ) → Outcome Value
get_plan plan pools = with_pools (json_serialize plan) pools

unfoldable pub get_json_plan : (Value → Outcome String) → Value → List (String × ℕ) → Outcome String
unfolding get_plan
get_json_plan dumps plan pools = and_then (get_plan plan pools) dumps

-- `control` is what `create` returns, None.
abbrev add_pools : List (String × ℕ) → Outcome (Unit {0})
add_pools [] = done tt
add_pools (pool ∷ pools) = raised attribute_error

unfoldable pub from_plan :
    Option CancelPolicy → Option ObservabilityPolicy → List (String × ℕ) → Outcome (Unit {0})
unfolding create
from_plan policy observability pools =
    and_then (create policy observability) λ control. add_pools pools

-- Neither None nor a SessionControl has a `plan`.
unfoldable pub gateway_get_plan : Outcome String
gateway_get_plan = raised attribute_error

lookup-set_item :
    (es : Entries) (key : String) (v : Value)
    → same_text key key ≡ true
    → lookup (set_item es key v) key ≡ some v
lookup-set_item no_entry key v e = ground (arith, e)
lookup-set_item (entry k u es) key v e = ground (arith, e, lookup-set_item es key v e)

all_json-set_item :
    (es : Entries) (key : String) (v : Value)
    → all_json_entries es ≡ true
    → is_json v ≡ true
    → all_json_entries (set_item es key v) ≡ true
all_json-set_item no_entry key v h e = ground (arith, e)
all_json-set_item (entry k u es) key v h e = ground (arith, h, e, all_json-set_item es key v)

pool_entries-json : (pools : List (String × ℕ)) → all_json (pool_entries pools) ≡ true
pool_entries-json [] = refl
pool_entries-json ((name, n) ∷ pools) = pool_entries-json pools

-- A plan that holds functions in the fields of dataclasses at most, and no other objects, is written
-- out as text with its pools, if `dumps` returns for every value of JSON.
pub get_json_plan_returns :
    (dumps : Value → Outcome String)
    → ((v : Value) → is_json v ≡ true → (s : String) × (dumps v ≡ done s))
    → (fs : Entries) (pools : List (String × ℕ)) → all_serializable_fields fs ≡ true
    → (s : String) × (get_json_plan dumps (fields fs) pools ≡ done s)
unfolding get_json_plan get_plan
get_json_plan_returns dumps h fs pools e =
    h (dict (set_item (serialize_fields fs) "pools" (list (pool_entries pools)))) (
      all_json-set_item (serialize_fields fs) "pools" (list (pool_entries pools))
        (json_serialize-is_json (fields fs) ∙ e) (pool_entries-json pools))

-- What is written out of a plan, whatever its fields and pools, is not read again: the pools are
-- written as a list, and to parse it raises AttributeError, since it looks for a dictionary there.
pub parse_plan-get_plan :
    (fs : Entries) (pools : List (String × ℕ))
    → and_then (get_plan (fields fs) pools) parse_plan ≡ raised attribute_error
unfolding get_plan parse_plan parse_pools
parse_plan-get_plan fs pools =
    let e = lookup-set_item (serialize_fields fs) "pools" (list (pool_entries pools)) refl in
    rw e refl
