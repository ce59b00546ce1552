-- ===== src/Registry.antt =====
-- src/taskweave/utils/json_serialize.py, ExecutionRegistry of
-- src/taskweave/session/execution_registry.py, and the way of a submitted plan through SessionGateway
-- and SessionManager of src/taskweave/session. A number stands for any number.
pub mod Json
pub mod Written
pub mod Parsed
mod Examples
use text.Mathlib.Text.{◌==◌ as same_text}
use taskweave.Base.{
  ℕ, String, Bool, true, false, if◌then◌else◌, ◌||◌, Option, none, some, is_some, List, [], ◌∷◌,
  ◌++◌, Outcome, done, raised, Dict, store, string_key,
}
use taskweave.Bus.{ObservabilityPolicy, safe, best_effort}
use taskweave.Orchestrator.{CancelPolicy, cancel_all, cancel_pending_only, drain}
use taskweave.Exceptions.{Exception, attribute_error, key_error, type_error}

mutual
  -- A value of Python, as far as it is told apart: a function, which stands for all
  -- that is callable and no dataclass; another object, a class that is a dataclass among them; an
  -- Enum's member by its value, which is any; or a dataclass instance by its fields.
  pub data Value : Type 0 where
    null function : Value
    boolean : Bool → Value
    number : ℕ → Value
    literal other : String → Value
    member : Value → Value
    list : Values → Value
    dict fields : Entries → Value

  pub data Values : Type 0 where
    end : Values
    item : Value → Values → Values

  pub data Entries : Type 0 where
    no_entry : Entries
    entry : String → Value → Entries → Entries

-- `callable(value) and not is_dataclass(value)`
abbrev pub is_function : Value → Bool
is_function function = true
is_function _ = false

abbrev pub is_null : Value → Bool
is_null null = true
is_null _ = false

-- A field with a function or with None is left out.
abbrev pub keep_field : String → Value → Value → Entries → Entries
keep_field name value serialized rest =
    if is_function value || is_null serialized then rest else entry name serialized rest

abbrev mutual
  pub json_serialize : Value → Value
  json_serialize (member v) = v
  json_serialize (fields fs) = dict (serialize_fields fs)
  json_serialize (list vs) = list (serialize_items vs)
  json_serialize (dict es) = dict (serialize_entries es)
  json_serialize null = null
  json_serialize function = function
  json_serialize (boolean b) = boolean b
  json_serialize (number n) = number n
  json_serialize (literal s) = literal s
  json_serialize (other s) = other s

  pub serialize_fields : Entries → Entries
  serialize_fields no_entry = no_entry
  serialize_fields (entry name v fs) =
      let serialized = json_serialize v in
      let rest = serialize_fields fs in keep_field name v serialized rest

  pub serialize_items : Values → Values
  serialize_items Values.end = Values.end
  serialize_items (item v vs) = item (json_serialize v) (serialize_items vs)

  pub serialize_entries : Entries → Entries
  serialize_entries no_entry = no_entry
  serialize_entries (entry key v es) = entry key (json_serialize v) (serialize_entries es)

-- `parse_enum`, over the members of a class whose values are texts, by name and value.
abbrev pub Members : Type 0 → Type 0
Members M = List (M × (String × String))

unfoldable pub parse_enum : {M : Type 0} → Members M → Option String → Option M → Option M
parse_enum members none default = default
parse_enum [] (some v) default = default
parse_enum ((m, (name, value)) ∷ members) (some v) default =
    let rest = parse_enum members (some v) default in
    if same_text value v || same_text name v then some m else rest

-- `d.get(key)` of a dictionary, and `d[key]` of any value.
abbrev pub lookup : Entries → String → Option Value
lookup no_entry key = none
lookup (entry k v es) key = if same_text k key then some v else lookup es key

abbrev pub or_default : Option Value → Value → Value
or_default none default = default
or_default (some v) default = v

-- `v.get(key, default)`: only a dictionary has `get`.
abbrev pub get : Value → String → Value → Outcome Value
get (dict es) key default = done (or_default (lookup es key) default)
get _ key default = raised attribute_error

abbrev pub get_item : Option Value → Outcome Value
get_item none = raised key_error
get_item (some v) = done v

-- `v[key]`
abbrev pub subscript : Value → String → Outcome Value
subscript (dict es) key = get_item (lookup es key)
subscript _ key = raised type_error

abbrev pub and_then : {A B : Type 0} → Outcome A → (A → Outcome B) → Outcome B
and_then (done a) next = next a
and_then (raised e) next = raised e

-- PoolStrategy, as `_parse_pools` makes it. `max_parallel` is any value.
pub record ParsedPool : Type 0 where
  pub pool_name : Value
  pub max_parallel : Value

-- What can be the key of a dictionary.
abbrev pub is_hashable : Value → Bool
is_hashable (list vs) = false
is_hashable (dict es) = false
is_hashable (fields fs) = false
is_hashable _ = true

abbrev pub parse_pool : Value → Outcome ParsedPool
parse_pool p = and_then (subscript p "name") λ name. and_then (subscript p "name") λ pool_name.
    and_then (get p "max_parallel" (number 4))
      λ n. done (record { pool_name = pool_name; max_parallel = n })

abbrev pub parse_items : Values → Outcome (List ParsedPool)
parse_items Values.end = done []
parse_items (item p ps) =
    and_then (parse_pool p) λ pool. and_then (parse_items ps) λ pools. done (pool ∷ pools)

-- A loop over a value: over a list, over the keys of a dictionary, each of which is a text, or over the
-- characters of a text; anything else is not iterable. A text has no `name`.
abbrev pub parse_all : Value → Outcome (List ParsedPool)
parse_all (list ps) = parse_items ps
parse_all (dict no_entry) = done []
parse_all (dict (entry k v es)) = raised type_error
parse_all (literal s) = if same_text s "" then done [] else raised type_error
parse_all _ = raised type_error

-- `_parse_pools`, for the pools in order; those of one name are one in the source.
unfoldable pub parse_pools : Value → Outcome (List ParsedPool)
parse_pools payload = and_then (get payload "pools" (list Values.end)) parse_all

-- `_parse_pipelines`: its first statement replaces the argument `pipelines` by an empty list, so that the
-- loop has nothing to do.
unfoldable pub parse_pipelines : Value → List ParsedPool → Outcome (List Value)
parse_pipelines pipelines pools = done []

-- `parse_enum(…, payload.get(…))`: a value that is not a text is equal to none of the members.
unfoldable pub parse_value : {M : Type 0} → Members M → Value → Option M
unfolding parse_enum
parse_value members (literal s) = parse_enum members (some s) none
parse_value members _ = none

abbrev pub cancel_policies : Members CancelPolicy
cancel_policies =
    (cancel_all, ("CANCEL_ALL", "cancel all"))
    ∷ (cancel_pending_only, ("CANCEL_PENDING_ONLY", "cancel pending only"))
    ∷ (drain, ("DRAIN", "drain"))
    ∷ []

abbrev pub observability_policies : Members ObservabilityPolicy
observability_policies =
    (safe, ("SAFE", "safe")) ∷ (best_effort, ("BEST_EFFORT", "best effort")) ∷ []

pub record ParsedPlan : Type 0 where
  pub pipelines : List Value
  pub pools : List ParsedPool
  pub cancel_policy : Option CancelPolicy
  pub observability_policy : Option ObservabilityPolicy

unfoldable pub parse_plan : Value → Outcome ParsedPlan
unfolding parse_pools parse_pipelines parse_value
parse_plan payload = and_then (get payload "pools" (list Values.end)) λ listed.
    and_then (parse_pools listed) λ pools.
      and_then (get payload "pipelines" (list Values.end)) λ given.
        and_then (parse_pipelines given pools) λ pipelines.
          and_then (get payload "cancel_policy" null) λ policy.
            and_then (get payload "observability_policy" null) λ observability. done (record {
              pipelines = pipelines;
              pools = pools;
              cancel_policy = parse_value cancel_policies policy;
              observability_policy = parse_value observability_policies observability;
            })

-- `SessionManager.create`: SessionControl is not given its `on_event`.
unfoldable pub create : Option CancelPolicy → Option ObservabilityPolicy → Outcome (Unit {0})
create policy observability = raised type_error

-- `SessionGateway.submit`, which gets no further.
unfoldable pub submit : Value → Outcome (Unit {0})
unfolding parse_plan create
submit payload =
    and_then (parse_plan payload) λ plan. create (plan.cancel_policy) (plan.observability_policy)
