-- ===== src/Registry/Examples.antt =====
-- Concrete inputs of the theorems on the registry.
use taskweave.Base.{raised, none, some, [], ◌∷◌, ◌≡◌}
use taskweave.Orchestrator.{CancelPolicy, cancel_all, cancel_pending_only, drain}
use taskweave.Registry.{
  Value, null, function, literal, member, dict, fields, list, Values, no_entry, entry, and_then,
  Members, ParsedPlan, parse_plan,
}
use taskweave.Registry.Written.{get_plan, parse_plan-get_plan}
use taskweave.Exceptions.{attribute_error}

-- A task with a callback and a policy.
abbrev task : Value
task = fields (
    entry "name" (literal "fetch") (
      entry "on_finally" function
        (entry "policy" (member (literal "drain")) (entry "error" null no_entry))))

parse_plan-get_plan_example :
    and_then
      (get_plan
        (fields (entry "cancel_policy" (member (literal "drain")) no_entry))
        (("local", 4) ∷ []))
      parse_plan
    ≡ raised attribute_error
parse_plan-get_plan_example =
    parse_plan-get_plan (entry "cancel_policy" (member (literal "drain")) no_entry)
      (("local", 4) ∷ [])

abbrev first_policies : Members CancelPolicy
first_policies =
    (cancel_all, ("CANCEL_ALL", "cancel all"))
    ∷ (cancel_pending_only, ("CANCEL_PENDING_ONLY", "cancel pending only"))
    ∷ []

-- A payload with a pipeline, and with its pools in a dictionary of their own.
abbrev payload : Value
payload = dict (
    entry "pools" (dict no_entry) (
      entry "pipelines" (list (Values.item task Values.end))
        (entry "cancel_policy" (literal "drain") no_entry)))

abbrev plan : ParsedPlan
plan = record {
  pipelines = [];
  pools = [];
  cancel_policy = some drain;
  observability_policy = none;
}
