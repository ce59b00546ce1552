-- ===== src/Snapshots/Examples.antt =====
-- Concrete inputs of the theorems on snapshots and on the channel of a session.
use package.text.Mathlib.Text.{◌==◌ as same_text}
use taskweave.Base.{
  ℕ, pos, ◌+◌, false, if◌then◌else◌, none, some, [], ◌∷◌, done, raised, ◌≡◌, ◌≢◌, refl, arith,
  string_key,
}
use taskweave.Exceptions.{attribute_error, type_error, text}
use taskweave.Protocol.{LogEvent, MsgType, SourceType, default_routing}
use taskweave.Lifecycle.{SessionState}
use taskweave.Logging.{missing, malformed, default_max_age}
use taskweave.Orchestrator.{cancel_pending_only}
use taskweave.Bus.{ObservabilityPolicy, MiniBus, safe, last_seen}
use taskweave.Bus.Sinks.{calm, number}
use taskweave.Bus.Internal.{internal_outcome, internal_deliveries, sequence_on_failure}
use taskweave.Dialect.{
  DialectErrorKind, ok, Rule, compiled, Regex, Field, JsonSchemaType, make_field, validate,
  parse_field, parse_line,
}
use taskweave.Dialect.Validation.{make_field_safe}
use taskweave.Plans.{
  Strategy, Producer, Task, ExecutionPlan, SessionControl, Environment, new_cycle, execute,
}
use taskweave.Plans.Execution.{Distinct, PlanReady}
use taskweave.Snapshots.{SessionSnapshot, snapshot, new_bus, session_emit_internal}
use taskweave.Snapshots.Session.{has_task, empty_session, snapshot-eq}
use taskweave.Snapshots.Executed.{snapshot-execute}
use taskweave.Snapshots.Channel.{session_internal_blind}
use taskweave.Snapshots.Dialects.{session_log, session_parse, parse_line_in_session}

abbrev environment : Environment
environment = record {
  clock = λ n. n + 1000;
  stamp = λ n. ("8f2c01aa", "x7Qz");
  make_runner = λ b name. none;
}

abbrev session : SessionControl
session = record {
  id = record { ident = 0; value = "session_1f" };
  cycle = new_cycle SessionState.pending;
  log_store = record {
    max_age = default_max_age;
    known_names = [];
    index = missing;
    files = [];
    readings = 0;
  };
  pools = [];
  managers = [];
  contexts = [];
  pipelines = [];
  cancel_policy = cancel_pending_only;
  observability_policy = ObservabilityPolicy.safe;
  readings = 0;
}

abbrev fetch : Task
fetch = record {
  name = record { ident = 1; value = "fetch" };
  strategy = Strategy.synchronous;
  producer = Producer.log_event false;
  backend = none;
  has_on_cancel = false;
  has_on_finally = false;
}

abbrev plan : ExecutionPlan
plan = record {
  cancel_policy = cancel_pending_only;
  observability_policy = ObservabilityPolicy.safe;
  pools = [];
  pipelines = record { id = record { ident = 2; value = "p2" }; tasks = fetch ∷ [] } ∷ [];
}

snapshot-eq_example : (snapshot environment session).0 ≡ (
    if has_task session.pipelines
    then raised attribute_error
    else done (empty_session environment session))
snapshot-eq_example = snapshot-eq environment session

readable : missing ≢ malformed
readable e = ground (arith, e)

distinct : Distinct plan.pipelines
distinct = (refl, tt)

ready : PlanReady environment session.pools plan.pipelines
unfolding string_key
ready = (((refl, tt), (tt, tt, tt)), tt)

snapshot-execute_example :
    let out = execute environment plan session in
    (out.0 ≡ done tt) × ((snapshot environment out.1).0 ≡ raised attribute_error)
snapshot-execute_example =
    snapshot-execute environment plan session refl readable distinct ready refl

-- The bus of a new session, whose client is sink 0.
abbrev bus : MiniBus SessionSnapshot
bus = (new_bus 0 safe).1

abbrev report : DialectErrorKind → LogEvent
report kind = record {
  source_id = fetch.name;
  state = none;
  msg_type = MsgType.dialect_error;
  source_type = SourceType.task;
  timestamp = 7;
  routing = default_routing;
  sequence = 0;
  msg = text "cast";
}

abbrev failure : LogEvent
failure = report DialectErrorKind.incompatible_json_type

session_internal_blind_example :
    let out = session_emit_internal calm failure bus in
    (out.0 ≡ internal_outcome type_error bus.policy)
    × (out.1.delivered ≡ internal_deliveries bus.policy bus failure)
    × (last_seen failure.source_id out.1 ≡ number bus failure)
    × (sequence_on_failure failure.source_id out.1 ≡ number bus failure)
session_internal_blind_example = session_internal_blind failure bus

abbrev rule : Rule
rule = record { pattern = "took (.*)"; groups = 1; has_names = false }

abbrev engine : Regex ℕ
engine = record {
  compile = λ target. compiled rule;
  search = λ r line. some (λ g. some line);
  has_union = λ r. ok false;
  escape_spaces = λ target. target;
  normal = λ v. v;
  to_int = λ v. if same_text v "7" then some 7 else none;
  to_float = λ v. none;
}

abbrev duration : Field
duration = record { name = "duration"; type = JsonSchemaType.int; group = pos 1; rule = rule }

duration_made : make_field engine "duration" JsonSchemaType.int "took (.*)" (pos 1) ≡ ok duration
unfolding make_field validate
duration_made = refl

-- "soon" is no number.
cast_lost : session_parse engine safe (duration ∷ []) "soon" ≡ raised type_error
unfolding parse_field
cast_lost = refl

parse_line_in_session_example :
    (parse_line engine (session_log calm (λ kind b. report kind)) (duration ∷ []) "soon" bus).0
    ≡ session_parse engine bus.policy (duration ∷ []) "soon"
parse_line_in_session_example =
    parse_line_in_session engine calm (λ kind b. report kind) bus (duration ∷ []) "soon"
      (λ p n d b. refl)
      (
        make_field_safe engine "duration" JsonSchemaType.int "took (.*)" 1 duration duration_made
            "soon",
        tt,
      )
