-- ===== src/Lib.antt =====
-- taskweave runs pipelines of tasks. A session is submitted as a plan of pipelines; the
-- orchestrator starts the tasks of a pipeline one after the other, each as a subprocess; life
-- cycles record the states of tasks and pipelines and report each change as an event; events
-- reach the sinks of the session and a file on disk, behind a circuit breaker.
--
-- Parts, and the files that model them:
-- - Protocol: src/taskweave_protocol (the enums, RoutingPolicy, LogEvent) and
--   src/taskweave/utils/task_id.py. A TaskId is told apart by object identity, as Python does
--   for a class without `__eq__`.
-- - Lifecycle: src/taskweave/lifecycle and src/taskweave/states. `transition` is
--   `Lifecycle.transition` of the three classes, `States` holds the tables; `Graph`, `Cleanup`
--   and `Kept` hold theorems.
-- - Persist.Breaker: src/taskweave/persist/circuit_breaker.py, `call` and its parts.
-- - Persist.Runner and Persist.Producer: FileBackendRunner of
--   src/taskweave/persist/persist_backend.py, the consumer thread and the caller's side.
-- - Runtime and Runtime.Subprocess: the state of one pipeline (RuntimePipeline, PipelineTask)
--   and SubProcessManager of src/taskweave/workers/subprocess_manager.py.
-- - Orchestrator: PipelineOrchestrator of src/taskweave/pipeline/pipeline_orchestrator.py over
--   one pipeline.
-- - Pipelines: several pipelines of one orchestrator, started and stopped together; they share the
--   class attributes of SubProcessManager.
-- - Bus: src/taskweave/buses/mini_bus.py, src/taskweave/info_stream/stream_writer.py and
--   src/taskweave/persist/persist_registry.py, through which events reach the sinks.
-- - Dialect: the fields of a line dialect, src/taskweave_dialect (field.py, field_parser.py,
--   validate_rule.py, dialect_cast.py and RExtractorRunner of line_extractor.py).
-- - Workers: WorkerManager of src/taskweave/workers/worker_manager.py, the pool of worker processes,
--   with the contexts of its workers in Workers.Contexts and its queue of events in Workers.Dispatch;
--   the process of a worker, src/taskweave/workers/basic_worker.py, in Workers.Process; and the task
--   runners of src/taskweave/tasks/task_runner.py in Workers.Pool.
-- - Heartbeat: the loop of src/taskweave/buses/heartbeat.py.
-- - Logging: the log store and its index, src/taskweave/logging.
-- - Dialect.Extractor: RExtractor of src/taskweave_dialect/line_extractor.py, which tests a dialect.
-- - Dialect.Inspector and Dialect.Diagnostics: regex_inspector.py and diagnostics.py of
--   src/taskweave_dialect.
-- - Output: how the output of a process becomes lines, in src/taskweave/workers, and these, in
--   Output.Events, events.
-- - Output.Logger: WorkerLogger of src/taskweave/workers/worker_logger.py.
-- - Producers: how a line becomes an event: src/taskweave/messages, the strategies of
--   src/taskweave/persist/persist_strategy.py, and the classifiers of src/taskweave_dialect.
-- - Plans: how a plan becomes pipelines: the rest of the orchestrator, src/taskweave/tasks, and
--   SessionControl of src/taskweave/session/session_control.py.
-- - Snapshots: src/taskweave/snapshots, the methods that make snapshots, and the channel that carries
--   them, src/taskweave/buses/observability_context.py.
-- - Registry: src/taskweave/utils/json_serialize.py, and the parsing of submitted plans in
--   execution_registry.py, session_gateway.py and session_manager.py of src/taskweave/session.
-- - Values: the boxes around a value of src/taskweave/utils: Ref, CmdParam and the accumulators.
-- - Benchmark: src/taskweave/session/benchmark_collector.py.
-- - Persist.Retry: src/taskweave/persist/retry_with_backoff.py.
-- - Exceptions: the exceptions that the modelled code raises. Base: shared helpers.
--
-- A statement of Python is a function from a state to an outcome, done or raised, and a new state
-- (`Stmt` in Base.Actions); what a statement has changed before it raises stays changed. Threads
-- are sequences of atomic steps: a command of the client, the consumer thread over what is
-- queued, the end of a process. Time is a stream of readings, `clock n` being the n-th answer of
-- `time.time()`.
--
-- From outside come, as parameters: the clock, the file system (a function that says which disk
-- calls raise), the client's callbacks (which of their calls raise) and sinks (what each call does), whether a process
-- can be started, what a process writes, and the regular expression engine with the casts of
-- Python. The loops are structural recursions over the queue, the buffer, the tasks or the lines,
-- except that of the heart beat, which runs for a number of rounds (fuel): each round
-- makes one attempt, and there are at most `max_attempts` of them between two beats. A loop that
-- waits for something from outside goes over the list of what it finds each time, and raises
-- `never_returns` at the end of the list. In Output.Logger the file system is taken to work.
--
-- Not modelled: tasks of a pool within a running pipeline, sinks that register other sinks or change
-- the event they get while they are called, transport, configuration, the retired
-- modules (session_manager_off.py, pipeline_orchestrator_off.py), which nothing imports, and the text
-- of messages, of which the format and its arguments are kept.
pub mod Exceptions
pub mod Base
pub mod Protocol
pub mod Lifecycle
pub mod Persist
pub mod Runtime
pub mod Orchestrator
pub mod Pipelines
pub mod Bus
pub mod Dialect
pub mod Values
pub mod Workers
pub mod Logging
pub mod Heartbeat
pub mod Plans
pub mod Snapshots
pub mod Output
pub mod Producers
pub mod Registry
pub mod Benchmark
