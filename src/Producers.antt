-- ===== src/Producers.antt =====
-- How a line becomes an event: LogEventProducer of src/taskweave/messages/log_event_producer.py, the
-- strategies of src/taskweave/persist/persist_strategy.py, and Classifier, ClassifyingProducer and
-- `_OUTPUT_TO_MSG` of src/taskweave_dialect. An extractor is known by its order among the rules; its
-- `parse` answers a content `C`, or None, or raises. A TaskId that is made is a new object: the next
-- number.
pub mod Matches
pub mod Identity
mod Examples
use taskweave.Base.{
  ℕ, ◌+◌, String, Bool, true, false, if◌then◌else◌, Option, none, some, List, [], ◌∷◌, Outcome,
  done, raised, Stmt, give, fail, skip, ◌>>=◌, ◌>>◌, Dict, store, string_key,
}
use taskweave.Exceptions.{Exception, value_error, type_error, key_error, attribute_error, text}
use taskweave.Protocol.{
  MsgType, SourceType, OutputType, RoutingPolicy, TaskId, LogEvent, default_routing,
}

-- How many TaskIds there are and how often the clock was read.
pub record Counters : Type 0 where
  pub objects : ℕ
  pub readings : ℕ

module _ (clock : ℕ → ℕ) where
  -- `LogEvent(msg_type = …, source_id = TaskId(source_id), msg = line, timestamp = time())`
  unfoldable pub new_event : MsgType → String → String → Stmt Counters LogEvent
  new_event msg_type source_id line s = (
    done (record {
      source_id = record { ident = s.objects; value = source_id };
      state = none;
      msg_type = msg_type;
      source_type = SourceType.task;
      timestamp = clock s.readings;
      routing = default_routing;
      sequence = 0;
      msg = text line;
    }),
    record { objects = s.objects + 1; readings = s.readings + 1 },
  )

  -- LogEventProducer, which `make_sink` with a backend lets persist.
  unfoldable pub log_event_line : Bool → String → String → Stmt Counters LogEvent
  unfolding new_event
  log_event_line persists source_id line = do
    event ← new_event MsgType.log_line source_id line
    give (
        if persists
        then record event { routing = record { forward = true; persist = true } }
        else event)

pub data PersistStrategy : Type 0 where
  persist_all persist_discarded persist_verbose_and_discarded persist_none : PersistStrategy

abbrev pub is_discarded : OutputType → Bool
is_discarded OutputType.discard = true
is_discarded OutputType.error = true
is_discarded _ = false

abbrev pub is_verbose_or_discarded : OutputType → Bool
is_verbose_or_discarded OutputType.verbose = true
is_verbose_or_discarded t = is_discarded t

abbrev pub routed : Bool → Bool → LogEvent → LogEvent
routed forward persist event = record event {
  routing = record { forward = forward; persist = persist };
}

abbrev pub specialize_all : LogEvent → OutputType → LogEvent
specialize_all event t = routed true true event

abbrev pub specialize_discarded : LogEvent → OutputType → LogEvent
specialize_discarded event t = if is_discarded t then routed false true event else event

abbrev pub specialize_verbose_and_discarded : LogEvent → OutputType → LogEvent
specialize_verbose_and_discarded event t =
    if is_verbose_or_discarded t then routed false true event else event

abbrev pub specialize_none : LogEvent → OutputType → LogEvent
specialize_none event t = routed true false event

unfoldable pub specialize_event : PersistStrategy → LogEvent → OutputType → LogEvent
specialize_event persist_all event t = specialize_all event t
specialize_event persist_discarded event t = specialize_discarded event t
specialize_event persist_verbose_and_discarded event t = specialize_verbose_and_discarded event t
specialize_event persist_none event t = specialize_none event t

-- `_OUTPUT_TO_MSG`
unfoldable pub output_to_msg : OutputType → MsgType
output_to_msg OutputType.progress = MsgType.progress
output_to_msg OutputType.log_line = MsgType.log_line
output_to_msg OutputType.banner = MsgType.banner
output_to_msg OutputType.verbose = MsgType.banner
output_to_msg OutputType.error = MsgType.error
output_to_msg OutputType.discard = MsgType.log_line

-- `self._names[extractor]`
abbrev pub name_of : Option String → Stmt Counters String
name_of none = fail key_error
name_of (some name) = give name

-- `dict(…)`
abbrev pub dict_from : {V : Type 0} → Dict String V → List (String × V) → Dict String V
dict_from d [] = d
dict_from d ((name, v) ∷ entries) = dict_from (store d name v) entries

module _ (C : Type 0) where
  -- An extractor with its OutputType. `names` are those that an iteration over it gives, none when it
  -- cannot be iterated over.
  pub record Rule : Type 0 where
    pub names : Option (List String)
    pub parse : String → Outcome (Option C)
    pub output_type : OutputType

  -- A classifier: its rules, each with its entry in `_names`.
  abbrev pub Classifier : Type 0
  Classifier = List (Rule × Option String)

  -- ParseResult, whose `matched` says that there is a content.
  pub record ParseResult : Type 0 where
    pub matched : Bool
    pub content : Option C

  -- ClassifyingProducer's event.
  pub record ClassifiedEvent : Type 0 where
    pub event : LogEvent
    pub parsed : Dict String ParseResult

module _ {C : Type 0} where
  -- `Classifier(rules = …)`: `__post_init__` iterates over the extractor and then asks for `self.names`,
  -- which there is not.
  unfoldable pub new_classifier : List (Rule C) → Outcome (Classifier C)
  new_classifier [] = done []
  new_classifier (rule ∷ rules) = elim (rule.names) [
    | none ↦ raised type_error
    | some names ↦ raised attribute_error
  ]

  abbrev pub parse_result : Option C → ParseResult C
  parse_result none = record { matched = false; content = none }
  parse_result (some c) = record { matched = true; content = some c }

  -- All that `classify` yields. Its `matched` is never set, so that every rule is tried.
  unfoldable pub classify :
      Classifier C → String → Stmt Counters (List (String × (OutputType × ParseResult C)))
  classify [] line = give []
  classify ((rule, entry) ∷ rules) line = do
    result ← λ s. (rule.parse line, s)
    name ← name_of entry
    rest ← classify rules line
    give ((name, (rule.output_type, parse_result result)) ∷ rest)

  -- `next(…, OutputType.LOG_LINE)`
  abbrev pub matched_type : Dict String (OutputType × ParseResult C) → OutputType
  matched_type [] = OutputType.log_line
  matched_type ((name, (t, result)) ∷ results) = if result.matched then t else matched_type results

  abbrev pub parsed_of : Dict String (OutputType × ParseResult C) → Dict String (ParseResult C)
  parsed_of [] = []
  parsed_of ((name, (t, result)) ∷ results) = (name, result) ∷ parsed_of results

  -- ClassifyingProducer.
  unfoldable pub on_line :
      (ℕ → ℕ) → Classifier C → PersistStrategy → String → String → Stmt Counters (ClassifiedEvent C)
  unfolding classify output_to_msg new_event specialize_event
  on_line clock classifier strategy source_id line = do
    entries ← classify classifier line
    let results = dict_from [] entries
    event ← new_event clock (output_to_msg (matched_type results)) source_id line
    give (record {
      event = specialize_event strategy event (matched_type results);
      parsed = parsed_of results;
    })

-- `make_sink` of ClassifyingProducer.
unfoldable pub make_sink : {W : Type 0} → Bool → Stmt W Unit
make_sink has_backend = if has_backend then skip else fail value_error
