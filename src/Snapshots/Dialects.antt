-- ===== src/Snapshots/Dialects.antt =====
-- A line dialect whose extractor reports on the bus of a session.
use taskweave.Base.{
  ℕ, String, if◌then◌else◌, List, [], Outcome, done, raised, ◌≡◌, ◌⊎◌, inl, inr, Stmt, Bool, true,
  false, refl, sym, ap, ◌∙◌,
}
use taskweave.Exceptions.{type_error}
use taskweave.Protocol.{LogEvent}
use taskweave.Dialect.{DialectErrorKind, Regex, Field, ExtractionResult, parse_line}
use taskweave.Dialect.Extraction.{
  AllSafe, both, results_of, failures_of, casts_fail, ends, Reports, parse_line-eq,
}
use taskweave.Dialect.Diagnostics.{returned, other_raised, extraction}
use taskweave.Dialect.Extractor.{
  RExtractor, make_runner, parse, end_of, return_test, return_test-fails,
}
use taskweave.Bus.{ObservabilityPolicy, safe, best_effort, Delivery, Client, MiniBus}
use taskweave.Bus.Internal.{internal_outcome, emit_internal-ends}
use taskweave.Snapshots.{SessionSnapshot, session_emit_internal}

-- Reporting a DialectError on the bus of a session, with the event that is made of its kind when the
-- bus is in a state.
abbrev pub session_log :
    Client SessionSnapshot
    → (DialectErrorKind → MiniBus SessionSnapshot → LogEvent)
    → DialectErrorKind
    → Stmt (MiniBus SessionSnapshot) Unit
session_log client event_of kind b = session_emit_internal client (event_of kind b) b

-- Under this policy the sinks are called, and each returns and leaves the bus as it is.
abbrev pub QuietUnder : ObservabilityPolicy → Client SessionSnapshot → Type 0
QuietUnder p client =
    p ≡ best_effort
    → (n : ℕ) (d : Delivery SessionSnapshot) (b : MiniBus SessionSnapshot)
    → client n d b ≡ (done tt, b)

session_log-Reports :
    (client : Client SessionSnapshot)
    (event_of : DialectErrorKind → MiniBus SessionSnapshot → LogEvent) (p : ObservabilityPolicy)
    → QuietUnder p client
    → Reports (session_log client event_of) (λ b. b.policy ≡ p) (internal_outcome type_error p)
unfolding session_emit_internal
session_log-Reports client event_of p quiet kind b q =
    let (ended, same) =
      emit_internal-ends client type_error (event_of kind b) b (λ r. quiet (sym q ∙ r)) in
    (ended ∙ ap (internal_outcome type_error) q, same ∙ q)

module _ {Number : Type 0} (re : Regex Number) where
  -- How the parse of a line ends in a session, under each policy.
  abbrev pub session_parse :
      ObservabilityPolicy → List Field → String → Outcome (ExtractionResult Number)
  session_parse safe fields line =
      if casts_fail re fields line
      then raised type_error
      else done (both re (results_of re [] fields line) (failures_of re fields line))
  session_parse best_effort fields line =
      done (both re (results_of re [] fields line) (failures_of re fields line))

  ends-session_parse :
      (p : ObservabilityPolicy) (fields : List Field) (line : String)
      → ends re
          (internal_outcome type_error p)
          (casts_fail re fields line)
          (both re (results_of re [] fields line) (failures_of re fields line))
        ≡ session_parse p fields line
  ends-session_parse safe fields line = refl
  ends-session_parse best_effort fields line = refl

  -- Fields that raise nothing but DialectErrors, on a line that is read in a session. Under the safe
  -- policy, whatever the sinks do, the parse raises TypeError as soon as the text of some field cannot be
  -- cast, and the values of the other fields are lost; else it returns the values and the failures of
  -- the fields. Under best effort, where all sinks return and leave the bus as it is, it returns the
  -- values and the failures, a text that cannot be cast among the failures.
  pub parse_line_in_session :
      (client : Client SessionSnapshot)
      (event_of : DialectErrorKind → MiniBus SessionSnapshot → LogEvent)
      (b : MiniBus SessionSnapshot) (fields : List Field) (line : String)
      → (b.policy ≡ best_effort
          → (n : ℕ) (d : Delivery SessionSnapshot) (b' : MiniBus SessionSnapshot)
          → client n d b' ≡ (done tt, b'))
      → AllSafe re fields line
      → (parse_line re (session_log client event_of) fields line b).0
        ≡ session_parse b.policy fields line
  parse_line_in_session client event_of b fields line quiet h =
      parse_line-eq re (session_log client event_of) (λ b'. b'.policy ≡ b.policy) _
        (session_log-Reports client event_of b.policy quiet) fields line b h refl
      ∙ ends-session_parse b.policy fields line

  session_parse-end :
      (p : ObservabilityPolicy) (fields : List Field) (line : String)
      → (end_of (session_parse p fields line) ≡ returned extraction)
        ⊎ (end_of (session_parse p fields line) ≡ other_raised type_error)
  session_parse-end safe fields line = by (casts_fail re fields line)
    where
      parsed : ExtractionResult Number
      parsed = both re (results_of re [] fields line) (failures_of re fields line)

      by :
          (b : Bool)
          → (end_of (if b then raised type_error else done parsed) ≡ returned extraction)
            ⊎ (end_of (if b then raised type_error else done parsed) ≡ other_raised type_error)
      by true = inr refl
      by false = inl refl
  session_parse-end best_effort fields line = inl refl

  -- Testing an extractor whose runner reports in a session, under either policy (under best effort with
  -- sinks that return and leave the bus as it is) and on any line on which its fields raise nothing but
  -- DialectErrors, raises TypeError: the analysis asks for the length of an ExtractionResult, if the
  -- parse has not raised TypeError before.
  pub return_test_in_session :
      (client : Client SessionSnapshot)
      (event_of : DialectErrorKind → MiniBus SessionSnapshot → LogEvent)
      (b : MiniBus SessionSnapshot) (e : RExtractor (MiniBus SessionSnapshot)) (line : String)
      → QuietUnder b.policy client
      → AllSafe re e.extractors line
      → return_test re (make_runner (session_log client event_of) e) line b ≡ raised type_error
  unfolding make_runner parse
  return_test_in_session client event_of b e line quiet h =
      let log = session_log client event_of in
      let same = ap end_of (parse_line_in_session client event_of b e.extractors line quiet h) in
      return_test-fails re (make_runner log e) line b
        (elim (session_parse-end b.policy e.extractors line) [
          | inl p ↦ inl (same ∙ p)
          | inr p ↦ inr (same ∙ p)
        ])
