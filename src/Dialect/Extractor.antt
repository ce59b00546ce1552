-- ===== src/Dialect/Extractor.antt =====
-- RExtractor of src/taskweave_dialect/line_extractor.py, over the runner of its fields, and
-- `JsonSchema.to_dict` of src/taskweave_protocol/json_schema.py.
use taskweave.Base.{
  String, Option, none, some, List, [], ◌∷◌, map, Outcome, done, raised, Stmt, fail, ◌≡◌, ◌⊎◌, inl,
  inr, ap, ◌∙◌,
}
use taskweave.Exceptions.{type_error, attribute_error}
use taskweave.Dialect.{DialectErrorKind, Regex, Field, JsonSchemaType, ExtractionResult, parse_line}
use taskweave.Dialect.Diagnostics.{
  DiagnosticInfo, ParseEnd, returned, other_raised, extraction, Report, analyze,
}
use taskweave.Dialect.Diagnostics.Reports.{analyze_extraction}

-- What reporting a DialectError on the bus of a runner does to the state of the bus.
abbrev pub Log : Type 0 → Type 0
Log S = DialectErrorKind → Stmt S Unit

-- An RExtractor. `_runner` has no default: it is there once `make_runner` was called.
pub record RExtractor (S : Type 0) : Type 0 where
  pub extractors : List Field
  pub runner : Option (Log S)

-- The constructor: `__post_init__` calls `StaticDiagnostics.analyze` without its argument.
unfoldable pub new_extractor : {S : Type 0} → List Field → Outcome (RExtractor S)
new_extractor fields = raised type_error

unfoldable pub make_runner : {S : Type 0} → Log S → RExtractor S → RExtractor S
make_runner log e = record e { runner = some log }

-- `JsonSchema(fields=[e.schema for e in self.extractors])`, of each field the name and the type.
unfoldable pub schema : {S : Type 0} → RExtractor S → List (String × JsonSchemaType)
schema e = map (λ f. (f.name, f.type)) e.extractors

-- `JsonSchema.to_dict`: `JsonSchemaType.to_dict` returns None, which has no `properties`.
unfoldable pub to_dict : List (String × JsonSchemaType) → Outcome (Option (List String))
to_dict [] = done none
to_dict (f ∷ fields) = raised attribute_error

abbrev pub answer_of : Outcome Unit × List DiagnosticInfo → Outcome (List DiagnosticInfo)
answer_of (done u, messages) = done messages
answer_of (raised x, messages) = raised x

-- How the parse ends, for the analysis.
abbrev pub end_of : {Number : Type 0} → Outcome (ExtractionResult Number) → ParseEnd
end_of (done result) = returned extraction
end_of (raised x) = other_raised x

module _ {Number S : Type 0} (re : Regex Number) where
  -- `self._runner.parse(…)`; what makes the runner is always one.
  abbrev pub runner_parse : Option (Log S) → List Field → String → Stmt S (ExtractionResult Number)
  runner_parse none fields line = fail attribute_error
  runner_parse (some log) fields line = parse_line re log fields line

  unfoldable pub parse : RExtractor S → String → Stmt S (ExtractionResult Number)
  parse e line = runner_parse e.runner e.extractors line

  -- `_test`, and `return_test`, which is the same over new Diagnostics, with the state of the bus in which
  -- they are called; the parse alone changes it. `expected` is not used.
  unfoldable pub test_with : RExtractor S → String → S → Report Unit
  unfolding parse
  test_with e line s = analyze e.extractors (end_of (parse e line s).0)

  unfoldable pub return_test : RExtractor S → String → S → Outcome (List DiagnosticInfo)
  unfolding test_with
  return_test e line s = answer_of (test_with e line s [])

  -- `test`, which prints what `_test` returns.
  unfoldable pub test : RExtractor S → String → S → Outcome Unit
  unfolding test_with
  test e line s = (test_with e line s []).0

  return_test_by :
      (e : RExtractor S) (line : String) (s : S) (end : ParseEnd)
      → end_of (parse e line s).0 ≡ end
      → return_test e line s ≡ answer_of (analyze e.extractors end [])
  unfolding return_test test_with
  return_test_by e line s end p = ap (λ end. answer_of (analyze e.extractors end [])) p

  -- An analysis of what `parse` returns, or of a TypeError that it raises, raises TypeError.
  pub return_test-fails :
      (e : RExtractor S) (line : String) (s : S)
      → (end_of (parse e line s).0 ≡ returned extraction)
        ⊎ (end_of (parse e line s).0 ≡ other_raised type_error)
      → return_test e line s ≡ raised type_error
  unfolding analyze
  return_test-fails e line s (inl p) =
      let messages = (analyze e.extractors (returned extraction) []).1 in
      return_test_by e line s (returned extraction) p
      ∙ (λ i. answer_of (analyze_extraction e.extractors [] i, messages))
  return_test-fails e line s (inr p) = return_test_by e line s (other_raised type_error) p
