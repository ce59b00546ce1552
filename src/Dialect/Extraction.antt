-- ===== src/Dialect/Extraction.antt =====
-- What a line gives through all fields of an extractor.
use mathlib.Core.List.{append-nil, append_assoc}
use taskweave.Base.{
  Bool, true, false, if◌then◌else◌, String, Option, none, some, List, [], ◌∷◌, ◌++◌, ◌≡◌, refl, ◌≢◌,
  sym, ap, ◌∙◌, Outcome, done, raised, Stmt, resume, give, ◌>>=◌,
}
use taskweave.Exceptions.{Exception}
use taskweave.Dialect.{
  DialectErrorKind, no_match, Checked, ok, dialect_error, python_error, Regex, Value, Field,
  ExtractionResult, parse_field, put, failed, add_field, parse_fields, parse_line,
}

-- In the states that `Open` holds of, each report ends in one way and leads to such a state.
abbrev pub Reports :
    {S : Type 0} → (DialectErrorKind → Stmt S Unit) → (S → Type 0) → Outcome Unit → Type 0
Reports {S} log Open answer =
    (kind : DialectErrorKind) (s : S) → Open s → ((log kind s).0 ≡ answer) × Open (log kind s).1

module _ {Number : Type 0} (re : Regex Number) where
  -- The failure that a field has on a line, if it has one.
  abbrev failure_of :
      Field → Checked (Option (Value Number)) → List (String × String × DialectErrorKind)
  failure_of f (ok none) = (f.name, f.rule.pattern, no_match) ∷ []
  failure_of f (ok (some v)) = []
  failure_of f (dialect_error kind) = (f.name, f.rule.pattern, kind) ∷ []
  failure_of f (python_error e) = []

  -- The failures of all fields, in their order.
  abbrev pub failures_of : List Field → String → List (String × String × DialectErrorKind)
  failures_of [] line = []
  failures_of (f ∷ fields) line = failure_of f (parse_field re f line) ++ failures_of fields line

  abbrev result_of :
      List (String × Value Number)
      → Field
      → Checked (Option (Value Number))
      → List (String × Value Number)
  result_of d f (ok none) = d
  result_of d f (ok (some v)) = put re d f.name v
  result_of d f (dialect_error kind) = d
  result_of d f (python_error e) = d

  -- The values of the fields that match, each under its name, a later field replacing an earlier one.
  abbrev pub results_of :
      List (String × Value Number) → List Field → String → List (String × Value Number)
  results_of d [] line = d
  results_of d (f ∷ fields) line = results_of (result_of d f (parse_field re f line)) fields line

  -- The fields that raise nothing but DialectErrors on a line.
  abbrev pub AllSafe : List Field → String → Type 0
  AllSafe [] line = Unit
  AllSafe (f ∷ fields) line =
      ((e : Exception) → parse_field re f line ≢ python_error e) × AllSafe fields line

  -- The text of some field cannot be cast.
  abbrev pub is_dialect_error : {A : Type 0} → Checked A → Bool
  is_dialect_error (ok a) = false
  is_dialect_error (dialect_error kind) = true
  is_dialect_error (python_error e) = false

  abbrev pub casts_fail : List Field → String → Bool
  casts_fail [] line = false
  casts_fail (f ∷ fields) line =
      let rest = casts_fail fields line in
      if is_dialect_error (parse_field re f line) then true else rest

  abbrev pub both :
      List (String × Value Number)
      → List (String × String × DialectErrorKind)
      → ExtractionResult Number
  both results failures = record { results = results; failures = failures }

  -- How a parse with this result ends when each report ends in this way.
  abbrev pub ends :
      Outcome Unit → Bool → ExtractionResult Number → Outcome (ExtractionResult Number)
  ends (done u) some_cast r = done r
  ends (raised e) some_cast r = if some_cast then raised e else done r

  ends-false : (a : Outcome Unit) (r : ExtractionResult Number) → ends a false r ≡ done r
  ends-false (done u) r = refl
  ends-false (raised e) r = refl

  module _ {S : Type 0} (log : DialectErrorKind → Stmt S Unit) (Open : S → Type 0)
      (answer : Outcome Unit) (reports : Reports log Open answer) where
    -- One field, when the rest of the fields is known to be parsed as described.
    module _ (f : Field) (fields : List Field) (line : String) (r : ExtractionResult Number)
        (rest_eq : (r' : ExtractionResult Number) (s : S)
          → Open s
          → (parse_fields re log fields line r' s).0
            ≡ ends answer (casts_fail fields line) (
                both
                  (results_of r'.results fields line)
                  (r'.failures ++ failures_of fields line))) where
      kept :
          (kind : DialectErrorKind) (s : S)
          → Open s
          → (parse_fields re log fields line (failed re f kind r) s).0
            ≡ ends answer (casts_fail fields line) (
                both
                  (results_of r.results fields line)
                  (r.failures ++ ((f.name, f.rule.pattern, kind) ∷ failures_of fields line)))
      kept kind s o =
          rest_eq (failed re f kind r) s o
          ∙ ap
              (λ fs.
                ends answer (casts_fail fields line) (both (results_of r.results fields line) fs))
              (append_assoc r.failures _ _)

      abbrev after : DialectErrorKind → Outcome Unit → S → Outcome (ExtractionResult Number)
      after kind o s =
          let (r', s') = resume o s (λ _. give (failed re f kind r)) in
          (resume r' s' (parse_fields re log fields line)).0

      reported :
          (kind : DialectErrorKind) (s : S) (o : Outcome Unit)
          → o ≡ answer
          → Open s
          → after kind o s
            ≡ ends answer true (
                both
                  (results_of r.results fields line)
                  (r.failures ++ ((f.name, f.rule.pattern, kind) ∷ failures_of fields line)))
      reported kind s o e held = by answer refl
        where
          result : ExtractionResult Number
          result =
              both (results_of r.results fields line)
                (r.failures ++ ((f.name, f.rule.pattern, kind) ∷ failures_of fields line))

          by : (a : Outcome Unit) → answer ≡ a → after kind o s ≡ ends answer true result
          by (done u) q =
              ap (λ o. after kind o s) (e ∙ q)
              ∙ kept kind s held
              ∙ ap (λ a. ends a (casts_fail fields line) result) q
              ∙ sym (ap (λ a. ends a true result) q)
          by (raised x) q = ap (λ o. after kind o s) (e ∙ q) ∙ sym (ap (λ a. ends a true result) q)

      one_field :
          (c : Checked (Option (Value Number))) (s : S)
          → ((e : Exception) → c ≢ python_error e)
          → Open s
          → ((add_field re log f c r >>= parse_fields re log fields line) s).0
            ≡ ends answer (if is_dialect_error c then true else casts_fail fields line) (
                both
                  (results_of (result_of r.results f c) fields line)
                  (r.failures ++ (failure_of f c ++ failures_of fields line)))
      unfolding add_field
      one_field (ok none) s h o = kept no_match s o
      one_field (ok (some v)) s h o = rest_eq (record r { results = put re r.results f.name v }) s o
      one_field (dialect_error kind) s h o =
          let (answered, held) = reports kind s o in
          reported kind (log kind s).1 (log kind s).0 answered held
      one_field (python_error e) s h o = absurd (h e refl)

    parse_fields-eq :
        (fields : List Field) (line : String) (r : ExtractionResult Number) (s : S)
        → AllSafe fields line
        → Open s
        → (parse_fields re log fields line r s).0
          ≡ ends answer
              (casts_fail fields line)
              (both (results_of r.results fields line) (r.failures ++ failures_of fields line))
    unfolding parse_fields
    parse_fields-eq [] line r s safe o =
        ap (λ fs. done (both r.results fs)) (sym (append-nil r.failures))
        ∙ sym (ends-false answer (both r.results (r.failures ++ [])))
    parse_fields-eq (f ∷ fields) line r s (safe, rest) o =
        one_field f fields line r (λ r' s' o'. parse_fields-eq fields line r' s' rest o')
          (parse_field re f line) s safe o

    -- Where no field raises anything but a DialectError (which holds of every field that `make_field`
    -- makes with a group that is not negative) and all reports end in one way: if they return, the
    -- parse of a line returns with the values of the fields that match, by name, and with one failure
    -- for each other field, in the order of the fields; if they raise, so does the parse when the text
    -- of a field cannot be cast, and else it returns the same.
    pub parse_line-eq :
        (fields : List Field) (line : String) (s : S)
        → AllSafe fields line
        → Open s
        → (parse_line re log fields line s).0
          ≡ ends answer
              (casts_fail fields line)
              (both (results_of [] fields line) (failures_of fields line))
    unfolding parse_line
    parse_line-eq fields line s safe o =
        parse_fields-eq fields line (record { results = []; failures = [] }) s safe o
