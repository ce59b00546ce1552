-- ===== src/Dialect/Diagnostics.antt =====
-- src/taskweave_dialect/diagnostics.py and static_diagnostics.py: what a test of an extractor on a line
-- reports. A message is kept as what its text names.
pub mod Reports
use text.Mathlib.Text.{find?}
use taskweave.Base.{
  ℕ, zero, suc, ltb, leb, String, Bool, true, false, if◌then◌else◌, ◌||◌, not, Option, none, some,
  is_some, List, [], ◌∷◌, ◌++◌, length, Outcome, done, raised, Stmt, skip, fail, update, ◌>>=◌,
  ◌>>◌, Dict, store, string_key, same, for_each, range_from, contains, ◌==◌, ℤ, pos, same_integer,
}
use taskweave.Exceptions.{Exception, type_error, stop_iteration}
use taskweave.Dialect.{DialectErrorKind, no_match, incompatible_json_type, JsonSchemaType, Field}

pub data DiagnosticInfoKind : Type 0 where
  info warning error : DiagnosticInfoKind

-- The texts, each with what it mentions.
pub data DiagnosticText : Type 0 where
  union_is_bad : DiagnosticText
  groups_not_consumed : List ℕ → String → DiagnosticText
  did_not_match : String → DiagnosticText
  cast_failed : String → JsonSchemaType → DiagnosticText
  multiple_matched : List String → DiagnosticText
  too_few : List (String × String × DialectErrorKind) → DiagnosticText
  multi_group_matched multi_group_not_matched : List String → String → DiagnosticText

pub record DiagnosticInfo : Type 0 where
  pub kind : DiagnosticInfoKind
  pub text : DiagnosticText

-- What `parse_fn` returns: a dictionary, here its keys, or an ExtractionResult, which has neither a
-- length nor keys.
pub data ParseOutput : Type 0 where
  mapping : List String → ParseOutput
  extraction : ParseOutput

-- How it ends: it returns, raises a DialectError with its `failures`, or raises something else.
pub data ParseEnd : Type 0 where
  returned : ParseOutput → ParseEnd
  dialect_raised : Option (List (String × String × DialectErrorKind)) → ParseEnd
  other_raised : Exception → ParseEnd

abbrev pub Report : Type 0 → Type 0
Report A = Stmt (List DiagnosticInfo) A

abbrev pub say : DiagnosticInfoKind → DiagnosticText → Report Unit
say kind text = update λ messages. messages ++ record { kind = kind; text = text } ∷ []

-- `len(results)`
unfoldable pub len_results : ParseOutput → Report ℕ
len_results (mapping keys) messages = (done (length keys), messages)
len_results extraction messages = (raised type_error, messages)

-- `results.keys()`, reached only after a `len`.
abbrev pub keys_of : ParseOutput → List String
keys_of (mapping keys) = keys
keys_of extraction = []

abbrev pub has_bar : Field → Bool
has_bar f = is_some (find? f.rule.pattern "|")

unfoldable pub union_is_bad_practice : List Field → Report Unit
union_is_bad_practice extractors =
    for_each extractors λ f. if has_bar f then say DiagnosticInfoKind.info union_is_bad else skip

-- The groups of each pattern, by pattern, and the groups that some extractor takes.
abbrev pub groups_of : List Field → Dict String (List ℕ) → Dict String (List ℕ)
groups_of [] groups = groups
groups_of (f ∷ extractors) groups =
    groups_of extractors (store groups f.rule.pattern (range_from 1 f.rule.groups))

abbrev pub consumed_groups : List Field → List ℤ
consumed_groups [] = []
consumed_groups (f ∷ extractors) = f.group ∷ consumed_groups extractors

-- `set(groups) - set(consumed)`
abbrev pub difference : List ℕ → List ℤ → List ℕ
difference [] consumed = []
difference (g ∷ groups) consumed =
    let rest = difference groups consumed in
    if contains same_integer consumed (pos g) then rest else g ∷ rest

abbrev pub warn_unless_empty : List ℕ → String → Report Unit
warn_unless_empty [] pattern = skip
warn_unless_empty (g ∷ diff) pattern =
    say DiagnosticInfoKind.warning (groups_not_consumed (g ∷ diff) pattern)

unfoldable pub group_is_not_consumed : List Field → Report Unit
group_is_not_consumed extractors =
    for_each (groups_of extractors []) λ (pattern, groups).
      warn_unless_empty (difference groups (consumed_groups extractors)) pattern

-- `next(ext.schema.type for ext in extractors if ext.schema.name == name)`
abbrev pub type_of : List Field → String → Option JsonSchemaType
type_of [] name = none
type_of (f ∷ extractors) name = if same f.name name then some f.type else type_of extractors name

cast_report : String → Option JsonSchemaType → Report Unit
cast_report name none = fail stop_iteration
cast_report name (some type) = say DiagnosticInfoKind.error (cast_failed name type)

failure_report : List Field → String × String × DialectErrorKind → Report Unit
unfolding cast_report
failure_report extractors (name, _, DialectErrorKind.no_match) =
    say DiagnosticInfoKind.info (did_not_match name)
failure_report extractors (name, _, DialectErrorKind.incompatible_json_type) =
    cast_report name (type_of extractors name)
failure_report extractors _ = skip

abbrev pub multi_group : Field → Bool
multi_group f = ltb 1 f.rule.groups

abbrev pub any_multi_group : List Field → Bool
any_multi_group [] = false
any_multi_group (f ∷ extractors) = multi_group f || any_multi_group extractors

-- The parameter is `error.failures`, `none` also where there is no error.
unfoldable pub did_not_match_or_failed :
    List Field → Option (List (String × String × DialectErrorKind)) → Report Unit
unfolding failure_report
did_not_match_or_failed extractors none = skip
did_not_match_or_failed extractors (some failures) =
    if any_multi_group extractors then skip else for_each failures (failure_report extractors)

abbrev pub names_in : List Field → List String → List String
names_in [] keys = []
names_in (f ∷ extractors) keys =
    let rest = names_in extractors keys in if contains same keys f.name then f.name ∷ rest else rest

unfoldable pub multiple_extractors_matched : List Field → ParseOutput → Report Unit
unfolding len_results
multiple_extractors_matched extractors results = do
  n ← len_results results
  if ltb n 2 || ltb (length extractors) 2
      then skip
      else say DiagnosticInfoKind.info (multiple_matched (names_in extractors (keys_of results)))

unfoldable pub too_few_matches :
    List Field → Option (List (String × String × DialectErrorKind)) → Report Unit
too_few_matches extractors none = skip
too_few_matches extractors (some failures) =
    if ltb 1 (length extractors) then say DiagnosticInfoKind.warning (too_few failures) else skip

abbrev pub when_matched : ParseOutput → Field → ℕ → Report Unit
when_matched results f n =
    if ltb 0 n
    then say DiagnosticInfoKind.info (multi_group_matched (keys_of results) f.name)
    else skip

unfoldable pub multi_groups_matched : List Field → ParseOutput → Report Unit
unfolding len_results
multi_groups_matched extractors results =
    for_each extractors
      λ f. if multi_group f then len_results results >>= when_matched results f else skip

abbrev pub when_not_matched : ParseOutput → Field → ℕ → Report Unit
when_not_matched results f n =
    if n == 0
    then say DiagnosticInfoKind.error (multi_group_not_matched (keys_of results) f.name)
    else skip

unfoldable pub multi_groups_not_matched : List Field → ParseOutput → Report Unit
unfolding len_results
multi_groups_not_matched extractors results =
    for_each extractors
      λ f. if multi_group f then len_results results >>= when_not_matched results f else skip

-- The checks of `Diagnostics.analyze`, in their order.
unfoldable pub checks :
    List Field → ParseOutput → Option (List (String × String × DialectErrorKind)) → Report Unit
unfolding union_is_bad_practice group_is_not_consumed did_not_match_or_failed
    multiple_extractors_matched too_few_matches multi_groups_matched multi_groups_not_matched
checks extractors results failures = do
  union_is_bad_practice extractors
  group_is_not_consumed extractors
  did_not_match_or_failed extractors failures
  multiple_extractors_matched extractors results
  too_few_matches extractors failures
  multi_groups_matched extractors results
  multi_groups_not_matched extractors results

-- `Diagnostics.analyze`
unfoldable pub analyze : List Field → ParseEnd → Report Unit
unfolding checks
analyze extractors (returned results) = checks extractors results none
analyze extractors (dialect_raised failures) = checks extractors (mapping []) failures
analyze extractors (other_raised e) = fail e

-- `StaticDiagnostics.analyze`, which takes a `parse_fn` that it does not use.
unfoldable pub static_analyze : List Field → Report Unit
unfolding group_is_not_consumed
static_analyze extractors = group_is_not_consumed extractors
