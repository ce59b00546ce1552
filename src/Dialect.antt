-- ===== src/Dialect.antt =====
-- src/taskweave_dialect: a field of a line dialect is compiled and validated once (validate_rule.py,
-- field_parser.py, field.py), then parses and casts lines (dialect_cast.py), and a runner applies all
-- fields of an extractor to a line (RExtractorRunner of line_extractor.py).
-- The regular expression engine and the casts of Python are parameters. A target is a text and a
-- group an integer.
pub mod Validation
pub mod Extraction
pub mod Inspector
pub mod Diagnostics
pub mod Extractor
mod Examples
use text.Mathlib.Text.{◌==◌ as same_text, find?}
use taskweave.Base.{
  ℕ, ℤ, pos, negsuc, is_above, suc, ◌+◌, ◌==◌, ltb, leb, String, Bool, true, false, if◌then◌else◌,
  ◌||◌, Option, none, some, is_some, List, [], ◌∷◌, ◌++◌, length, Stmt, give, fail, ◌>>=◌, ◌>>◌,
}
use taskweave.Exceptions.{Exception, value_error, index_error}

-- DialectErrorKind.
pub data DialectErrorKind : Type 0 where
  unterminated_character_class quantifier_without_target multiple_quantifiers : DialectErrorKind
  invalid_escape unterminated_group invalid_named_group invalid_group_reference : DialectErrorKind
  invalid_look_behind missing_group out_of_bound_group named_group_forbidden : DialectErrorKind
  union_forbidden incompatible_json_type partial_match multiple_matches : DialectErrorKind
  no_match test_failed unknown : DialectErrorKind

pub data JsonSchemaType : Type 0 where
  int float string bool : JsonSchemaType

-- A result, a DialectError of a kind, or another exception.
pub data Checked (A : Type 0) : Type 0 where
  ok : A → Checked A
  dialect_error : DialectErrorKind → Checked A
  python_error : Exception → Checked A

abbrev pub and_then : {A B : Type 0} → Checked A → (A → Checked B) → Checked B
and_then (ok a) rest = rest a
and_then (dialect_error kind) rest = dialect_error kind
and_then (python_error e) rest = python_error e

-- A compiled pattern, as far as it is read.
pub record Rule : Type 0 where
  pub pattern : String
  pub groups : ℕ
  pub has_names : Bool

-- `re.error` with its message, or the rule.
pub data Compiled : Type 0 where
  compiled : Rule → Compiled
  malformed : String → Compiled

-- `search` gives the texts of the groups of a match, `none` for a group that took no part;
-- `has_union` is `inspect(str(rule)).has_union`, which may raise; `normal` is
-- `strip().lower()` of a text, `escape_spaces` the substitution in a target.
pub record Regex (Number : Type 0) : Type 0 where
  pub compile : String → Compiled
  pub search : Rule → String → Option (ℕ → Option String)
  pub has_union : Rule → Checked Bool
  pub escape_spaces : String → String
  pub normal : String → String
  pub to_int : String → Option Number
  pub to_float : String → Option Number

-- MSG_TO_ERROR.
abbrev pub msg_to_error : List (String × DialectErrorKind)
msg_to_error =
    ("unterminated character set", unterminated_character_class)
    ∷ ("nothing to repeat", quantifier_without_target)
    ∷ ("multiple repeat", multiple_quantifiers)
    ∷ ("bad escape", invalid_escape)
    ∷ ("bad character", invalid_named_group)
    ∷ ("unterminated subpattern", unterminated_group)
    ∷ ("invalid group reference", invalid_group_reference)
    ∷ ("look-behind", invalid_look_behind)
    ∷ ("missing group", missing_group)
    ∷ ("out of bound group", out_of_bound_group)
    ∷ ("incompatible json type", incompatible_json_type)
    ∷ ("partial match", partial_match)
    ∷ ("multiples matches", multiple_matches)
    ∷ ("no match", no_match)
    ∷ ("extractor test failed", test_failed)
    ∷ []

-- The loop of `get_error`: the first entry that the message contains.
abbrev pub first_kind : List (String × DialectErrorKind) → String → DialectErrorKind
first_kind [] msg = unknown
first_kind ((error, kind) ∷ rest) msg =
    if is_some (find? msg error) then kind else first_kind rest msg

unfoldable pub get_error : String → DialectErrorKind
get_error msg = first_kind msg_to_error msg

abbrev map_option : {A B : Type 0} → (A → B) → Option A → Option B
map_option f none = none
map_option f (some a) = some (f a)

-- What a cast makes of a text.
pub data Value (Number : Type 0) : Type 0 where
  number : Number → Value Number
  words : String → Value Number
  flag : Bool → Value Number

abbrev pub is_one_of : List String → String → Bool
is_one_of [] v = false
is_one_of (s ∷ ss) v = same_text s v || is_one_of ss v

-- A `Field` after its construction. `name` and `type` are its schema's.
pub record Field : Type 0 where
  pub name : String
  pub type : JsonSchemaType
  pub group : ℤ
  pub rule : Rule

-- ExtractionResult: the results by name, and the failures with the pattern of their field.
pub record ExtractionResult (Number : Type 0) : Type 0 where
  pub results : List (String × Value Number)
  pub failures : List (String × String × DialectErrorKind)

module _ {Number : Type 0} (re : Regex Number) where
  unfoldable validate_malformed : Compiled → Checked Rule
  unfolding get_error
  validate_malformed (compiled rule) = ok rule
  validate_malformed (malformed msg) = dialect_error (get_error msg)

  unfoldable validate_missing_group : Rule → Checked Unit
  validate_missing_group rule = if rule.groups == 0 then dialect_error missing_group else ok tt

  unfoldable validate_out_of_bound : Rule → ℤ → Checked Unit
  validate_out_of_bound rule group =
      if is_above group rule.groups then dialect_error out_of_bound_group else ok tt

  unfoldable validate_named_group : Rule → Checked Unit
  validate_named_group rule = if rule.has_names then dialect_error named_group_forbidden else ok tt

  unfoldable validate_union : Rule → Checked Unit
  validate_union rule =
      and_then (re.has_union rule) λ union. if union then dialect_error union_forbidden else ok tt

  -- `ValidateRule.validate`
  unfoldable pub validate : String → ℤ → Checked Rule
  unfolding validate_malformed validate_missing_group validate_out_of_bound validate_named_group
      validate_union
  validate target group = and_then (validate_malformed (re.compile target)) λ rule.
      and_then (validate_missing_group rule) λ _.
        and_then (validate_out_of_bound rule group)
          λ _. and_then (validate_named_group rule) λ _. and_then (validate_union rule) λ _. ok rule

  -- `Field.__init__` with the default parser.
  unfoldable pub make_field : String → JsonSchemaType → String → ℤ → Checked Field
  make_field name type target group =
      if same_text target ""
      then python_error value_error
      else and_then (validate (re.escape_spaces target) group)
          λ rule. ok (record { name = name; type = type; group = group; rule = rule })

  -- `m.group(group)`, which takes no negative group.
  unfoldable match_group : Rule → ℤ → Option (ℕ → Option String) → Checked (Option String)
  match_group rule group none = ok none
  match_group rule (pos group) (some m) =
      if leb group rule.groups then ok (m group) else python_error index_error
  match_group rule (negsuc group) (some m) = python_error index_error

  unfoldable cast_bool : String → Option Bool
  cast_bool v =
      let w = re.normal v in
      if is_one_of ("1" ∷ "true" ∷ "t" ∷ "yes" ∷ "y" ∷ "on" ∷ []) w
      then some true
      else if is_one_of ("0" ∷ "false" ∷ "f" ∷ "no" ∷ "n" ∷ "off" ∷ []) w
      then some false
      else none

  -- DIALECT_CAST, `none` where the caster raises.
  unfoldable caster : JsonSchemaType → String → Option (Value Number)
  unfolding cast_bool
  caster int v = map_option number (re.to_int v)
  caster float v = map_option number (re.to_float v)
  caster string v = some (words v)
  caster bool v = map_option flag (cast_bool v)

  abbrev or_incompatible : Option (Value Number) → Checked (Option (Value Number))
  or_incompatible none = dialect_error incompatible_json_type
  or_incompatible (some v) = ok (some v)

  -- `Field.cast`
  unfoldable cast : JsonSchemaType → Option String → Checked (Option (Value Number))
  unfolding caster
  cast type none = ok none
  cast type (some v) = or_incompatible (caster type v)

  -- `Field.parse`
  unfoldable pub parse_field : Field → String → Checked (Option (Value Number))
  unfolding match_group cast
  parse_field f line = and_then (match_group f.rule f.group (re.search f.rule line)) (cast f.type)

  -- `result.results[name] = value`
  abbrev pub put :
      List (String × Value Number) → String → Value Number → List (String × Value Number)
  put [] key v = (key, v) ∷ []
  put ((k, u) ∷ d) key v =
      let rest = put d key v in if same_text k key then (k, v) ∷ d else (k, u) ∷ rest

  abbrev pub failed : Field → DialectErrorKind → ExtractionResult Number → ExtractionResult Number
  failed f kind r = record r { failures = r.failures ++ (f.name, f.rule.pattern, kind) ∷ [] }

  -- `log kind` is what reporting a DialectError of this kind on the bus does to a state, the bus and what
  -- hangs on it. It may raise.
  module _ {S : Type 0} (log : DialectErrorKind → Stmt S Unit) where
    -- One turn of the loop of `RExtractorRunner.parse`.
    unfoldable add_field :
        Field
        → Checked (Option (Value Number))
        → ExtractionResult Number
        → Stmt S (ExtractionResult Number)
    add_field f (ok none) r = give (failed f no_match r)
    add_field f (ok (some v)) r = give (record r { results = put r.results f.name v })
    add_field f (dialect_error kind) r = do log kind; give (failed f kind r)
    add_field f (python_error e) r = fail e

    unfoldable parse_fields :
        List Field → String → ExtractionResult Number → Stmt S (ExtractionResult Number)
    unfolding add_field parse_field
    parse_fields [] line r = give r
    parse_fields (f ∷ fields) line r =
        add_field f (parse_field f line) r >>= parse_fields fields line

    -- `RExtractorRunner.parse`
    unfoldable pub parse_line : List Field → String → Stmt S (ExtractionResult Number)
    unfolding parse_fields
    parse_line fields line = parse_fields fields line (record { results = []; failures = [] })
