-- ===== src/Dialect/Examples.antt =====
-- Concrete inputs of the theorems on the dialect.
use text.Mathlib.Text.{◌==◌ as same_text}
use taskweave.Base.{
  ℕ, pos, negsuc, String, false, if◌then◌else◌, none, some, [], ◌∷◌, ◌≡◌, ◌↔◌, refl,
}
use taskweave.Exceptions.{index_error}
use taskweave.Dialect.{
  ok, python_error, Rule, compiled, malformed, Regex, Field, JsonSchemaType, validate, make_field,
  parse_field,
}
use taskweave.Dialect.Validation.{make_field_safe, negative_group_raises}
use taskweave.Dialect.Extraction.{AllSafe}
use taskweave.Base.{true, is_some}
use taskweave.Dialect.Inspector.{Object, sub_pattern, tuple, plain, end, item, Parsed, has_union}
use taskweave.Dialect.Inspector.Branches.{HasBranch, has_union_iff}

abbrev rule : Rule
rule = record { pattern = "took (.*)"; groups = 1; has_names = false }

-- An engine that knows one pattern, which matches all lines but "idle".
abbrev engine : Regex ℕ
engine = record {
  compile = λ target.
      if same_text target "took (.*)" then compiled rule else malformed "nothing to repeat";
  search = λ r line. if same_text line "idle" then none else some (λ g. some line);
  has_union = λ r. ok false;
  escape_spaces = λ target. target;
  normal = λ v. v;
  to_int = λ v. if same_text v "7" then some 7 else none;
  to_float = λ v. none;
}

abbrev duration : Field
duration = record { name = "duration"; type = JsonSchemaType.int; group = pos 1; rule = rule }

abbrev answer : Field
answer = record { name = "answer"; type = JsonSchemaType.bool; group = pos 1; rule = rule }

duration_made : make_field engine "duration" JsonSchemaType.int "took (.*)" (pos 1) ≡ ok duration
unfolding make_field validate
duration_made = refl

answer_made : make_field engine "answer" JsonSchemaType.bool "took (.*)" (pos 1) ≡ ok answer
unfolding make_field validate
answer_made = refl

duration_first :
    make_field engine "duration" JsonSchemaType.int "took (.*)" (pos 0)
    ≡ ok (record duration { group = pos 0 })
unfolding make_field validate
duration_first = refl

negative_group_raises_example :
    let last = record duration { group = negsuc 0 } in
    (make_field engine "duration" JsonSchemaType.int "took (.*)" (negsuc 0) ≡ ok last)
    × ((line : String)
        → is_some (engine.search rule line) ≡ true
        → parse_field engine last line ≡ python_error index_error)
negative_group_raises_example =
    negative_group_raises engine "duration" JsonSchemaType.int "took (.*)" 0
      (record duration { group = pos 0 }) duration_first

both_safe : (line : String) → AllSafe engine (duration ∷ answer ∷ []) line
both_safe line = (
  make_field_safe engine "duration" JsonSchemaType.int "took (.*)" 1 duration duration_made line,
  (make_field_safe engine "answer" JsonSchemaType.bool "took (.*)" 1 answer answer_made line, tt),
)

abbrev show : Object → String
show (plain s) = s
show _ = ""

-- `(?:a|b+)` as a group with a union inside.
abbrev group : Parsed
group = record {
  tree = sub_pattern (
      item
        (tuple (
          item (plain "SUBPATTERN") (
            item
              (tuple (
                item (plain "1") (
                  item
                    (sub_pattern (item (tuple (item (plain "BRANCH") (item (plain "") end))) end))
                    end)))
              end)))
        end);
  groupdict = [];
  groups = 2;
}

has_union_iff_example : (has_union show group ≡ true) ↔ HasBranch show (group.tree)
has_union_iff_example = has_union_iff show group
