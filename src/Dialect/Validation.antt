-- ===== src/Dialect/Validation.antt =====
-- Which targets a field accepts, and what that is worth when it parses.
use text.Mathlib.Text.{◌==◌ as same_text}
use taskweave.Base.{
  leb, is_some, ◌∙◌, if◌then◌else◌, ℕ, ℤ, pos, negsuc, is_above, ◌<◌, String, Bool, true, false,
  Option, none, some, ◌≡◌, ◌≢◌, refl, ◌↔◌, arith, sym, subst,
}
use taskweave.Exceptions.{Exception, value_error, index_error}
use taskweave.Dialect.{
  JsonSchemaType, Checked, ok, dialect_error, python_error, and_then, Rule, compiled, Regex, Field,
  validate, validate_malformed, validate_missing_group, validate_out_of_bound, validate_named_group,
  validate_union, make_field, match_group, cast, parse_field,
}

module _ {Number : Type 0} (re : Regex Number) where
  -- The rules that a target with a group is accepted for: it compiles, the group is not above the
  -- rule's (which has some; a negative group is accepted), no group has a name, and the inspection finds no union.
  pub record IsAccepted (target : String) (group : ℤ) (rule : Rule) : Type 0 where
    pub compiles : re.compile target ≡ compiled rule
    pub some_group : 0 < rule.groups
    pub in_bounds : is_above group rule.groups ≡ false
    pub unnamed : rule.has_names ≡ false
    pub no_union : re.has_union rule ≡ ok false

  validate-IsAccepted :
      (target : String) (group : ℤ) (rule : Rule)
      → IsAccepted target group rule
      → validate re target group ≡ ok rule
  unfolding validate validate_malformed validate_missing_group validate_out_of_bound
      validate_named_group validate_union
  validate-IsAccepted target group rule p =
      ground (arith, p.compiles, p.some_group, p.in_bounds, p.unnamed, p.no_union)

  validate_ok :
      (target : String) (group : ℤ) (rule : Rule)
      → validate re target group ≡ ok rule
      → IsAccepted target group rule
  unfolding validate validate_malformed validate_missing_group validate_out_of_bound
      validate_named_group validate_union
  validate_ok target group rule e = record {
    compiles = ground arith;
    some_group = ground arith;
    in_bounds = ground arith;
    unnamed = ground arith;
    no_union = ground arith;
  }

  -- The validation gives a rule just for the targets and groups that are accepted, and then the rule
  -- that the target compiles to.
  pub validate_ok_iff :
      (target : String) (group : ℤ) (rule : Rule)
      → (validate re target group ≡ ok rule) ↔ IsAccepted target group rule
  validate_ok_iff target group rule =
      (validate_ok target group rule, validate-IsAccepted target group rule)

  -- The field of a rule.
  abbrev field_of : String → JsonSchemaType → ℤ → Rule → Field
  field_of name type group rule = record { name = name; type = type; group = group; rule = rule }

  -- What `make_field` gives for a target that is not empty.
  abbrev made_of : String → JsonSchemaType → String → ℤ → Checked Field
  made_of name type target group =
      and_then (validate re (re.escape_spaces target) group)
        λ rule. ok (field_of name type group rule)

  -- A field comes from the rule that its target was accepted for.
  record ComesFrom (name : String) (type : JsonSchemaType) (target : String) (group : ℤ) (f : Field)
      : Type 0 where
    filled : same_text target "" ≡ false
    accepted : IsAccepted (re.escape_spaces target) group f.rule
    built : f ≡ field_of name type group f.rule

  make_field-ComesFrom :
      (name : String) (type : JsonSchemaType) (target : String) (group : ℤ) (f : Field)
      → make_field re name type target group ≡ ok f
      → ComesFrom name type target group f
  unfolding make_field
  make_field-ComesFrom name type target group f made = from_target (same_text target "") refl made
    where
      from_rule :
          (c : Checked Rule)
          → validate re (re.escape_spaces target) group ≡ c
          → and_then c (λ rule. ok (field_of name type group rule)) ≡ ok f
          → (validate re (re.escape_spaces target) group ≡ ok f.rule)
            × (f ≡ field_of name type group f.rule)
      from_rule (ok rule) v e = (v ∙ ground (arith, e), ground (arith, e))
      from_rule (dialect_error kind) v e = ground (arith, e)
      from_rule (python_error x) v e = ground (arith, e)

      from_target :
          (empty : Bool)
          → same_text target "" ≡ empty
          → (if empty then python_error value_error else made_of name type target group) ≡ ok f
          → ComesFrom name type target group f
      from_target true t e = ground (arith, e)
      from_target false t e =
          let (v, b) = from_rule (validate re (re.escape_spaces target) group) refl e in
          record {
            filled = t;
            accepted = validate_ok (re.escape_spaces target) group f.rule v;
            built = b;
          }

  cast-safe :
      (type : JsonSchemaType) (v : Option String) (e : Exception) → cast re type v ≢ python_error e
  unfolding cast
  cast-safe type none e q = ground arith
  cast-safe type (some v) e q = ground arith

  in_range :
      (name : String) (type : JsonSchemaType) (group : ℕ) (rule : Rule) (line : String)
      (e : Exception)
      → leb group rule.groups ≡ true
      → parse_field re (field_of name type (pos group) rule) line ≢ python_error e
  unfolding parse_field match_group
  in_range name type group rule line e bound = after (re.search rule line)
    where
      after :
          (m : Option (ℕ → Option String))
          → and_then (match_group re rule (pos group) m) (cast re type) ≢ python_error e
      after none = cast-safe type none e
      after (some m) =
          subst
            (λ b.
              and_then (if b then ok (m group) else python_error index_error) (cast re type)
              ≢ python_error e)
            (sym bound) (cast-safe type (m group) e)

  pub make_field_safe :
      (name : String) (type : JsonSchemaType) (target : String) (group : ℕ) (f : Field)
      → make_field re name type target (pos group) ≡ ok f
      → (line : String) (e : Exception) → parse_field re f line ≢ python_error e
  make_field_safe name type target group f made line e =
      let from = make_field-ComesFrom name type target (pos group) f made in
      let bound = from.accepted.in_bounds in
      subst (λ f. parse_field re f line ≢ python_error e) (sym from.built)
        (in_range name type group f.rule line e (ground (arith, bound)))

  -- A negative group is accepted with every target that is accepted with the group 0; and the field that
  -- is made with it raises IndexError on every line that its target matches.
  pub negative_group_raises :
      (name : String) (type : JsonSchemaType) (target : String) (group : ℕ) (f : Field)
      → make_field re name type target (pos 0) ≡ ok f
      → let g = record f { group = negsuc group } in
        (make_field re name type target (negsuc group) ≡ ok g)
        × ((line : String)
            → is_some (re.search f.rule line) ≡ true
            → parse_field re g line ≡ python_error index_error)
  unfolding make_field parse_field match_group
  negative_group_raises name type target group f made =
      let from = make_field-ComesFrom name type target (pos 0) f made in
      let p = from.accepted in
      let valid = validate-IsAccepted (re.escape_spaces target) (negsuc group) f.rule (record {
        compiles = p.compiles;
        some_group = p.some_group;
        in_bounds = refl;
        unnamed = p.unnamed;
        no_union = p.no_union;
      }) in
      (ground (arith, from.filled, valid, from.built), λ line found. ground (arith, found))
