-- ===== src/Dialect/Inspector.antt =====
-- src/taskweave_dialect/regex_inspector.py: the walk over the tree that the parser of regular
-- expressions returns, and what is read off it. A node is one of the Python objects that the walk
-- tells apart; `show` is `str`, and `parse` the parser with the state of its result.
pub mod Branches
use text.Mathlib.Text.{◌==◌ as same_text}
use taskweave.Base.{
  ℕ, ◌-◌, String, Bool, true, false, if◌then◌else◌, not, ◌||◌, Option, none, some, List, [], ◌∷◌,
  ◌++◌, ◌≡◌, refl, arith, ap, ◌∙◌, length, leb,
}
use taskweave.Exceptions.{Exception}

-- A SubPattern holds its `data`, a list. Of other objects only the text matters.
mutual
  pub data Object : Type 0 where
    sub_pattern list tuple : Objects → Object
    plain : String → Object

  pub data Objects : Type 0 where
    end : Objects
    item : Object → Objects → Objects

-- What the walk yields: `(op_str, av, parent_op)`.
pub record Visit : Type 0 where
  pub op : String
  pub av : Object
  pub parent : Option String

-- RegexInspection.
pub record RegexInspection : Type 0 where
  pub has_union : Bool
  pub has_named_groups : Bool
  pub group_count : ℕ

-- A parsed pattern: its tree, and `state.groupdict` and `state.groups`.
pub record Parsed : Type 0 where
  pub tree : Object
  pub groupdict : List String
  pub groups : ℕ

-- `re.error`, or that the internals of the parser cannot be reached.
pub data InspectError : Type 0 where
  bad_pattern unavailable : InspectError

pub data Inspected : Type 0 where
  inspected : RegexInspection → Inspected
  refused : InspectError → Inspected

module _ (show : Object → String) where
  unfoldable mutual
    -- `_walk_inner`
    pub walk_inner : Object → Option String → List Visit
    walk_inner (sub_pattern nodes) parent = walk_nodes nodes parent
    walk_inner (list nodes) parent = walk_nodes nodes parent
    walk_inner (tuple end) parent = []
    walk_inner (tuple (item op end)) parent = []
    walk_inner (tuple (item op (item av rest))) parent =
        record { op = show op; av = av; parent = parent } ∷ walk_argument av (show op)
    walk_inner (plain s) parent = []

    walk_nodes : Objects → Option String → List Visit
    walk_nodes end parent = []
    walk_nodes (item node nodes) parent = walk_inner node parent ++ walk_nodes nodes parent

    -- Below a node: `av`, if it is a SubPattern or a list, or the elements of a tuple that are.
    walk_argument : Object → String → List Visit
    walk_argument (sub_pattern nodes) op = walk_nodes nodes (some op)
    walk_argument (list nodes) op = walk_nodes nodes (some op)
    walk_argument (tuple elements) op = walk_elements elements op
    walk_argument (plain s) op = []

    walk_elements : Objects → String → List Visit
    walk_elements end op = []
    walk_elements (item (sub_pattern nodes) elements) op =
        walk_nodes nodes (some op) ++ walk_elements elements op
    walk_elements (item (list nodes) elements) op =
        walk_nodes nodes (some op) ++ walk_elements elements op
    walk_elements (item (tuple nodes) elements) op = walk_elements elements op
    walk_elements (item (plain s) elements) op = walk_elements elements op

  unfoldable pub walk : Object → List Visit
  unfolding walk_inner
  walk node = walk_inner node none

  -- The loop of `_has_union`, which returns at the first BRANCH.
  abbrev pub any_branch : List Visit → Bool
  any_branch [] = false
  any_branch (v ∷ visits) = if same_text v.op "BRANCH" then true else any_branch visits

  unfoldable pub has_union : Parsed → Bool
  unfolding walk
  has_union parsed = any_branch (walk parsed.tree)

  unfoldable pub has_named_groups : Parsed → Bool
  has_named_groups parsed = not (leb (length parsed.groupdict) 0)

  unfoldable pub group_count : Parsed → ℕ
  group_count parsed = parsed.groups - 1

  -- `inspect`, where the parser's module is there; `parse` gives `none` where it raises.
  inspect_parsed : Option Parsed → Inspected
  unfolding has_union has_named_groups group_count
  inspect_parsed none = refused bad_pattern
  inspect_parsed (some parsed) = inspected (record {
    has_union = has_union parsed;
    has_named_groups = has_named_groups parsed;
    group_count = group_count parsed;
  })

  unfoldable pub inspect : Bool → (String → Option Parsed) → String → Inspected
  unfolding inspect_parsed
  inspect available parse pattern =
      if available then inspect_parsed (parse pattern) else refused unavailable
