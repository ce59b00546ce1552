-- ===== src/Registry/Parsed.antt =====
-- What is parsed of a payload.
use text.Mathlib.Text.{◌==◌ as same_text}
use taskweave.Base.{
  String, false, Option, none, some, [], ◌∷◌, Outcome, done, raised, ◌≡◌, refl, sym, ap, ◌∙◌, arith,
}
use taskweave.Registry.{
  or_default, Value, null, function, boolean, number, literal, other, member, list, dict, fields,
  Values, Entries, Members, lookup, get, and_then, parse_pools, parse_pipelines, ParsedPlan,
  parse_plan,
}

-- No member has this text for its name or its value.
abbrev pub NoneCalled : {M : Type 0} → Members M → String → Type 0
NoneCalled [] v = Unit
NoneCalled ((m, (name, value)) ∷ members) v =
    (same_text value v ≡ false) × (same_text name v ≡ false) × NoneCalled members v

and_then-done :
    {A B : Type 0} (o : Outcome A) (next : A → Outcome B) (b : B)
    → and_then o next ≡ done b
    → (a : A) × (o ≡ done a) × (next a ≡ done b)
and_then-done (done a) next b e = (a, refl, e)
and_then-done (raised x) next b e = ground (arith, e)

get-done :
    (v : Value) (key : String) (default x : Value)
    → get v key default ≡ done x
    → (es : Entries) × (v ≡ dict es) × (x ≡ or_default (lookup es key) default)
get-done (dict es) key default x e = (es, refl, ground (arith, e))
get-done null key default x e = ground (arith, e)
get-done function key default x e = ground (arith, e)
get-done (boolean b) key default x e = ground (arith, e)
get-done (number n) key default x e = ground (arith, e)
get-done (literal s) key default x e = ground (arith, e)
get-done (other s) key default x e = ground (arith, e)
get-done (member s) key default x e = ground (arith, e)
get-done (list vs) key default x e = ground (arith, e)
get-done (fields fs) key default x e = ground (arith, e)

-- A dictionary is no default for a list.
or_default-dict :
    (found : Option Value) (vs : Values) (ps : Entries)
    → dict ps ≡ or_default found (list vs)
    → found ≡ some (dict ps)
or_default-dict none vs ps e = ground (arith, e)
or_default-dict (some v) vs ps e = ap some (sym e)

-- A payload that can be parsed is a dictionary which has under `pools` not a list, as the field is
-- documented, but again a dictionary; and the plan that it gives has no pipelines, whatever it lists.
pub parse_plan_done :
    (payload : Value) (plan : ParsedPlan)
    → parse_plan payload ≡ done plan
    → (plan.pipelines ≡ [])
      × ((es : Entries) × (ps : Entries) × (payload ≡ dict es)
          × (lookup es "pools" ≡ some (dict ps)))
unfolding parse_plan parse_pools parse_pipelines
parse_plan_done payload plan e =
    let (listed, e1, rest1) = and_then-done (get payload "pools" (list Values.end)) _ plan e in
    let (pools, e2, rest2) = and_then-done (parse_pools listed) _ plan rest1 in
    let (given, e3, rest3) =
      and_then-done (get payload "pipelines" (list Values.end)) _ plan rest2 in
    let (policy, e4, rest4) = and_then-done (get payload "cancel_policy" null) _ plan rest3 in
    let (observed, e5, rest5) =
      and_then-done (get payload "observability_policy" null) _ plan rest4 in
    let (es, is_dict, found) = get-done payload "pools" (list Values.end) listed e1 in
    let (v, e6, rest6) = and_then-done (get listed "pools" (list Values.end)) _ pools e2 in
    let (ps, inner, _) = get-done listed "pools" (list Values.end) v e6 in
    (
      ground (arith, rest5),
      (es, ps, is_dict, or_default-dict (lookup es "pools") Values.end ps (sym inner ∙ found)),
    )
