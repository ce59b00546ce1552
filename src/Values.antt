-- ===== src/Values.antt =====
-- The boxes around a value of src/taskweave/utils: ref.py, cmd_param.py and the accumulators. Numbers,
-- of which a Ref and the accumulator of floats hold one, are any type with an addition.
use Prim.Native.String.{◌++◌ as append}
use package.text.Mathlib.TextLemmas.{append_assoc, nil-append}
use taskweave.Base.{String, Bool, Option, none, some, List, [], ◌∷◌, ◌++◌, ◌≡◌, refl, sym, ap, ◌∙◌}

-- Ref, and CmdParam, which inherits all of it.
pub record Ref (A : Type 0) : Type 0 where
  pub value : A

-- What a Ref is compared with: another Ref, a value of the type of its own, or anything else.
pub data Compared (A : Type 0) : Type 0 where
  a_ref : Ref A → Compared A
  a_value : A → Compared A
  anything : Compared A

module _ {A : Type 0} where
  abbrev pub set_ref : A → Ref A → Ref A
  set_ref value r = record { value = value }

  abbrev pub get_ref : Ref A → A
  get_ref r = r.value

  -- `__eq__`; `none` is NotImplemented.
  unfoldable pub eq_ref : (A → A → Bool) → Ref A → Compared A → Option Bool
  eq_ref eqb r (a_ref s) = some (eqb r.value s.value)
  eq_ref eqb r (a_value a) = some (eqb r.value a)
  eq_ref eqb r anything = none

  module _ (plus : A → A → A) where
    -- `CmdParam.increment`, on the object itself, and FloatAccumulator's call.
    unfoldable pub increment_param : A → Ref A → Ref A
    increment_param increment r = record { value = plus r.value increment }

    unfoldable pub float_call : A → A → A
    float_call increment value = plus value increment

    -- Incrementing twice is incrementing by the sum, where the addition is associative.
    pub increment_param-twice :
        ((a b c : A) → plus (plus a b) c ≡ plus a (plus b c))
        → (a b : A) (r : Ref A)
        → increment_param b (increment_param a r) ≡ increment_param (plus a b) r
    unfolding increment_param
    increment_param-twice assoc a b r = λ i. record { value = assoc r.value a b i }

-- The calls of StrAccumulator and ReverseStrAccumulator.
unfoldable pub str_call : String → String → String
str_call increment value = append value increment

unfoldable pub reverse_str_call : String → String → String
reverse_str_call prefix value = append prefix value

-- The accumulator after a call for each text.
abbrev pub calls : (String → String → String) → List String → String → String
calls call [] value = value
calls call (s ∷ texts) value = calls call texts (call s value)

calls-append :
    (call : String → String → String) (xs ys : List String) (value : String)
    → calls call (xs ++ ys) value ≡ calls call ys (calls call xs value)
calls-append call [] ys value = refl
calls-append call (x ∷ xs) ys value = calls-append call xs ys (call x value)

abbrev pub reversed : List String → List String
reversed [] = []
reversed (s ∷ texts) = reversed texts ++ s ∷ []

-- What a StrAccumulator holds before is in front of what it collects.
str_calls-append :
    (texts : List String) (before value : String)
    → calls str_call texts (append before value) ≡ append before (calls str_call texts value)
unfolding str_call
str_calls-append [] before value = refl
str_calls-append (s ∷ texts) before value =
    ap (calls str_call texts) (append_assoc before value s)
    ∙ str_calls-append texts before (append value s)

-- A ReverseStrAccumulator holds, in front of its start, what a StrAccumulator collects of the same texts
-- in the other order.
pub reverse_calls-reversed :
    (texts : List String) (value : String)
    → calls reverse_str_call texts value ≡ append (calls str_call (reversed texts) "") value
unfolding str_call reverse_str_call
reverse_calls-reversed [] value = sym (nil-append value)
reverse_calls-reversed (s ∷ texts) value =
    let collected = calls str_call (reversed texts) "" in
    reverse_calls-reversed texts (append s value)
    ∙ sym (append_assoc collected s value)
    ∙ ap (λ t. append t value) (sym (calls-append str_call (reversed texts) (s ∷ []) ""))
