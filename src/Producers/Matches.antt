-- ===== src/Producers/Matches.antt =====
-- The first match of a classifier, and what the classifiers that can be made find.
use mathlib.Core.List.{append_assoc, append-nil}
use taskweave.Base.{
  ℕ, String, Option, none, some, List, [], ◌∷◌, ◌++◌, Outcome, done, give, ◌>>=◌, ◌≡◌, refl, sym,
  ap, ◌∙◌, arith, Dict, find, store, string_key, >>=-done,
}
use taskweave.Protocol.{OutputType}
use taskweave.Producers.{
  Counters, Rule, Classifier, ParseResult, ClassifiedEvent, PersistStrategy, new_classifier,
  parse_result, classify, dict_from, matched_type, parsed_of, on_line, new_event, output_to_msg,
  specialize_event,
}

-- What the rules answer on a line: the name of each, its OutputType and the content, if it matched.
abbrev Answers : Type 0 → Type 0
Answers C = List (String × (OutputType × Option C))

-- The keys are new to the dictionary, one after the other.
abbrev AllNew : {V : Type 0} → Dict String V → List (String × V) → Type 0
AllNew d [] = Unit
AllNew d ((name, v) ∷ entries) = (find d name ≡ none) × AllNew (store d name v) entries

store-new :
    {V : Type 0} (d : Dict String V) (name : String) (v : V)
    → find d name ≡ none
    → store d name v ≡ d ++ (name, v) ∷ []
store-new [] name v new = refl
store-new ((k, w) ∷ d) name v new = ground (arith, new, store-new d name v)

dict_from-new :
    {V : Type 0} (d : Dict String V) (entries : List (String × V))
    → AllNew d entries
    → dict_from d entries ≡ d ++ entries
dict_from-new d [] new = sym (append-nil d)
dict_from-new d ((name, v) ∷ entries) (new, rest) =
    dict_from-new (store d name v) entries rest
    ∙ ap (λ d'. d' ++ entries) (store-new d name v new)
    ∙ append_assoc d ((name, v) ∷ []) entries

module _ {C : Type 0} where
  abbrev pub Answer : Classifier C → String → Answers C → Type 0
  Answer [] line [] = Unit
  Answer [] line (a ∷ answers) = ⊥
  Answer (r ∷ rules) line [] = ⊥
  Answer ((rule, entry) ∷ rules) line ((name, (t, content)) ∷ answers) =
      (entry ≡ some name)
      × (rule.output_type ≡ t)
      × (rule.parse line ≡ done content)
      × Answer rules line answers

  -- The OutputType of the first rule that matches.
  abbrev first_match : Answers C → OutputType
  first_match [] = OutputType.log_line
  first_match ((name, (t, none)) ∷ answers) = first_match answers
  first_match ((name, (t, some c)) ∷ answers) = t

  abbrev pub results_of : Answers C → List (String × (OutputType × ParseResult C))
  results_of [] = []
  results_of ((name, (t, content)) ∷ answers) =
      (name, (t, parse_result content)) ∷ results_of answers

  abbrev contents : Answers C → Dict String (ParseResult C)
  contents [] = []
  contents ((name, (t, content)) ∷ answers) = (name, parse_result content) ∷ contents answers

  matched_type-first :
      (answers : Answers C) → matched_type (results_of answers) ≡ first_match answers
  matched_type-first [] = refl
  matched_type-first ((name, (t, none)) ∷ answers) = matched_type-first answers
  matched_type-first ((name, (t, some c)) ∷ answers) = refl

  parsed_of-contents : (answers : Answers C) → parsed_of (results_of answers) ≡ contents answers
  parsed_of-contents [] = refl
  parsed_of-contents ((name, (t, content)) ∷ answers) =
      ap (λ d. (name, parse_result content) ∷ d) (parsed_of-contents answers)

  classify_done :
      (rules : Classifier C) (line : String) (answers : Answers C) (s : Counters)
      → Answer rules line answers
      → classify rules line s ≡ (done (results_of answers), s)
  unfolding classify
  classify_done [] line [] s e = refl
  classify_done [] line (a ∷ answers) s e = absurd e
  classify_done (r ∷ rules) line [] s e = absurd e
  classify_done ((rule, entry) ∷ rules) line ((name, (t, content)) ∷ answers) s
        (named, typed, parsed, rest) =
      ground (arith, named, typed, parsed, classify_done rules line answers s rest)

  -- The event of a line, for the type that matched.
  abbrev becomes :
      (ℕ → ℕ)
      → PersistStrategy
      → String
      → String
      → Counters
      → OutputType
      → Dict String (ParseResult C)
      → Outcome (ClassifiedEvent C) × Counters
  becomes clock strategy source line s t parsed =
      (new_event clock (output_to_msg t) source line >>= λ event.
      give (record { event = specialize_event strategy event t; parsed = parsed }))
        s

  -- A line that all rules of a classifier answer, under names that differ.
  on_line_first :
      (clock : ℕ → ℕ) (rules : Classifier C) (strategy : PersistStrategy) (source line : String)
      (answers : Answers C) (s : Counters)
      → Answer rules line answers
      → AllNew [] (results_of answers)
      → on_line clock rules strategy source line s
        ≡ (new_event clock (output_to_msg (first_match answers)) source line >>= λ event.
              give (record {
                event = specialize_event strategy event (first_match answers);
                parsed = contents answers;
              }))
            s
  unfolding on_line
  on_line_first clock rules strategy source line answers s answer new =
      let results = results_of answers in
      let event_of = becomes clock strategy source line s in
      >>=-done (classify rules line) _ (classify_done rules line answers s answer)
      ∙ ap (λ d. event_of (matched_type d) (parsed_of d)) (dict_from-new [] results new)
      ∙ ap (λ t. event_of t (parsed_of results)) (matched_type-first answers)
      ∙ ap (event_of (first_match answers)) (parsed_of-contents answers)

-- The constructor returns for no rules only.
new_classifier_done :
    {C : Type 0} (rules : List (Rule C)) (classifier : Classifier C)
    → new_classifier rules ≡ done classifier
    → classifier ≡ []
unfolding new_classifier
new_classifier_done [] classifier e = ground (arith, e)
new_classifier_done (rule ∷ rules) classifier e = ground (arith, e)

-- Whatever rules a classifier is asked for, one that its constructor returns finds nothing in any line:
-- each line becomes a plain log line, which is routed as one and carries no parsed content.
on_line-new_classifier :
    {C : Type 0} (clock : ℕ → ℕ) (rules : List (Rule C)) (classifier : Classifier C)
    (strategy : PersistStrategy) (source line : String) (s : Counters)
    → new_classifier rules ≡ done classifier
    → on_line clock classifier strategy source line s
      ≡ (new_event clock (output_to_msg OutputType.log_line) source line >>= λ event.
            give
              (record { event = specialize_event strategy event OutputType.log_line; parsed = [] }))
          s
on_line-new_classifier clock rules classifier strategy source line s e =
    ap (λ c. on_line clock c strategy source line s) (new_classifier_done rules classifier e)
    ∙ on_line_first clock [] strategy source line [] s tt tt
