-- ===== src/Dialect/Diagnostics/Reports.antt =====
-- The reports of an analysis, as a list read off the fields.
use mathlib.Core.List.{append_assoc, append-nil}
use taskweave.Base.{
  ℕ, ℤ, ltb, ◌==◌, ◌||◌, String, Bool, true, false, if◌then◌else◌, List, [], ◌∷◌, ◌++◌, length,
  Outcome, done, raised, skip, for_each, ◌>>◌, >>-done, ◌≡◌, refl, sym, ap, ◌∙◌,
}
use taskweave.Exceptions.{type_error}
use taskweave.Dialect.{Field}
use taskweave.Dialect.Diagnostics.{
  DiagnosticInfo, info, warning, error, union_is_bad, groups_not_consumed, multiple_matched,
  multi_group_matched, multi_group_not_matched, mapping, extraction, returned, Report, say,
  len_results, has_bar, groups_of, consumed_groups, difference, warn_unless_empty, multi_group,
  names_in, union_is_bad_practice, group_is_not_consumed, did_not_match_or_failed,
  multiple_extractors_matched, too_few_matches, multi_groups_matched, multi_groups_not_matched,
  when_matched, when_not_matched, checks, analyze,
}

-- A check that ends normally and adds these reports.
abbrev pub Says : List DiagnosticInfo → Report Unit → Type 0
Says r m = (messages : List DiagnosticInfo) → m messages ≡ (done tt, messages ++ r)

abbrev pub reports : {A : Type 0} → (A → List DiagnosticInfo) → List A → List DiagnosticInfo
reports r [] = []
reports r (x ∷ xs) = r x ++ reports r xs

skip-Says : Says [] skip
skip-Says messages = ap (λ ms. (done tt, ms)) (sym (append-nil messages))

>>-Says :
    (r r' : List DiagnosticInfo) (m m' : Report Unit)
    → Says r m
    → Says r' m'
    → Says (r ++ r') (m >> m')
>>-Says r r' m m' h h' messages =
    >>-done m m' (h messages)
    ∙ h' (messages ++ r)
    ∙ ap (λ ms. (done tt, ms)) (append_assoc messages r r')

for_each-Says :
    {A : Type 0} (r : A → List DiagnosticInfo) (xs : List A) (body : A → Report Unit)
    → ((x : A) → Says (r x) (body x))
    → Says (reports r xs) (for_each xs body)
for_each-Says r [] body h = skip-Says
for_each-Says r (x ∷ xs) body h =
    >>-Says (r x) (reports r xs) (body x) (for_each xs body) (h x) (for_each-Says r xs body h)

abbrev one : DiagnosticInfo → List DiagnosticInfo
one i = i ∷ []

abbrev pub union_report : Field → List DiagnosticInfo
union_report f = if has_bar f then one (record { kind = info; text = union_is_bad }) else []

abbrev pub warning_for : List ℕ → String → List DiagnosticInfo
warning_for [] pattern = []
warning_for (g ∷ diff) pattern =
    one (record { kind = warning; text = groups_not_consumed (g ∷ diff) pattern })

abbrev pub unconsumed_report : List ℤ → String × List ℕ → List DiagnosticInfo
unconsumed_report consumed (pattern, groups) = warning_for (difference groups consumed) pattern

abbrev pub multiple_report : List Field → List String → List DiagnosticInfo
multiple_report fields keys =
    if ltb (length keys) 2 || ltb (length fields) 2
    then []
    else one (record { kind = info; text = multiple_matched (names_in fields keys) })

-- Of a field with several groups exactly one of the two is said.
abbrev pub matched_report : List String → Field → List DiagnosticInfo
matched_report keys f =
    if multi_group f
    then if ltb 0 (length keys)
      then one (record { kind = info; text = multi_group_matched keys f.name })
      else []
    else []

abbrev pub unmatched_report : List String → Field → List DiagnosticInfo
unmatched_report keys f =
    if multi_group f
    then if length keys == 0
      then one (record { kind = error; text = multi_group_not_matched keys f.name })
      else []
    else []

abbrev pub all_reports : List Field → List String → List DiagnosticInfo
all_reports fields keys =
    reports union_report fields
    ++ (reports (unconsumed_report (consumed_groups fields)) (groups_of fields [])
        ++ (multiple_report fields keys
            ++ (reports (matched_report keys) fields ++ reports (unmatched_report keys) fields)))

if-Says :
    (b : Bool) (r r' : List DiagnosticInfo) (m m' : Report Unit)
    → Says r m
    → Says r' m'
    → Says (if b then r else r') (if b then m else m')
if-Says true r r' m m' h h' = h
if-Says false r r' m m' h h' = h'

say-Says : (i : DiagnosticInfo) → Says (one i) (say (i.kind) (i.text))
say-Says i messages = refl

warn_unless_empty-Says :
    (diff : List ℕ) (pattern : String)
    → Says (warning_for diff pattern) (warn_unless_empty diff pattern)
warn_unless_empty-Says [] pattern = skip-Says
warn_unless_empty-Says (g ∷ diff) pattern = λ messages. refl

union_is_bad_practice-Says :
    (fields : List Field) → Says (reports union_report fields) (union_is_bad_practice fields)
unfolding union_is_bad_practice
union_is_bad_practice-Says fields =
    for_each-Says union_report fields _
      λ f. if-Says (has_bar f) _ [] (say info union_is_bad) skip (λ ms. refl) skip-Says

group_is_not_consumed-Says :
    (fields : List Field)
    → Says
        (reports (unconsumed_report (consumed_groups fields)) (groups_of fields []))
        (group_is_not_consumed fields)
unfolding group_is_not_consumed
group_is_not_consumed-Says fields =
    for_each-Says (unconsumed_report (consumed_groups fields)) (groups_of fields []) _
      λ (pattern, groups).
        warn_unless_empty-Says (difference groups (consumed_groups fields)) pattern

multiple_extractors_matched-Says :
    (fields : List Field) (keys : List String)
    → Says (multiple_report fields keys) (multiple_extractors_matched fields (mapping keys))
unfolding multiple_extractors_matched len_results
multiple_extractors_matched-Says fields keys =
    if-Says (ltb (length keys) 2 || ltb (length fields) 2) [] _ skip
      (say info (multiple_matched (names_in fields keys))) skip-Says (λ ms. refl)

multi_groups_matched-Says :
    (fields : List Field) (keys : List String)
    → Says (reports (matched_report keys) fields) (multi_groups_matched fields (mapping keys))
unfolding multi_groups_matched len_results
multi_groups_matched-Says fields keys = for_each-Says (matched_report keys) fields _ λ f.
    if-Says (multi_group f) _ [] (λ ms. when_matched (mapping keys) f (length keys) ms) skip
      (if-Says (ltb 0 (length keys)) _ [] (say info (multi_group_matched keys f.name)) skip
        (λ ms. refl) skip-Says)
      skip-Says

multi_groups_not_matched-Says :
    (fields : List Field) (keys : List String)
    → Says (reports (unmatched_report keys) fields) (multi_groups_not_matched fields (mapping keys))
unfolding multi_groups_not_matched len_results
multi_groups_not_matched-Says fields keys = for_each-Says (unmatched_report keys) fields _ λ f.
    if-Says (multi_group f) _ [] (λ ms. when_not_matched (mapping keys) f (length keys) ms) skip
      (if-Says (length keys == 0) _ [] (say error (multi_group_not_matched keys f.name)) skip
        (λ ms. refl) skip-Says)
      skip-Says

-- Where the parse returns a dictionary, the analysis ends normally and reports exactly this, in this
-- order: the fields with a `|`, the patterns with a group that no field takes, that several fields
-- matched, and for each field with several groups whether anything matched.
pub analyze_returned :
    (fields : List Field) (keys : List String) (messages : List DiagnosticInfo)
    → analyze fields (returned (mapping keys)) messages
      ≡ (done tt, messages ++ all_reports fields keys)
unfolding analyze checks did_not_match_or_failed too_few_matches
analyze_returned fields keys =
    >>-Says _ _ (union_is_bad_practice fields) _ (union_is_bad_practice-Says fields) (
      >>-Says _ _ (group_is_not_consumed fields) _ (group_is_not_consumed-Says fields) (
        >>-Says [] _ skip _ skip-Says (
          >>-Says _ _ (multiple_extractors_matched fields (mapping keys)) _
            (multiple_extractors_matched-Says fields keys)
            (>>-Says [] _ skip _ skip-Says (
              >>-Says _ _ (multi_groups_matched fields (mapping keys))
                (multi_groups_not_matched fields (mapping keys))
                (multi_groups_matched-Says fields keys)
                (multi_groups_not_matched-Says fields keys))))))

-- But what RExtractorRunner.parse returns is an ExtractionResult, which has no length: the analysis
-- then always raises TypeError.
pub analyze_extraction :
    (fields : List Field) (messages : List DiagnosticInfo)
    → (analyze fields (returned extraction) messages).0 ≡ raised type_error
unfolding analyze checks did_not_match_or_failed multiple_extractors_matched len_results
analyze_extraction fields messages =
    ap (λ (out : Outcome Unit × List DiagnosticInfo). out.0)
      (>>-done (union_is_bad_practice fields) _ (union_is_bad_practice-Says fields messages)
        ∙ >>-done (group_is_not_consumed fields) _ (group_is_not_consumed-Says fields _))
