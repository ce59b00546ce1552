-- ===== src/Output/Logger/Accounting.antt =====
-- Where the lines stand that a WorkerLogger is given.
use mathlib.Core.List.{append-nil, append_assoc, flatten}
use taskweave.Base.{
  ℕ, ◌+◌, ◌<◌, leb, String, Bool, true, false, if◌then◌else◌, List, [], ◌∷◌, ◌++◌, length,
  length-append, put_file, AllFull, AllFull-snoc, AllKept, AllKept-snoc, flatten-snoc, Outcome,
  done, Stmt, for_each, >>-done, >>=-done, ◌>>◌, skip, give, ◌≡◌, refl, sym, ap, subst, ◌∙◌,
  Bool-cases, inl, inr, arith,
}
use taskweave.Output.Logger.{
  Category, event, progress, summary, WorkerLogger, init, push_progress, push_summary, classify,
  push_as, push,
}
use taskweave.Output.Logger.Runs.{slot, slot_ne, open_event_file-run, push_event-run, after}

abbrev is_of : Category → Category → Bool
is_of event event = true
is_of progress progress = true
is_of summary summary = true
is_of _ _ = false

module _ (is_event : String → Bool) where
  -- The lines of a category.
  abbrev pub lines_of : Category → List String → List String
  lines_of c [] = []
  lines_of c (line ∷ lines) =
      let rest = lines_of c lines in
      if is_of c (classify is_event line).0 then line ∷ rest else rest

  -- A logger that these lines were pushed to: what stands where. The batches are full, what is
  -- buffered is not, and each of the last `max_files` batches is in the event log of its number.
  pub record Records (lines : List String) (l : WorkerLogger) : Type 0 where
    pub batches : List (List String)
    pub whole : flatten batches ++ l.event_buffer ≡ lines_of event lines
    pub full : AllFull l.max_lines batches
    pub short : length l.event_buffer < l.max_lines
    pub count : l.event_count ≡ length l.event_buffer
    pub index : l.file_index ≡ length batches
    pub kept : AllKept l.max_files (slot l.max_files) l.events 0 batches
    pub summaries : l.summary_file ≡ lines_of summary lines
    pub progresses : l.progress_buffer ≡ lines_of progress lines
    pub unwritten : l.progress_file ≡ []
    pub still_open : (l.summary_open ≡ true) × (l.progress_open ≡ true)

  lines_of-append :
      (c : Category) (lines : List String) (line : String)
      → lines_of c (lines ++ line ∷ [])
        ≡ lines_of c lines ++ (if is_of c (classify is_event line).0 then line ∷ [] else [])
  lines_of-append c [] line = ground arith
  lines_of-append c (x ∷ lines) line = ground (arith, lines_of-append c lines line)

  lines_with :
      (c : Category) (lines : List String) (line : String) (d : Category)
      → (classify is_event line).0 ≡ d
      → lines_of c (lines ++ line ∷ []) ≡ lines_of c lines ++ (if is_of c d then line ∷ [] else [])
  lines_with c lines line d e =
      lines_of-append c lines line
      ∙ ap (λ d. lines_of c lines ++ (if is_of c d then line ∷ [] else [])) e

  push-run :
      (line : String) (l : WorkerLogger)
      → 0 < l.max_files
      → l.summary_open ≡ true
      → push is_event line l
        ≡ (done ((classify is_event line).1), after (classify is_event line).0 l line)
  unfolding push push_progress push_summary
  push-run line l h opened =
      >>=-done (push_as ((classify is_event line).0) line) (λ _. give ((classify is_event line).1))
        (by_category (classify is_event line).0)
    where
      by_category : (c : Category) → push_as c line l ≡ (done tt, after c l line)
      by_category event = push_event-run line l h
      by_category progress = refl
      by_category summary = rw opened refl

  after-Records :
      (lines : List String) (l : WorkerLogger) (line : String) (c : Category)
      → (classify is_event line).0 ≡ c
      → 0 < l.max_files
      → Records lines l
      → Records (lines ++ line ∷ []) (after c l line)
  after-Records lines l line event e h r =
      let longer = length-append l.event_buffer (line ∷ []) in
      let more = lines_with event lines line event e in
      let same_summary =
        lines_with summary lines line event e ∙ append-nil (lines_of summary lines) in
      let same_progress =
        lines_with progress lines line event e ∙ append-nil (lines_of progress lines) in
      let one_more = length-append r.batches ((l.event_buffer ++ line ∷ []) ∷ []) in
      let here : slot l.max_files (length r.batches + 0) ≡ slot l.max_files l.file_index =
        ap (slot l.max_files) (omega (arith, r.index)) in
      elim (Bool-cases (leb l.max_lines (l.event_count + 1))) [
        | inl now ↦ rw now (record {
          batches = r.batches ++ (l.event_buffer ++ line ∷ []) ∷ [];
          whole = simp (append-nil, flatten-snoc, ← append_assoc, r.whole, more);
          full =
              AllFull-snoc l.max_lines r.batches (l.event_buffer ++ line ∷ []) r.full
                (ground (arith, longer, r.short, r.count));
          short = ground (arith, r.short);
          count = refl;
          index = omega (arith, one_more, r.index);
          kept =
              subst
                (λ i.
                  AllKept l.max_files (slot l.max_files)
                    (put_file l.events i (l.event_buffer ++ line ∷ [])) 0
                    (r.batches ++ (l.event_buffer ++ line ∷ []) ∷ []))
                here
                (AllKept-snoc l.max_files (slot l.max_files) (slot_ne l.max_files) h l.events
                  (l.event_buffer ++ line ∷ []) 0 r.batches r.kept);
          summaries = r.summaries ∙ sym same_summary;
          progresses = r.progresses ∙ sym same_progress;
          unwritten = r.unwritten;
          still_open = r.still_open;
        })
        | inr later ↦ rw later (record {
          batches = r.batches;
          whole = simp (← append_assoc, r.whole, more);
          full = r.full;
          short = ground (arith, longer, r.count);
          count = omega (arith, longer, r.count);
          index = r.index;
          kept = r.kept;
          summaries = r.summaries ∙ sym same_summary;
          progresses = r.progresses ∙ sym same_progress;
          unwritten = r.unwritten;
          still_open = r.still_open;
        })
      ]
  after-Records lines l line progress e h r = record {
    batches = r.batches;
    whole =
        r.whole ∙ sym (lines_with event lines line progress e ∙ append-nil (lines_of event lines));
    full = r.full;
    short = r.short;
    count = r.count;
    index = r.index;
    kept = r.kept;
    summaries =
        r.summaries
        ∙ sym (lines_with summary lines line progress e ∙ append-nil (lines_of summary lines));
    progresses =
        ap (λ b. b ++ line ∷ []) r.progresses ∙ sym (lines_with progress lines line progress e);
    unwritten = r.unwritten;
    still_open = r.still_open;
  }
  after-Records lines l line summary e h r = record {
    batches = r.batches;
    whole =
        r.whole ∙ sym (lines_with event lines line summary e ∙ append-nil (lines_of event lines));
    full = r.full;
    short = r.short;
    count = r.count;
    index = r.index;
    kept = r.kept;
    summaries =
        ap (λ b. b ++ line ∷ []) r.summaries ∙ sym (lines_with summary lines line summary e);
    progresses =
        r.progresses
        ∙ sym (lines_with progress lines line summary e ∙ append-nil (lines_of progress lines));
    unwritten = r.unwritten;
    still_open = r.still_open;
  }

  -- The lines are pushed one after the other.
  abbrev pub push_each : List String → Stmt WorkerLogger Unit
  push_each lines = for_each lines (λ line. push is_event line >> skip)

  after-max_files :
      (c : Category) (l : WorkerLogger) (line : String) → (after c l line).max_files ≡ l.max_files
  after-max_files event l line = ground arith
  after-max_files progress l line = refl
  after-max_files summary l line = refl

  abbrev pub Pushed : List String → Outcome Unit × WorkerLogger → Type 0
  Pushed lines out = (out.0 ≡ done tt) × Records lines out.1 × (0 < out.1.max_files)

  pub push_each-Pushed :
      (seen lines : List String) (l : WorkerLogger)
      → 0 < l.max_files
      → Records seen l
      → Pushed (seen ++ lines) (push_each lines l)
  push_each-Pushed seen [] l h r = (refl, rw (append-nil seen) r, h)
  push_each-Pushed seen (line ∷ lines) l h r =
      let c = (classify is_event line).0 in
      let l' = after c l line in
      let pushed = >>-done (push is_event line) skip (push-run line l h (r.still_open.0)) in
      let rest =
        push_each-Pushed (seen ++ line ∷ []) lines l' (rw (after-max_files c l line) h)
          (after-Records seen l line c refl h r) in
      subst (Pushed (seen ++ line ∷ lines))
        (sym (>>-done (λ l. (push is_event line >> skip) l) (push_each lines) pushed))
        (rw (append_assoc seen (line ∷ []) lines) at rest)

  pub init-Pushed :
      (max_lines max_files : ℕ) (l : WorkerLogger)
      → 0 < max_lines
      → 0 < max_files
      → Pushed [] (init max_lines max_files l)
  unfolding init flatten
  init-Pushed max_lines max_files l a h =
      let l1 : WorkerLogger = record {
        max_lines = max_lines;
        max_files = max_files;
        event_buffer = [];
        progress_buffer = [];
        event_count = 0;
        file_index = 0;
        event_handle = l.event_handle;
        summary_open = true;
        progress_open = true;
        summary_file = [];
        progress_file = [];
        events = l.events;
      } in
      subst (Pushed []) (sym (open_event_file-run l1 h)) (
        refl,
        record {
          batches = [];
          whole = refl;
          full = tt;
          short = a;
          count = refl;
          index = refl;
          kept = tt;
          summaries = refl;
          progresses = refl;
          unwritten = refl;
          still_open = (refl, refl);
        },
        h,
      )
